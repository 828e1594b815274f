-- ===== src/Loader/Types.antt =====
-- src/server_adaptor/ClassHandler.h: classes, their methods and filters; and what the loader asks
-- of the system.
use ceph_global_cache_adapto.Prelude.{
  ℕ, Bool, true, false, Option, none, some, List, [], ◌∷◌, ◌||◌, ◌&&◌, if◌then◌else◌,
}
use ceph_global_cache_adapto.Prelude.Dict.{Dict, find, insert}
use ceph_global_cache_adapto.Prelude.Text.{Text, codes, text_eq, text_key, tokens, is_space}

pub data Status : Type 0 where
  class_unknown class_missing class_missing_deps class_initializing class_open : Status

abbrev pub is_open : Status → Bool
is_open class_open = true
is_open _ = false

abbrev pub is_initializing : Status → Bool
is_initializing class_initializing = true
is_initializing _ = false

-- A function of a class is its address; `none` is a null pointer.
pub record ClassMethod : Type 0 where
  pub name : Text
  pub flags : ℕ
  pub func : Option ℕ
  pub cxx_func : Option ℕ

pub record ClassFilter : Type 0 where
  pub name : Text
  pub fn : Option ℕ

-- Another class is its name, which is its key in the map of classes.
pub record ClassData : Type 0 where
  pub status : Status
  pub name : Text
  pub handle : Option ℕ
  pub whitelisted : Bool
  pub methods_map : Dict Text ClassMethod
  pub filters_map : Dict Text ClassFilter
  pub dependencies : List Text
  pub missing_dependencies : List Text

abbrev pub Classes : Type 0
Classes = Dict Text ClassData

-- The calls by which a class registers itself when it is initialized
pub data Call : Type 0 where
  c_method : Text → Text → ℕ → ℕ → Call
  cxx_method : Text → Text → ℕ → ℕ → Call
  cxx_filter : Text → Text → ℕ → Call
  drop_method : Text → Text → Call
  drop_filter : Text → Text → Call

-- The dynamic linker and the file system; the two lists of Ceph's configuration; and the order of
-- the addresses of the classes, by which a set of them is sorted. `stat` gives `none`, or errno.
pub record Env : Type 0 where
  pub class_path : Text
  pub dlopen : Text → Option ℕ
  pub stat : Text → Option ℕ
  pub class_deps : ℕ → List Text
  pub cls_init : Option ℕ → Option (List Call)
  pub class_load_list : Text
  pub class_default_list : Text
  pub before : Text → Text → Bool

-- std::find of a name
unfoldable pub elem : Text → List Text → Bool
elem a [] = false
elem a (x ∷ xs) = text_eq x a || elem a xs

-- in_class_list: the name or "*" is a word of the list.
unfoldable pub in_class_list : Text → Text → Bool
in_class_list cname list =
    elem cname (tokens is_space list) || elem (codes "*") (tokens is_space list)

-- set<ClassData *>::insert
unfoldable pub set_insert : (Text → Text → Bool) → Text → List Text → List Text
set_insert before a [] = a ∷ []
set_insert before a (x ∷ xs) =
    let rest = set_insert before a xs in
    if text_eq x a then x ∷ xs else if before a x then a ∷ x ∷ xs else x ∷ rest

-- A new entry of the map of classes, as _get_class fills it in
unfoldable pub new_class : Env → Text → ClassData
new_class env cname = record {
  status = class_unknown;
  name = cname;
  handle = none;
  whitelisted = in_class_list cname env.class_default_list;
  methods_map = [];
  filters_map = [];
  dependencies = [];
  missing_dependencies = [];
}

-- What stands in the map under a name, or would stand there
unfoldable pub class_at : Env → Text → Classes → ClassData
class_at env n cs = elim (find n cs) [ none ↦ new_class env n | some c ↦ c ]

abbrev pub status_of : Env → Text → Classes → Status
status_of env n cs = (class_at env n cs).status

-- _get_class: whether there is such a class, which it creates if need be.
unfoldable pub get_class : Env → Text → Bool → Classes → Bool × Classes
get_class env cname check_allowed cs = elim (find cname cs) [
  | some c ↦ (true, cs)
  | none ↦
      let allowed = in_class_list cname env.class_load_list in
      if check_allowed && (if allowed then false else true)
      then (false, cs)
      else (true, insert cname (new_class env cname) cs)
]
