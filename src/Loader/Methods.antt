-- ===== src/Loader/Methods.antt =====
-- src/server_adaptor/ClassHandler.cc: the tables of methods and filters of a class; and
-- cls_register and its like of src/server_adaptor/class_api.cc.
use ceph_global_cache_adapto.Prelude.{
  ℕ, ◌%◌, Bool, true, false, Option, none, some, [], if◌then◌else◌, ◌==◌, ℤ, pos, neg, einval,
  enoent,
}
use ceph_global_cache_adapto.Prelude.Dict.{find, insert, erase}
use ceph_global_cache_adapto.Prelude.Text.{Text, text_key}
use ceph_global_cache_adapto.Loader.Types.{
  ClassMethod, ClassFilter, ClassData, Classes, Env, class_at, get_class, is_initializing, Call,
  c_method, cxx_method, cxx_filter, drop_method, drop_filter,
}

-- methods_map[mname]
unfoldable pub method_entry : Text → ClassData → ClassMethod
method_entry mname c = elim (find mname c.methods_map) [
  | some m ↦ m
  | none ↦ record { name = []; flags = 0; func = none; cxx_func = none }
]

-- ClassData::register_method; false for a null result.
unfoldable pub register_method : Text → ℕ → ℕ → ClassData → Bool × ClassData
register_method mname flags func c = if flags == 0 then (false, c) else (
  true,
  record c {
    methods_map =
        insert mname
          (record (method_entry mname c) { func = some func; name = mname; flags = flags })
          c.methods_map;
  },
)

unfoldable pub register_cxx_method : Text → ℕ → ℕ → ClassData → ClassData
register_cxx_method mname flags func c = record c {
  methods_map =
      insert mname
        (record (method_entry mname c) { cxx_func = some func; name = mname; flags = flags })
        c.methods_map;
}

unfoldable pub register_cxx_filter : Text → ℕ → ClassData → ClassData
register_cxx_filter filter_name fn c = record c {
  filters_map = insert filter_name (record { name = filter_name; fn = some fn }) c.filters_map;
}

unfoldable pub get_method : Text → ClassData → Option ClassMethod
get_method mname c = find mname c.methods_map

unfoldable pub get_filter : Text → ClassData → Option ClassFilter
get_filter filter_name c = find filter_name c.filters_map

unfoldable pub get_method_flags : Text → ClassData → ℤ
unfolding get_method
get_method_flags mname c = elim (get_method mname c) [ none ↦ neg enoent | some m ↦ pos m.flags ]

unfoldable pub unregister_method : Text → ClassData → ClassData
unregister_method mname c = elim (find mname c.methods_map) [
  | none ↦ c
  | some m ↦ record c { methods_map = erase mname c.methods_map }
]

unfoldable pub unregister_filter : Text → ClassData → ClassData
unregister_filter filter_name c = elim (find filter_name c.filters_map) [
  | none ↦ c
  | some m ↦ record c { filters_map = erase filter_name c.filters_map }
]

-- ClassHandler::register_class; false for a null result.
unfoldable pub register_class : Env → Text → Classes → Bool × Classes
register_class env cname cs =
    let (found, cs') = get_class env cname false cs in
    (is_initializing (class_at env cname cs').status, cs')

-- The class under a name is changed.
unfoldable pub change : Env → Text → (ClassData → ClassData) → Classes → Classes
change env cname f cs = insert cname (f (class_at env cname cs)) cs

-- cls_register_method: a method neither reads nor writes without a flag, and is refused.
unfoldable pub cls_register_method : Env → Text → Text → ℕ → ℕ → Classes → ℤ × Classes
cls_register_method env cname mname flags func cs =
    if flags % 4 == 0
    then (neg einval, cs)
    else let (made, c) = register_method mname flags func (class_at env cname cs) in
      (if made then pos 1 else pos 0, insert cname c cs)

-- cls_register_cxx_method
unfoldable pub cls_register_cxx_method : Env → Text → Text → ℕ → ℕ → Classes → ℤ × Classes
cls_register_cxx_method env cname mname flags func cs =
    (pos 1, change env cname (register_cxx_method mname flags func) cs)

-- A step that follows a cls_register; it uses no handle that was refused.
unfoldable pub registered : Env → Text → (Classes → Classes) → Classes → Classes
unfolding register_class
registered env cname f cs = let (ok, cs') = register_class env cname cs in if ok then f cs' else cs'

-- One call of a class that is initialized
unfoldable pub perform : Env → Call → Classes → Classes
unfolding registered cls_register_method cls_register_cxx_method change
perform env (c_method cname mname flags func) cs =
    registered env cname (λ cs'. (cls_register_method env cname mname flags func cs').1) cs
perform env (cxx_method cname mname flags func) cs =
    registered env cname (λ cs'. (cls_register_cxx_method env cname mname flags func cs').1) cs
perform env (cxx_filter cname filter_name fn) cs =
    registered env cname (change env cname (register_cxx_filter filter_name fn)) cs
perform env (drop_method cname mname) cs =
    registered env cname (change env cname (unregister_method mname)) cs
perform env (drop_filter cname filter_name) cs =
    registered env cname (change env cname (unregister_filter filter_name)) cs
