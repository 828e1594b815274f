-- ===== src/Loader/Load.antt =====
-- _load_class of src/server_adaptor/ClassHandler.cc. The recursion over dependencies is on fuel,
-- and `none` means that it ran out.
use ceph_global_cache_adapto.Prelude.{
  ℕ, zero, suc, Bool, true, false, Option, none, some, List, [], ◌∷◌, ◌++◌, if◌then◌else◌, ℤ, neg,
  eio, is_neg, ok_code, keep, not,
}
use ceph_global_cache_adapto.Prelude.Text.{Text, codes, text_eq, text_key}
use ceph_global_cache_adapto.Loader.Types.{
  Status, class_unknown, class_missing, class_missing_deps, class_initializing, class_open, is_open,
  ClassData, Classes, Env, class_at, get_class, set_insert, Call,
}
use ceph_global_cache_adapto.Loader.Methods.{change, perform}

-- The file of a class
unfoldable pub file_name : Env → Text → Text
file_name env cname = env.class_path ++ (codes "/libcls_" ++ (cname ++ codes ".so"))

abbrev pub with_status : Status → ClassData → ClassData
with_status s c = record c { status = s }

unfoldable pub set_status : Env → Text → Status → Classes → Classes
unfolding change
set_status env n s cs = change env n (with_status s) cs

-- One entry of the dependencies that a class declares
abbrev pub depend : Env → Text → Bool → ClassData → ClassData
depend env d opened c = record c {
  dependencies = set_insert env.before d c.dependencies;
  missing_dependencies =
      if opened then c.missing_dependencies else set_insert env.before d c.missing_dependencies;
}

unfoldable pub add_dependency : Env → Text → Text → Classes → Classes
unfolding get_class change
add_dependency env n d cs =
    let cs' = (get_class env d false cs).1 in
    change env n (depend env d (is_open (class_at env d cs').status)) cs'

unfoldable pub add_dependencies : Env → Text → List Text → Classes → Classes
add_dependencies env n [] cs = cs
add_dependencies env n (d ∷ ds) cs = add_dependencies env n ds (add_dependency env n d cs)

-- The library that dlopen gave, with the dependencies that it declares
abbrev pub with_handle : ℕ → ClassData → ClassData
with_handle h c = record c { handle = some h }

unfoldable pub opened : Env → Text → ℕ → Classes → Classes
unfolding change
opened env n h cs = add_dependencies env n (env.class_deps h) (change env n (with_handle h) cs)

abbrev pub stat_code : Option ℕ → ℤ
stat_code none = neg eio
stat_code (some e) = neg e

abbrev pub without_handle : ClassData → ClassData
without_handle c = record c { handle = none }

-- dlopen gave a null pointer.
unfoldable pub unopened : Env → Text → Classes → Classes
unfolding set_status change
unopened env n cs = set_status env n class_missing (change env n without_handle cs)

-- The opening of the library of a class that has none: `some` is a code that is returned at once.
unfoldable pub open_library : Env → Text → Classes → Option ℤ × Classes
unfolding file_name unopened opened
open_library env n cs = elim (env.dlopen (file_name env n)) [
  | none ↦ (some (stat_code (env.stat (file_name env n))), unopened env n cs)
  | some h ↦ (none, opened env n h cs)
]

abbrev pub needs_library : Status → Bool
needs_library class_unknown = true
needs_library class_missing = true
needs_library _ = false

unfoldable pub prepare : Env → Text → Classes → Option ℤ × Classes
unfolding open_library
prepare env n cs =
    if needs_library (class_at env n cs).status then open_library env n cs else (none, cs)

abbrev pub without : Text → ClassData → ClassData
without d c = record c {
  missing_dependencies = keep (λ x. not (text_eq x d)) c.missing_dependencies;
}

-- missing_dependencies.erase
unfoldable pub satisfied : Env → Text → Text → Classes → Classes
unfolding change
satisfied env n d cs = change env n (without d) cs

-- The loop over the missing dependencies. Nothing is inserted in their set while they load, unless
-- one of them depends on this class: then the recursion has no end.
unfoldable pub resolve :
    Env
    → (Text → Classes → Option (ℤ × Classes))
    → Text
    → List Text
    → Classes
    → Option (ℤ × Classes)
unfolding set_status satisfied
resolve env load n [] cs = some (ok_code, cs)
resolve env load n (d ∷ ds) cs = elim (load d cs) [
  | none ↦ none
  | some (r, cs') ↦
      if is_neg r
      then some (r, set_status env n class_missing_deps cs')
      else resolve env load n ds (satisfied env n d cs')
]

unfoldable pub perform_all : Env → List Call → Classes → Classes
unfolding perform
perform_all env [] cs = cs
perform_all env (c ∷ calls) cs = perform_all env calls (perform env c cs)

unfoldable pub initialize : Env → Text → Classes → Classes
unfolding set_status
initialize env n cs = elim (env.cls_init (class_at env n cs).handle) [
  | none ↦ set_status env n class_open cs
  | some calls ↦
      set_status env n class_open (perform_all env calls (set_status env n class_initializing cs))
]

abbrev pub initialized : Env → Text → Option (ℤ × Classes) → Option (ℤ × Classes)
initialized env n none = none
initialized env n (some (r, cs)) =
    if is_neg r then some (r, cs) else some (ok_code, initialize env n cs)

abbrev pub resolved :
    Env → (Text → Classes → Option (ℤ × Classes)) → Text → Option ℤ × Classes → Option (ℤ × Classes)
resolved env load n (some r, cs) = some (r, cs)
resolved env load n (none, cs) =
    initialized env n (resolve env load n (class_at env n cs).missing_dependencies cs)

unfoldable pub load_class : Env → ℕ → Text → Classes → Option (ℤ × Classes)
unfolding prepare resolve initialize
load_class env zero n cs = none
load_class env (suc fuel) n cs =
    let below = load_class env fuel in
    if is_open (class_at env n cs).status
    then some (ok_code, cs)
    else resolved env below n (prepare env n cs)
