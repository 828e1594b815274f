-- ===== src/Examples/Loading.antt =====
-- The loading of classes, src/server_adaptor/ClassHandler.cc, over concrete libraries.
use ceph_global_cache_adapto.Prelude.{
  ℕ, ◌+◌, ◌<◌, ◌≡◌, refl, true, Option, none, some, [], ◌∷◌, ◌++◌, length, ◌||◌, not, arith, List,
  ℤ, ◌==◌, if◌then◌else◌, length-append, is_neg,
}
use ceph_global_cache_adapto.Prelude.Text.{Text, codes, text_eq_iff, tokens}
use ceph_global_cache_adapto.Prelude.Dict.{find, insert}
use ceph_global_cache_adapto.Loader.Types.{
  new_class, in_class_list, set_insert, Env, Classes, Call, cxx_method, elem, class_at,
}
use ceph_global_cache_adapto.Loader.Methods.{register_cxx_method}
use ceph_global_cache_adapto.Loader.Load.{
  perform_all, add_dependencies, add_dependency, file_name, load_class,
}
use ceph_global_cache_adapto.Cls.Ordered.{text_lt}
use ceph_global_cache_adapto.Loader.Settled.{Ranked, Settled, opens}
use ceph_global_cache_adapto.Loader.Handler.{open_class, Request, opens_class, embeds, serve_all}
use ceph_global_cache_adapto.Loader.Opening.{
  Settled-empty, open_class-opens, open_needs_dependencies,
}
use ceph_global_cache_adapto.Loader.Cycle.{self_dependency_never_ends, IsLonely}

-- The handle of a library is the length of its name: those with names of three letters depend on
-- "lock".
abbrev handle_of : Text → Option ℕ
handle_of f = some (length f)

abbrev deps_of : ℕ → List Text
deps_of h = if h == 14 then codes "lock" ∷ [] else []

abbrev registers : Option ℕ → Option (List Call)
registers h = some (cxx_method (codes "rgw") (codes "list") 3 77 ∷ [])

abbrev libraries : Env
libraries = record {
  class_path = [];
  dlopen = handle_of;
  stat = λ f. none;
  class_deps = deps_of;
  cls_init = registers;
  class_load_list = codes "rgw lock";
  class_default_list = codes "*";
  before = text_lt;
}

abbrev rank : Text → ℕ
rank n = if length n == 3 then 1 else 0

length-file_name : (n : Text) → length (file_name libraries n) ≡ length n + 11
unfolding file_name
length-file_name n =
    omega
      (arith, length-append (codes "/libcls_") (n ++ codes ".so"), length-append n (codes ".so"))

declared_lem :
    (n d : Text) (h : ℕ)
    → handle_of (file_name libraries n) ≡ some h
    → elem d (deps_of h) ≡ true
    → rank d < rank n
unfolding elem
declared_lem n d h e i = ground (arith, length-file_name n, e, i, text_eq_iff (codes "lock") d)

libraries-Ranked : Ranked libraries rank
libraries-Ranked = record { errno_positive = λ f e h. absurd (cc); declared = declared_lem }

rank-lt : (n : Text) → rank n < 2
rank-lt n = ground arith

open_class-opens_example :
    (r : ℤ) × (cs' : Classes) × (open_class libraries 2 (codes "rgw") [] ≡ some (r, cs'))
    × Settled libraries rank cs'
    × ((not (opens libraries rank (codes "lock") []) || opens libraries rank (codes "lock") cs')
        ≡ true)
    × ((is_neg r || opens libraries rank (codes "rgw") cs') ≡ true)
open_class-opens_example =
    open_class-opens libraries rank libraries-Ranked 2 (codes "rgw") (codes "lock") [] (omega arith)
      (Settled-empty libraries rank)

abbrev requests : List Request
requests = embeds (codes "log") ∷ opens_class (codes "rgw") ∷ []

abbrev or_none : Option Classes → Classes
or_none none = []
or_none (some cs) = cs

abbrev served : Classes
served = or_none (serve_all libraries 2 requests [])

serves : serve_all libraries 2 requests [] ≡ some served
unfolding serve_all class_at find insert new_class in_class_list elem tokens load_class
    add_dependencies add_dependency set_insert
serves = refl

rgw_opens : opens libraries rank (codes "rgw") served ≡ true
unfolding serve_all class_at find insert new_class in_class_list elem tokens load_class
    add_dependencies add_dependency set_insert perform_all register_cxx_method
rgw_opens = refl

rgw_depends : elem (codes "lock") (class_at libraries (codes "rgw") served).dependencies ≡ true
unfolding serve_all class_at find insert new_class in_class_list elem tokens load_class
    add_dependencies add_dependency set_insert perform_all register_cxx_method
rgw_depends = refl

open_needs_dependencies_example : opens libraries rank (codes "lock") served ≡ true
open_needs_dependencies_example =
    open_needs_dependencies libraries rank libraries-Ranked 2 requests served (codes "rgw")
      (codes "lock") rank-lt serves rgw_opens rgw_depends

-- A library that depends on itself
abbrev knot : Env
knot = record (libraries) { class_deps = λ h. codes "rgw" ∷ [] }

lonely_lem : IsLonely knot (codes "rgw") []
unfolding class_at find new_class set_insert
lonely_lem = (refl, refl)

self_dependency_never_ends_example : load_class knot 1000 (codes "rgw") [] ≡ none
unfolding file_name
self_dependency_never_ends_example =
    self_dependency_never_ends knot (codes "rgw") 14 1000 [] refl refl lonely_lem
