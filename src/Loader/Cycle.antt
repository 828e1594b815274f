-- ===== src/Loader/Cycle.antt =====
-- A cycle of dependencies in _load_class, src/server_adaptor/ClassHandler.cc.
use ceph_global_cache_adapto.Prelude.{
  ℕ, zero, suc, ◌≡◌, true, false, none, some, [], ◌∷◌, arith, refl, ◌∙◌, ap,
}
use ceph_global_cache_adapto.Prelude.Text.{Text, text_eq_iff}
use ceph_global_cache_adapto.Loader.Types.{Classes, Env, class_at, get_class, is_open, set_insert}
use ceph_global_cache_adapto.Loader.Methods.{change}
use ceph_global_cache_adapto.Loader.Load.{
  load_class, prepare, open_library, opened, add_dependencies, add_dependency, needs_library,
  resolve, file_name, with_handle, depend,
}
use ceph_global_cache_adapto.Loader.View.{class_at-get_class, class_at-insert}

-- Nothing but perhaps the class itself is missing, and its library is still to be opened.
abbrev pub IsLonely : Env → Text → Classes → Type 0
IsLonely env n cs =
    (needs_library (class_at env n cs).status ≡ true)
    × (set_insert env.before n (class_at env n cs).missing_dependencies ≡ n ∷ [])

module _ (env : Env) (n : Text) (h : ℕ) where
  opened_self :
      (cs : Classes)
      → env.class_deps h ≡ n ∷ []
      → IsLonely env n cs
      → ((class_at env n (opened env n h cs)).status ≡ (class_at env n cs).status)
        × ((class_at env n (opened env n h cs)).missing_dependencies ≡ n ∷ [])
  unfolding opened add_dependencies add_dependency change
  opened_self cs e (a, b) =
      let cs1 = change env n (with_handle h) cs in
      let cs2 = (get_class env n false cs1).1 in
      rw (e, add_dependencies)
        (ground (
          arith,
          a,
          b,
          text_eq_iff n n,
          class_at-insert env n n (with_handle h (class_at env n cs)) cs,
          class_at-get_class env n n false cs1,
          class_at-insert env n n
              (depend env n (is_open (class_at env n cs2).status) (class_at env n cs2)) cs2,
        ))

  -- A class whose library declares the class itself as its dependency: _load_class recurses
  -- without end, whatever the fuel. Nothing else is missing.
  pub self_dependency_never_ends :
      (fuel : ℕ) (cs : Classes)
      → env.dlopen (file_name env n) ≡ some h
      → env.class_deps h ≡ n ∷ []
      → IsLonely env n cs
      → load_class env fuel n cs ≡ none
  unfolding load_class prepare open_library resolve set_insert
  self_dependency_never_ends zero cs d e l = refl
  self_dependency_never_ends (suc fuel) cs d e (a, b) =
      let (s, m) = opened_self cs e (a, b) in
      ground (
        arith,
        a,
        d,
        m,
        self_dependency_never_ends fuel (opened env n h cs) d e
            (ap needs_library s ∙ a, ground (arith, m, text_eq_iff n n)),
      )
