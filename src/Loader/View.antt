-- ===== src/Loader/View.antt =====
-- What the operations of src/server_adaptor/ClassHandler.cc change of the class under each name.
use ceph_global_cache_adapto.Prelude.{
  ℕ, ◌≡◌, Bool, false, List, [], ◌∷◌, ◌||◌, ◌&&◌, if◌then◌else◌, arith, keep, not, refl, ◌∙◌,
}
use ceph_global_cache_adapto.Prelude.Dict.{insert, find-insert}
use ceph_global_cache_adapto.Prelude.Text.{Text, text_eq, text_key, text_eq_iff}
use ceph_global_cache_adapto.Loader.Types.{
  Status, ClassData, Classes, Env, new_class, class_at, get_class, set_insert, elem, Call, c_method,
  cxx_method, cxx_filter, drop_method, drop_filter,
}
use ceph_global_cache_adapto.Loader.Methods.{
  change, perform, register_class, unregister_method, unregister_filter, register_method,
  registered, cls_register_method, cls_register_cxx_method, register_cxx_method,
  register_cxx_filter,
}
use ceph_global_cache_adapto.Loader.Load.{perform_all}

module _ (env : Env) where
  pub class_at-insert :
      (n m : Text) (c : ClassData) (cs : Classes)
      → class_at env m (insert n c cs) ≡ (if text_eq n m then c else class_at env m cs)
  unfolding class_at
  class_at-insert n m c cs = ground (arith, find-insert n m c cs)

  -- Creating an entry is not seen.
  pub class_at-get_class :
      (n m : Text) (b : Bool) (cs : Classes)
      → class_at env m (get_class env n b cs).1 ≡ class_at env m cs
  unfolding get_class class_at
  class_at-get_class n m b cs =
      ground (arith, find-insert n m (new_class env n) cs, text_eq_iff n m)

  -- What decides the loading of a class
  abbrev pub core : Text → Classes → Status × List Text × List Text
  core m cs = (
    (class_at env m cs).status,
    (class_at env m cs).dependencies,
    (class_at env m cs).missing_dependencies,
  )

  pub core-insert :
      (n m : Text) (c : ClassData) (cs : Classes)
      → core m (insert n c cs)
        ≡ (if text_eq n m then (c.status, c.dependencies, c.missing_dependencies) else core m cs)
  core-insert n m c cs = ground (arith, class_at-insert n m c cs)

  abbrev pub core_of : ClassData → Status × List Text × List Text
  core_of c = (c.status, c.dependencies, c.missing_dependencies)

  -- A change of the methods and filters of a class is none of these three.
  pub change-core :
      (n m : Text) (f : ClassData → ClassData) (cs : Classes)
      → core_of (f (class_at env n cs)) ≡ core_of (class_at env n cs)
      → core m (change env n f cs) ≡ core m cs
  unfolding change
  change-core n m f cs s =
      ground (arith, core-insert n m (f (class_at env n cs)) cs, text_eq_iff n m)

  registered-core :
      (n m : Text) (f : Classes → Classes) (cs : Classes)
      → ((cs' : Classes) → core m (f cs') ≡ core m cs')
      → core m (registered env n f cs) ≡ core m cs
  unfolding registered register_class
  registered-core n m f cs h =
      ground (arith, h (get_class env n false cs).1, class_at-get_class n m false cs)

  method-core :
      (n k m : Text) (flags func : ℕ) (cs : Classes)
      → core m (cls_register_method env n k flags func cs).1 ≡ core m cs
  unfolding cls_register_method register_method
  method-core n k m flags func cs = ground (
    arith,
    core-insert n m (register_method k flags func (class_at env n cs)).1 cs,
    text_eq_iff n m,
  )

  pub perform-core :
      (call : Call) (m : Text) (cs : Classes) → core m (perform env call cs) ≡ core m cs
  unfolding perform cls_register_cxx_method register_cxx_method register_cxx_filter
      unregister_method unregister_filter
  perform-core (c_method n k flags func) m cs =
      registered-core n m _ cs (λ cs'. method-core n k m flags func cs')
  perform-core (cxx_method n k flags func) m cs =
      registered-core n m _ cs
        (λ cs'. change-core n m (register_cxx_method k flags func) cs' (ground arith))
  perform-core (cxx_filter n k func) m cs =
      registered-core n m _ cs
        (λ cs'. change-core n m (register_cxx_filter k func) cs' (ground arith))
  perform-core (drop_method n k) m cs =
      registered-core n m _ cs (λ cs'. change-core n m (unregister_method k) cs' (ground arith))
  perform-core (drop_filter n k) m cs =
      registered-core n m _ cs (λ cs'. change-core n m (unregister_filter k) cs' (ground arith))

  pub perform_all-core :
      (calls : List Call) (m : Text) (cs : Classes) → core m (perform_all env calls cs) ≡ core m cs
  unfolding perform_all
  perform_all-core [] m cs = refl
  perform_all-core (c ∷ calls) m cs =
      perform_all-core calls m (perform env c cs) ∙ perform-core c m cs

pub elem-set_insert :
    (before : Text → Text → Bool) (x a : Text) (xs : List Text)
    → elem x (set_insert before a xs) ≡ (text_eq a x || elem x xs)
unfolding elem set_insert
elem-set_insert before x a [] = refl
elem-set_insert before x a (y ∷ ys) =
    ground (arith, elem-set_insert before x a ys, text_eq_iff y a, text_eq_iff a x, text_eq_iff y x)

pub elem-keep :
    (x d : Text) (xs : List Text)
    → elem x (keep (λ y. not (text_eq y d)) xs) ≡ (elem x xs && not (text_eq x d))
unfolding elem keep
elem-keep x d [] = refl
elem-keep x d (y ∷ ys) =
    ground (arith, elem-keep x d ys, text_eq_iff y d, text_eq_iff y x, text_eq_iff x d)

pub none_elem : (xs : List Text) → ((x : Text) → elem x xs ≡ false) → xs ≡ []
unfolding elem
none_elem [] h = refl
none_elem (x ∷ xs) h = absurd (ground (arith, h x, text_eq_iff x x))
