-- ===== src/Loader/Steps.antt =====
-- Each step of _load_class, src/server_adaptor/ClassHandler.cc, keeps what Loader.Settled states.
use ceph_global_cache_adapto.Prelude.{ℕ, ◌≡◌, ◌<◌, true, false, List, [], ◌∷◌, arith, refl}
use ceph_global_cache_adapto.Prelude.Text.{Text, text_key, text_eq_iff}
use ceph_global_cache_adapto.Loader.Types.{
  Status, class_open, Classes, Env, class_at, get_class, elem, is_open,
}
use ceph_global_cache_adapto.Loader.Methods.{change}
use ceph_global_cache_adapto.Loader.Load.{
  set_status, with_status, add_dependency, add_dependencies, depend, with_handle, satisfied,
  without,
}
use ceph_global_cache_adapto.Loader.View.{
  core, core-insert, class_at-get_class, elem-set_insert, elem-keep, change-core,
}
use ceph_global_cache_adapto.Loader.Settled.{
  Settled, Kept, opens, Kept-trans, Kept-same, Settled-same, insert-Kept, insert-Settled,
}

module _ (env : Env) (rank : Text → ℕ) where
  -- A step on a class that is not open and does not become so
  pub record Shut (n : Text) (cs cs' : Classes) : Type 0 where
    pub settled : Settled env rank cs'
    pub kept : Kept env rank (rank n) cs cs'
    pub shut : opens env rank n cs' ≡ false

  pub Shut-trans : (n : Text) (a b c : Classes) → Shut n a b → Shut n b c → Shut n a c
  Shut-trans n a b c p q = record {
    settled = q.settled;
    kept = Kept-trans env rank (rank n) (rank n) a b c (omega arith) p.kept q.kept;
    shut = q.shut;
  }

  pub Shut-same :
      (n : Text) (cs cs' : Classes)
      → ((m : Text) → core env m cs' ≡ core env m cs)
      → Settled env rank cs
      → opens env rank n cs ≡ false
      → Shut n cs cs'
  Shut-same n cs cs' h s o = record {
    settled = Settled-same env rank cs cs' h s;
    kept = Kept-same env rank (rank n) cs cs' h;
    shut = ground (arith, h n, o);
  }

  module _ (n : Text) (cs : Classes) (s : Settled env rank cs) where
    pub set_status-Shut :
        (st : Status)
        → is_open st ≡ false
        → opens env rank n cs ≡ false
        → Shut n cs (set_status env n st cs)
    unfolding set_status change
    set_status-Shut st h o =
        let c = with_status st (class_at env n cs) in
        record {
          settled =
              insert-Settled env rank n c cs s (λ e. cc) (λ e. absurd (cc)) (s.accounted n)
                (s.ranked n);
          kept = insert-Kept env rank n c cs (λ e. cc);
          shut = ground (arith, core-insert env n n c cs, text_eq_iff n n);
        }

    pub with_handle-Shut :
        (h : ℕ) → opens env rank n cs ≡ false → Shut n cs (change env n (with_handle h) cs)
    with_handle-Shut h o = Shut-same n cs _ (λ m. change-core env n m (with_handle h) cs refl) s o

    -- The class becomes open when it misses nothing.
    pub set_open-Settled :
        (class_at env n cs).missing_dependencies ≡ []
        → Settled env rank (set_status env n class_open cs)
    unfolding set_status change elem
    set_open-Settled e =
        insert-Settled env rank n (with_status class_open (class_at env n cs)) cs s (λ o. refl)
          (λ o. e) (s.accounted n) (s.ranked n)

    pub set_open-Kept : Kept env rank (rank n) cs (set_status env n class_open cs)
    unfolding set_status change
    set_open-Kept =
        insert-Kept env rank n (with_status class_open (class_at env n cs)) cs (λ o. refl)

    pub satisfied-Shut :
        (d : Text)
        → opens env rank n cs ≡ false
        → opens env rank d cs ≡ true
        → Shut n cs (satisfied env n d cs)
    unfolding satisfied change
    satisfied-Shut d o od =
        let c = without d (class_at env n cs) in
        let mem = λ (x : Text). elem-keep x d (class_at env n cs).missing_dependencies in
        record {
          settled =
              insert-Settled env rank n c cs s (λ e. cc) (λ e. absurd (cc))
                (λ x e. ground (arith, mem x, s.accounted n x, text_eq_iff x d, od))
                (λ x e. ground (arith, mem x, s.ranked n x));
          kept = insert-Kept env rank n c cs (λ e. cc);
          shut = ground (arith, core-insert env n n c cs, text_eq_iff n n);
        }

    depend-Shut :
        (d : Text)
        → opens env rank n cs ≡ false
        → rank d < rank n
        → Shut n cs (change env n (depend env d (opens env rank d cs)) cs)
    unfolding change
    depend-Shut d o l =
        let old = class_at env n cs in
        let c = depend env d (opens env rank d cs) old in
        let dep = λ (x : Text). elem-set_insert env.before x d old.dependencies in
        let mem = λ (x : Text). elem-set_insert env.before x d old.missing_dependencies in
        record {
          settled =
              insert-Settled env rank n c cs s (λ e. cc) (λ e. absurd (cc))
                (λ x e. ground (arith, dep x, mem x, s.accounted n x, text_eq_iff d x))
                (λ x e. ground (arith, mem x, s.ranked n x, text_eq_iff d x));
          kept = insert-Kept env rank n c cs (λ e. cc);
          shut = ground (arith, core-insert env n n c cs, text_eq_iff n n);
        }

module _ (env : Env) (rank : Text → ℕ) (n : Text) where
  add_dependency-Shut :
      (d : Text) (cs : Classes)
      → Settled env rank cs
      → opens env rank n cs ≡ false
      → rank d < rank n
      → Shut env rank n cs (add_dependency env n d cs)
  unfolding add_dependency
  add_dependency-Shut d cs s o l =
      let cs' = (get_class env d false cs).1 in
      let made =
        Shut-same env rank n cs cs' (λ m. rw (class_at-get_class env d m false cs) refl) s o in
      Shut-trans env rank n cs cs' _ made (depend-Shut env rank n cs' made.settled d made.shut l)

  pub add_dependencies-Shut :
      (ds : List Text) (cs : Classes)
      → Settled env rank cs
      → opens env rank n cs ≡ false
      → ((d : Text) → elem d ds ≡ true → rank d < rank n)
      → Shut env rank n cs (add_dependencies env n ds cs)
  unfolding add_dependencies elem
  add_dependencies-Shut [] cs s o h = Shut-same env rank n cs cs (λ m. refl) s o
  add_dependencies-Shut (d ∷ ds) cs s o h =
      let one = add_dependency-Shut d cs s o (h d (ground (arith, text_eq_iff d d))) in
      Shut-trans env rank n cs (add_dependency env n d cs) _ one (
        add_dependencies-Shut ds (add_dependency env n d cs) one.settled one.shut
          (λ x e. h x (ground (arith, e))))
