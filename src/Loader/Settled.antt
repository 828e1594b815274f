-- ===== src/Loader/Settled.antt =====
-- What holds of the classes between two steps of _load_class, src/server_adaptor/ClassHandler.cc.
use ceph_global_cache_adapto.Prelude.{
  ℕ, ◌≡◌, ◌<◌, ◌≤◌, Bool, true, some, [], ◌||◌, arith, refl, ◌∙◌,
}
use ceph_global_cache_adapto.Prelude.Dict.{insert}
use ceph_global_cache_adapto.Prelude.Text.{Text, text_key, text_eq_iff}
use ceph_global_cache_adapto.Loader.Types.{ClassData, Classes, Env, class_at, elem, is_open}
use ceph_global_cache_adapto.Loader.Load.{file_name}
use ceph_global_cache_adapto.Loader.View.{core, core-insert}

-- The documented behaviour of stat, whose error numbers are positive; and libraries whose
-- dependencies have no cycle: each has a smaller rank than the class that declares it.
pub record Ranked (env : Env) (rank : Text → ℕ) : Type 0 where
  pub errno_positive : (f : Text) (e : ℕ) → env.stat f ≡ some e → 0 < e
  pub declared :
      (n d : Text) (h : ℕ)
      → env.dlopen (file_name env n) ≡ some h
      → elem d (env.class_deps h) ≡ true
      → rank d < rank n

module _ (env : Env) (rank : Text → ℕ) where
  abbrev pub opens : Text → Classes → Bool
  opens n cs = is_open (class_at env n cs).status

  -- An open class misses nothing; each dependency is open or missing; and what is missing has a
  -- smaller rank.
  pub record Settled (cs : Classes) : Type 0 where
    pub cleared : (n : Text) → opens n cs ≡ true → (class_at env n cs).missing_dependencies ≡ []
    pub accounted :
        (n d : Text)
        → elem d (class_at env n cs).dependencies ≡ true
        → (elem d (class_at env n cs).missing_dependencies || opens d cs) ≡ true
    pub ranked :
        (n d : Text) → elem d (class_at env n cs).missing_dependencies ≡ true → rank d < rank n

  -- What a step may change: no open class is shut, and a class of a rank above k stays as it is.
  pub record Kept (k : ℕ) (cs cs' : Classes) : Type 0 where
    pub still_open : (m : Text) → opens m cs ≡ true → opens m cs' ≡ true
    pub above : (m : Text) → k < rank m → core env m cs' ≡ core env m cs

  pub Kept-refl : (k : ℕ) (cs : Classes) → Kept k cs cs
  Kept-refl k cs = record { still_open = λ m h. h; above = λ m h. refl }

  pub Kept-trans : (j k : ℕ) (a b c : Classes) → j ≤ k → Kept j a b → Kept k b c → Kept k a c
  Kept-trans j k a b c h p q = record {
    still_open = λ m o. q.still_open m (p.still_open m o);
    above = λ m l. q.above m l ∙ p.above m (omega arith);
  }

  pub Kept-same :
      (k : ℕ) (cs cs' : Classes) → ((m : Text) → core env m cs' ≡ core env m cs) → Kept k cs cs'
  Kept-same k cs cs' h = record { still_open = λ m o. ground (arith, h m, o); above = λ m l. h m }

  pub Settled-same :
      (cs cs' : Classes) → ((m : Text) → core env m cs' ≡ core env m cs) → Settled cs → Settled cs'
  Settled-same cs cs' h s = record {
    cleared = λ n o. ground (arith, h n, s.cleared n, o);
    accounted = λ n d e. ground (arith, h n, h d, s.accounted n d, e);
    ranked = λ n d e. ground (arith, h n, s.ranked n d, e);
  }

  module _ (n : Text) (c : ClassData) (cs : Classes) where
    -- One class is replaced, and is not shut.
    pub insert-Kept :
        (opens n cs ≡ true → is_open c.status ≡ true) → Kept (rank n) cs (insert n c cs)
    insert-Kept h = record {
      still_open = λ m o. ground (arith, core-insert env n m c cs, text_eq_iff n m, h, o);
      above = λ m l. ground (arith, core-insert env n m c cs, text_eq_iff n m, l);
    }

    pub insert-Settled :
        Settled cs
        → (opens n cs ≡ true → is_open c.status ≡ true)
        → (is_open c.status ≡ true → c.missing_dependencies ≡ [])
        → ((d : Text)
            → elem d c.dependencies ≡ true
            → (elem d c.missing_dependencies || opens d cs) ≡ true)
        → ((d : Text) → elem d c.missing_dependencies ≡ true → rank d < rank n)
        → Settled (insert n c cs)
    insert-Settled s h a b r = record {
      cleared = λ m o. ground (arith, core-insert env n m c cs, text_eq_iff n m, a, o, s.cleared m);
      accounted = λ m d e. ground (
        arith,
        core-insert env n m c cs,
        core-insert env n d c cs,
        text_eq_iff n m,
        text_eq_iff n d,
        b d,
        h,
        e,
        s.accounted m d,
      );
      ranked =
          λ m d e. ground (arith, core-insert env n m c cs, text_eq_iff n m, r d, e, s.ranked m d);
    }
