-- ===== src/Loader/Opening.antt =====
-- What the calls of src/server_adaptor/ClassHandler.cc promise when dependencies have no cycle.
use ceph_global_cache_adapto.Prelude.{
  ℕ, ◌≡◌, ◌<◌, Bool, true, false, some, List, [], ◌∷◌, ◌||◌, arith, refl, not, subst, inl, inr,
  Bool-cases, Option-cases, ℤ, is_neg, neg, eperm,
}
use ceph_global_cache_adapto.Prelude.Text.{Text}
use ceph_global_cache_adapto.Prelude.Dict.{find}
use ceph_global_cache_adapto.Loader.Types.{
  class_initializing, Classes, Env, class_at, get_class, elem, new_class,
}
use ceph_global_cache_adapto.Loader.Load.{set_status}
use ceph_global_cache_adapto.Loader.View.{core, class_at-get_class}
use ceph_global_cache_adapto.Loader.Settled.{
  Settled, opens, Kept-refl, Kept-trans, Kept-same, Settled-same, Ranked,
}
use ceph_global_cache_adapto.Loader.Steps.{set_status-Shut}
use ceph_global_cache_adapto.Loader.Loading.{Loaded, load_class-Loaded}
use ceph_global_cache_adapto.Loader.Handler.{
  stops, is_unknown, loaded, open_class, open_entries, open_all_classes, add_embedded_class,
  shutdown, Directory, entries, unreadable, Request, opens_class, opens_all, embeds, shuts, serve,
  serve_all, class_of_file,
}

module _ (env : Env) (rank : Text → ℕ) where
  pub Settled-empty : Settled env rank []
  unfolding class_at new_class elem find
  Settled-empty = record {
    cleared = λ n o. refl;
    accounted = λ n d e. absurd (ground arith);
    ranked = λ n d e. absurd (ground arith);
  }

  -- Every class on which an open class depends is open too.
  pub dependencies-opens :
      (cs : Classes) (n d : Text)
      → Settled env rank cs
      → opens env rank n cs ≡ true
      → elem d (class_at env n cs).dependencies ≡ true
      → opens env rank d cs ≡ true
  unfolding elem
  dependencies-opens cs n d s o e = ground (arith, s.cleared n o, s.accounted n d e)

module _ (env : Env) (rank : Text → ℕ) (lawful : Ranked env rank) (fuel : ℕ) where
  -- open_class, for the outcome of _get_class
  loaded-Loaded :
      (n : Text) (found : Bool) (cs : Classes)
      → rank n < fuel
      → Settled env rank cs
      → (r : ℤ) × (cs' : Classes) × (loaded env fuel n (found, cs) ≡ some (r, cs'))
        × Loaded env rank lawful n cs r cs'
  loaded-Loaded n true cs l s = load_class-Loaded env rank lawful fuel n cs l s
  loaded-Loaded n false cs l s = (
    neg eperm,
    cs,
    refl,
    record { settled = s; kept = Kept-refl env rank (rank n) cs; success = λ h. absurd (cc) },
  )

  open_class-Loaded :
      (n : Text) (cs : Classes)
      → rank n < fuel
      → Settled env rank cs
      → (r : ℤ) × (cs' : Classes) × (open_class env fuel n cs ≡ some (r, cs'))
        × Loaded env rank lawful n cs r cs'
  unfolding open_class
  open_class-Loaded n cs l s =
      let found = get_class env n true cs in
      let same : (m : Text) → core env m found.1 ≡ core env m cs =
        λ m. rw (class_at-get_class env n m true cs) refl in
      let (r, cs', e, done) =
        loaded-Loaded n found.0 found.1 l (Settled-same env rank cs found.1 same s) in
      (
        r,
        cs',
        e,
        record {
          settled = done.settled;
          kept =
              Kept-trans env rank (rank n) (rank n) cs found.1 cs' (omega arith)
                (Kept-same env rank (rank n) cs found.1 same) done.kept;
          success = done.success;
        },
      )

  -- open_class ends when the fuel is above the rank of the class, which has a rank above each of
  -- its dependencies. It keeps the invariant, shuts no class m, and fails or leaves the class open.
  pub open_class-opens :
      (n m : Text) (cs : Classes)
      → rank n < fuel
      → Settled env rank cs
      → (r : ℤ) × (cs' : Classes) × (open_class env fuel n cs ≡ some (r, cs'))
        × Settled env rank cs'
        × ((not (opens env rank m cs) || opens env rank m cs') ≡ true)
        × ((is_neg r || opens env rank n cs') ≡ true)
  open_class-opens n m cs l s =
      let (r, cs', e, done) = open_class-Loaded n cs l s in
      (
        r,
        cs',
        e,
        done.settled,
        ground (arith, done.kept.still_open m),
        ground (arith, done.success),
      )

  open_entries-Settled :
      (ds : List Text) (r : ℤ) (cs : Classes)
      → ((n : Text) → rank n < fuel)
      → Settled env rank cs
      → (r' : ℤ) × (cs' : Classes) × (open_entries env fuel ds r cs ≡ some (r', cs'))
        × Settled env rank cs'
  unfolding open_entries
  open_entries-Settled [] r cs l s = (r, cs, refl, s)
  open_entries-Settled (d ∷ ds) r cs l s = elim (Option-cases (class_of_file d)) [
    | inl e ↦ rw (e, open_entries) (open_entries-Settled ds r cs l s)
    | inr (n, e) ↦
        let (r1, cs1, f, done) = open_class-Loaded n cs (l n) s in
        let (r2, cs2, g, s2) = open_entries-Settled ds r1 cs1 l done.settled in
        elim (Bool-cases (stops r1)) [
          | inl k ↦ (r1, cs1, ground (arith, e, f, k), done.settled)
          | inr k ↦ (r2, cs2, ground (arith, e, f, k, g), s2)
        ]
  ]

  -- open_all_classes ends and keeps the invariant when the fuel is above every rank.
  pub open_all_classes-Settled :
      (dir : Directory) (cs : Classes)
      → ((n : Text) → rank n < fuel)
      → Settled env rank cs
      → (r : ℤ) × (cs' : Classes) × (open_all_classes env fuel dir cs ≡ some (r, cs'))
        × Settled env rank cs'
  unfolding open_all_classes
  open_all_classes-Settled (entries ds) cs l s = open_entries-Settled ds _ cs l s
  open_all_classes-Settled (unreadable errno) cs l s = (neg errno, cs, refl, s)

  add_embedded_class-Settled :
      (n : Text) (cs cs' : Classes)
      → Settled env rank cs
      → add_embedded_class env n cs ≡ some cs'
      → Settled env rank cs'
  unfolding add_embedded_class
  add_embedded_class-Settled n cs cs' s e =
      let made = (get_class env n false cs).1 in
      let same : (m : Text) → core env m made ≡ core env m cs =
        λ m. rw (class_at-get_class env n m false cs) refl in
      let one = Settled-same env rank cs made same s in
      elim (Bool-cases (is_unknown (class_at env n made).status)) [
        | inl k ↦
            let done : set_status env n class_initializing made ≡ cs' = ground (arith, e, k) in
            let shut : opens env rank n made ≡ false = ground (arith, k) in
            subst (λ x. Settled env rank x) done
              (set_status-Shut env rank n made one class_initializing refl shut).settled
        | inr k ↦ absurd (ground (arith, e, k))
      ]

  serve-Settled :
      (q : Request) (cs cs' : Classes)
      → ((n : Text) → rank n < fuel)
      → Settled env rank cs
      → serve env fuel q cs ≡ some cs'
      → Settled env rank cs'
  unfolding serve shutdown
  serve-Settled (opens_class n) cs cs' l s e =
      let (r, cs1, f, done) = open_class-Loaded n cs (l n) s in
      let g : cs1 ≡ cs' = ground (arith, e, f) in subst (λ x. Settled env rank x) g done.settled
  serve-Settled (opens_all dir) cs cs' l s e =
      let (r, cs1, f, s1) = open_all_classes-Settled dir cs l s in
      let g : cs1 ≡ cs' = ground (arith, e, f) in subst (λ x. Settled env rank x) g s1
  serve-Settled (embeds n) cs cs' l s e = add_embedded_class-Settled n cs cs' s e
  serve-Settled shuts cs cs' l s e =
      let g : [] ≡ cs' = ground (arith, e) in
      subst (λ x. Settled env rank x) g (Settled-empty env rank)

  serve_all-Settled :
      (qs : List Request) (cs cs' : Classes)
      → ((n : Text) → rank n < fuel)
      → Settled env rank cs
      → serve_all env fuel qs cs ≡ some cs'
      → Settled env rank cs'
  unfolding serve_all
  serve_all-Settled [] cs cs' l s e =
      let g : cs ≡ cs' = ground (arith, e) in subst (λ x. Settled env rank x) g s
  serve_all-Settled (q ∷ qs) cs cs' l s e = elim (Option-cases (serve env fuel q cs)) [
    | inl f ↦ absurd (ground (arith, e, f))
    | inr (cs1, f) ↦
        serve_all-Settled qs cs1 cs' l (serve-Settled q cs cs1 l s f) (ground (arith, e, f))
  ]

  -- Whatever calls the handler has served, every class on which an open class depends is open. The
  -- dependencies have no cycle, and the fuel is above every rank.
  pub open_needs_dependencies :
      (qs : List Request) (cs : Classes) (n d : Text)
      → ((m : Text) → rank m < fuel)
      → serve_all env fuel qs [] ≡ some cs
      → opens env rank n cs ≡ true
      → elem d (class_at env n cs).dependencies ≡ true
      → opens env rank d cs ≡ true
  open_needs_dependencies qs cs n d l e o k =
      dependencies-opens env rank cs n d (serve_all-Settled qs [] cs l (Settled-empty env rank) e) o
        k
