-- ===== src/Loader/Loading.antt =====
-- _load_class of src/server_adaptor/ClassHandler.cc ends when dependencies have no cycle, and what
-- holds of the classes afterwards.
use ceph_global_cache_adapto.Loader.Load.{
  without_handle, unopened, perform_all, set_status, with_status, with_handle, opened, satisfied,
  without, initialize, file_name, prepare, resolve, load_class, open_library, needs_library,
  stat_code,
}
use ceph_global_cache_adapto.Prelude.{
  ℕ, zero, suc, ◌≡◌, ◌<◌, true, false, Option, none, some, List, [], ◌∷◌, ◌&&◌, arith, not, refl,
  inl, inr, Bool-cases, Option-cases, ℤ, is_neg, ok_code,
}
use ceph_global_cache_adapto.Prelude.Text.{Text, text_eq, text_key, text_eq_iff}
use ceph_global_cache_adapto.Loader.Types.{
  Status, class_missing, class_missing_deps, class_initializing, class_open, Classes, Env, class_at,
  elem,
}
use ceph_global_cache_adapto.Loader.Methods.{change}
use ceph_global_cache_adapto.Loader.View.{
  core-insert, perform_all-core, elem-keep, none_elem, change-core,
}
use ceph_global_cache_adapto.Loader.Settled.{Settled, Kept, opens, Kept-refl, Kept-trans, Ranked}
use ceph_global_cache_adapto.Loader.Steps.{
  Shut, Shut-trans, Shut-same, set_status-Shut, with_handle-Shut, set_open-Settled, set_open-Kept,
  satisfied-Shut, add_dependencies-Shut,
}

stat_code-neg :
    (o : Option ℕ) (r : ℤ)
    → ((e : ℕ) → o ≡ some e → 0 < e)
    → some (stat_code o) ≡ some r
    → is_neg r ≡ true
stat_code-neg none r h e = ground arith
stat_code-neg (some n) r h e = ground (arith, h n)

satisfied-mem :
    (env : Env) (x n d : Text) (cs : Classes)
    → elem x (class_at env n (satisfied env n d cs)).missing_dependencies
      ≡ (elem x (class_at env n cs).missing_dependencies && not (text_eq x d))
unfolding satisfied change
satisfied-mem env x n d cs = ground (
  arith,
  core-insert env n n (without d (class_at env n cs)) cs,
  text_eq_iff n n,
  elem-keep x d (class_at env n cs).missing_dependencies,
)

module _ (env : Env) (rank : Text → ℕ) (lawful : Ranked env rank) where
  -- What a load that ends with r does; only a class that is open is loaded with success.
  pub record Loaded (n : Text) (cs : Classes) (r : ℤ) (cs' : Classes) : Type 0 where
    pub settled : Settled env rank cs'
    pub kept : Kept env rank (rank n) cs cs'
    pub success : is_neg r ≡ false → opens env rank n cs' ≡ true

  module _ (n : Text) (cs : Classes) (s : Settled env rank cs)
      (o : opens env rank n cs ≡ false) where
    unopened-Shut : Shut env rank n cs (unopened env n cs)
    unfolding unopened
    unopened-Shut =
        let bare = change env n without_handle cs in
        let one =
          Shut-same env rank n cs bare (λ m. change-core env n m without_handle cs refl) s o in
        Shut-trans env rank n cs bare _ one
          (set_status-Shut env rank n bare one.settled class_missing refl one.shut)

    -- A code that the opening of the library returns is negative.
    prepare-Shut :
        Shut env rank n cs (prepare env n cs).1
        × ((r : ℤ) → (prepare env n cs).0 ≡ some r → is_neg r ≡ true)
    unfolding prepare open_library opened
    prepare-Shut = elim (Bool-cases (needs_library (class_at env n cs).status)) [
      | inr e ↦ rw e (Shut-same env rank n cs cs (λ m. refl) s o, λ r h. absurd (cc))
      | inl e ↦ elim (Option-cases (env.dlopen (file_name env n))) [
        | inl f ↦
            rw (e, f, open_library)
              (
                unopened-Shut,
                λ r h.
                    stat_code-neg (env.stat (file_name env n)) r
                      (lawful.errno_positive (file_name env n)) h,
              )
        | inr (h, f) ↦
            let one = with_handle-Shut env rank n cs s h o in
            rw (e, f, open_library)
              (
                Shut-trans env rank n cs (change env n (with_handle h) cs) _ one (
                    add_dependencies-Shut env rank n (env.class_deps h)
                      (change env n (with_handle h) cs) one.settled one.shut
                      (λ d i. lawful.declared n d h f i)),
                λ r k. absurd (cc),
              )
      ]
    ]

  -- The loop over the missing dependencies ends, and when it succeeds nothing is missing.
  record Resolved (n : Text) (cs : Classes) (res : Option (ℤ × Classes)) : Type 0 where
    code : ℤ
    after : Classes
    ends : res ≡ some (code, after)
    left : Shut env rank n cs after
    cleared : is_neg code ≡ false → (class_at env n after).missing_dependencies ≡ []

  module _ (n : Text) (load : Text → Classes → Option (ℤ × Classes))
      (loads : (d : Text) (cs : Classes)
        → rank d < rank n
        → Settled env rank cs
        → (r : ℤ) × (cs' : Classes) × (load d cs ≡ some (r, cs')) × Loaded d cs r cs') where
    resolve-Resolved :
        (ds : List Text) (cs : Classes)
        → Settled env rank cs
        → opens env rank n cs ≡ false
        → ((x : Text) → elem x ds ≡ true → rank x < rank n)
        → ((x : Text) → elem x (class_at env n cs).missing_dependencies ≡ true → elem x ds ≡ true)
        → Resolved n cs (resolve env load n ds cs)
    unfolding resolve elem
    resolve-Resolved [] cs s o low all = record {
      code = _;
      after = cs;
      ends = refl;
      left = Shut-same env rank n cs cs (λ m. refl) s o;
      cleared =
          λ h. none_elem (class_at env n cs).missing_dependencies (λ x. ground (arith, all x));
    }
    resolve-Resolved (d ∷ ds) cs s o low all =
        let l : rank d < rank n = low d (ground (arith, text_eq_iff d d)) in
        let (r, cs', e, done) = loads d cs l s in
        let one : Shut env rank n cs cs' = record {
          settled = done.settled;
          kept =
              Kept-trans env rank (rank d) (rank n) cs cs' cs' (omega arith) done.kept
                (Kept-refl env rank (rank n) cs');
          shut = ground (arith, done.kept.above n l, o);
        } in
        elim (Bool-cases (is_neg r)) [
          | inl f ↦ record {
            code = r;
            after = set_status env n class_missing_deps cs';
            ends = ground (arith, e, f);
            left =
                Shut-trans env rank n cs cs' _ one
                  (set_status-Shut env rank n cs' done.settled class_missing_deps refl one.shut);
            cleared = λ h. absurd (cc);
          }
          | inr f ↦
              let two = satisfied-Shut env rank n cs' done.settled d one.shut (done.success f) in
              let rest =
                resolve-Resolved ds (satisfied env n d cs') two.settled two.shut
                  (λ x i. low x (ground (arith, i)))
                  (λ x i. ground (
                    arith,
                    i,
                    all x,
                    done.kept.above n l,
                    satisfied-mem env x n d cs',
                    text_eq_iff d x,
                    text_eq_iff x d,
                  )) in
              record {
                code = rest.code;
                after = rest.after;
                ends = ground (arith, e, f, rest.ends);
                left =
                    Shut-trans env rank n cs cs' rest.after one
                      (Shut-trans env rank n cs' (satisfied env n d cs') rest.after two rest.left);
                cleared = rest.cleared;
              }
        ]

  opens-set_open :
      (n : Text) (cs : Classes) → opens env rank n (set_status env n class_open cs) ≡ true
  unfolding set_status change
  opens-set_open n cs =
      ground (
        arith,
        core-insert env n n (with_status class_open (class_at env n cs)) cs,
        text_eq_iff n n,
      )

  set_open-Loaded :
      (n : Text) (cs : Classes)
      → Settled env rank cs
      → (class_at env n cs).missing_dependencies ≡ []
      → Loaded n cs ok_code (set_status env n class_open cs)
  set_open-Loaded n cs s e = record {
    settled = set_open-Settled env rank n cs s e;
    kept = set_open-Kept env rank n cs s;
    success = λ h. opens-set_open n cs;
  }

  Loaded-after :
      (n : Text) (a b c : Classes) (r : ℤ) → Shut env rank n a b → Loaded n b r c → Loaded n a r c
  Loaded-after n a b c r p q = record {
    settled = q.settled;
    kept = Kept-trans env rank (rank n) (rank n) a b c (omega arith) p.kept q.kept;
    success = q.success;
  }

  set_status-missing :
      (n : Text) (st : Status) (cs : Classes)
      → (class_at env n (set_status env n st cs)).missing_dependencies
        ≡ (class_at env n cs).missing_dependencies
  unfolding set_status change
  set_status-missing n st cs =
      ground (arith, core-insert env n n (with_status st (class_at env n cs)) cs, text_eq_iff n n)

  initialize-Loaded :
      (n : Text) (cs : Classes)
      → Settled env rank cs
      → opens env rank n cs ≡ false
      → (class_at env n cs).missing_dependencies ≡ []
      → Loaded n cs ok_code (initialize env n cs)
  unfolding initialize
  initialize-Loaded n cs s o e = elim (Option-cases (env.cls_init (class_at env n cs).handle)) [
    | inl f ↦ rw (f, initialize) (set_open-Loaded n cs s e)
    | inr (calls, f) ↦
        let cs1 = set_status env n class_initializing cs in
        let cs2 = perform_all env calls cs1 in
        let one = set_status-Shut env rank n cs s class_initializing refl o in
        let two =
          Shut-same env rank n cs1 cs2 (λ m. perform_all-core env calls m cs1) one.settled
            one.shut in
        let none_left : (class_at env n cs2).missing_dependencies ≡ [] = ground (
          arith,
          perform_all-core env calls n cs1,
          set_status-missing n class_initializing cs,
          e,
        ) in
        rw (f, initialize)
          (Loaded-after n cs cs1 _ ok_code one
            (Loaded-after n cs1 cs2 _ ok_code two (set_open-Loaded n cs2 two.settled none_left)))
  ]

  -- With more fuel than the rank of the class, _load_class ends.
  pub load_class-Loaded :
      (fuel : ℕ) (n : Text) (cs : Classes)
      → rank n < fuel
      → Settled env rank cs
      → (r : ℤ) × (cs' : Classes) × (load_class env fuel n cs ≡ some (r, cs')) × Loaded n cs r cs'
  unfolding load_class
  load_class-Loaded zero n cs l s = absurd (omega arith)
  load_class-Loaded (suc fuel) n cs l s = elim (Bool-cases (opens env rank n cs)) [
    | inl o ↦ (
      ok_code,
      cs,
      ground (arith, o),
      record { settled = s; kept = Kept-refl env rank (rank n) cs; success = λ h. o },
    )
    | inr o ↦
        let (p, refused) = prepare-Shut n cs s o in
        let cs1 = (prepare env n cs).1 in
        elim (Option-cases (prepare env n cs).0) [
          | inr (r, e) ↦ (
            r,
            cs1,
            ground (arith, o, e),
            record {
              settled = p.settled;
              kept = p.kept;
              success = λ h. absurd (ground (arith, refused r e));
            },
          )
          | inl e ↦
              let res =
                resolve-Resolved n (load_class env fuel)
                  (λ d cs2 lower s2. load_class-Loaded fuel d cs2 (omega arith) s2)
                  (class_at env n cs1).missing_dependencies cs1 p.settled p.shut
                  (λ x i. p.settled.ranked n x i) (λ x i. i) in
              elim (Bool-cases (is_neg res.code)) [
                | inl f ↦ (
                  res.code,
                  res.after,
                  ground (arith, o, e, f, res.ends),
                  Loaded-after n cs cs1 res.after res.code p record {
                    settled = res.left.settled;
                    kept = res.left.kept;
                    success = λ h. absurd (cc);
                  },
                )
                | inr f ↦ (
                  ok_code,
                  initialize env n res.after,
                  ground (arith, o, e, f, res.ends),
                  Loaded-after n cs cs1 _ ok_code p (
                      Loaded-after n cs1 res.after _ ok_code res.left (
                        initialize-Loaded n res.after res.left.settled res.left.shut
                          (res.cleared f))),
                )
              ]
        ]
  ]
