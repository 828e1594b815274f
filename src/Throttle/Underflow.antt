-- ===== src/Throttle/Underflow.antt =====
-- The operations of src/server_adaptor/network_module.cpp that give back a share of a counter:
-- PutWritelwtCas, PutReadlwtCas, PutWriteBWCas, PutReadBWCas. They test the counter, and then read
-- it again for the swap.
use ceph_global_cache_adapto.Prelude.{
  ℕ, zero, suc, ◌+◌, ◌≤◌, ◌≡◌, refl, Bool, true, false, some, List, [], ◌∷◌, arith, ◌==◌, length,
  Bool-cases, ◌⊎◌, inl, inr,
}
use ceph_global_cache_adapto.Prelude.Word.{u64, sub64}
use ceph_global_cache_adapto.Throttle.Cell.{
  Cell, fetch, settle, settle_from, cas_update_unless, compare_and_swap, rounds,
}
use ceph_global_cache_adapto.Throttle.Atomic.{Later, Later-trans, settle-Later, length-settle}
use ceph_global_cache_adapto.Throttle.Ops.{put_counted_cas}

-- Every value that the counter takes along the schedule is at least n.
abbrev pub AtLeast : ℕ → ℕ → List (ℕ → ℕ) → Type 0
AtLeast n v [] = n ≤ v
AtLeast n v (g ∷ gs) = (n ≤ v) × AtLeast n (u64 (g v)) gs

AtLeast-head : (n v : ℕ) (gs : List (ℕ → ℕ)) → AtLeast n v gs → n ≤ v
AtLeast-head n v [] h = h
AtLeast-head n v (g ∷ gs) h = h.0

AtLeast-settle_from :
    (n v : ℕ) (gs : List (ℕ → ℕ))
    → AtLeast n v gs
    → AtLeast n (settle_from v gs).value (settle_from v gs).others
unfolding settle_from
AtLeast-settle_from n v [] h = h
AtLeast-settle_from n v (g ∷ gs) h = h.1

-- At one point of the schedule the counter held at least n, and was then updated.
pub record Wrote (n : ℕ) (f : ℕ → ℕ) (c d : Cell) : Type 0 where
  pub at : Cell
  pub reached : Later c at
  pub enough : n ≤ at.value
  pub written : d ≡ record at { value = f at.value }

cas_update_unless-Wrote :
    (fuel n : ℕ) (stop : ℕ → Bool) (f : ℕ → ℕ) (old : ℕ) (c : Cell)
    → ((v : ℕ) → n ≤ v → stop v ≡ false)
    → AtLeast n c.value c.others
    → ((old ≡ c.value) × (length c.others + 1 ≤ fuel)) ⊎ (length c.others + 2 ≤ fuel)
    → (d : Cell) × (cas_update_unless fuel stop f old c ≡ some (true, d)) × Wrote n f c d
unfolding cas_update_unless compare_and_swap fetch settle
cas_update_unless-Wrote zero n stop f old c go above h = absurd (ground arith)
cas_update_unless-Wrote (suc fuel) n stop f old c go above h =
    let c1 = settle c in
    let above1 : AtLeast n c1.value c1.others = AtLeast-settle_from n c.value c.others above in
    elim (Bool-cases (c1.value == old)) [
      | inl e ↦ (
        record c1 { value = f old },
        ground arith,
        record {
          at = c1;
          reached = settle-Later c;
          enough = AtLeast-head n c1.value c1.others above1;
          written = ground arith;
        },
      )
      | inr e ↦
          let c2 = settle c1 in
          let c3 = settle c2 in
          let above2 : AtLeast n c2.value c2.others =
            AtLeast-settle_from n c1.value c1.others above1 in
          let above3 : AtLeast n c3.value c3.others =
            AtLeast-settle_from n c2.value c2.others above2 in
          let (d, r, w) =
            cas_update_unless-Wrote fuel n stop f c3.value c3 go above3
              (inl (refl, ground (arith, length-settle c, length-settle c1, length-settle c2))) in
          (
            d,
            ground (arith, r, go c2.value (AtLeast-head n c2.value c2.others above2)),
            record {
              at = w.at;
              reached =
                  Later-trans
                    (Later-trans (Later-trans (settle-Later c) (settle-Later c1)) (settle-Later c2))
                    w.reached;
              enough = w.enough;
              written = w.written;
            },
          )
    ]

pub put_counted_cas-Wrote :
    (n : ℕ) (stop : ℕ → Bool) (c : Cell)
    → ((v : ℕ) → n ≤ v → stop v ≡ false)
    → AtLeast n c.value c.others
    → Wrote n (λ v. sub64 v n) c (put_counted_cas stop n c)
unfolding put_counted_cas fetch settle
put_counted_cas-Wrote n stop c go above =
    let c1 = settle c in
    let c2 = settle c1 in
    let above1 : AtLeast n c1.value c1.others = AtLeast-settle_from n c.value c.others above in
    let above2 : AtLeast n c2.value c2.others = AtLeast-settle_from n c1.value c1.others above1 in
    let (d, r, w) =
      cas_update_unless-Wrote (rounds c2) n stop (λ v. sub64 v n) c2.value c2 go above2
        (inr (omega arith)) in
    rw (go c1.value (AtLeast-head n c1.value c1.others above1), r, put_counted_cas)
      (record {
        at = w.at;
        reached = Later-trans (Later-trans (settle-Later c) (settle-Later c1)) w.reached;
        enough = w.enough;
        written = w.written;
      })
