-- ===== src/Throttle/Atomic.antt =====
-- What the compare-and-swap loops of src/server_adaptor/network_module.cpp do, whatever the other
-- threads do meanwhile.
use ceph_global_cache_adapto.Prelude.{
  ℕ, zero, suc, ◌+◌, ◌≤◌, ◌≡◌, refl, some, List, [], ◌∷◌, ◌++◌, append_assoc, arith, ◌==◌, length,
  ◌⊎◌, Bool-cases, inl, inr, sym,
}
use ceph_global_cache_adapto.Throttle.Cell.{
  Cell, settle, settle_from, fetch, compare_and_swap, cas_update, rounds, after,
}

pub after-append : (p q : List (ℕ → ℕ)) (v : ℕ) → after (p ++ q) v ≡ after q (after p v)
unfolding after
after-append [] q v = refl
after-append (g ∷ p) q v = after-append p q _

-- `d` is the counter `c` after some of the moves that the others had still to make, in order.
pub record Later (c d : Cell) : Type 0 where
  pub moves : List (ℕ → ℕ)
  pub split : c.others ≡ moves ++ d.others
  pub value : d.value ≡ after moves c.value

pub Later-trans : {c d e : Cell} → Later c d → Later d e → Later c e
Later-trans {c} {d} {e} p q = record {
  moves = p.moves ++ q.moves;
  split = rw (p.split, q.split) (sym (append_assoc p.moves q.moves e.others));
  value = rw (q.value, p.value) (sym (after-append p.moves q.moves c.value));
}

settle_from-Later :
    (v : ℕ) (gs : List (ℕ → ℕ)) → Later (record { value = v; others = gs }) (settle_from v gs)
unfolding settle_from after
settle_from-Later v [] = record { moves = []; split = refl; value = refl }
settle_from-Later v (g ∷ gs) = record { moves = g ∷ []; split = refl; value = refl }

pub settle-Later : (c : Cell) → Later c (settle c)
unfolding settle
settle-Later c = settle_from-Later c.value c.others

pub fetch-Later : (c : Cell) → Later c (fetch c).1
unfolding fetch
fetch-Later c = settle-Later c

-- Each access uses up the schedule.
length-settle_from :
    (v : ℕ) (gs : List (ℕ → ℕ))
    → (length (settle_from v gs).others ≤ length gs)
      × (((settle_from v gs).value ≡ v) ⊎ (length (settle_from v gs).others + 1 ≤ length gs))
unfolding settle_from
length-settle_from v [] = (omega arith, inl refl)
length-settle_from v (g ∷ gs) = (omega arith, inr (omega arith))

pub length-settle :
    (c : Cell)
    → (length (settle c).others ≤ length c.others)
      × (((settle c).value ≡ c.value) ⊎ (length (settle c).others + 1 ≤ length c.others))
unfolding settle
length-settle c = length-settle_from c.value c.others

-- A loop that returns has replaced, at one point of the schedule, the value of the counter at that
-- point by its update: nothing that the others do is lost.
pub record Updated (f : ℕ → ℕ) (c : Cell) (old : ℕ) (d : Cell) : Type 0 where
  pub at : Cell
  pub reached : Later c at
  pub seen : old ≡ at.value
  pub written : d ≡ record at { value = f at.value }

pub cas_update-Updated :
    (fuel : ℕ) (f : ℕ → ℕ) (old w : ℕ) (c d : Cell)
    → cas_update fuel f old c ≡ some (w, d)
    → Updated f c w d
unfolding cas_update compare_and_swap fetch
cas_update-Updated zero f old w c d h = cc
cas_update-Updated (suc fuel) f old w c d h = elim (Bool-cases ((settle c).value == old)) [
  | inl e ↦ record {
    at = settle c;
    reached = settle-Later c;
    seen = ground arith;
    written = ground arith;
  }
  | inr e ↦
      let again : Updated f (settle (settle c)) w d =
        cas_update-Updated fuel f (settle (settle c)).value w (settle (settle c)) d
          (ground arith) in
      record {
        at = again.at;
        reached =
            Later-trans (Later-trans (settle-Later c) (settle-Later (settle c))) again.reached;
        seen = again.seen;
        written = again.written;
      }
]

-- The loop returns within `rounds` rounds: a failed swap means that another thread moved.
cas_update-returns :
    (fuel : ℕ) (f : ℕ → ℕ) (old : ℕ) (c : Cell)
    → ((old ≡ c.value) × (length c.others + 1 ≤ fuel)) ⊎ (length c.others + 2 ≤ fuel)
    → (w : ℕ) × (d : Cell) × (cas_update fuel f old c ≡ some (w, d))
unfolding cas_update compare_and_swap fetch
cas_update-returns zero f old c h = absurd (ground arith)
cas_update-returns (suc fuel) f old c h = elim (Bool-cases ((settle c).value == old)) [
  | inl e ↦ (old, record (settle c) { value = f old }, ground arith)
  | inr e ↦
      let (w, d, r) =
        cas_update-returns fuel f (settle (settle c)).value (settle (settle c))
          (inl (refl, ground (arith, length-settle c, length-settle (settle c)))) in
      (w, d, ground (arith, r))
]

pub cas_update_total :
    (f : ℕ → ℕ) (old : ℕ) (c : Cell)
    → (w : ℕ) × (d : Cell) × (cas_update (rounds c) f old c ≡ some (w, d))
cas_update_total f old c = cas_update-returns (rounds c) f old c (inr (omega arith))
