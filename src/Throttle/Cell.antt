-- ===== src/Throttle/Cell.antt =====
-- src/server_adaptor/network_module.cpp: the shared counters (lwtCount, lwtWriteCount,
-- lwtReadCount, writeBW, readBW) as one thread sees them. `others` is the schedule: what the
-- other threads do to the counter before each of this thread's accesses. When the schedule is
-- over, the other threads are quiet.
use ceph_global_cache_adapto.Prelude.{
  ℕ, zero, suc, Bool, true, false, Option, none, some, List, [], ◌∷◌, ◌==◌, if◌then◌else◌, length,
}
use ceph_global_cache_adapto.Prelude.Word.{u64}

pub record Cell : Type 0 where
  pub value : ℕ
  pub others : List (ℕ → ℕ)

-- The next thing that the others do happens.
unfoldable pub settle_from : ℕ → List (ℕ → ℕ) → Cell
settle_from v [] = record { value = v; others = [] }
settle_from v (g ∷ gs) = record { value = u64 (g v); others = gs }

unfoldable pub settle : Cell → Cell
unfolding settle_from
settle c = settle_from c.value c.others

-- A read of the volatile counter.
unfoldable pub fetch : Cell → ℕ × Cell
unfolding settle
fetch c = let c' = settle c in (c'.value, c')

-- __sync_bool_compare_and_swap(&counter, old, new)
unfoldable pub compare_and_swap : Cell → ℕ → ℕ → Bool × Cell
unfolding settle
compare_and_swap c old new =
    let c' = settle c in if c'.value == old then (true, record c' { value = new }) else (false, c')

-- while (!CAS(&counter, old, update(old))) { old = counter; }
-- The result is the value that the swap replaced and the counter after it; `none`: out of fuel.
unfoldable pub cas_update : ℕ → (ℕ → ℕ) → ℕ → Cell → Option (ℕ × Cell)
unfolding compare_and_swap fetch
cas_update zero f old c = none
cas_update (suc fuel) f old c =
    let (done, c') = compare_and_swap c old (f old) in
    let (v, c'') = fetch c' in
    let rest = cas_update fuel f v c'' in if done then some (old, c') else rest

-- while (!CAS(&counter, old, update(old))) { if (stop(counter)) return; old = counter; }
-- `true`: the swap was made; `false`: the early return.
unfoldable pub cas_update_unless : ℕ → (ℕ → Bool) → (ℕ → ℕ) → ℕ → Cell → Option (Bool × Cell)
unfolding compare_and_swap fetch
cas_update_unless zero stop f old c = none
cas_update_unless (suc fuel) stop f old c =
    let (done, c1) = compare_and_swap c old (f old) in
    let (seen, c2) = fetch c1 in
    let (v, c3) = fetch c2 in
    let rest = cas_update_unless fuel stop f v c3 in
    if done then some (true, c1) else if stop seen then some (false, c2) else rest

-- Enough rounds for either loop: each failed swap uses up an entry of the schedule.
abbrev pub rounds : Cell → ℕ
rounds c = suc (suc (length c.others))

-- The value after the others have made these moves.
unfoldable pub after : List (ℕ → ℕ) → ℕ → ℕ
after [] v = v
after (g ∷ gs) v = after gs (u64 (g v))
