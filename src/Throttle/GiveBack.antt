-- ===== src/Throttle/GiveBack.antt =====
-- When giving back is exact, and when it wraps (src/server_adaptor/network_module.cpp).
use ceph_global_cache_adapto.Prelude.{
  ℕ, ◌+◌, ◌-◌, ◌*◌, ◌≤◌, ◌<◌, ◌≡◌, refl, List, [], ◌∷◌, arith, ◌==◌, ltb, ltb-false, subst, sym,
}
use ceph_global_cache_adapto.Prelude.Word.{u64, u64_mod, sub64}
use ceph_global_cache_adapto.Throttle.Cell.{
  Cell, fetch, settle, settle_from, cas_update_unless, compare_and_swap, after,
}
use ceph_global_cache_adapto.Throttle.Atomic.{Later}
use ceph_global_cache_adapto.Throttle.Ops.{
  put_counted_cas, put_write_lwt_cas, put_read_lwt_cas, put_write_bw_cas, put_read_bw_cas,
  put_write_bw,
}
use ceph_global_cache_adapto.Throttle.Waiting.{quiet}
use ceph_global_cache_adapto.Throttle.Underflow.{AtLeast, Wrote, put_counted_cas-Wrote}

-- At one point of the schedule the counter went down by n, with no wrap-around.
pub record Lowered (n : ℕ) (c d : Cell) : Type 0 where
  pub at : Cell
  pub reached : Later c at
  pub others : d.others ≡ at.others
  pub exact : d.value + n ≡ at.value

after-lt : (gs : List (ℕ → ℕ)) (v : ℕ) → v < u64_mod → after gs v < u64_mod
unfolding after
after-lt [] v h = h
after-lt (g ∷ gs) v h = after-lt gs (u64 (g v)) (omega arith)

Wrote-Lowered :
    (n : ℕ) (c d : Cell) → c.value < u64_mod → Wrote n (λ v. sub64 v n) c d → Lowered n c d
Wrote-Lowered n c d h w =
    let lt : w.at.value < u64_mod =
      subst (λ x. x < u64_mod) (sym w.reached.value) (after-lt w.reached.moves c.value h) in
    record {
      at = w.at;
      reached = w.reached;
      others = ground (arith, w.written);
      exact = ground (arith, w.written, w.enough, lt);
    }

AtLeast-mono : (n v : ℕ) (gs : List (ℕ → ℕ)) → 0 < n → AtLeast n v gs → AtLeast 1 v gs
AtLeast-mono n v [] p h = omega arith
AtLeast-mono n v (g ∷ gs) p h = (omega arith, AtLeast-mono n (u64 (g v)) gs p h.1)

-- If the counter fits its 64 bits and holds at least the share n > 0 that is given back at every
-- point of the schedule, then each of the four operations takes exactly its share off at one
-- point, with no wrap-around: n, or 1 for the counters of requests.
pub give_back_exact :
    (n : ℕ) (c : Cell)
    → c.value < u64_mod
    → 0 < n
    → AtLeast n c.value c.others
    → Lowered n c (put_write_bw_cas n c)
      × Lowered n c (put_read_bw_cas n c)
      × Lowered 1 c (put_write_lwt_cas c)
      × Lowered 1 c (put_read_lwt_cas c)
unfolding put_write_bw_cas put_read_bw_cas put_write_lwt_cas put_read_lwt_cas
give_back_exact n c h p above = (bw, bw, lwt, lwt)
  where
    bw : Lowered n c (put_counted_cas (λ v. ltb v n) n c)
    bw =
        Wrote-Lowered n c _ h
          (put_counted_cas-Wrote n (λ v. ltb v n) c (λ v le. ltb-false v n le) above)

    lwt : Lowered 1 c (put_counted_cas (λ v. v == 0) 1 c)
    lwt = Wrote-Lowered 1 c _ h (
        put_counted_cas-Wrote 1 (λ v. v == 0) c (λ v le. ground arith)
          (AtLeast-mono n c.value c.others p above))

-- The schedule in which another thread gives back n between this thread's test and its second
-- read of the counter.
abbrev pub racing : ℕ → ℕ → Cell
racing v n = record { value = v; others = (λ w. w) ∷ (λ w. sub64 w n) ∷ [] }

-- Two threads that give back n at once, when the counter holds v with n <= v < 2n and v < 2^64:
-- both pass the test, and the counter wraps to v + 2^64 - 2n. So for the bandwidth counters, and
-- with n = 1 and v = 1 for the counters of requests.
give_back_race :
    (v n : ℕ)
    → n ≤ v
    → v < 2 * n
    → v < u64_mod
    → ((put_write_bw_cas n (racing v n)).value ≡ v + u64_mod - 2 * n)
      × ((put_read_bw_cas n (racing v n)).value ≡ v + u64_mod - 2 * n)
      × ((put_write_lwt_cas (racing 1 1)).value ≡ u64_mod - 1)
      × ((put_read_lwt_cas (racing 1 1)).value ≡ u64_mod - 1)
unfolding put_write_bw_cas put_read_bw_cas put_write_lwt_cas put_read_lwt_cas fetch settle
    settle_from cas_update_unless compare_and_swap
give_back_race v n h k lt = (ground arith, ground arith, refl, refl)

-- PutWriteBW(n), the variant with a mutex, tests only for 0: while no other thread moves, giving
-- back n from a counter that holds v, with 0 < v < n < 2^64, wraps it to v + 2^64 - n.
pub put_write_bw_wraps :
    (v n : ℕ) → 0 < v → v < n → n < u64_mod → (put_write_bw n (quiet v)).value ≡ v + u64_mod - n
unfolding put_write_bw fetch settle settle_from
put_write_bw_wraps v n h k lt = ground arith
