-- ===== src/Throttle/Waiting.antt =====
-- When GetlwtCas of src/server_adaptor/network_module.cpp lets a request through, and when it
-- waits for ever.
use ceph_global_cache_adapto.Prelude.{
  ℕ, zero, suc, ◌+◌, ◌≤◌, ◌<◌, ◌≡◌, ◌≢◌, [], arith, ◌==◌, ltb, if◌then◌else◌, length, ◌⊎◌, inl, inr,
  ==_false,
}
use ceph_global_cache_adapto.Prelude.Word.{u64_mod, add64}
use ceph_global_cache_adapto.Throttle.Cell.{
  Cell, fetch, settle, settle_from, cas_update, compare_and_swap, rounds,
}
use ceph_global_cache_adapto.Throttle.Atomic.{
  Later, Later-trans, fetch-Later, cas_update-Updated, cas_update_total,
}
use ceph_global_cache_adapto.Throttle.Ops.{passed, waiting, deadlock, poll, get_lwt_cas, get_lwt}

poll-passed :
    (k limit old : ℕ) (c d : Cell)
    → poll k limit old c ≡ passed d
    → ((old ≤ limit) × (d ≡ c)) ⊎ (d.value ≤ limit)
unfolding poll fetch
poll-passed zero limit old c d h = ground arith
poll-passed (suc k) limit old c d h =
    ground (arith, poll-passed k limit (settle c).value (settle c) d)

-- GetlwtCas(n) with a throttle returns only if the counter that its swap replaced was at most the
-- throttle, and then it leaves the counter just so, or if it has seen the counter at most the
-- throttle afterwards.
pub passed_below_limit :
    (limit n : ℕ) (c d : Cell)
    → limit ≢ 0
    → get_lwt_cas limit n c ≡ passed d
    → ((at : Cell) × Later c at × (at.value ≤ limit) × (d ≡ record at { value = add64 at.value n }))
      ⊎ (d.value ≤ limit)
unfolding get_lwt_cas
passed_below_limit limit n c d h e =
    let c1 = (fetch c).1 in
    let (old, c2, r) = cas_update_total (λ v. add64 v n) (fetch c).0 c1 in
    let u = cas_update-Updated (rounds c1) (λ v. add64 v n) (fetch c).0 old c1 c2 r in
    elim (poll-passed (suc (length c2.others)) limit old c2 d
      (rw (==_false limit 0 h, r, get_lwt_cas) at e)) [
        | inl low ↦ inl (
          u.at,
          Later-trans (fetch-Later c) u.reached,
          ground (arith, u.seen, low),
          ground (arith, u.written, low),
        )
        | inr below ↦ inr below
      ]

abbrev pub quiet : ℕ → Cell
quiet v = record { value = v; others = [] }

-- While no other thread moves and the counter does not wrap, GetlwtCas(n) returns at once
-- without a throttle; with one it counts the request and returns exactly if the counter was at
-- most the throttle before, else it polls for ever.
pub get_lwt_cas-quiet :
    (limit n v : ℕ)
    → v + n < u64_mod
    → get_lwt_cas limit n (quiet v) ≡ (
        if limit == 0
        then passed (quiet v)
        else if ltb limit v
        then waiting (quiet (v + n))
        else passed (quiet (v + n)))
unfolding get_lwt_cas fetch settle settle_from cas_update compare_and_swap poll
get_lwt_cas-quiet limit n v h = ground arith

-- While no other thread moves and the counter does not wrap, Getlwt(n), the variant with a
-- mutex, over the throttle locks the lock it holds, and throws, with the request counted; the
-- wait loop never waits.
pub get_lwt_deadlock :
    (limit n v : ℕ)
    → limit ≢ 0
    → v + n < u64_mod
    → limit < v + n
    → get_lwt limit n (quiet v) ≡ deadlock (quiet (v + n))
unfolding get_lwt fetch settle settle_from
get_lwt_deadlock limit n v h k lt = ground arith
