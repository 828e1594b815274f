-- ===== src/Throttle/Ops.antt =====
-- src/server_adaptor/network_module.cpp, lines 781-1115: the operations that take and give back
-- admission. Each is a function of the one counter that it touches; `limit` is
-- qosParam.saOpThrottle, and `ask k` the k-th answer of sa->GetWriteOpThrottle() and its like.
use ceph_global_cache_adapto.Prelude.{
  ℕ, zero, suc, ◌+◌, Bool, none, some, ◌==◌, ltb, if◌then◌else◌, length,
}
use ceph_global_cache_adapto.Prelude.Word.{add64, sub64}
use ceph_global_cache_adapto.Throttle.Cell.{Cell, fetch, cas_update, cas_update_unless, rounds}

-- How a call that may sleep ends. `waiting`: it still polls when the schedule is over, and with
-- quiet threads does so for ever. `deadlock`: std::unique_lock::lock on a lock that the thread
-- owns throws resource_deadlock_would_occur.
pub data Outcome : Type 0 where
  passed waiting deadlock : Cell → Outcome

abbrev pub cell_of : Outcome → Cell
cell_of (passed c) = c
cell_of (waiting c) = c
cell_of (deadlock c) = c

-- while (old > limit) { sleep; old = counter; }
unfoldable pub poll : ℕ → ℕ → ℕ → Cell → Outcome
poll zero limit old c = if ltb limit old then waiting c else passed c
poll (suc k) limit old c =
    let (v, c') = fetch c in
    let rest = poll k limit v c' in if ltb limit old then rest else passed c

-- The same with the limit asked for again after each sleep, and 0 for no limit.
unfoldable pub poll_asked : ℕ → (ℕ → ℕ) → ℕ → ℕ → ℕ → Cell → Outcome
poll_asked zero ask i limit old c = if ltb limit old then waiting c else passed c
poll_asked (suc k) ask i limit old c =
    let (v, c') = fetch c in
    let rest = if ask i == 0 then passed c' else poll_asked k ask (i + 1) (ask i) v c' in
    if ltb limit old then rest else passed c

-- GetlwtCas
unfoldable pub get_lwt_cas : ℕ → ℕ → Cell → Outcome
get_lwt_cas limit n c =
    if limit == 0
    then passed c
    else let (seen, c1) = fetch c in
      elim (cas_update (rounds c1) (λ v. add64 v n) seen c1) [
        | none ↦ waiting c1
        | some (old, c2) ↦ poll (suc (length c2.others)) limit old c2
      ]

-- PutlwtCas
unfoldable pub put_lwt_cas : ℕ → Cell → Cell
put_lwt_cas limit c =
    if limit == 0
    then c
    else let (seen, c1) = fetch c in
      elim (cas_update (rounds c1) (λ v. sub64 v 1) seen c1) [ none ↦ c1 | some (old, c2) ↦ c2 ]

-- GetWritelwtCas, GetReadlwtCas, GetWriteBWCas, GetReadBWCas: the counter goes up even where
-- there is no limit.
unfoldable pub get_counted_cas : (ℕ → ℕ) → ℕ → Cell → Outcome
get_counted_cas ask n c =
    let (seen, c1) = fetch c in
    elim (cas_update (rounds c1) (λ v. add64 v n) seen c1) [
      | none ↦ waiting c1
      | some (old, c2) ↦
          if ask 0 == 0 then passed c2 else poll_asked (suc (length c2.others)) ask 1 (ask 0) old c2
    ]

unfoldable pub get_write_lwt_cas : (ℕ → ℕ) → ℕ → Cell → Outcome
unfolding get_counted_cas
get_write_lwt_cas ask n c = get_counted_cas ask n c

unfoldable pub get_read_lwt_cas : (ℕ → ℕ) → ℕ → Cell → Outcome
unfolding get_counted_cas
get_read_lwt_cas ask n c = get_counted_cas ask n c

unfoldable pub get_write_bw_cas : (ℕ → ℕ) → ℕ → Cell → Outcome
unfolding get_counted_cas
get_write_bw_cas ask n c = get_counted_cas ask n c

unfoldable pub get_read_bw_cas : (ℕ → ℕ) → ℕ → Cell → Outcome
unfolding get_counted_cas
get_read_bw_cas ask n c = get_counted_cas ask n c

-- The shape of PutWritelwtCas and its like: `stop` is the test of the early return.
unfoldable pub put_counted_cas : (ℕ → Bool) → ℕ → Cell → Cell
put_counted_cas stop n c =
    let (guard, c1) = fetch c in
    let (seen, c2) = fetch c1 in
    if stop guard then c1 else elim (cas_update_unless (rounds c2) stop (λ v. sub64 v n) seen c2) [
      | none ↦ c2
      | some (done, c3) ↦ c3
    ]

-- PutWritelwtCas
unfoldable pub put_write_lwt_cas : Cell → Cell
unfolding put_counted_cas
put_write_lwt_cas c = put_counted_cas (λ v. v == 0) 1 c

-- PutReadlwtCas
unfoldable pub put_read_lwt_cas : Cell → Cell
unfolding put_counted_cas
put_read_lwt_cas c = put_counted_cas (λ v. v == 0) 1 c

-- PutWriteBWCas
unfoldable pub put_write_bw_cas : ℕ → Cell → Cell
unfolding put_counted_cas
put_write_bw_cas n c = put_counted_cas (λ v. ltb v n) n c

-- PutReadBWCas
unfoldable pub put_read_bw_cas : ℕ → Cell → Cell
unfolding put_counted_cas
put_read_bw_cas n c = put_counted_cas (λ v. ltb v n) n c

-- The variants with a mutex, which nothing calls. The wait loop locks the lock that the thread
-- holds already.
unfoldable pub lock_loop : ℕ → Cell → Outcome
lock_loop limit c = let (v, c') = fetch c in if ltb limit v then deadlock c' else passed c'

unfoldable pub bump : (ℕ → ℕ) → Cell → Cell
bump f c = let (v, c') = fetch c in record c' { value = f v }

-- Getlwt
unfoldable pub get_lwt : ℕ → ℕ → Cell → Outcome
unfolding lock_loop bump
get_lwt limit n c = if limit == 0 then passed c else lock_loop limit (bump (λ v. add64 v n) c)

-- Putlwt
unfoldable pub put_lwt : ℕ → Cell → Cell
unfolding bump
put_lwt limit c = if limit == 0 then c else bump (λ v. sub64 v 1) c

-- GetWritelwt, GetReadlwt, GetWriteBW, GetReadBW: here the limit is tested first.
unfoldable pub get_counted : (ℕ → ℕ) → ℕ → Cell → Outcome
unfolding lock_loop bump
get_counted ask n c = if ask 0 == 0 then passed c else lock_loop (ask 1) (bump (λ v. add64 v n) c)

unfoldable pub get_write_lwt : (ℕ → ℕ) → ℕ → Cell → Outcome
unfolding get_counted
get_write_lwt ask n c = get_counted ask n c

unfoldable pub get_read_lwt : (ℕ → ℕ) → ℕ → Cell → Outcome
unfolding get_counted
get_read_lwt ask n c = get_counted ask n c

unfoldable pub get_write_bw : (ℕ → ℕ) → ℕ → Cell → Outcome
unfolding get_counted
get_write_bw ask n c = get_counted ask n c

unfoldable pub get_read_bw : (ℕ → ℕ) → ℕ → Cell → Outcome
unfolding get_counted
get_read_bw ask n c = get_counted ask n c

unfoldable pub put_counted : (ℕ → Bool) → ℕ → Cell → Cell
unfolding bump
put_counted stop n c =
    let (guard, c1) = fetch c in if stop guard then c1 else bump (λ v. sub64 v n) c1

-- PutWritelwt
unfoldable pub put_write_lwt : Cell → Cell
unfolding put_counted
put_write_lwt c = put_counted (λ v. v == 0) 1 c

-- PutReadlwt
unfoldable pub put_read_lwt : Cell → Cell
unfolding put_counted
put_read_lwt c = put_counted (λ v. v == 0) 1 c

-- PutWriteBW, whose test does not look at the amount
unfoldable pub put_write_bw : ℕ → Cell → Cell
unfolding put_counted
put_write_bw n c = put_counted (λ v. v == 0) n c

-- PutReadBW
unfoldable pub put_read_bw : ℕ → Cell → Cell
unfolding put_counted
put_read_bw n c = put_counted (λ v. ltb v n) n c
