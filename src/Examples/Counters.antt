-- ===== src/Examples/Counters.antt =====
-- The counters of src/server_adaptor/network_module.cpp at concrete schedules.
use ceph_global_cache_adapto.Prelude.{◌-◌, ◌≤◌, ◌≡◌, refl, [], ◌∷◌, arith, ◌⊎◌}
use ceph_global_cache_adapto.Prelude.Word.{u64_mod, add64, sub64}
use ceph_global_cache_adapto.Throttle.Cell.{
  Cell, after, fetch, settle, settle_from, cas_update, compare_and_swap,
}
use ceph_global_cache_adapto.Throttle.Atomic.{Later}
use ceph_global_cache_adapto.Throttle.Ops.{
  Outcome, passed, cell_of, get_lwt_cas, put_lwt_cas, poll, get_write_lwt_cas, get_read_lwt_cas,
  get_write_bw_cas, get_read_bw_cas, put_write_bw_cas, put_read_bw_cas, put_write_lwt_cas,
  put_read_lwt_cas,
}
use ceph_global_cache_adapto.Throttle.Conservation.{lwt_conserved, counted_conserved, AllRelative}
use ceph_global_cache_adapto.Throttle.Waiting.{passed_below_limit, quiet}
use ceph_global_cache_adapto.Throttle.GiveBack.{Lowered, give_back_exact}

-- Two other threads add 2 and take 1 away.
abbrev busy : Cell
busy = record { value = 5; others = (λ w. add64 w 2) ∷ (λ w. sub64 w 1) ∷ [] }

busy-AllRelative : AllRelative busy.others
busy-AllRelative = ((λ v n. omega arith), ((λ v n. omega arith), tt))

lwt_conserved_example :
    let got = cell_of (get_lwt_cas 3 1 busy) in
    let put = put_lwt_cas 3 busy in
    (after got.others got.value ≡ add64 (after busy.others busy.value) 1)
    × (after put.others put.value ≡ add64 (after busy.others busy.value) (u64_mod - 1))
lwt_conserved_example = lwt_conserved 3 1 busy (ground arith) busy-AllRelative

counted_conserved_example :
    let total = λ (o : Outcome). after (cell_of o).others (cell_of o).value in
    let expected = add64 (after busy.others busy.value) 8 in
    (total (get_write_lwt_cas (λ k. 4) 8 busy) ≡ expected)
    × (total (get_read_lwt_cas (λ k. 4) 8 busy) ≡ expected)
    × (total (get_write_bw_cas (λ k. 4) 8 busy) ≡ expected)
    × (total (get_read_bw_cas (λ k. 4) 8 busy) ≡ expected)
counted_conserved_example = counted_conserved (λ k. 4) 8 busy busy-AllRelative

-- The request passes when another thread has given 4 back.
abbrev relieved : Cell
relieved = record { value = 5; others = (λ w. w) ∷ (λ w. w) ∷ (λ w. sub64 w 4) ∷ [] }

relieved_passes : get_lwt_cas 3 1 relieved ≡ passed (quiet 2)
unfolding get_lwt_cas fetch settle settle_from cas_update compare_and_swap poll
relieved_passes = refl

passed_below_limit_example :
    ((at : Cell) × Later relieved at
      × (at.value ≤ 3)
      × (quiet 2 ≡ record at { value = add64 at.value 1 }))
    ⊎ (2 ≤ 3)
passed_below_limit_example =
    passed_below_limit 3 1 relieved (quiet 2) (ground arith) relieved_passes

abbrev shared : Cell
shared = record { value = 9; others = (λ w. w) ∷ (λ w. sub64 w 3) ∷ [] }

give_back_exact_example :
    Lowered 2 shared (put_write_bw_cas 2 shared)
    × Lowered 2 shared (put_read_bw_cas 2 shared)
    × Lowered 1 shared (put_write_lwt_cas shared)
    × Lowered 1 shared (put_read_lwt_cas shared)
give_back_exact_example =
    give_back_exact 2 shared (omega arith) (omega arith) (omega arith, (omega arith, omega arith))
