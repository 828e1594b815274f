-- ===== src/Examples/Tables.antt =====
-- The tables of src/ceph_proxy/PoolContext.h and the callback of src/ceph_proxy/CcmAdaptor.cc at
-- concrete inputs.
use ceph_global_cache_adapto.Prelude.{
  error_code, int_beq, ◌≡◌, refl, true, none, some, List, [], ◌∷◌, arith, pos, ok_code, string_eq,
  int_eq,
}
use ceph_global_cache_adapto.Prelude.Dict.{find, insert}
use ceph_global_cache_adapto.Ccm.{fresh, register_pool_create_report_fn}
use ceph_global_cache_adapto.Pool.Table.{
  Heap, init, rados_create_io_ctx, insert_name, insert_id, get_name, get_id,
}
use ceph_global_cache_adapto.Pool.Contexts.{fill_id, fill_name, get_io_ctx, get_io_ctx2}
use ceph_global_cache_adapto.Pool.Ownership.{Valid}
use ceph_global_cache_adapto.Pool.Calls.{
  Step, fills_name, fills_id, deletes_id, run, run-Valid, step,
}
use ceph_global_cache_adapto.Pool.Race.{Lost, lookup_race_leaks}

abbrev no_heap : Heap
no_heap = record { next = 100; live = [] }

init-Valid : Valid init no_heap
unfolding init find
init-Valid = record {
  old_name = λ k c e. absurd (ground arith);
  old_id = λ k c e. absurd (ground arith);
  live_name = λ k c e. absurd (ground arith);
  live_id = λ k c e. absurd (ground arith);
  same_name = λ k j c e f. absurd (ground arith);
  same_id = λ k j c e f. absurd (ground arith);
  apart = λ k j c e f. ground arith;
}

-- Two threads create a context for pool 4, and then it is deleted.
abbrev race : List Step
race =
    fills_id (pos 4) none true (pos 0)
    ∷ fills_id (pos 4) none true (pos 0)
    ∷ fills_name "rbd" none true (pos 0)
    ∷ deletes_id (pos 4)
    ∷ []

run-Valid_example : Valid (run race init no_heap).0 (run race init no_heap).1
run-Valid_example = run-Valid race init no_heap init-Valid

first_name : (get_io_ctx "rbd" true (pos 0) init no_heap).0 ≡ some 100
unfolding get_io_ctx get_name fill_name rados_create_io_ctx insert_name init find
first_name = refl

first_id : (get_io_ctx2 (pos 4) true (pos 0) init no_heap).0 ≡ some 100
unfolding get_io_ctx2 get_id fill_id rados_create_io_ctx insert_id init find
first_id = refl

-- Another thread creates a context for pool 4 and for the name of a pool.
abbrev meanwhile : List Step
meanwhile = fills_id (pos 4) none true (pos 0) ∷ fills_name "rbd" none true (pos 0) ∷ []

abbrev afterwards : List Step
afterwards = deletes_id (pos 4) ∷ []

missed_id : get_id (pos 4) init ≡ none
unfolding get_id init find
missed_id = refl

missed_name : get_name "rbd" init ≡ none
unfolding get_name init find
missed_name = refl

came_id : get_id (pos 4) (run meanwhile init no_heap).0 ≡ some 100
unfolding get_id init find run step fill_id fill_name rados_create_io_ctx insert_id insert_name
    insert int_beq
came_id = refl

came_name : get_name "rbd" (run meanwhile init no_heap).0 ≡ some 101
unfolding get_name init find run step fill_id fill_name rados_create_io_ctx insert_id insert_name
    insert int_beq
came_name = refl

lookup_race_leaks_example :
    let (t1, h1) = run meanwhile init no_heap in
    let (got, t2, h2) = fill_id (pos 4) (get_id (pos 4) init) true (pos 0) t1 h1 in
    let (named, t3, h3) = fill_name "rbd" (get_name "rbd" init) true (pos 0) t1 h1 in
    ((got ≡ some h1.next)
      × (t2 ≡ t1)
      × ((insert_id (pos 4) h1.next t1).0 ≡ error_code)
      × Lost h1.next (run afterwards t2 h2).0 (run afterwards t2 h2).1)
    × ((named ≡ some h1.next)
        × (get_name "rbd" t3 ≡ some h1.next)
        × Lost 101 (run afterwards t3 h3).0 (run afterwards t3 h3).1)
lookup_race_leaks_example =
    lookup_race_leaks "rbd" (pos 4) 0 100 101 meanwhile afterwards init no_heap init-Valid missed_id
      missed_name came_id came_name

registers :
    register_pool_create_report_fn (some (λ pools. pos 0)) fresh
    ≡ (ok_code, record { notify = some (λ pools. pos 0) })
unfolding register_pool_create_report_fn fresh
registers = refl
