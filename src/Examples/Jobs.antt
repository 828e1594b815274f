-- ===== src/Examples/Jobs.antt =====
-- The worker of src/ceph_proxy/RadosWorker.cc at concrete runs.
use ceph_global_cache_adapto.Prelude.{
  ℕ, ◌+◌, ◌≤◌, ◌≡◌, refl, Bool, true, false, ◌&&◌, ◌||◌, not, List, [], ◌∷◌, ◌++◌, arith, length,
  is_empty, ℤ, int_eq, pos, negsuc,
}
use ceph_global_cache_adapto.Worker.Machine.{
  Request, IoWorker, asleep, finished, Step, queues, handles, stops, waits, run, fresh_worker,
  wait_for_empty, step,
}
use ceph_global_cache_adapto.Worker.Service.{served_ops, in_turn}
use ceph_global_cache_adapto.Worker.Wakeups.{
  is_asleep, no_lost_wakeup, empty_when_returned, stop_strands,
}
use ceph_global_cache_adapto.Worker.Drain.{alone, drains, is_finished}
use ceph_global_cache_adapto.Worker.Pools.{Workers}

abbrev job : ℕ → Request
job n = record { pool_id = pos 3; op = n }

-- Two operations come, the second while the first is dealt with.
abbrev shift : List Step
shift =
    handles true (pos 0)
    ∷ handles true (pos 0)
    ∷ queues (job 1)
    ∷ handles true (pos 0)
    ∷ handles true (pos 0)
    ∷ queues (job 2)
    ∷ handles true (negsuc 4)
    ∷ waits
    ∷ []

abbrev rest_of_shift : List (Bool × ℤ)
rest_of_shift =
    (true, pos 0)
    ∷ (false, pos 0)
    ∷ (true, pos 0)
    ∷ (true, pos 0)
    ∷ (true, pos 0)
    ∷ (true, pos 0)
    ∷ (true, pos 0)
    ∷ []

in_turn_example :
    let w = run shift fresh_worker in
    (served_ops w.served ++ (w.batch ++ w.ops) ≡ w.accepted) × (length w.ops ≤ 65536)
in_turn_example = in_turn shift

no_lost_wakeup_example :
    let w = run shift fresh_worker in
    (is_asleep w.phase && (not (is_empty w.ops) || w.stop)) ≡ false
no_lost_wakeup_example = no_lost_wakeup shift

done_returns : (wait_for_empty (run (shift ++ alone rest_of_shift) fresh_worker)).0 ≡ true
unfolding wait_for_empty run step fresh_worker
done_returns = refl

empty_when_returned_example :
    served_ops (run (shift ++ alone rest_of_shift) fresh_worker).served
    ≡ (run (shift ++ alone rest_of_shift) fresh_worker).accepted
empty_when_returned_example = empty_when_returned (shift ++ alone rest_of_shift) done_returns

not_stopped : (run shift fresh_worker).stop ≡ false
unfolding run step fresh_worker
not_stopped = refl

not_finished : is_finished (run shift fresh_worker).phase ≡ false
unfolding run step fresh_worker
not_finished = refl

enough_replies :
    length (run shift fresh_worker).batch + length (run shift fresh_worker).ops + 5
    ≤ length rest_of_shift
unfolding run step fresh_worker
enough_replies = ground arith

drains_example :
    let w = run shift fresh_worker in
    let w' = run (alone rest_of_shift) w in
    (is_asleep w'.phase ≡ true) × (served_ops w'.served ≡ w.accepted)
drains_example = drains shift rest_of_shift not_stopped not_finished enough_replies

abbrev idle_worker : IoWorker
idle_worker = record {
  stop = false;
  running = false;
  empty_wait = false;
  ops = [];
  batch = [];
  phase = asleep;
  accepted = [];
  served = [];
}

stop_strands_example :
    let stopped = run (stops ∷ queues (job 1) ∷ handles true (pos 0) ∷ []) idle_worker in
    (stopped.phase ≡ finished) × (stopped.ops ≡ job 1 ∷ []) × (stopped.served ≡ [])
stop_strands_example = stop_strands (job 1) idle_worker true (pos 0) refl refl

abbrev no_workers : Workers
no_workers = (pos 4, idle_worker) ∷ []
