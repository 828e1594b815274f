-- ===== src/Worker/Machine.antt =====
-- RadosIOWorker of src/ceph_proxy/RadosWorker.cc, lines 53-127, and RadosWorker.h, lines 165-257:
-- one step is what one thread does while it holds ioworkerLock, or with one operation while it
-- does not.
use ceph_global_cache_adapto.Prelude.{
  ℕ, Bool, true, false, List, [], ◌∷◌, ◌++◌, ltb, if◌then◌else◌, ℤ, neg, enoent, is_neg, is_empty,
  length, error_code, ok_code,
}

-- RequestCtx: the operation and its completion, by a number
pub record Request : Type 0 where
  pub pool_id : ℤ
  pub op : ℕ

-- What happens to an operation: its callback is called with a code, or librados has it.
pub data Served : Type 0 where
  called_back : ℤ → Served
  submitted : Served

-- Where the thread of OpHandler is: at the outer loop, at the inner loop, with a batch and
-- without the lock, in the wait, or at its end.
pub data Phase : Type 0 where
  outer inner dealing asleep finished : Phase

-- `batch` is ls; `accepted` and `served` are the history of what Queue took and of what became
-- of it.
pub record IoWorker : Type 0 where
  pub stop : Bool
  pub running : Bool
  pub empty_wait : Bool
  pub ops : List Request
  pub batch : List Request
  pub phase : Phase
  pub accepted : List Request
  pub served : List (Request × Served)

abbrev pub io_worker_queue_max_count : ℕ
io_worker_queue_max_count = 65535

-- The state of a new worker whose thread has the lock for the first time
unfoldable pub fresh_worker : IoWorker
fresh_worker = record {
  stop = false;
  running = false;
  empty_wait = false;
  ops = [];
  batch = [];
  phase = outer;
  accepted = [];
  served = [];
}

-- ioworkerCond.notify_all
abbrev pub notified : Phase → Phase
notified asleep = outer
notified p = p

-- Queue: -1 and nothing where too many operations wait
unfoldable pub queue : Request → IoWorker → ℤ × IoWorker
queue r w = if ltb io_worker_queue_max_count (length w.ops) then (error_code, w) else (
  ok_code,
  record w {
    phase = if is_empty w.ops then notified w.phase else w.phase;
    ops = w.ops ++ (r ∷ []);
    accepted = w.accepted ++ (r ∷ []);
  },
)

-- StopProc, up to the wait for the end of the thread
unfoldable pub stop_proc : IoWorker → IoWorker
stop_proc w = record w { stop = true; phase = notified w.phase }

-- One turn of WaitForEmpty: whether it returns
unfoldable pub wait_for_empty : IoWorker → Bool × IoWorker
wait_for_empty w =
    if is_empty w.ops
    then if w.running
      then (false, record w { empty_wait = true })
      else (true, record w { empty_wait = false })
    else (false, record w { empty_wait = true })

-- What becomes of an operation: `found` says whether GetIoCtx2 finds or creates a context, and
-- `answer` is what RadosOperationAioOperate returns.
unfoldable pub serve : Bool → ℤ → Served
serve false answer = called_back (neg enoent)
serve true answer = if is_neg answer then called_back answer else submitted

-- The next thing that the thread does
unfoldable pub handler_step : Bool → ℤ → IoWorker → IoWorker
unfolding serve
handler_step found answer w = elim w.phase [
  | outer ↦
      if w.stop then record w { phase = finished; stop = false } else record w { phase = inner }
  | inner ↦
      if is_empty w.ops
      then if w.stop
        then record w { phase = finished; stop = false }
        else record w { phase = asleep }
      else record w { phase = dealing; batch = w.ops; ops = []; running = true }
  | dealing ↦ elim w.batch [
    | [] ↦ record w { phase = inner; running = false }
    | r ∷ rs ↦ record w { batch = rs; served = w.served ++ ((r, serve found answer) ∷ []) }
  ]
  | asleep ↦ w
  | finished ↦ w
]

pub data Step : Type 0 where
  queues : Request → Step
  handles : Bool → ℤ → Step
  wakes stops waits : Step

unfoldable pub step : Step → IoWorker → IoWorker
unfolding queue handler_step stop_proc wait_for_empty
step (queues r) w = (queue r w).1
step (handles found answer) w = handler_step found answer w
step wakes w = record w { phase = notified w.phase }
step stops w = stop_proc w
step waits w = (wait_for_empty w).1

unfoldable pub run : List Step → IoWorker → IoWorker
run [] w = w
run (s ∷ ss) w = run ss (step s w)
