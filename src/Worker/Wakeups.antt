-- ===== src/Worker/Wakeups.antt =====
-- When the thread of the proxy's worker sleeps, and what a stop leaves behind
-- (src/ceph_proxy/RadosWorker.cc).
use ceph_global_cache_adapto.Prelude.{
  ◌≡◌, ◌&&◌, ◌||◌, not, sym, ◌∙◌, append-nil, refl, Bool, true, false, List, [], ◌∷◌, ◌++◌, arith,
  is_empty, ℤ,
}
use ceph_global_cache_adapto.Worker.Service.{served_ops, run-Kept, idle}
use ceph_global_cache_adapto.Worker.Machine.{
  Request, IoWorker, Phase, outer, inner, dealing, asleep, finished, queue, stop_proc,
  wait_for_empty, handler_step, Step, queues, handles, wakes, stops, waits, step, run, fresh_worker,
  notified,
}

abbrev pub is_asleep : Phase → Bool
is_asleep asleep = true
is_asleep _ = false

abbrev pub is_dealing : Phase → Bool
is_dealing dealing = true
is_dealing _ = false

-- The thread sleeps only with nothing to do, and `running` says that it deals with a batch.
abbrev pub Awake : IoWorker → Type 0
Awake w =
    ((is_asleep w.phase && (not (is_empty w.ops) || w.stop)) ≡ false)
    × (w.running ≡ is_dealing w.phase)

append_not_empty : (xs : List Request) (x : Request) → is_empty (xs ++ (x ∷ [])) ≡ false
append_not_empty [] x = refl
append_not_empty (y ∷ ys) x = refl

notified_lem :
    (p : Phase) → (is_asleep (notified p) ≡ false) × (is_dealing (notified p) ≡ is_dealing p)
notified_lem outer = (refl, refl)
notified_lem inner = (refl, refl)
notified_lem dealing = (refl, refl)
notified_lem asleep = (refl, refl)
notified_lem finished = (refl, refl)

handler_step-Awake :
    (found : Bool) (answer : ℤ) (w : IoWorker) → Awake w → Awake (handler_step found answer w)
unfolding handler_step
handler_step-Awake found answer w (sleeps, runs) = by_phase w.phase w.batch refl refl
  where
    by_phase :
        (p : Phase) (b : List Request)
        → w.phase ≡ p
        → w.batch ≡ b
        → Awake (handler_step found answer w)
    by_phase outer b e f = ground (arith, e, sleeps, runs)
    by_phase inner b e f = ground (arith, e, sleeps, runs)
    by_phase dealing [] e f = ground (arith, e, f, sleeps, runs)
    by_phase dealing (r ∷ rs) e f = ground (arith, e, f, sleeps, runs)
    by_phase asleep b e f = rw (e, handler_step) (sleeps, runs)
    by_phase finished b e f = rw (e, handler_step) (sleeps, runs)

step-Awake : (s : Step) (w : IoWorker) → Awake w → Awake (step s w)
unfolding step queue stop_proc wait_for_empty
step-Awake (queues r) w (sleeps, runs) =
    let (a, b) = notified_lem w.phase in
    ground (arith, sleeps, runs, a, b, append_not_empty w.ops r)
step-Awake (handles found answer) w h = handler_step-Awake found answer w h
step-Awake wakes w (sleeps, runs) =
    let (a, b) = notified_lem w.phase in ground (arith, sleeps, runs, a, b)
step-Awake stops w (sleeps, runs) =
    let (a, b) = notified_lem w.phase in ground (arith, sleeps, runs, a, b)
step-Awake waits w (sleeps, runs) = ground (arith, sleeps, runs)

pub run-Awake : (ss : List Step) (w : IoWorker) → Awake w → Awake (run ss w)
unfolding run
run-Awake [] w h = h
run-Awake (s ∷ ss) w h = run-Awake ss (step s w) (step-Awake s w h)

-- No wake-up is lost: in any run from a new worker, spurious wake-ups included, the thread does not
-- sleep while an operation waits or StopProc has been called.
pub no_lost_wakeup :
    (ss : List Step)
    → let w = run ss fresh_worker in (is_asleep w.phase && (not (is_empty w.ops) || w.stop)) ≡ false
unfolding fresh_worker
no_lost_wakeup ss = (run-Awake ss fresh_worker (refl, refl)).0

pub all_served :
    (p : Phase) (batch ops served accepted : List Request)
    → served ++ (batch ++ ops) ≡ accepted
    → idle p batch ≡ true
    → is_dealing p ≡ false
    → is_empty ops ≡ true
    → served ≡ accepted
all_served p [] [] served accepted k i d e = sym (append-nil served) ∙ k
all_served p [] (o ∷ ops) served accepted k i d e = absurd (ground arith)
all_served p (b ∷ batch) ops served accepted k i d e = absurd (not_idle p i d)
  where
    not_idle : (p : Phase) → idle p (b ∷ batch) ≡ true → is_dealing p ≡ false → ⊥
    not_idle outer i d = ground arith
    not_idle inner i d = ground arith
    not_idle dealing i d = ground arith
    not_idle asleep i d = ground arith
    not_idle finished i d = ground arith

-- When WaitForEmpty returns, every operation that Queue has accepted so far was served, in the
-- order of acceptance.
pub empty_when_returned :
    (ss : List Step)
    → (wait_for_empty (run ss fresh_worker)).0 ≡ true
    → served_ops (run ss fresh_worker).served ≡ (run ss fresh_worker).accepted
unfolding wait_for_empty fresh_worker
empty_when_returned ss h =
    let w = run ss fresh_worker in
    let (sleeps, runs) = run-Awake ss fresh_worker (refl, refl) in
    let (kept, rest, small) = run-Kept ss fresh_worker (refl, refl, omega arith) in
    all_served w.phase w.batch w.ops (served_ops w.served) w.accepted kept rest
      (ground (arith, h, runs)) (ground (arith, h))

-- An operation that Queue accepts after StopProc was called on a worker that sleeps with an
-- empty queue, as one that arrives after WaitForEmpty has returned in Stop, is not served: the
-- thread ends while it waits.
pub stop_strands :
    (r : Request) (w : IoWorker) (found : Bool) (answer : ℤ)
    → w.phase ≡ asleep
    → w.ops ≡ []
    → let stopped = run (stops ∷ queues r ∷ handles found answer ∷ []) w in
      (stopped.phase ≡ finished) × (stopped.ops ≡ r ∷ []) × (stopped.served ≡ w.served)
unfolding run step queue stop_proc handler_step
stop_strands r w found answer e f = ground (arith, e, f)
