-- ===== src/Worker/Service.antt =====
-- No operation of the proxy's worker is lost, served twice or out of order
-- (src/ceph_proxy/RadosWorker.cc).
use ceph_global_cache_adapto.Prelude.{
  ◌≤◌, ◌≡◌, refl, Bool, true, false, List, [], ◌∷◌, ◌++◌, arith, length, length-append,
  append_assoc, append-nil, ltb, is_empty, if◌then◌else◌, ◌∙◌, sym, ap, ℤ, Bool-cases, inl, inr,
}
use ceph_global_cache_adapto.Worker.Machine.{
  Request, Served, IoWorker, Phase, outer, inner, dealing, asleep, finished, queue, stop_proc,
  wait_for_empty, serve, handler_step, Step, queues, handles, wakes, stops, waits, step, run,
  fresh_worker, notified,
}

-- The operations that were served, in order
abbrev pub served_ops : List (Request × Served) → List Request
served_ops [] = []
served_ops ((r, s) ∷ l) = r ∷ served_ops l

served_ops-append :
    (l : List (Request × Served)) (r : Request) (s : Served)
    → served_ops (l ++ ((r, s) ∷ [])) ≡ served_ops l ++ (r ∷ [])
served_ops-append [] r s = refl
served_ops-append ((q, t) ∷ l) r s = ap (λ m. q ∷ m) (served_ops-append l r s)

-- A batch is there only while the thread deals with it.
abbrev pub idle : Phase → List Request → Bool
idle dealing b = true
idle _ b = is_empty b

abbrev pub Kept : IoWorker → Type 0
Kept w =
    (served_ops w.served ++ (w.batch ++ w.ops) ≡ w.accepted)
    × (idle w.phase w.batch ≡ true)
    × (length w.ops ≤ 65536)

notified-idle :
    (p : Phase) (batch : List Request) → idle p batch ≡ true → idle (notified p) batch ≡ true
notified-idle outer batch h = h
notified-idle inner batch h = h
notified-idle dealing batch h = h
notified-idle asleep batch h = h
notified-idle finished batch h = h

queue-Kept : (r : Request) (w : IoWorker) → Kept w → Kept (queue r w).1
unfolding queue
queue-Kept r w (kept, rest, small) = elim (Bool-cases (ltb 65535 (length w.ops))) [
  | inl full ↦ rw (full, queue) (kept, rest, small)
  | inr free ↦
      rw (free, queue)
        (
          moved (served_ops w.served) w.batch w.ops r w.accepted kept,
          woken w.phase (is_empty w.ops) w.batch rest,
          ground (arith, free, length-append w.ops (r ∷ [])),
        )
]
  where
    moved :
        (xs ys zs : List Request) (x : Request) (done : List Request)
        → xs ++ (ys ++ zs) ≡ done
        → xs ++ (ys ++ (zs ++ (x ∷ []))) ≡ done ++ (x ∷ [])
    moved xs ys zs x done h =
        ap (λ l. xs ++ l) (sym (append_assoc ys zs (x ∷ [])))
        ∙ (sym (append_assoc xs (ys ++ zs) (x ∷ [])) ∙ ap (λ l. l ++ (x ∷ [])) h)

    woken :
        (p : Phase) (b : Bool) (batch : List Request)
        → idle p batch ≡ true
        → idle (if b then notified p else p) batch ≡ true
    woken p true batch h = notified-idle p batch h
    woken p false batch h = h

handler_step-Kept :
    (found : Bool) (answer : ℤ) (w : IoWorker) → Kept w → Kept (handler_step found answer w)
unfolding handler_step
handler_step-Kept found answer w (kept, rest, small) = by_phase w.phase w.batch refl refl
  where
    by_phase :
        (p : Phase) (b : List Request)
        → w.phase ≡ p
        → w.batch ≡ b
        → Kept (handler_step found answer w)
    by_phase outer b e f = ground (arith, e, kept, rest, small)
    by_phase inner [] e f = ground (arith, e, f, kept, small, append-nil w.ops)
    by_phase inner (r ∷ rs) e f = absurd (ground (arith, e, f, rest))
    by_phase dealing [] e f = ground (arith, e, f, kept, small)
    by_phase dealing (r ∷ rs) e f =
        let s = serve found answer in
        let more = served_ops-append w.served r s in
        let moved = append_assoc (served_ops w.served) (r ∷ []) (rs ++ w.ops) in
        ground (arith, e, f, kept, small, more, moved)
    by_phase asleep b e f = rw (e, handler_step) (kept, rest, small)
    by_phase finished b e f = rw (e, handler_step) (kept, rest, small)

step-Kept : (s : Step) (w : IoWorker) → Kept w → Kept (step s w)
unfolding step stop_proc wait_for_empty
step-Kept (queues r) w h = queue-Kept r w h
step-Kept (handles found answer) w h = handler_step-Kept found answer w h
step-Kept wakes w (kept, rest, small) = (kept, notified-idle w.phase w.batch rest, small)
step-Kept stops w (kept, rest, small) = (kept, notified-idle w.phase w.batch rest, small)
step-Kept waits w (kept, rest, small) = ground (arith, kept, rest, small)

pub run-Kept : (ss : List Step) (w : IoWorker) → Kept w → Kept (run ss w)
unfolding run
run-Kept [] w h = h
run-Kept (s ∷ ss) w h = run-Kept ss (step s w) (step-Kept s w h)

-- In any run of the threads from a new worker: the operations that were served, the ones of the
-- thread's batch and the ones that wait are, in this order, the ones that Queue has accepted, so
-- that each is served at most once and in its turn; and at most 65536 wait.
pub in_turn :
    (ss : List Step)
    → let w = run ss fresh_worker in
      (served_ops w.served ++ (w.batch ++ w.ops) ≡ w.accepted) × (length w.ops ≤ 65536)
unfolding fresh_worker
in_turn ss =
    let (kept, rest, small) = run-Kept ss fresh_worker (refl, refl, omega arith) in (kept, small)
