-- ===== src/Worker/Drain.antt =====
-- The thread of the proxy's worker gets everything done (src/ceph_proxy/RadosWorker.cc).
use ceph_global_cache_adapto.Prelude.{
  ◌-◌, ◌==◌, ℕ, ◌+◌, ◌≤◌, ◌≡◌, refl, sym, ◌∙◌, Bool, true, false, List, [], ◌∷◌, arith, is_empty,
  if◌then◌else◌, length, ℤ,
}
use ceph_global_cache_adapto.Worker.Machine.{
  Request, IoWorker, Phase, outer, inner, dealing, asleep, finished, handler_step, Step, handles,
  step, run, fresh_worker,
}
use ceph_global_cache_adapto.Worker.Service.{served_ops, run-Kept}
use ceph_global_cache_adapto.Worker.Wakeups.{is_asleep, is_dealing, run-Awake, all_served}

-- The steps of the thread alone, for these answers
abbrev pub alone : List (Bool × ℤ) → List Step
alone [] = []
alone ((found, answer) ∷ replies) = handles found answer ∷ alone replies

abbrev inner_work : ℕ → ℕ
inner_work n = if n == 0 then 1 else n + 3

-- How many steps the thread has to make before it sleeps
abbrev pub work : IoWorker → ℕ
work w = elim w.phase [
  | outer ↦ 1 + inner_work (length w.ops)
  | inner ↦ inner_work (length w.ops)
  | dealing ↦ length w.batch + 1 + inner_work (length w.ops)
  | asleep ↦ 0
  | finished ↦ 0
]

abbrev pub is_finished : Phase → Bool
is_finished finished = true
is_finished _ = false

length-is_empty : (ops : List Request) → is_empty ops ≡ (length ops == 0)
length-is_empty [] = refl
length-is_empty (r ∷ rs) = ground arith

work-le : (w : IoWorker) → work w ≤ length w.batch + length w.ops + 5
work-le w = by_phase w.phase refl
  where
    by_phase : (p : Phase) → w.phase ≡ p → work w ≤ length w.batch + length w.ops + 5
    by_phase outer e = ground (arith, e)
    by_phase inner e = ground (arith, e)
    by_phase dealing e = ground (arith, e)
    by_phase asleep e = ground (arith, e)
    by_phase finished e = ground (arith, e)

asleep_lem : (p : Phase) → is_asleep p ≡ true → is_dealing p ≡ false
asleep_lem outer h = refl
asleep_lem inner h = refl
asleep_lem dealing h = sym h
asleep_lem asleep h = refl
asleep_lem finished h = refl

abbrev Going : IoWorker → Type 0
Going w = (w.stop ≡ false) × (is_finished w.phase ≡ false)

handler_step-Going :
    (found : Bool) (answer : ℤ) (w : IoWorker)
    → Going w
    → Going (handler_step found answer w)
      × (work (handler_step found answer w) ≤ work w - 1)
      × ((handler_step found answer w).accepted ≡ w.accepted)
unfolding handler_step
handler_step-Going found answer w (go, on) = by_phase w.phase w.batch refl refl
  where
    by_phase :
        (p : Phase) (b : List Request)
        → w.phase ≡ p
        → w.batch ≡ b
        → Going (handler_step found answer w)
          × (work (handler_step found answer w) ≤ work w - 1)
          × ((handler_step found answer w).accepted ≡ w.accepted)
    by_phase outer b e f = ground (arith, e, go, on, length-is_empty w.ops)
    by_phase inner b e f = ground (arith, e, go, on, length-is_empty w.ops)
    by_phase dealing [] e f = ground (arith, e, f, go, on, length-is_empty w.ops)
    by_phase dealing (r ∷ rs) e f = ground (arith, e, f, go, on, length-is_empty w.ops)
    by_phase asleep b e f = ground (arith, e, f, go, on)
    by_phase finished b e f = ground (arith, e, f, go, on)

asleep_at_0 : (w : IoWorker) → is_finished w.phase ≡ false → work w ≤ 0 → is_asleep w.phase ≡ true
asleep_at_0 w on none_left = by_phase w.phase refl
  where
    by_phase : (p : Phase) → w.phase ≡ p → is_asleep w.phase ≡ true
    by_phase outer e = ground (arith, e, on, none_left)
    by_phase inner e = ground (arith, e, on, none_left)
    by_phase dealing e = ground (arith, e, on, none_left)
    by_phase asleep e = ground (arith, e)
    by_phase finished e = ground (arith, e, on)

alone-asleep :
    (replies : List (Bool × ℤ)) (w : IoWorker)
    → Going w
    → work w ≤ length replies
    → (is_asleep (run (alone replies) w).phase ≡ true)
      × ((run (alone replies) w).accepted ≡ w.accepted)
unfolding run step
alone-asleep [] w (go, on) h = (asleep_at_0 w on h, refl)
alone-asleep ((found, answer) ∷ replies) w g h =
    let (g', less, same) = handler_step-Going found answer w g in
    let (a, b) = alone-asleep replies (handler_step found answer w) g' (omega (arith, h, less)) in
    (a, b ∙ same)

-- From every reachable state of a worker that is not stopped and has not ended, the thread
-- alone, whatever the contexts and librados answer, comes to sleep within as many steps as
-- operations are in its batch and wait, and five more; every operation that was accepted has
-- then been served, in order.
pub drains :
    (ss : List Step) (replies : List (Bool × ℤ))
    → (run ss fresh_worker).stop ≡ false
    → is_finished (run ss fresh_worker).phase ≡ false
    → length (run ss fresh_worker).batch + length (run ss fresh_worker).ops + 5 ≤ length replies
    → let w = run ss fresh_worker in
      let w' = run (alone replies) w in
      (is_asleep w'.phase ≡ true) × (served_ops w'.served ≡ w.accepted)
unfolding fresh_worker
drains ss replies go on enough =
    let w = run ss fresh_worker in
    let (sleeps, same) = alone-asleep replies w (go, on) (omega (arith, enough, work-le w)) in
    let awake = run-Awake (alone replies) w (run-Awake ss fresh_worker (refl, refl)) in
    let (kept, rest, small) =
      run-Kept (alone replies) w (run-Kept ss fresh_worker (refl, refl, omega arith)) in
    let w' = run (alone replies) w in
    (
      sleeps,
      all_served w'.phase w'.batch w'.ops (served_ops w'.served) w'.accepted kept rest
            (asleep_lem w'.phase sleeps) (ground (arith, sleeps, awake.0))
          ∙ same,
    )
