-- ===== src/Server/Barrier.antt =====
-- What a copy-up holds back in its lane
-- (src/server_adaptor/network_module.cpp).
use ceph_global_cache_adapto.Prelude.{
  ℕ, ◌≡◌, Bool, true, false, ◌||◌, some, List, [], ◌∷◌, ◌++◌, ◌==◌, if◌then◌else◌, arith,
}
use ceph_global_cache_adapto.Prelude.Text.{Text}
use ceph_global_cache_adapto.Msg.Types.{Codec}
use ceph_global_cache_adapto.Msg.Process.{SaOpReq}
use ceph_global_cache_adapto.Server.Admission.{Limits}
use ceph_global_cache_adapto.Server.Lanes.{
  Lane, World, enters, wake, swap_queue, issue, clear_copyup, route, enqueue_clientop, take_request,
  Step, arrives, wakes, swaps, takes, issues, clears, finishes, paces, pace, stops, step, run,
  live_step,
}

module _ (hash : Text → ℕ) (queue_num capacity : ℕ) (codec : Codec) (lim : Limits) where
  -- A lane whose copy-up is under way and which has given these requests to the cache
  abbrev Held : List SaOpReq → Lane → Type 0
  Held given l = (l.copyup_flag ≡ true) × (l.issued ≡ given)

  abbrev clears_lane : ℕ → Step hash queue_num capacity codec lim → Bool
  clears_lane k (clears j) = j == k
  clears_lane k _ = false

  -- Whether a copy-up of the lane ends in these steps
  abbrev pub any_clear : ℕ → List (Step hash queue_num capacity codec lim) → Bool
  any_clear k [] = false
  any_clear k (s ∷ ss) = clears_lane k s || any_clear k ss

  live_step-Held :
      (s : Step hash queue_num capacity codec lim) (w : World) (k : ℕ) (given : List SaOpReq)
      → clears_lane k s ≡ false
      → Held given (w.lanes k)
      → Held given ((live_step hash queue_num capacity codec lim s w).lanes k)
  unfolding enqueue_clientop wake swap_queue take_request issue clear_copyup enters route pace
  live_step-Held (arrives m ts p) w k given n (f, e) = ground (arith, f, e)
  live_step-Held (wakes j i ts p) w k given n (f, e) = ground (arith, f, e)
  live_step-Held (swaps j) w k given n (f, e) = ground (arith, f, e)
  live_step-Held (takes j) w k given n (f, e) = ground (arith, f, e)
  live_step-Held (issues j) w k given n (f, e) = ground (arith, f, e)
  live_step-Held (clears j) w k given n (f, e) = ground (arith, f, e)
  live_step-Held (finishes m type len ret) w k given n (f, e) = (f, e)
  live_step-Held (paces m p) w k given n (f, e) = ground (arith, f, e)
  live_step-Held stops w k given n (f, e) = (f, e)

  if-Held :
      (b : Bool) (u v : World) (k : ℕ) (given : List SaOpReq)
      → Held given (u.lanes k)
      → Held given (v.lanes k)
      → Held given ((if b then u else v).lanes k)
  if-Held true u v k given hu hv = hu
  if-Held false u v k given hu hv = hv

  run-Held :
      (ss : List (Step hash queue_num capacity codec lim)) (w : World) (k : ℕ)
      (given : List SaOpReq)
      → any_clear k ss ≡ false
      → Held given (w.lanes k)
      → Held given ((run hash queue_num capacity codec lim ss w).lanes k)
  unfolding run step
  run-Held [] w k given n h = h
  run-Held (s ∷ ss) w k given n h =
      run-Held ss _ k given (ground arith)
        (if-Held w.dead w _ k given h (live_step-Held s w k given (ground arith) h))

  -- Once a thread has given a request with a copy-up to the cache, it gives it no other request,
  -- whatever steps any threads take, until the cache has ended a copy-up of the thread.
  pub copyup_barrier :
      (ss : List (Step hash queue_num capacity codec lim)) (w : World) (k : ℕ) (r : SaOpReq)
      → (w.lanes k).in_hand ≡ some r
      → (w.lanes k).copyup_flag ≡ false
      → r.exits_copy_up ≡ true
      → any_clear k ss ≡ false
      → ((run hash queue_num capacity codec lim ss (issue k w)).lanes k).issued
        ≡ (w.lanes k).issued ++ (r ∷ [])
  unfolding issue
  copyup_barrier ss w k r e f x n =
      (run-Held ss (issue k w) k ((w.lanes k).issued ++ (r ∷ [])) n (ground (arith, e, f, x))).1
