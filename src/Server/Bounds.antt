-- ===== src/Server/Bounds.antt =====
-- How large the queues of a lane grow
-- (src/server_adaptor/network_module.cpp).
use ceph_global_cache_adapto.Server.Lanes.{
  paces, pace, Lane, World, start, enters, wake, swap_queue, take_result, issue, clear_copyup,
  route, enqueue_clientop, take_request, Step, arrives, wakes, swaps, takes, issues, clears,
  finishes, stops, step, run, en_queue, empty, get_size, rest, live_step,
}
use ceph_global_cache_adapto.Prelude.{
  ℕ, ◌+◌, ◌≤◌, inl, inr, Bool, true, false, List, [], ◌∷◌, ◌==◌, if◌then◌else◌, length, get_elem?,
  arith, Option-cases, length-append,
}
use ceph_global_cache_adapto.Prelude.Text.{Text}
use ceph_global_cache_adapto.Msg.Types.{Codec}
use ceph_global_cache_adapto.Msg.Process.{Mosdop}
use ceph_global_cache_adapto.Server.Admission.{
  Counters, Limits, Handled, handed, replied, dropped, crashed, handle_request,
}
use ceph_global_cache_adapto.Server.Fifo.{deal_cases}

module _ (hash : Text → ℕ) (queue_num capacity : ℕ) (codec : Codec) (lim : Limits) where
  abbrev wakes_lane : ℕ → Step hash queue_num capacity codec lim → ℕ
  wakes_lane k (wakes j i ts p) = if j == k then 1 else 0
  wakes_lane k _ = 0

  -- How often a messenger's thread wakes at the lane in these steps
  abbrev pub wake_count : ℕ → List (Step hash queue_num capacity codec lim) → ℕ
  wake_count k [] = 0
  wake_count k (s ∷ ss) = wakes_lane k s + wake_count k ss

  abbrev Small : ℕ → Lane → Type 0
  Small n l = (get_size l.queue ≤ n) × (get_size l.deal ≤ n)

  length-rest : (ms : List Mosdop) → length (rest ms) ≤ length ms
  length-rest [] = omega arith
  length-rest (m ∷ ms) = omega arith

  take_result-Small :
      (j : ℕ) (m : Mosdop) (w : World) (h : Handled) (k n : ℕ)
      → Small n (w.lanes k)
      → Small n ((take_result j m w h).lanes k)
  unfolding get_size
  take_result-Small j m w (handed r c) k n (f, e) =
      ground (arith, f, e, length-rest (w.lanes k).deal.req_queue)
  take_result-Small j m w (replied rs c) k n (f, e) =
      ground (arith, f, e, length-rest (w.lanes k).deal.req_queue)
  take_result-Small j m w (dropped c) k n (f, e) =
      ground (arith, f, e, length-rest (w.lanes k).deal.req_queue)
  take_result-Small j m w crashed k n (f, e) =
      ground (arith, f, e, length-rest (w.lanes k).deal.req_queue)

  take_request-Small :
      (j : ℕ) (w : World) (k n : ℕ)
      → Small n (w.lanes k)
      → Small (0 + n) ((take_request hash queue_num capacity codec lim j w).lanes k)
  unfolding take_request get_size
  take_request-Small j w k n (f, e) = elim (Option-cases (w.lanes j).in_hand) [
    | inr (r, q) ↦ rw (q, take_request) (omega (arith, f), omega (arith, e))
    | inl q ↦ elim (deal_cases (w.lanes j).deal.req_queue) [
      | inl d ↦ rw (q, d, take_request) (omega (arith, f), omega (arith, e))
      | inr (m, ms, d) ↦
          let small = take_result-Small j m w (handle_request codec lim m w.counters) k n (f, e) in
          rw (q, d, take_request) (omega (arith, small.0), omega (arith, small.1))
    ]
  ]

  live_step-Small :
      (s : Step hash queue_num capacity codec lim) (w : World) (k n : ℕ)
      → capacity + 1 ≤ n
      → Small n (w.lanes k)
      → Small (wakes_lane k s + n) ((live_step hash queue_num capacity codec lim s w).lanes k)
  unfolding enqueue_clientop wake swap_queue take_request issue clear_copyup enters route en_queue
      get_size handle_request empty pace
  live_step-Small (arrives m ts p) w k n c (f, e) =
      ground (arith, f, e, length-append (w.lanes k).queue.req_queue (m ∷ []))
  live_step-Small (wakes j i ts p) w k n c (f, e) =
      elim (Option-cases (get_elem? (w.lanes j).blocked i)) [
        | inl none_there ↦ ground (arith, f, e, none_there)
        | inr (m, there) ↦
            ground (arith, f, e, there, length-append (w.lanes k).queue.req_queue (m ∷ []))
      ]
  live_step-Small (swaps j) w k n c (f, e) = ground (arith, f, e)
  live_step-Small (takes j) w k n c (f, e) = take_request-Small j w k n (f, e)
  live_step-Small (issues j) w k n c (f, e) = ground (arith, f, e)
  live_step-Small (clears j) w k n c (f, e) = ground (arith, f, e)
  live_step-Small (finishes m type len ret) w k n c (f, e) = (omega (arith, f), omega (arith, e))
  live_step-Small (paces m p) w k n c (f, e) = ground (arith, f, e)
  live_step-Small stops w k n c (f, e) = (omega (arith, f), omega (arith, e))

  if-Small :
      (b : Bool) (u v : World) (k n : ℕ)
      → Small n (u.lanes k)
      → Small n (v.lanes k)
      → Small n ((if b then u else v).lanes k)
  if-Small true u v k n hu hv = hu
  if-Small false u v k n hu hv = hv

  run-Small :
      (ss : List (Step hash queue_num capacity codec lim)) (w : World) (k n : ℕ)
      → capacity + 1 ≤ n
      → Small n (w.lanes k)
      → Small (wake_count k ss + n) ((run hash queue_num capacity codec lim ss w).lanes k)
  unfolding run step
  run-Small [] w k n c (f, e) = (omega (arith, f), omega (arith, e))
  run-Small (s ∷ ss) w k n c (f, e) =
      let stepped =
        if-Small w.dead w (live_step hash queue_num capacity codec lim s w) k (wakes_lane k s + n)
          (omega (arith, f), omega (arith, e)) (live_step-Small s w k n c (f, e)) in
      let (f', e') =
        run-Small ss (step hash queue_num capacity codec lim s w) k (wakes_lane k s + n)
          (omega (arith, c)) stepped in
      (omega (arith, f'), omega (arith, e'))

  -- In any run from the empty queues, a lane queues at most queueMaxCapacity + 1 requests and one
  -- more for each waking of a messenger's thread at it, since a thread that wakes does not look
  -- at the size again; and so for what its handler thread has taken to deal with.
  pub size_bound :
      (ss : List (Step hash queue_num capacity codec lim)) (c : Counters) (begun k : ℕ)
      → let l = (run hash queue_num capacity codec lim ss (start c begun)).lanes k in
        (get_size l.queue ≤ wake_count k ss + (capacity + 1))
        × (get_size l.deal ≤ wake_count k ss + (capacity + 1))
  unfolding start get_size
  size_bound ss c begun k =
      run-Small ss (start c begun) k (capacity + 1) (omega arith) (omega arith, omega arith)
