-- ===== src/Server/Fifo.antt =====
-- What a lane does with its requests over any run of the threads
-- (src/server_adaptor/network_module.cpp, src/server_adaptor/client_op_queue.h).
use ceph_global_cache_adapto.Prelude.{
  Bool-cases, ℕ, ◌≡◌, refl, ap, sym, ◌∙◌, ◌⊎◌, inl, inr, Bool, ◌&&◌, true, false, Option, none,
  List, [], ◌∷◌, ◌++◌, ◌==◌, if◌then◌else◌, keep, Option-cases, append_assoc, append-nil,
}
use ceph_global_cache_adapto.Prelude.Text.{Text}
use ceph_global_cache_adapto.Msg.Types.{Codec}
use ceph_global_cache_adapto.Msg.Process.{
  Mosdop, SaOpReq, Processed, process_op_req, contain_write_op, converted, answered, overflowed,
  threw,
}
use ceph_global_cache_adapto.Server.Admission.{Counters, Limits, handle_request, handle_processed}
use ceph_global_cache_adapto.Server.Quota.{Pace}
use ceph_global_cache_adapto.Server.Lanes.{
  World, start, take_result, route, take_request, Step, arrives, wakes, swaps, takes, issues,
  clears, finishes, paces, pace, stops, step, run, live_step, rest,
}
use ceph_global_cache_adapto.Server.Order.{
  InOrder, conversions, conversion, conversions-append, put_lane-InOrder, wake-InOrder, to_list,
  enqueue_clientop-InOrder, swap_queue-InOrder, clear_copyup-InOrder, issue-InOrder,
}

pub deal_cases :
    (ds : List Mosdop) → (ds ≡ []) ⊎ ((m : Mosdop) × (ms : List Mosdop) × (ds ≡ m ∷ ms))
deal_cases [] = inl refl
deal_cases (m ∷ ms) = inr (m, ms, refl)

moved_order :
    (xs ds zs done : List Mosdop) (m : Mosdop) (ms : List Mosdop)
    → ds ≡ m ∷ ms
    → xs ++ (ds ++ zs) ≡ done
    → (xs ++ (m ∷ [])) ++ (rest ds ++ zs) ≡ done
moved_order xs ds zs done m ms e h =
    append_assoc xs (m ∷ []) (rest ds ++ zs)
    ∙ (ap (λ ys. xs ++ ((m ∷ []) ++ (rest ys ++ zs))) e ∙ (ap (λ ys. xs ++ (ys ++ zs)) (sym e) ∙ h))

module _ (codec : Codec) where
  given_more :
      (xs : List SaOpReq) (hand : Option SaOpReq) (ms : List Mosdop) (m : Mosdop) (p : Processed)
      → hand ≡ none
      → process_op_req codec m ≡ p
      → xs ++ to_list hand ≡ conversions codec ms
      → xs ++ conversion codec p ≡ conversions codec (ms ++ (m ∷ []))
  given_more xs hand ms m p e q h =
      let empty_hand : xs ≡ conversions codec ms =
        sym (append-nil xs) ∙ (ap (λ o. xs ++ to_list o) (sym e) ∙ h) in
      ap (λ ys. ys ++ conversion codec p) empty_hand
      ∙ (ap (λ x. conversions codec ms ++ conversion codec x) (sym q)
          ∙ sym (conversions-append codec ms m))

  given_same :
      (xs : List SaOpReq) (hand : Option SaOpReq) (ms : List Mosdop) (m : Mosdop) (p : Processed)
      → hand ≡ none
      → process_op_req codec m ≡ p
      → conversion codec p ≡ []
      → xs ++ to_list hand ≡ conversions codec ms
      → xs ++ to_list hand ≡ conversions codec (ms ++ (m ∷ []))
  given_same xs hand ms m p e q z h =
      ap (λ o. xs ++ to_list o) e ∙ (ap (λ ys. xs ++ ys) (sym z) ∙ given_more xs hand ms m p e q h)

module _ (hash : Text → ℕ) (queue_num capacity : ℕ) (codec : Codec) (lim : Limits) where
  abbrev Ordered : World → Type 0
  Ordered w = InOrder hash queue_num capacity codec lim w

  take_processed-InOrder :
      (k : ℕ) (m : Mosdop) (ms : List Mosdop) (w : World) (p : Processed)
      → Ordered w
      → (w.lanes k).in_hand ≡ none
      → (w.lanes k).deal.req_queue ≡ m ∷ ms
      → process_op_req codec m ≡ p
      → Ordered (take_result k m w (handle_processed lim m w.counters p))
  take_processed-InOrder k m ms w (converted r) h e d q =
      let (order, given, waiting) = h k in
      let l = w.lanes k in
      put_lane-InOrder hash queue_num capacity codec lim w k _ h (
        moved_order l.handled l.deal.req_queue l.queue.req_queue _ m ms d order,
        given_more codec l.issued l.in_hand l.handled m (converted r) e q given,
        waiting,
      )
  take_processed-InOrder k m ms w answered h e d q =
      let (order, given, waiting) = h k in
      let l = w.lanes k in
      put_lane-InOrder hash queue_num capacity codec lim w k _ h (
        moved_order l.handled l.deal.req_queue l.queue.req_queue _ m ms d order,
        given_same codec l.issued l.in_hand l.handled m answered e q refl given,
        waiting,
      )
  take_processed-InOrder k m ms w overflowed h e d q =
      let (order, given, waiting) = h k in
      let l = w.lanes k in
      put_lane-InOrder hash queue_num capacity codec lim w k _ h (
        moved_order l.handled l.deal.req_queue l.queue.req_queue _ m ms d order,
        given_same codec l.issued l.in_hand l.handled m overflowed e q refl given,
        waiting,
      )
  take_processed-InOrder k m ms w threw h e d q =
      let (order, given, waiting) = h k in
      let l = w.lanes k in
      put_lane-InOrder hash queue_num capacity codec lim w k _ h (
        moved_order l.handled l.deal.req_queue l.queue.req_queue _ m ms d order,
        given_same codec l.issued l.in_hand l.handled m threw e q refl given,
        waiting,
      )

  take_request-InOrder :
      (k : ℕ) (w : World) → Ordered w → Ordered (take_request hash queue_num capacity codec lim k w)
  unfolding take_request handle_request
  take_request-InOrder k w h = elim (Option-cases (w.lanes k).in_hand) [
    | inr (r, e) ↦ rw (e, take_request) h
    | inl e ↦ elim (deal_cases (w.lanes k).deal.req_queue) [
      | inl d ↦ rw (e, d, take_request) h
      | inr (m, ms, d) ↦
          rw (e, d, take_request, handle_request)
            (take_processed-InOrder k m ms w (process_op_req codec m) h e d refl)
    ]
  ]

  pace-InOrder :
      (m : Mosdop) (p : Pace) (w : World)
      → Ordered w
      → Ordered (pace hash queue_num capacity codec lim m p w)
  unfolding pace
  pace-InOrder m p w h = elim (Bool-cases (lim.limit_write && contain_write_op m.ops)) [
    | inl t ↦ rw (t, pace) h
    | inr f ↦ rw (f, pace) h
  ]

  either_world : (b : Bool) (u v : World) → Ordered u → Ordered v → Ordered (if b then u else v)
  either_world true u v hu hv = hu
  either_world false u v hu hv = hv

  step-InOrder :
      (s : Step hash queue_num capacity codec lim) (w : World)
      → Ordered w
      → Ordered (step hash queue_num capacity codec lim s w)
  unfolding step
  step-InOrder s w h =
      either_world w.dead w (live_step hash queue_num capacity codec lim s w) h (live s)
    where
      live :
          (s : Step hash queue_num capacity codec lim)
          → Ordered (live_step hash queue_num capacity codec lim s w)
      live (arrives m ts p) = enqueue_clientop-InOrder hash queue_num capacity codec lim m ts p w h
      live (wakes k i ts p) = wake-InOrder hash queue_num capacity codec lim k i ts p w h
      live (swaps k) = swap_queue-InOrder hash queue_num capacity codec lim k w h
      live (takes k) = take_request-InOrder k w h
      live (issues k) = issue-InOrder hash queue_num capacity codec lim k w h
      live (clears k) = clear_copyup-InOrder hash queue_num capacity codec lim k w h
      live (finishes m type len ret) = h
      live (paces m p) = pace-InOrder m p w h
      live stops = h

  run-InOrder :
      (ss : List (Step hash queue_num capacity codec lim)) (w : World)
      → Ordered w
      → Ordered (run hash queue_num capacity codec lim ss w)
  unfolding run
  run-InOrder [] w h = h
  run-InOrder (s ∷ ss) w h = run-InOrder ss _ (step-InOrder s w h)

  -- In any run of the messenger's threads, the handler threads, the cache and StopThread from the
  -- empty queues, and for each lane: what its thread has taken, what it still has to deal with and
  -- what is queued are, in this order, the requests that have entered a queue and whose object's
  -- hash names the lane; and what it has given to the cache, with the one in its hands, are in this
  -- order the conversions of what it has taken, less the requests that ProcessOpReq refuses.
  pub lane_fifo :
      (ss : List (Step hash queue_num capacity codec lim)) (c : Counters) (begun k : ℕ)
      → let w = run hash queue_num capacity codec lim ss (start c begun) in
        let l = w.lanes k in
        (l.handled ++ (l.deal.req_queue ++ l.queue.req_queue)
          ≡ keep (λ m. route hash queue_num capacity codec lim m == k) w.entered)
        × (l.issued ++ to_list l.in_hand ≡ conversions codec l.handled)
  unfolding start keep conversions
  lane_fifo ss c begun k =
      let (order, given, waiting) = run-InOrder ss (start c begun) (λ j. (refl, refl, refl)) k in
      (order, given)
