-- ===== src/Server/Order.antt =====
-- The order of requests from EnqueueClientop to DoOneOps (src/server_adaptor/network_module.cpp).
use ceph_global_cache_adapto.Prelude.{
  ℕ, zero, suc, ◌%◌, ◌≡◌, refl, sym, ◌∙◌, inl, inr, Bool, true, not, ◌||◌, ◌&&◌, Option, none, some,
  List, [], ◌∷◌, ◌++◌, ◌==◌, ltb, is_empty, get_elem?, keep, keep-append, arith, Option-cases,
  Bool-cases, append_assoc, append-nil,
}
use ceph_global_cache_adapto.Prelude.Text.{Text}
use ceph_global_cache_adapto.Msg.Types.{Codec}
use ceph_global_cache_adapto.Msg.Process.{
  Mosdop, SaOpReq, Processed, process_op_req, converted, answered, overflowed, threw,
}
use ceph_global_cache_adapto.Server.Admission.{Limits}
use ceph_global_cache_adapto.Server.Lanes.{
  Lane, World, put_lane, enters, without, wake, swap_queue, issue, clear_copyup, route,
  enqueue_clientop, en_queue, empty, get_size,
}

abbrev pub to_list {ℓ} : {A : Type ℓ} → Option A → List A
to_list none = []
to_list (some x) = x ∷ []

module _ (codec : Codec) where
  abbrev pub conversion : Processed → List SaOpReq
  conversion (converted r) = r ∷ []
  conversion answered = []
  conversion overflowed = []
  conversion threw = []

  -- What ProcessOpReq makes of these requests, without the ones that it refuses
  unfoldable pub conversions : List Mosdop → List SaOpReq
  conversions [] = []
  conversions (m ∷ ms) = conversion (process_op_req codec m) ++ conversions ms

  pub conversions-append :
      (ms : List Mosdop) (m : Mosdop)
      → conversions (ms ++ (m ∷ [])) ≡ conversions ms ++ conversion (process_op_req codec m)
  unfolding conversions
  conversions-append [] m = append-nil (conversion (process_op_req codec m))
  conversions-append (x ∷ xs) m = rw (conversions-append xs m) (
      sym (
        append_assoc (conversion (process_op_req codec x)) (conversions xs)
          (conversion (process_op_req codec m))))

module _ (hash : Text → ℕ) (queue_num capacity : ℕ) (codec : Codec) (lim : Limits) where
  abbrev pub routed : ℕ → Mosdop → Bool
  routed k m = route hash queue_num capacity codec lim m == k

  abbrev pub all_routed : ℕ → List Mosdop → Bool
  all_routed k [] = true
  all_routed k (m ∷ ms) = routed k m && all_routed k ms

  all_routed-append :
      (k : ℕ) (ms : List Mosdop) (m : Mosdop)
      → all_routed k ms ≡ true
      → routed k m ≡ true
      → all_routed k (ms ++ (m ∷ [])) ≡ true
  all_routed-append k [] m h e = ground (arith, e)
  all_routed-append k (x ∷ xs) m h e = ground (arith, all_routed-append k xs m)

  all_routed-without :
      (k i : ℕ) (ms : List Mosdop) → all_routed k ms ≡ true → all_routed k (without i ms) ≡ true
  all_routed-without k i [] h = refl
  all_routed-without k zero (x ∷ xs) h = ground arith
  all_routed-without k (suc i) (x ∷ xs) h = ground (arith, all_routed-without k i xs)

  all_routed-get :
      (k i : ℕ) (ms : List Mosdop) (m : Mosdop)
      → all_routed k ms ≡ true
      → get_elem? ms i ≡ some m
      → routed k m ≡ true
  all_routed-get k i [] m h e = ground arith
  all_routed-get k zero (x ∷ xs) m h e = ground arith
  all_routed-get k (suc i) (x ∷ xs) m h e = ground (arith, all_routed-get k i xs m)

  abbrev pub LaneInOrder : List Mosdop → ℕ → Lane → Type 0
  LaneInOrder entered k l =
      (l.handled ++ (l.deal.req_queue ++ l.queue.req_queue) ≡ keep (routed k) entered)
      × (l.issued ++ to_list l.in_hand ≡ conversions codec l.handled)
      × (all_routed k l.blocked ≡ true)

  abbrev pub InOrder : World → Type 0
  InOrder w = (k : ℕ) → LaneInOrder w.entered k (w.lanes k)

  eq_of : (j k : ℕ) → (j == k) ≡ true → k ≡ j
  eq_of j k h = ground arith

  snoc_order :
      (xs ys zs : List Mosdop) (m : Mosdop) (done : List Mosdop)
      → xs ++ (ys ++ zs) ≡ done
      → xs ++ (ys ++ (zs ++ (m ∷ []))) ≡ done ++ (m ∷ [])
  snoc_order xs ys zs m done h =
      rw (sym h) (rw (append_assoc xs (ys ++ zs) (m ∷ []), append_assoc ys zs (m ∷ [])) refl)

  swapped_order :
      (xs ys zs done : List Mosdop)
      → is_empty ys ≡ true
      → xs ++ (ys ++ zs) ≡ done
      → xs ++ (zs ++ ys) ≡ done
  swapped_order xs [] zs done e h = rw (append-nil zs) h
  swapped_order xs (y ∷ ys) zs done e h = ground arith

  pub put_lane-InOrder :
      (w : World) (k : ℕ) (l : Lane)
      → InOrder w
      → LaneInOrder w.entered k l
      → InOrder (put_lane w k l)
  put_lane-InOrder w k l h e j = elim (Bool-cases (j == k)) [
    | inl t ↦ rw (t, sym (eq_of j k t)) e
    | inr f ↦ rw f (h j)
  ]

  -- A request that enters its own lane's queue
  enters-InOrder :
      (k : ℕ) (m : Mosdop) (ts p : ℕ) (w : World)
      → routed k m ≡ true
      → InOrder w
      → InOrder (enters k m ts p w)
  unfolding enters en_queue keep
  enters-InOrder k m ts p w e h j = elim (Bool-cases (j == k)) [
    | inl t ↦
        let (order, given, waiting) = h k in
        let more = keep-append (routed k) w.entered (m ∷ []) in
        rw (t, sym (eq_of j k t))
          (
            snoc_order (w.lanes k).handled (w.lanes k).deal.req_queue (w.lanes k).queue.req_queue m
                  _ order
                ∙ ground (arith, more),
            given,
            waiting,
          )
    | inr f ↦
        let (order, given, waiting) = h j in
        let more = keep-append (routed j) w.entered (m ∷ []) in
        rw f (order ∙ ground (arith, more, append-nil (keep (routed j) w.entered)), given, waiting)
  ]

  pub wake-InOrder : (k i ts p : ℕ) (w : World) → InOrder w → InOrder (wake k i ts p w)
  unfolding wake
  wake-InOrder k i ts p w h = elim (Option-cases (get_elem? (w.lanes k).blocked i)) [
    | inl e ↦ rw (e, wake) h
    | inr (m, e) ↦
        let (order, given, waiting) = h k in
        rw (e, wake)
          (enters-InOrder k m ts p _ (all_routed-get k i (w.lanes k).blocked m waiting e) (
            put_lane-InOrder w k _ h
              (order, given, all_routed-without k i (w.lanes k).blocked waiting)))
  ]

  pub enqueue_clientop-InOrder :
      (m : Mosdop) (ts p : ℕ) (w : World)
      → InOrder w
      → InOrder (enqueue_clientop hash queue_num capacity codec lim m ts p w)
  unfolding enqueue_clientop route
  enqueue_clientop-InOrder m ts p w h = elim (Bool-cases (queue_num == 0)) [
    | inl z ↦ rw z h
    | inr z ↦ elim (Bool-cases (ltb capacity (get_size (w.lanes (hash m.oid % queue_num)).queue))) [
      | inl full ↦
          let k = hash m.oid % queue_num in
          let (order, given, waiting) = h k in
          rw (z, full)
            (put_lane-InOrder w k _ h
              (order, given, all_routed-append k (w.lanes k).blocked m waiting (ground arith)))
      | inr free ↦ rw (z, free) (enters-InOrder (hash m.oid % queue_num) m ts p w (ground arith) h)
    ]
  ]

  pub swap_queue-InOrder : (k : ℕ) (w : World) → InOrder w → InOrder (swap_queue k w)
  unfolding swap_queue empty
  swap_queue-InOrder k w h =
      elim (Bool-cases (
        w.finish_thread
        || (not (is_empty (w.lanes k).deal.req_queue) || is_empty (w.lanes k).queue.req_queue))) [
          | inl t ↦ rw (t, swap_queue) h
          | inr f ↦ elim (Option-cases (w.lanes k).in_hand) [
            | inr (r, e) ↦ rw (f, e, swap_queue) h
            | inl e ↦
                let (order, given, waiting) = h k in
                rw (f, e, swap_queue)
                  (put_lane-InOrder w k _ h (
                    swapped_order (w.lanes k).handled (w.lanes k).deal.req_queue
                        (w.lanes k).queue.req_queue _ (ground arith) order,
                    given,
                    waiting,
                  ))
          ]
        ]

  pub clear_copyup-InOrder : (k : ℕ) (w : World) → InOrder w → InOrder (clear_copyup k w)
  unfolding clear_copyup
  clear_copyup-InOrder k w h = put_lane-InOrder w k _ h (h k)

  pub issue-InOrder : (k : ℕ) (w : World) → InOrder w → InOrder (issue k w)
  unfolding issue
  issue-InOrder k w h = elim (Option-cases (w.lanes k).in_hand) [
    | inl e ↦ rw (e, issue) h
    | inr (r, e) ↦ elim (Bool-cases (w.lanes k).copyup_flag) [
      | inl t ↦ rw (e, t, issue) h
      | inr f ↦
          let (order, given, waiting) = h k in
          rw (e, f, issue)
            (put_lane-InOrder w k _ h (
              order,
              append-nil ((w.lanes k).issued ++ (r ∷ [])) ∙ ground (arith, given, e),
              waiting,
            ))
    ]
  ]
