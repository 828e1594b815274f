-- ===== src/Server/Lanes.antt =====
-- src/server_adaptor/client_op_queue.h, and EnqueueClientop, OpHandlerThread and StopThread of
-- src/server_adaptor/network_module.cpp, lines 376-561 and 662-714: the messenger's threads put
-- requests into the queues, and each handler thread takes its own queue.
use ceph_global_cache_adapto.Prelude.{
  ℕ, zero, suc, ◌%◌, ◌-◌, ◌&&◌, Bool, true, false, not, ◌||◌, Option, none, some, List, [], ◌∷◌,
  ◌++◌, ◌==◌, ltb, if◌then◌else◌, ℤ, length, is_empty, get_elem?,
}
use ceph_global_cache_adapto.Prelude.Text.{Text}
use ceph_global_cache_adapto.Msg.Types.{Codec}
use ceph_global_cache_adapto.Msg.Process.{Mosdop, SaOpReq, contain_write_op}
use ceph_global_cache_adapto.Server.Quota.{Quota, Pace, limit_write, quota_of}
use ceph_global_cache_adapto.Prelude.Word.{u64_mod}
use ceph_global_cache_adapto.Server.Admission.{
  Counters, Limits, Reply, Handled, handed, replied, dropped, crashed, handle_request,
  finish_cache_ops,
}

pub record ClientOpQueue : Type 0 where
  pub req_queue : List Mosdop
  pub ts_queue : List ℕ
  pub period : List ℕ

unfoldable pub en_queue : ClientOpQueue → Mosdop → ℕ → ℕ → ClientOpQueue
en_queue q m ts p = record {
  req_queue = q.req_queue ++ (m ∷ []);
  ts_queue = q.ts_queue ++ (ts ∷ []);
  period = q.period ++ (p ∷ []);
}

unfoldable pub empty : ClientOpQueue → Bool
empty q = is_empty q.req_queue

unfoldable pub get_size : ClientOpQueue → ℕ
get_size q = length q.req_queue

abbrev pub no_requests : ClientOpQueue
no_requests = record { req_queue = []; ts_queue = []; period = [] }

-- A queue, the requests whose messenger threads wait for room in it, and the locals of its
-- handler thread: `deal` is dealQueue with dealTs and periodTs, `in_hand` a request that is
-- converted and counted and not yet given to the cache. `handled` and `issued` are the history of
-- what the thread has taken and of what it has given to the cache.
pub record Lane : Type 0 where
  pub queue : ClientOpQueue
  pub blocked : List Mosdop
  pub deal : ClientOpQueue
  pub in_hand : Option SaOpReq
  pub copyup_flag : Bool
  pub handled : List Mosdop
  pub issued : List SaOpReq

-- All of the request path. `finish_thread` is what StopThread sets; `dead` is a process that an
-- exception has ended; `entered` and `replies` are the history of EnQueue and of the answers.
pub record World : Type 0 where
  pub lanes : ℕ → Lane
  pub counters : Counters
  pub quota : Quota
  pub finish_thread : Bool
  pub dead : Bool
  pub entered : List Mosdop
  pub replies : List Reply

-- `begun` is the clock at the start.
unfoldable pub start : Counters → ℕ → World
start c begun = record {
  lanes = λ k. record {
    queue = no_requests;
    blocked = [];
    deal = no_requests;
    in_hand = none;
    copyup_flag = false;
    handled = [];
    issued = [];
  };
  counters = c;
  quota = record { cycle_begin = begun; period_bw = 0; wcache_bw = u64_mod - 1; write_ratio = 0 };
  finish_thread = false;
  dead = false;
  entered = [];
  replies = [];
}

abbrev pub put_lane : World → ℕ → Lane → World
put_lane w k l = record w { lanes = λ j. if j == k then l else w.lanes j }

-- EnQueue of a request and its two time stamps into the queue of this number
unfoldable pub enters : ℕ → Mosdop → ℕ → ℕ → World → World
enters k m ts p w =
    let l = w.lanes k in
    record (put_lane w k (record l { queue = en_queue l.queue m ts p })) {
      entered = w.entered ++ (m ∷ []);
    }

-- The list without its element of this number
abbrev pub without : ℕ → List Mosdop → List Mosdop
without i [] = []
without zero (m ∷ ms) = ms
without (suc i) (m ∷ ms) = m ∷ without i ms

-- A request's messenger thread wakes, for a notification or for nothing: it does not look at the
-- size again.
unfoldable pub wake : ℕ → ℕ → ℕ → ℕ → World → World
wake k i ts p w =
    let l = w.lanes k in
    elim (get_elem? l.blocked i) [
      | none ↦ w
      | some m ↦ enters k m ts p (put_lane w k (record l { blocked = without i l.blocked }))
    ]

-- The thread takes all of its queue, when it has nothing in its hands.
unfoldable pub swap_queue : ℕ → World → World
swap_queue k w =
    let l = w.lanes k in
    if w.finish_thread || (not (is_empty l.deal.req_queue) || empty l.queue)
    then w
    else elim l.in_hand [
      | none ↦ put_lane w k (record l { queue = l.deal; deal = l.queue })
      | some r ↦ w
    ]

abbrev pub rest {ℓ} : {A : Type ℓ} → List A → List A
rest [] = []
rest (x ∷ xs) = xs

-- The thread has taken this request from `deal`, with this result.
abbrev pub take_result : ℕ → Mosdop → World → Handled → World
take_result k m w h =
    let l = w.lanes k in
    let l1 : Lane = record l {
      deal = record {
        req_queue = rest l.deal.req_queue;
        ts_queue = rest l.deal.ts_queue;
        period = rest l.deal.period;
      };
      handled = l.handled ++ (m ∷ []);
    } in
    elim h [
      | handed r c ↦ record (put_lane w k (record l1 { in_hand = some r })) { counters = c }
      | replied rs c ↦ record (put_lane w k l1) { counters = c; replies = w.replies ++ rs }
      | dropped c ↦ record (put_lane w k l1) { counters = c }
      | crashed ↦ record (put_lane w k l1) { dead = true }
    ]

-- DoOneOps, once no copy-up is under way; a copy-up holds the ones after it back.
unfoldable pub issue : ℕ → World → World
issue k w =
    let l = w.lanes k in
    elim l.in_hand [
      | none ↦ w
      | some r ↦
          if l.copyup_flag
          then w
          else put_lane w k (record l {
            in_hand = none;
            copyup_flag = r.exits_copy_up;
            issued = l.issued ++ (r ∷ []);
          })
    ]

-- The cache is done with a copy-up of this thread.
unfoldable pub clear_copyup : ℕ → World → World
clear_copyup k w = put_lane w k (record (w.lanes k) { copyup_flag = false })

-- `hash` is std::hash; the capacity is queueMaxCapacity.
module _ (hash : Text → ℕ) (queue_num capacity : ℕ) (codec : Codec) (lim : Limits) where
  unfoldable pub route : Mosdop → ℕ
  route m = hash m.oid % queue_num

  -- EnqueueClientop, up to its end or to its wait; without a queue it divides by 0.
  unfoldable pub enqueue_clientop : Mosdop → ℕ → ℕ → World → World
  enqueue_clientop m ts p w =
      let l = w.lanes (route m) in
      if queue_num == 0
      then record w { dead = true }
      else if ltb capacity (get_size l.queue)
      then put_lane w (route m) (record l { blocked = l.blocked ++ (m ∷ []) })
      else enters (route m) m ts p w

  -- The thread takes the next request, unless it has one in its hands.
  unfoldable pub take_request : ℕ → World → World
  take_request k w = elim (w.lanes k).in_hand [
    | some r ↦ w
    | none ↦ elim (w.lanes k).deal.req_queue [
      | [] ↦ w
      | m ∷ ms ↦ take_result k m w (handle_request codec lim m w.counters)
    ]
  ]

  -- What one thread does between two waits: a messenger thread brings a request or wakes; handler
  -- thread k takes its queue, takes a request, or gives it to the cache; the cache ends a copy-up
  -- or a request; a messenger thread that has put a request into a queue is held up by
  -- LimitWrite; or StopThread is called.
  pub data Step : Type 0 where
    arrives : Mosdop → ℕ → ℕ → Step
    wakes : ℕ → ℕ → ℕ → ℕ → Step
    swaps takes issues clears : ℕ → Step
    finishes : Option Mosdop → ℕ → ℕ → ℤ → Step
    paces : Mosdop → Pace → Step
    stops : Step

  abbrev pub finish_step : World → List Reply × Counters → World
  finish_step w (rs, c) = record w { counters = c; replies = w.replies ++ rs }

  -- The end of EnqueueClientop
  unfoldable pub pace : Mosdop → Pace → World → World
  pace m p w =
      if lim.limit_write && contain_write_op m.ops
      then record w { quota = quota_of (limit_write lim.get_quota_cycle p m.ops w.quota) }
      else w

  abbrev pub live_step : Step → World → World
  live_step (arrives m ts p) w = enqueue_clientop m ts p w
  live_step (wakes k i ts p) w = wake k i ts p w
  live_step (swaps k) w = swap_queue k w
  live_step (takes k) w = take_request k w
  live_step (issues k) w = issue k w
  live_step (clears k) w = clear_copyup k w
  live_step (finishes m type len ret) w =
      finish_step w (finish_cache_ops lim m type len ret w.counters)
  live_step (paces m p) w = pace m p w
  live_step stops w = record w { finish_thread = true }

  unfoldable pub step : Step → World → World
  unfolding enqueue_clientop wake swap_queue take_request issue clear_copyup finish_cache_ops pace
  step s w = if w.dead then w else live_step s w

  unfoldable pub run : List Step → World → World
  run [] w = w
  run (s ∷ ss) w = run ss (step s w)
