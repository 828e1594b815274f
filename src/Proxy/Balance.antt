-- ===== src/Proxy/Balance.antt =====
-- Init and then Shutdown of src/ceph_proxy/CephProxy.cc: which objects live after them.
use ceph_global_cache_adapto.Prelude.{
  ◌∙◌, [], sym, List, subst, ap, ℕ, suc, ◌≡◌, refl, ◌&&◌, ◌==◌, Bool, true, false, Option, none,
  some, arith, ◌||◌, if◌then◌else◌, ℤ, is_neg, ok_code, error_code,
}
use ceph_global_cache_adapto.Proxy.Life.{
  bound_then, proxy_initing, proxy_active, proxy_down, CephProxy, Setting, bind_messenger,
  start_pool_stat, start_worker, init_threads, proxy_init, shutdown, start_timer, activated,
}
use ceph_global_cache_adapto.Pool.Table.{Heap, init}
use ceph_global_cache_adapto.Pool.Ownership.{alive, holds}
use ceph_global_cache_adapto.Proxy.Config.{ProxyControlCfg, proxy_config_init}
use ceph_global_cache_adapto.Proxy.Client.{Pointer, null, object, fresh, rados_client_init}
use ceph_global_cache_adapto.Proxy.Gained.{Gained, rados_client_init-Gained}
use ceph_global_cache_adapto.Proxy.Release.{
  written, points_to, Allotted, owned, stoppable, shutdown_exact, threadless_shutdown,
}

-- A proxy that owns its client only, by the heap from before Init
record Client (h : Heap) (p : CephProxy) : Type 0 where
  gained : Gained p.rados_client h p.heap
  unfilled : (a : ℕ) → (holds a p.ptable.table1 || holds a p.ptable.table2) ≡ false

-- What a successful Init has added to the heap is what the proxy owns, and the adaptor of its monitor
-- where there is memory for one; the monitor has a thread exactly then.
pub record Started (ccm_new : Bool) (h : Heap) (q : CephProxy) : Type 0 where
  pub active : q.state ≡ proxy_active
  pub monitor : ℕ
  pub stat_made : q.pool_stat_manager ≡ object monitor
  pub joinable : q.timer ≡ ccm_new
  pub worker_written : written q.worker ≡ true
  pub client_written : written q.rados_client ≡ true
  pub adaptor : ℕ
  pub adaptor_at : q.ccm_adaptor ≡ (if ccm_new then object adaptor else null)
  pub adaptor_new : alive adaptor h ≡ false
  pub added : (a : ℕ) → alive a q.heap ≡ ((alive a h || owned a q) || (ccm_new && a == adaptor))
  pub unowned : (a : ℕ) → owned a q ≡ true → alive a h ≡ false
  pub apart : owned adaptor q ≡ false

-- The proxy with a worker and a monitor at the next two addresses, without and with an adaptor
abbrev staffed : CephProxy → CephProxy
staffed p = record p {
  worker = object p.heap.next;
  io_workers = [];
  pool_stat_manager = object (fresh p.heap).next;
  ccm_adaptor = null;
  timer = false;
  state = proxy_active;
  heap = fresh (fresh p.heap);
}

abbrev timed : CephProxy → CephProxy
timed p = record (staffed p) {
  ccm_adaptor = object (fresh (fresh p.heap)).next;
  timer = true;
  heap = fresh (fresh (fresh p.heap));
}

-- The address of the adaptor was not in use, and is that of no object of the client.
later_address :
    (h : Heap) (p : CephProxy)
    → Client h p
    → (alive (suc (suc p.heap.next)) h ≡ false)
      × (points_to (suc (suc p.heap.next)) p.rados_client ≡ false)
later_address h p c =
    let a = suc (suc p.heap.next) in
    (
      ground (arith, c.gained.others a, c.gained.allotted a),
      ground (arith, c.gained.others a, c.gained.allotted a),
    )

staffed-Started : (h : Heap) (p : CephProxy) → Client h p → Started false h (staffed p)
staffed-Started h p c = record {
  active = refl;
  monitor = (fresh p.heap).next;
  stat_made = refl;
  joinable = refl;
  worker_written = refl;
  client_written = c.gained.was_written;
  adaptor = suc (suc p.heap.next);
  adaptor_at = refl;
  adaptor_new = (later_address h p c).0;
  added = λ a. ground (arith, c.gained.others a, c.unfilled a);
  unowned = λ a e.
      ground (arith, c.gained.others a, c.gained.unowned a, c.gained.allotted a, c.unfilled a);
  apart = ground (arith, (later_address h p c).1, c.unfilled (suc (suc p.heap.next)));
}

timed-Started : (h : Heap) (p : CephProxy) → Client h p → Started true h (timed p)
timed-Started h p c = record {
  active = refl;
  monitor = (fresh p.heap).next;
  stat_made = refl;
  joinable = refl;
  worker_written = refl;
  client_written = c.gained.was_written;
  adaptor = suc (suc p.heap.next);
  adaptor_at = refl;
  adaptor_new = (later_address h p c).0;
  added = λ a. ground (arith, c.gained.others a, c.unfilled a);
  unowned = λ a e.
      ground (arith, c.gained.others a, c.gained.unowned a, c.gained.allotted a, c.unfilled a);
  apart = ground (arith, (later_address h p c).1, c.unfilled (suc (suc p.heap.next)));
}

-- The worker, the monitor and its thread over the tests for memory and for an update that throws
abbrev manned : Bool → Bool → Bool → Bool → CephProxy → Option (ℤ × CephProxy)
manned w m c u p =
    let working = record p { worker = object p.heap.next; io_workers = []; heap = fresh p.heap } in
    let idle = record working {
      pool_stat_manager = object working.heap.next;
      ccm_adaptor = null;
      timer = false;
      heap = fresh working.heap;
    } in
    let started =
      if c
      then if u
        then some (record idle {
          ccm_adaptor = object idle.heap.next;
          timer = true;
          heap = fresh idle.heap;
        })
        else none
      else some idle in
    if w
    then if m
      then activated started
      else some (error_code, record working { pool_stat_manager = null })
    else some (error_code, record p { worker = null })

some-some : (r t : ℤ × CephProxy) → some r ≡ some t → r ≡ t
some-some r t e = cc

manned-Started :
    (w m c u : Bool) (h : Heap) (p q : CephProxy)
    → Client h p
    → manned w m c u p ≡ some (ok_code, q)
    → Started c h q
manned-Started false m c u h p q k e = absurd (ground (arith, ap (λ r. r.0) (some-some _ _ e)))
manned-Started true false c u h p q k e = absurd (ground (arith, ap (λ r. r.0) (some-some _ _ e)))
manned-Started true true true false h p q k e = absurd (ground arith)
manned-Started true true true true h p q k e =
    subst (Started true h) (ap (λ r. r.1) (some-some _ _ e)) (timed-Started h p k)
manned-Started true true false u h p q k e =
    subst (Started false h) (ap (λ r. r.1) (some-some _ _ e)) (staffed-Started h p k)

start_worker-Started :
    (s : Setting) (h : Heap) (p q : CephProxy)
    → Client h p
    → start_worker s p ≡ some (ok_code, q)
    → Started s.ccm_new h q
unfolding start_worker start_pool_stat start_timer
start_worker-Started s h p q c e =
    manned-Started s.worker_new s.stat_new s.ccm_new s.update_returns h p q c e

bound_then-some :
    (o : Option (List (ℕ × ℕ))) (r : Option (ℤ × CephProxy)) (t : ℤ × CephProxy)
    → bound_then o r ≡ some t
    → r ≡ some t
bound_then-some none r t e = absurd (ground arith)
bound_then-some (some b) r t e = e

init_threads-Started :
    (s : Setting) (c : ProxyControlCfg) (h : Heap) (p q : CephProxy)
    → Gained p.rados_client h p.heap
    → init_threads s c p ≡ some (ok_code, q)
    → Started s.ccm_new h q
unfolding init_threads init
init_threads-Started s c h p q g e =
    let p' : CephProxy = record p { ptable = init } in
    start_worker-Started s h p' q (record { gained = g; unfilled = λ a. refl })
      (bound_then-some (bind_messenger s c) (start_worker s p') (ok_code, q) e)

-- Init after RadosClientInit, over the test of its code
abbrev with_client_if :
    Setting → ProxyControlCfg → CephProxy → Bool → ℤ × Pointer × Heap → Option (ℤ × CephProxy)
with_client_if s c p b (ret, client, h) =
    if b
    then some (ret, record p { rados_client = client; state = proxy_initing; heap = h })
    else init_threads s c (record p { rados_client = client; state = proxy_initing; heap = h })

with_client-Started :
    (s : Setting) (c : ProxyControlCfg) (p q : CephProxy) (b : Bool) (r : ℤ × Pointer × Heap)
    → b ≡ is_neg r.0
    → (is_neg r.0 ≡ false → Gained r.1 p.heap r.2)
    → with_client_if s c p b r ≡ some (ok_code, q)
    → Started s.ccm_new p.heap q
with_client-Started s c p q true (ret, client, h) t g e =
    let k : ret ≡ ok_code = ap (λ r. r.0) (some-some _ _ e) in
    absurd (ground (arith, t ∙ ap is_neg k))
with_client-Started s c p q false (ret, client, h) t g e =
    init_threads-Started s c p.heap
      (record p { rados_client = client; state = proxy_initing; heap = h }) q (g (sym t)) e

-- A successful Init, from any proxy whose heap is in order, leaves an active proxy that owns what
-- the heap has gained, its client, its worker and its monitor, and nothing that lived before.
proxy_init-Started :
    (s : Setting) (p q : CephProxy)
    → Allotted p.heap
    → proxy_init s p ≡ some (ok_code, q)
    → Started s.ccm_new p.heap q
unfolding proxy_init
proxy_init-Started s p q ok e =
    let c = (proxy_config_init s.items).1 in
    let r = rados_client_init s.librados c.ceph_conf_path c p.rados_client p.heap in
    with_client-Started s c p q (is_neg r.0) r refl
      (λ n. rados_client_init-Gained s.librados c.ceph_conf_path c p.rados_client p.heap ok n) e

-- How Shutdown ends after an Init that began with the heap h: without an adaptor it throws. With
-- one it succeeds, the proxy is down with empty tables, and the objects that live are those of h and
-- one more, the adaptor.
abbrev pub Closed : Bool → Heap → CephProxy → Type 0
Closed false h q = shutdown q ≡ none
Closed true h q =
    (r : CephProxy) × (leak : ℕ) × (shutdown q ≡ some r)
    × (r.state ≡ proxy_down)
    × (r.ptable ≡ init)
    × (q.ccm_adaptor ≡ object leak)
    × (alive leak h ≡ false)
    × ((a : ℕ) → alive a r.heap ≡ (alive a h || a == leak))

Started-Closed : (b : Bool) (h : Heap) (q : CephProxy) → Started b h q → Closed b h q
Started-Closed false h q v = threadless_shutdown q v.monitor v.stat_made v.joinable
Started-Closed true h q v =
    let stops : stoppable q ≡ true = rw v.stat_made v.joinable in
    let (r, done, gone) = shutdown_exact q stops v.worker_written v.client_written in
    (
      r,
      v.adaptor,
      done,
      gone.down,
      gone.emptied,
      v.adaptor_at,
      v.adaptor_new,
      λ a. ground (arith, gone.others a, v.added a, v.unowned a, v.apart),
    )

pub proxy_init-shutdown_exact :
    (s : Setting) (p q : CephProxy)
    → Allotted p.heap
    → proxy_init s p ≡ some (ok_code, q)
    → (q.state ≡ proxy_active) × Closed s.ccm_new p.heap q
proxy_init-shutdown_exact s p q ok e =
    let v = proxy_init-Started s p q ok e in (v.active, Started-Closed s.ccm_new p.heap q v)
