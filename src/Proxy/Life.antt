-- ===== src/Proxy/Life.antt =====
-- src/ceph_proxy/CephProxy.cc and CephProxy.h: the state of the proxy, Init and Shutdown. The
-- heap has the client, the contexts, the worker with a RadosIOWorker for each pool, and the monitor
-- of the pools with its adaptor (Start and Stop of RadosMonitor.cc, lines 569-588, and Stop of
-- RadosWorker.h). What their threads do is in the modules Worker and Monitor.
use ceph_global_cache_adapto.Prelude.{
  false, true, ◌∷◌, ◌>>=◌, ℕ, Bool, Option, none, some, List, [], ◌==◌, ◌&&◌, if◌then◌else◌, map, ℤ,
  is_neg, ok_code, error_code,
}
use ceph_global_cache_adapto.Prelude.Text.{Text, tokens, atoi, of_int32}
use ceph_global_cache_adapto.Pool.Table.{Heap, release, IoCtxTable, init, clear}
use ceph_global_cache_adapto.Proxy.Config.{
  ProxyItems, ProxyControlCfg, proxy_config_init, proxy_get_bind_core,
}
use ceph_global_cache_adapto.Proxy.Client.{
  Librados, Pointer, unwritten, null, object, fresh, rados_client_init, rados_client_shutdown,
}
use ceph_global_cache_adapto.Proxy.Binding.{Tasks, rados_bind_msgr_worker}

pub data CephProxyState : Type 0 where
  proxy_initing proxy_active proxy_down : CephProxyState

-- `io_workers` are those that the worker has made, `ccm_adaptor` and `timer` the adaptor of the
-- monitor and whether it has a thread to join.
pub record CephProxy : Type 0 where
  pub rados_client : Pointer
  pub ptable : IoCtxTable
  pub worker : Pointer
  pub io_workers : List ℕ
  pub pool_stat_manager : Pointer
  pub ccm_adaptor : Pointer
  pub timer : Bool
  pub state : CephProxyState
  pub heap : Heap

-- The constructor: it writes the state only.
unfoldable pub ceph_proxy : Heap → CephProxy
unfolding init
ceph_proxy h = record {
  rados_client = unwritten;
  ptable = init;
  worker = unwritten;
  io_workers = [];
  pool_stat_manager = unwritten;
  ccm_adaptor = null;
  timer = false;
  state = proxy_down;
  heap = h;
}

-- What Init finds: the configuration, librados, whether the number of the thread is known, the
-- tasks of the process, whether there is memory for the worker, the monitor and the adaptor, and
-- whether the first update of the monitor returns, where it might throw (Monitor.Update).
pub record Setting : Type 0 where
  pub items : ProxyItems
  pub librados : Librados
  pub has_pid : Bool
  pub tasks : Option Tasks
  pub worker_new : Bool
  pub stat_new : Bool
  pub ccm_new : Bool
  pub update_returns : Bool

-- The configured cores, as unsigned numbers
unfoldable pub core_ids_of : Text → List ℕ
unfolding tokens atoi
core_ids_of s = map (λ t. of_int32 (atoi t)) (tokens (λ c. c == b',') s)

-- The threads of the messenger, where they are bound; `none` for a remainder by 0.
unfoldable pub bind_messenger : Setting → ProxyControlCfg → Option (List (ℕ × ℕ))
unfolding core_ids_of proxy_get_bind_core rados_bind_msgr_worker
bind_messenger s c =
    if s.has_pid && (proxy_get_bind_core c == 1)
    then rados_bind_msgr_worker (core_ids_of c.core_ids) s.tasks
    else some []

-- PoolUsageStat::Start: without memory for the adaptor there is no thread. `none` for an update that
-- throws.
unfoldable pub start_timer : Setting → CephProxy → Option CephProxy
start_timer s p =
    if s.ccm_new
    then if s.update_returns
      then some (record p { ccm_adaptor = object p.heap.next; timer = true; heap = fresh p.heap })
      else none
    else some p

-- The last lines of Init
abbrev pub activated : Option CephProxy → Option (ℤ × CephProxy)
activated none = none
activated (some p) = some (ok_code, record p { state = proxy_active })

-- The last part of Init: the monitor of the pools
unfoldable pub start_pool_stat : Setting → CephProxy → Option (ℤ × CephProxy)
unfolding start_timer
start_pool_stat s p =
    let started = start_timer s (record p {
      pool_stat_manager = object p.heap.next;
      ccm_adaptor = null;
      timer = false;
      heap = fresh p.heap;
    }) in
    if s.stat_new
    then activated started
    else some (error_code, record p { pool_stat_manager = null })

-- The worker, and then the monitor
unfoldable pub start_worker : Setting → CephProxy → Option (ℤ × CephProxy)
unfolding start_pool_stat
start_worker s p =
    let working = record p { worker = object p.heap.next; io_workers = []; heap = fresh p.heap } in
    if s.worker_new
    then start_pool_stat s working
    else some (error_code, record p { worker = null })

-- What follows the binding of the threads
abbrev pub bound_then : Option (List (ℕ × ℕ)) → Option (ℤ × CephProxy) → Option (ℤ × CephProxy)
bound_then none r = none
bound_then (some b) r = r

-- Init from the tables on
unfoldable pub init_threads : Setting → ProxyControlCfg → CephProxy → Option (ℤ × CephProxy)
unfolding init bind_messenger start_worker
init_threads s c p = bound_then (bind_messenger s c) (start_worker s (record p { ptable = init }))

-- Init after RadosClientInit
abbrev pub with_client :
    Setting → ProxyControlCfg → CephProxy → ℤ × Pointer × Heap → Option (ℤ × CephProxy)
with_client s c p (ret, client, h) =
    if is_neg ret
    then some (ret, record p { rados_client = client; state = proxy_initing; heap = h })
    else init_threads s c (record p { rados_client = client; state = proxy_initing; heap = h })

-- RadosClientInit, as Init calls it
abbrev pub client_of : Setting → CephProxy → ℤ × Pointer × Heap
client_of s p =
    let c = (proxy_config_init s.items).1 in
    rados_client_init s.librados c.ceph_conf_path c p.rados_client p.heap

-- Init: the code of the configuration is reported and forgotten. `none` for a remainder by 0, or
-- an update that throws.
unfoldable pub proxy_init : Setting → CephProxy → Option (ℤ × CephProxy)
unfolding proxy_config_init rados_client_init init_threads
proxy_init s p = with_client s (proxy_config_init s.items).1 p (client_of s p)

-- PoolUsageStat::Stop and its delete: to join a thread that Start never made throws. The adaptor is
-- not deleted. `none` for a throw, and for a pointer that was never written.
unfoldable pub stop_pool_stat : CephProxy → Option Heap
unfolding release
stop_pool_stat p = elim p.pool_stat_manager [
  | unwritten ↦ none
  | null ↦ some p.heap
  | object a ↦ if p.timer then some (release a p.heap) else none
]

unfoldable pub release_list : List ℕ → Heap → Heap
unfolding release
release_list [] h = h
release_list (a ∷ as') h = release_list as' (release a h)

-- RadosWorker::Stop and its delete: each RadosIOWorker is stopped, for which see Worker, and
-- deleted. `none` for a pointer that was never written.
unfoldable pub stop_worker : Pointer → List ℕ → Heap → Option Heap
unfolding release_list
stop_worker unwritten workers h = none
stop_worker null workers h = some h
stop_worker (object a) workers h = some (release a (release_list workers h))

-- Shutdown; `none` where it uses a pointer that was never written, or throws. The client pointer
-- stays.
unfoldable pub shutdown : CephProxy → Option CephProxy
unfolding stop_pool_stat stop_worker clear rados_client_shutdown
shutdown p = do
  stopped ← stop_pool_stat p
  joined ← stop_worker p.worker p.io_workers stopped
  h ← rados_client_shutdown p.rados_client (clear p.ptable joined).1
  some (record p {
    pool_stat_manager = null;
    ccm_adaptor = null;
    timer = false;
    worker = null;
    io_workers = [];
    ptable = (clear p.ptable joined).0;
    state = proxy_down;
    heap = h;
  })

-- RegisterPoolNewNotifyFn, GetPoolInfo and GetPoolUsedSizeAndMaxAvail: what the monitor answers, or
-- -1 where there is none; `none` for a pointer that was never written.
unfoldable pub ask_pool_stat : CephProxy → ℤ → Option ℤ
ask_pool_stat p answer = elim p.pool_stat_manager [
  | unwritten ↦ none
  | null ↦ some error_code
  | object a ↦ some answer
]
