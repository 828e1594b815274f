-- ===== src/Proxy/Refusal.antt =====
-- What fails in Init of src/ceph_proxy/CephProxy.cc, and what it leaves to Shutdown.
use ceph_global_cache_adapto.Prelude.{false, ◌≡◌, refl, true, none, some, is_neg}
use ceph_global_cache_adapto.Proxy.Interface.{
  Instance, absent, present, get_proxy, ceph_proxy_init, ceph_proxy_shutdown,
  get_ceph_proxy_instance,
}
use ceph_global_cache_adapto.Pool.Table.{Heap}
use ceph_global_cache_adapto.Proxy.Client.{unwritten}
use ceph_global_cache_adapto.Proxy.Life.{
  proxy_initing, CephProxy, ceph_proxy, client_of, Setting, proxy_init, stop_pool_stat, shutdown,
}

-- When the client of librados is refused to a new proxy, Init returns the client's code, the proxy
-- stays in the state of initialising without a worker or a monitor, and a Shutdown after it uses a pointer
-- that was never written.
refused_client_breaks_shutdown :
    (s : Setting) (h : Heap)
    → is_neg (client_of s (ceph_proxy h)).0 ≡ true
    → (q : CephProxy) × (proxy_init s (ceph_proxy h) ≡ some ((client_of s (ceph_proxy h)).0, q))
      × (q.state ≡ proxy_initing)
      × (q.worker ≡ unwritten)
      × (q.pool_stat_manager ≡ unwritten)
      × (shutdown q ≡ none)
unfolding proxy_init shutdown stop_pool_stat ceph_proxy
refused_client_breaks_shutdown s h e = (
  record (ceph_proxy h) {
    rados_client = (client_of s (ceph_proxy h)).1;
    state = proxy_initing;
    heap = (client_of s (ceph_proxy h)).2;
  },
  rw e,
  refl,
  refl,
  refl,
  refl,
)

-- When the client of librados is refused to the first CephProxyInit of a process, the caller gets the
-- client's negative code and no proxy. The instance stays all the same: GetCephProxyInstance hands out
-- a proxy that is initialising, whose worker and monitor nobody wrote, and CephProxyShutdown of it uses
-- one of these pointers.
pub refused_init_poisons_instance :
    (s : Setting) (h : Heap)
    → is_neg (client_of s (ceph_proxy h)).0 ≡ true
    → (q : CephProxy) × (i : Instance) × (ceph_proxy_init true true s (absent h)
        ≡ some ((client_of s (ceph_proxy h)).0, false, i))
      × (get_ceph_proxy_instance i ≡ some q)
      × (q.state ≡ proxy_initing)
      × (q.worker ≡ unwritten)
      × (q.pool_stat_manager ≡ unwritten)
      × (ceph_proxy_shutdown true i ≡ none)
unfolding ceph_proxy_init ceph_proxy_shutdown get_proxy get_ceph_proxy_instance
refused_init_poisons_instance s h e =
    let (q, returned, initing, worker, stat, undefined) = refused_client_breaks_shutdown s h e in
    (q, present q, rw (returned, e), refl, initing, worker, stat, rw undefined)
