-- ===== src/Examples/Proxying.antt =====
-- The proxy's start and end, src/ceph_proxy/CephProxy.cc and RadosWrapper.cc, at concrete inputs.
use ceph_global_cache_adapto.Prelude.Text.{Text, codes, prefix_of, decimal}
use ceph_global_cache_adapto.Prelude.{
  List, false, ℕ, is_neg, if◌then◌else◌, ◌≡◌, refl, true, none, some, [], ◌∷◌, ◌++◌, arith, pos,
  negsuc, ok_code, leb,
}
use ceph_global_cache_adapto.Proxy.Interface.{
  Instance, absent, ceph_proxy_init, ceph_proxy_shutdown, get_ceph_proxy_instance,
}
use ceph_global_cache_adapto.Proxy.Life.{
  proxy_initing, proxy_active, CephProxy, ceph_proxy, Setting, proxy_init, shutdown, client_of,
}
use ceph_global_cache_adapto.Proxy.Release.{Allotted, Released, shutdown_exact}
use ceph_global_cache_adapto.Pool.Table.{Heap, init}
use ceph_global_cache_adapto.Proxy.Config.{ProxyItems}
use ceph_global_cache_adapto.Proxy.Client.{Librados, unwritten, null, object, rados_client_init}
use ceph_global_cache_adapto.Proxy.Binding.{rados_bind_msgr_worker}
use ceph_global_cache_adapto.Proxy.Rounds.{Rounds}
use ceph_global_cache_adapto.Proxy.Order.{
  Descending, count, named, readable, LargestDispatcher, rados_bind_msgr_worker-Descending,
}
use ceph_global_cache_adapto.Proxy.Balance.{Closed, proxy_init-shutdown_exact}
use ceph_global_cache_adapto.Proxy.Refusal.{refused_init_poisons_instance}

abbrev all_items : ProxyItems
all_items = record { cstr = λ key. some (codes "/etc/proxy"); uint64 = λ key. some 1 }

-- A cluster that answers the third attempt to connect
abbrev answering : Librados
answering = record {
  allocated = true;
  init = pos 0;
  conf_read_file = λ path. pos 0;
  conf_get_auth = (pos 0, codes "none");
  conf_set = λ key value. pos 0;
  connect = λ n. if leb 2 n then pos 0 else negsuc 109;
}

abbrev two_live : Heap
two_live = record { next = 3; live = 2 ∷ 0 ∷ [] }

abbrev no_binding : Setting
no_binding = record {
  items = all_items;
  librados = answering;
  has_pid = true;
  tasks = none;
  worker_new = true;
  stat_new = true;
  ccm_new = true;
  update_returns = true;
}

abbrev started : CephProxy
started = record {
  rados_client = object 3;
  ptable = init;
  worker = object 4;
  io_workers = [];
  pool_stat_manager = object 5;
  ccm_adaptor = object 6;
  timer = true;
  state = proxy_active;
  heap = record { next = 7; live = 6 ∷ 5 ∷ 4 ∷ 3 ∷ 2 ∷ 0 ∷ [] };
}

starts : proxy_init no_binding (ceph_proxy two_live) ≡ some (ok_code, started)
unfolding proxy_init ceph_proxy
starts = refl

two_live-Allotted : Allotted two_live
two_live-Allotted a e = ground arith

proxy_init-shutdown_exact_example : (started.state ≡ proxy_active) × Closed true two_live started
unfolding ceph_proxy
proxy_init-shutdown_exact_example =
    proxy_init-shutdown_exact no_binding (ceph_proxy two_live) started two_live-Allotted starts

-- Without memory for the adaptor
abbrev no_adaptor : Setting
no_adaptor = record no_binding { ccm_new = false }

abbrev threadless : CephProxy
threadless = record started {
  ccm_adaptor = null;
  timer = false;
  heap = record { next = 6; live = 5 ∷ 4 ∷ 3 ∷ 2 ∷ 0 ∷ [] };
}

starts_threadless : proxy_init no_adaptor (ceph_proxy two_live) ≡ some (ok_code, threadless)
unfolding proxy_init ceph_proxy
starts_threadless = refl

-- A proxy with two contexts in its tables, and two workers for pools
abbrev working : CephProxy
working = record started {
  ptable = record { table1 = ("rbd", 7) ∷ []; table2 = (pos 4, 8) ∷ [] };
  io_workers = 9 ∷ 10 ∷ [];
  heap = record { next = 11; live = 10 ∷ 9 ∷ 8 ∷ 7 ∷ started.heap.live };
}

shutdown_exact_example : (q : CephProxy) × (shutdown working ≡ some q) × Released working q
shutdown_exact_example = shutdown_exact working refl refl refl

-- A cluster whose configuration file cannot be read
abbrev unreadable : Setting
unreadable = record no_binding { librados = record answering { conf_read_file = λ path. negsuc 1 } }

refused : is_neg (client_of unreadable (ceph_proxy two_live)).0 ≡ true
unfolding ceph_proxy rados_client_init
refused = refl

refused_init_poisons_instance_example :
    (q : CephProxy) × (i : Instance) × (ceph_proxy_init true true unreadable (absent two_live)
      ≡ some ((client_of unreadable (ceph_proxy two_live)).0, false, i))
    × (get_ceph_proxy_instance i ≡ some q)
    × (q.state ≡ proxy_initing)
    × (q.worker ≡ unwritten)
    × (q.pool_stat_manager ≡ unwritten)
    × (ceph_proxy_shutdown true i ≡ none)
refused_init_poisons_instance_example = refused_init_poisons_instance unreadable two_live refused

abbrev tasks : List (Text × Text)
tasks =
    (codes "71", codes "Name:\tms_dispatch")
    ∷ (codes "64", codes "Name:\tmsgr-worker-0")
    ∷ (codes "60", codes "Name:\tmain")
    ∷ (codes "65", codes "Name:\tmsgr-worker-1")
    ∷ []

bound_tasks :
    rados_bind_msgr_worker (26 ∷ 27 ∷ []) (some (readable tasks))
    ≡ some ((65, 26) ∷ (64, 27) ∷ (71, 26) ∷ [])
unfolding rados_bind_msgr_worker decimal prefix_of
bound_tasks = refl

rados_bind_msgr_worker-Descending_example :
    (order : List ℕ) × (last : List ℕ) × Descending order
    × ((t : ℕ) → count t order ≡ named (codes "msgr-worker-") t tasks)
    × LargestDispatcher tasks last
    × Rounds
        (26 ∷ 27 ∷ [])
        (order ++ last)
        0
        (rados_bind_msgr_worker (26 ∷ 27 ∷ []) (some (readable tasks)))
rados_bind_msgr_worker-Descending_example =
    rados_bind_msgr_worker-Descending (26 ∷ 27 ∷ []) tasks (omega arith)
