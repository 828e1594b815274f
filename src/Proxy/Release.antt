-- ===== src/Proxy/Release.antt =====
-- Shutdown of src/ceph_proxy/CephProxy.cc: which objects live after it.
use ceph_global_cache_adapto.Prelude.{
  ℕ, ◌<◌, ◌≡◌, refl, Bool, true, false, Option, none, some, List, [], ◌∷◌, if◌then◌else◌, arith,
  ◌==◌, ◌&&◌, ◌||◌, not,
}
use ceph_global_cache_adapto.Pool.Table.{Heap, release, init, clear}
use ceph_global_cache_adapto.Pool.Ownership.{elem, alive, holds, alive-release, clear_exact}
use ceph_global_cache_adapto.Proxy.Client.{Pointer, unwritten, null, object, rados_client_shutdown}
use ceph_global_cache_adapto.Proxy.Life.{
  proxy_down, CephProxy, stop_pool_stat, release_list, stop_worker, shutdown,
}

abbrev pub points_to : ℕ → Pointer → Bool
points_to a unwritten = false
points_to a null = false
points_to a (object b) = a == b

abbrev pub written : Pointer → Bool
written unwritten = false
written null = true
written (object b) = true

-- Every object that lives was handed out by the allocator.
abbrev pub Allotted : Heap → Type 0
Allotted h = (a : ℕ) → alive a h ≡ true → a < h.next

-- The monitor is null, or has a thread to join.
abbrev pub stoppable : CephProxy → Bool
stoppable p = elim p.pool_stat_manager [ unwritten ↦ false | null ↦ true | object a ↦ p.timer ]

-- The worker at the pointer, and those that it has made
abbrev pub employs : ℕ → Pointer → List ℕ → Bool
employs a unwritten workers = false
employs a null workers = false
employs a (object b) workers = a == b || elem a workers

-- The outcome is a heap without the objects that pass the test.
abbrev pub Disposed : (ℕ → Bool) → Heap → Option Heap → Type 0
Disposed gone h o =
    (h' : Heap) × (o ≡ some h') × ((a : ℕ) → alive a h' ≡ (alive a h && not (gone a)))

alive-release_list :
    (a : ℕ) (xs : List ℕ) (h : Heap) → alive a (release_list xs h) ≡ (alive a h && not (elem a xs))
unfolding release_list
alive-release_list a [] h = ground arith
alive-release_list a (x ∷ xs) h =
    ground (arith, alive-release_list a xs (release x h), alive-release a x h)

stop_pool_stat_lem :
    (p : CephProxy)
    → stoppable p ≡ true
    → Disposed (λ a. points_to a p.pool_stat_manager) p.heap (stop_pool_stat p)
unfolding stop_pool_stat
stop_pool_stat_lem p t = monitor p.pool_stat_manager p.timer p.heap t
  where
    monitor :
        (m : Pointer) (timer : Bool) (h : Heap)
        → (elim m [ unwritten ↦ false | null ↦ true | object a ↦ timer ]) ≡ true
        → Disposed
            (λ a. points_to a m)
            h
            (elim m [
              | unwritten ↦ none
              | null ↦ some h
              | object a ↦ if timer then some (release a h) else none
            ])
    monitor unwritten timer h t = absurd (ground arith)
    monitor null timer h t = (h, refl, λ a. ground arith)
    monitor (object b) false h t = absurd (ground arith)
    monitor (object b) true h t = (release b h, refl, λ a. alive-release a b h)

stop_worker_lem :
    (w : Pointer) (workers : List ℕ) (h : Heap)
    → written w ≡ true
    → Disposed (λ a. employs a w workers) h (stop_worker w workers h)
unfolding stop_worker
stop_worker_lem unwritten workers h w = absurd (ground arith)
stop_worker_lem null workers h w = (h, refl, λ a. ground arith)
stop_worker_lem (object b) workers h w = (
  release b (release_list workers h),
  refl,
  λ a. ground (arith, alive-release a b (release_list workers h), alive-release_list a workers h),
)

rados_client_shutdown_lem :
    (p : Pointer) (h : Heap)
    → written p ≡ true
    → Disposed (λ a. points_to a p) h (rados_client_shutdown p h)
unfolding rados_client_shutdown
rados_client_shutdown_lem unwritten h w = absurd (ground arith)
rados_client_shutdown_lem null h w = (h, refl, λ a. ground arith)
rados_client_shutdown_lem (object b) h w = (release b h, refl, λ a. alive-release a b h)

-- What Shutdown deletes of the proxy: the contexts of its tables, its client, its worker with those
-- that it has made, and its monitor. The monitor's adaptor is not among them.
abbrev pub owned : ℕ → CephProxy → Bool
owned a p =
    (holds a p.ptable.table1 || holds a p.ptable.table2)
    || (points_to a p.rados_client
        || (employs a p.worker p.io_workers || points_to a p.pool_stat_manager))

-- The proxy is down, its tables are empty, and of the objects those that `p` owns are gone.
pub record Released (p q : CephProxy) : Type 0 where
  pub down : q.state ≡ proxy_down
  pub emptied : q.ptable ≡ init
  pub others : (a : ℕ) → alive a q.heap ≡ (alive a p.heap && not (owned a p))

-- Shutdown of a proxy whose three pointers were written, be they null, and whose monitor, if it has
-- one, has a thread to join, succeeds once the threads have ended: the proxy is down, its tables are
-- empty, and an object lives on if and only if it did and is neither a context of the tables nor the
-- client, the worker, one of the RadosIOWorkers that the worker has made, or the monitor. The adaptor
-- of the monitor is not among these.
pub shutdown_exact :
    (p : CephProxy)
    → stoppable p ≡ true
    → written p.worker ≡ true
    → written p.rados_client ≡ true
    → (q : CephProxy) × (shutdown p ≡ some q) × Released p q
unfolding shutdown
shutdown_exact p m w c =
    let (stopped, e1, l1) = stop_pool_stat_lem p m in
    let (joined, e2, l2) = stop_worker_lem p.worker p.io_workers stopped w in
    let (h, e3, l3) = rados_client_shutdown_lem p.rados_client (clear p.ptable joined).1 c in
    (
      record p {
        pool_stat_manager = null;
        ccm_adaptor = null;
        timer = false;
        worker = null;
        io_workers = [];
        ptable = (clear p.ptable joined).0;
        state = proxy_down;
        heap = h;
      },
      rw (e1, e2, e3),
      record {
        down = refl;
        emptied = (clear_exact 0 p.ptable joined).0;
        others = λ a. ground (arith, l1 a, l2 a, l3 a, (clear_exact a p.ptable joined).1);
      },
    )

-- Where the monitor has no thread, Shutdown throws.
pub threadless_shutdown :
    (p : CephProxy) (b : ℕ) → p.pool_stat_manager ≡ object b → p.timer ≡ false → shutdown p ≡ none
unfolding shutdown stop_pool_stat
threadless_shutdown p b m t = rw (m, t) refl
