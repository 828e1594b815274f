-- ===== src/Proxy/Interface.antt =====
-- src/ceph_proxy/CephProxyInterface.cc, lines 15-53, and GetProxy of src/ceph_proxy/CephProxy.h: the
-- one proxy of the process, which the C interface hands out.
use ceph_global_cache_adapto.Prelude.{
  ◌>>=◌, Bool, true, false, Option, none, some, ℤ, neg, einval, is_neg, if◌then◌else◌,
}
use ceph_global_cache_adapto.Pool.Table.{Heap}
use ceph_global_cache_adapto.Proxy.Life.{CephProxy, ceph_proxy, Setting, proxy_init, shutdown}

-- CephProxy::instance: nullptr, with the heap of the process, or the proxy
pub data Instance : Type 0 where
  absent : Heap → Instance
  present : CephProxy → Instance

-- GetProxy; `allocated` says whether `new` succeeds.
unfoldable pub get_proxy : Bool → Instance → Option CephProxy
unfolding ceph_proxy
get_proxy allocated (present p) = some p
get_proxy true (absent h) = some (ceph_proxy h)
get_proxy false (absent h) = none

-- GetCephProxyInstance
unfoldable pub get_ceph_proxy_instance : Instance → Option CephProxy
get_ceph_proxy_instance (absent h) = none
get_ceph_proxy_instance (present p) = some p

-- The code, whether the caller gets the proxy, and the instance, which stays where Init fails.
abbrev pub handed_out : ℤ × CephProxy → ℤ × Bool × Instance
handed_out (ret, p) = (ret, if is_neg ret then false else true, present p)

-- CephProxyInit, with a mark for pointers that are all not null; `none` for the use of a null proxy
-- or a remainder by 0.
unfoldable pub ceph_proxy_init : Bool → Bool → Setting → Instance → Option (ℤ × Bool × Instance)
unfolding get_proxy proxy_init
ceph_proxy_init false allocated s i = some (neg einval, false, i)
ceph_proxy_init true allocated s i = do
  p ← get_proxy allocated i
  r ← proxy_init s p
  some (handed_out r)

-- CephProxyShutdown, of a null pointer or of the instance
unfoldable pub ceph_proxy_shutdown : Bool → Instance → Option Instance
unfolding shutdown
ceph_proxy_shutdown false i = some i
ceph_proxy_shutdown true (absent h) = none
ceph_proxy_shutdown true (present p) = do q ← shutdown p; some (absent q.heap)
