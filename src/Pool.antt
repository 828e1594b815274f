-- ===== src/Pool.antt =====
-- The pool contexts of the proxy: src/ceph_proxy/PoolContext.h, and the calls of
-- src/ceph_proxy/CephProxy.cc and src/ceph_proxy/RadosWrapper.cc that create and release them.
pub mod Table
pub mod Contexts
pub mod Ownership
pub mod Calls
pub mod Race
