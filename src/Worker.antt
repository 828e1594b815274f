-- ===== src/Worker.antt =====
-- The proxy's worker, src/ceph_proxy/RadosWorker.cc and .h: a queue for each pool, and the thread
-- that hands its operations to librados.
pub mod Machine
pub mod Service
pub mod Wakeups
pub mod Drain
pub mod Pools
