-- ===== src/Monitor.antt =====
-- src/ceph_proxy/RadosMonitor.cc and .h: the usage of the pools, read from the cluster every few
-- seconds.
pub mod Units
pub mod Stat
pub mod Profile
pub mod Record
pub mod Update
pub mod Compare
pub mod Rounds
