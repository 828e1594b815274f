-- ===== src/Examples.antt =====
-- Runs of the theorems at concrete inputs, by the source's part: the counters of
-- src/server_adaptor/network_module.cpp, the tables of src/ceph_proxy/PoolContext.h, the monitor of
-- src/ceph_proxy/RadosMonitor.cc, and the requests of src/server_adaptor.
mod Counters
mod Tables
mod Usage
mod Wire
mod Traffic
mod Jobs
mod Encoding
mod Answers
mod Loading
mod Proxying
mod Starting
