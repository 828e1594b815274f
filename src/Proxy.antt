-- ===== src/Proxy.antt =====
-- The proxy as a whole: src/ceph_proxy/ConfigRead.cc, the client's set-up in
-- src/ceph_proxy/RadosWrapper.cc, and the life of the proxy in src/ceph_proxy/CephProxy.cc.
pub mod Config
pub mod Client
pub mod Binding
pub mod Life
pub mod Interface
pub mod Release
pub mod Gained
pub mod Balance
pub mod Rounds
pub mod Order
pub mod Refusal
