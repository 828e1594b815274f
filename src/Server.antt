-- ===== src/Server.antt =====
-- The request path of src/server_adaptor/network_module.cpp: queues, handler threads, admission.
pub mod Admission
pub mod Balance
pub mod Lanes
pub mod Order
pub mod Fifo
pub mod Barrier
pub mod Bounds
pub mod Quota
pub mod Pacing
