-- ===== src/Throttle.antt =====
-- The counters of admission of src/server_adaptor/network_module.cpp, lines 781-1115: how many
-- requests, and how much of their data, the server has taken in.
pub mod Cell
pub mod Atomic
pub mod Ops
pub mod Counting
pub mod Conservation
pub mod Waiting
pub mod Underflow
pub mod GiveBack
