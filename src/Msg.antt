-- ===== src/Msg.antt =====
-- src/server_adaptor/msg_module.cpp, and the conversion of requests in
-- src/server_adaptor/network_module.cpp.
pub mod Types
pub mod Convert
pub mod Process
pub mod Counts
pub mod Decode
