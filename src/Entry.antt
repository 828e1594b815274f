-- ===== src/Entry.antt =====
-- The start of the server adaptor: src/server_adaptor/config_read.cpp, OSA_Init of
-- src/server_adaptor/osa.cpp, and CreateWorkThread of src/server_adaptor/network_module.cpp.
pub mod Config
pub mod Checks
pub mod Start
pub mod Bounds
