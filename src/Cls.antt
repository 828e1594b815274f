-- ===== src/Cls.antt =====
-- The results of operations (src/server_adaptor/network_module.cpp from line 1151), the operations
-- that object classes call (src/server_adaptor/class_api.cc), and the execution of a class's method
-- (OSA_ExecClass of src/server_adaptor/osa.cpp).
pub mod Ordered
pub mod Types
pub mod Encode
pub mod Api
pub mod Omap
pub mod RoundTrip
pub mod Answers
pub mod Refines
pub mod Exec
pub mod CopyUp
