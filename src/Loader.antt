-- ===== src/Loader.antt =====
-- The loading of object classes: src/server_adaptor/ClassHandler.cc and .h, and the registration
-- calls of src/server_adaptor/class_api.cc.
pub mod Types
pub mod Methods
pub mod Load
pub mod View
pub mod Settled
pub mod Steps
pub mod Loading
pub mod Handler
pub mod Opening
pub mod Cycle
