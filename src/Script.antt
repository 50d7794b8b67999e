-- ===== src/Script.antt =====
-- The scripts of a device (main/src/scripting): the store of their sources, and the table of the local
-- interfaces that they drive.
pub mod Store
pub mod Interface
pub mod Aggregate
