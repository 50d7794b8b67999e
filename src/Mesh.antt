-- ===== src/Mesh.antt =====
-- The mesh bridge, main/src/mesh/halow_sync_bridge.c: the tables by which it remembers messages,
-- deliveries, routes and packets that wait for an acknowledgement.
pub mod Seen
pub mod Reliable
pub mod Dedupe
pub mod Routes
pub mod Realtime
pub mod Speech
pub mod GlobalBuffer
pub mod Power
pub mod Topology
pub mod Wire
pub mod Packet
pub mod Receive
pub mod Transmit
