-- ===== src/Protocol.antt =====
-- The application protocol of main/src/protocol: framed payloads and the Lua RPC.
pub mod Frame
pub mod LuaRpc
