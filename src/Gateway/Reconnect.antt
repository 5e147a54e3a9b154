-- ===== src/Gateway/Reconnect.antt =====
-- Losing the connection and coming back: packages/host-agent-core/src/ws/gateway-client.ts.
pub mod Closing
pub mod Backoff
pub mod Handshake
