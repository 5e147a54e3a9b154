-- ===== src/Gateway.antt =====
-- packages/host-agent-core/src/ws/gateway-client.ts: the class `GatewayClient`. The state is in
-- Gateway/State, the URL check in Gateway/Url, the methods in Gateway/Methods, what calls them in
-- Gateway/Events, and the HTTP tunnel in Gateway/Tunnel.
pub mod State
pub mod Url
pub mod Methods
pub mod Events
pub mod Pending
pub mod Reconnect
pub mod Frames
pub mod Sockets
pub mod Handlers
pub mod Tunnel
pub mod Examples
