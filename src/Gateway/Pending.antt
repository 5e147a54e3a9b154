-- ===== src/Gateway/Pending.antt =====
-- Every adapter call that is sent is settled once: the map `pendingAdapterCalls` and the timers
-- against the promises that the client resolves and rejects, in
-- packages/host-agent-core/src/ws/gateway-client.ts.
pub mod Ledger
pub mod Methods
pub mod Runs
