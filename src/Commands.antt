-- ===== src/Commands.antt =====
-- packages/host-agent-cli/src/commands: the commands `workspace:status` and `workspace:list`. The
-- command `workspace:register` is in Register.
pub mod Status
pub mod List
pub mod Examples
