-- ===== src/Lib.antt =====
-- The host agent: a daemon on the machine of a developer that holds a WebSocket to a gateway, takes
-- calls from it (files, shell, search, execution of plugins), calls the platform back through it,
-- and serves the command line over a local socket. This library models its parts and states what
-- makes them correct.
--
-- * Token, on packages/host-agent-core/src/token/token-manager.ts: the token pair, its expiry, the
--   refresh with retries, and the timers as a step relation.
-- * Gateway, on packages/host-agent-core/src/ws/gateway-client.ts: the class GatewayClient. State
--   has its fields, the sockets and the timers that are set; Methods has one function for each
--   method, which gives the new state and the actions in order (doConnect is plan_connect and
--   do_connect, onOpen is on_open and on_handshake); Events has the step function that calls them.
--   Url is the check of the URL, Tunnel the HTTP tunnel executeTunnel and doExecuteHttp. The other
--   modules are proofs: Pending on adapter calls, Reconnect on the connection's life, Frames on
--   messages, Sockets on what an old socket or timer does to a new connection.
-- * Transport, on packages/host-agent-core/src/transport/gateway-transport.ts: what a proxy asks of
--   GatewayClient.sendAdapterCall and how it reads the response.
-- * Execution, on apps/host-agent-app/src/handlers/execution-handler.ts: execute is one step up to
--   its first await (execute) and one for each answer (continue); the journal and its cleanup.
--   Execution/Subprocess has the dispatch and the socket server around a subprocess.
-- * HostClient, on packages/host-agent-client/src/client.ts: the requests of the command line, with
--   an async generator as a stream that pull reads.
-- * Ipc, on packages/host-agent-core/src/ipc/ipc-server.ts and the request schemas of
--   packages/host-agent-contracts/src/ipc.ts. Ipc/Ends and Ipc/Relay join
--   its answers to HostClient.
-- * Ndjson, on packages/host-agent-transport/src/ndjson-framer.ts: lines of JSON on a byte stream.
-- * Files, on packages/host-agent-fs/src: the path check that the handlers share, with
--   Files/Filesystem (filesystem-handler.ts), its walk fetchWorkspace in Files/Workspace,
--   Files/Shell (shell-handler.ts), its blocked expressions in Files/Shell/Blocked, and
--   Files/Search (search-handler.ts) with grep and glob in Files/Search/Grep.
-- * Resolver, on apps/host-agent-app/src/handlers/local-plugin-resolver.ts: the scan for plugins and
--   the checks on a handler, over a record of what the file system answers.
-- * Local, on packages/host-agent-transport/src/tcp.ts, unix-socket.ts, named-pipe.ts and auto.ts:
--   the sockets of the three local transports, each with its framer.
-- * Register, on packages/host-agent-cli/src/commands/register.ts: the checks of the command that
--   writes the configuration, and the checks of its URL in the daemon.
-- * Daemon, on apps/host-agent-app/src/daemon.ts: how the token manager and the client are joined.
--   Daemon/Config is the loading of the configuration with the schemas of
--   packages/host-agent-contracts/src/config.ts, Daemon/Tokens the requests for tokens, and
--   Daemon/Registered the file that the command workspace:register writes for it. Daemon/Serving
--   is what a message on the local socket comes to, Daemon/Calls what the handlers make of a call
--   of the gateway. Daemon/Rotation and Daemon/Handlers are proofs.
-- * Commands, on packages/host-agent-cli/src/commands/status.ts and list.ts: what they print.
-- * Common has what they share: maps as association lists, JSON values, texts as code points.
--
-- An operation takes the state and gives the new one with what it does outside, in order. What is
-- not the program's own code is an argument or an event: sockets, timers that fire, HTTP responses,
-- the answers of promises, JSON.parse and JSON.stringify, the plugin runtime, the file system.
-- Numbers are natural numbers; times are milliseconds. A history is a list of events, in any order
-- that the events allow. One loop runs on fuel, the walk of fetchWorkspace into directories, with
-- one unit for a level; the source has no bound on the depth. A path that is longer than the
-- operating system takes cannot be read, and more fuel than the number of parts of such a path is
-- enough. Every other loop is over a list, but for the digits of a number n, with n + 1 units.
--
-- A chunk of a socket has its number of bytes and the text that it alone is decoded to, which need
-- not agree where a character is cut. The constructor of WebSocket can throw, by events of their own
-- (connects_rejected, token_refreshed_rejected); where the daemon itself connects, at its start and
-- after a rotation, it is taken to accept the URL. What a shell makes of the commands of a search
-- is Files/Search/Words, a reader of the part of its language that they are written in.
--
-- Not modelled: the errors of sockets, the abort signal of an execution, the schemas of
-- capability.ts, which no modelled code runs, the declarations of flags and commands, and console
-- output.
pub mod Common
pub mod Token
pub mod Gateway
pub mod Execution
pub mod HostClient
pub mod Ndjson
pub mod Transport
pub mod Ipc
pub mod Files
pub mod Resolver
pub mod Local
pub mod Register
pub mod Daemon
pub mod Commands
