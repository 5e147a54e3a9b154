-- ===== src/Local/Examples.antt =====
-- Tests of the local transports, and their theorem at a concrete input: a message is a line.
use kb_labs_host_agent.Common.{ℕ, true, false, ◌≡◌, refl, none, some, List, [], ◌∷◌}
use kb_labs_host_agent.Ndjson.{Chunk}
use kb_labs_host_agent.Ndjson.Chunks.{whole_chunk}
use kb_labs_host_agent.Local.{
  setup_socket, mode_on, LocalTransport, TransportConfig, auto, tcp_mode, unix, tcp,
  create_transport, handle_connection, send, close, destroys, closes_server,
}
use kb_labs_host_agent.Local.Sockets.{from_socket, alone, sockets_apart}

abbrev fresh : LocalTransport
fresh = record {
  server = true;
  socket = none;
  has_handler = true;
  framers = λ s. record { buffer = [] };
}

abbrev config : TransportConfig
config = record { mode = auto; socket_path = none; pipe_name = none; port = none; host = none }

create_tests :
    (create_transport "/h/.kb/agent.sock" (λ n. n) false config ≡ some (unix "/h/.kb/agent.sock"))
    × (create_transport "/h/.kb/agent.sock" (λ n. n) false (record config { mode = tcp_mode })
        ≡ some (tcp 7779 "127.0.0.1"))
    × ((close (handle_connection 1 fresh)).1 ≡ destroys 1 ∷ closes_server ∷ [])
unfolding create_transport mode_on close handle_connection setup_socket
create_tests = (refl, refl, refl)

send_test : send (handle_connection 2 (handle_connection 1 fresh)) ≡ some 2
unfolding send handle_connection setup_socket
send_test = refl

abbrev events : List (ℕ × Chunk)
events =
    (1, whole_chunk (65 ∷ [])) ∷ (2, whole_chunk (66 ∷ 10 ∷ [])) ∷ (1, whole_chunk (10 ∷ [])) ∷ []

sockets_apart_example :
    from_socket (λ l. some l) 1 events fresh ≡ alone (λ l. some l) 1 events (record { buffer = [] })
sockets_apart_example = sockets_apart (λ l. some l) events 1 fresh refl
