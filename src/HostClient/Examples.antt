-- ===== src/HostClient/Examples.antt =====
-- Tests of the client of the daemon, and its theorems at concrete inputs.
use kb_labs_host_agent.Common.{
  ◌≡◌, refl, [], ◌∷◌, ◌++◌, map, some, none, arith, true, false, String, suc, length,
}
use kb_labs_host_agent.Common.Dict.{remove, insert, lookup, count}
use kb_labs_host_agent.Common.Json.{get, as_text, Json, null, num, str, obj, end, field}
use kb_labs_host_agent.HostClient.{
  change, resolve, answer_status, answer, type_is, Client, Stream, status_call, execute_call, new,
  connect, status, execute, handle_message, close, closed, rejects, closes_transport, yields,
  throws,
}
use kb_labs_host_agent.HostClient.{yields}
use kb_labs_host_agent.HostClient.Streams.{handle_all, told, events_in_order}
use kb_labs_host_agent.HostClient.Requests.{status_ids, IsClosed, close_lem, pulls}

abbrev message : String → Json → Json
message kind d = obj (field "type" (str kind) (field "requestId" (str "e") (field "data" d end)))

abbrev stream : Stream
stream = record { command = "run"; queue = []; done = false; error = none }

-- An `execute` and a status request wait.
abbrev client : Client
client = record {
  timeout = 10_000;
  pending = ("e", execute_call) ∷ ("s", status_call) ∷ [];
  connected = true;
  streams = ("e", stream) ∷ [];
  armed = ("e", 10_001) ∷ ("s", 10_002) ∷ [];
}

abbrev status_message : Json
status_message = obj (field "type" (str "status") end)

operations_test : (status 2 "s" (execute 1 "e" "run" null (connect true (new none)).0).0).0 ≡ client
unfolding status execute insert connect new
operations_test = refl

messages_test :
    lookup "e"
      (handle_all
        (message "event" (num 1)
          ∷ status_message
          ∷ message "event" (num 2)
          ∷ message "done" null
          ∷ message "event" (num 3)
          ∷ [])
        client).streams
    ≡ some (record stream { queue = some (num 1) ∷ some (num 2) ∷ []; done = true })
unfolding lookup handle_all handle_message type_is as_text get answer answer_status resolve remove
    change
messages_test = refl

events_in_order_example :
    lookup "e" (handle_all (message "event" (num 1) ∷ message "done" null ∷ []) client).streams
    ≡ some (told "e" (message "event" (num 1) ∷ message "done" null ∷ []) stream)
unfolding lookup count
events_in_order_example =
    events_in_order (message "event" (num 1) ∷ message "done" null ∷ []) client "e" stream refl
      (ground arith) refl

close_lem_example :
    ((close client).1
      ≡ map (λ id. rejects id closed) (status_ids client.pending) ++ (closes_transport ∷ []))
    × ((close client).0.pending ≡ [])
    × ((close client).0.connected ≡ false)
    × ((id : String) (s : Stream)
        → lookup id client.pending ≡ some execute_call
        → lookup id client.streams ≡ some s
        → (t : Stream) × (lookup id (close client).0.streams ≡ some t)
          × IsClosed s t
          × (pulls (suc (length s.queue)) t ≡ map yields s.queue ++ (throws closed ∷ [])))
close_lem_example = close_lem client
