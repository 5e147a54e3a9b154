-- ===== src/Ipc/Requests.antt =====
-- The requests that the client of the daemon sends, as the server reads them.
use kb_labs_host_agent.Common.{false, ◌≡◌, ◌≢◌, ◌↔◌, refl, String, none, some}
use kb_labs_host_agent.Common.Json.{
  Json, null, str, obj, Fields, get, as_text, find_field, bool, num, arr,
}
use kb_labs_host_agent.HostClient.{status_json, execute_json}
use kb_labs_host_agent.Ipc.{
  execute_request, status_request, parse_request, parse_execute, optional_record, default_bool,
}

parse_execute_iff :
    (id command : String) (params : Json) (fs : Fields)
    → (parse_request (execute_json id command params)
        ≡ some (
            execute_request
              (record { request_id = id; command = command; params = some fs; stream = false })))
      ↔ (params ≡ obj fs)
unfolding parse_request parse_execute optional_record default_bool get as_text find_field
parse_execute_iff id command (obj gs) fs = (λ e. cc, λ e. cc)
parse_execute_iff id command null fs = (λ e. cc, λ e. cc)
parse_execute_iff id command (bool b) fs = (λ e. cc, λ e. cc)
parse_execute_iff id command (num n) fs = (λ e. cc, λ e. cc)
parse_execute_iff id command (str t) fs = (λ e. cc, λ e. cc)
parse_execute_iff id command (arr vs) fs = (λ e. cc, λ e. cc)

refused :
    (id command : String) (params : Json)
    → ((gs : Fields) → params ≢ obj gs)
    → parse_request (execute_json id command params) ≡ none
unfolding parse_request parse_execute optional_record default_bool get as_text find_field
refused id command (obj gs) other = elim (other gs refl) [ ]
refused id command null other = refl
refused id command (bool b) other = refl
refused id command (num n) other = refl
refused id command (str t) other = refl
refused id command (arr vs) other = refl

-- The server reads a status request of the client as one, whatever its id. It reads an `execute`
-- of the client with its id and its command, and not as a stream, exactly if the parameters are an
-- object; with any other parameters, `null` too, it takes the message for none at all.
pub client_requests :
    (id command : String) (params : Json) (fs : Fields)
    → (parse_request (status_json id) ≡ some status_request)
      × ((parse_request (execute_json id command params)
            ≡ some (
                execute_request (record {
                  request_id = id;
                  command = command;
                  params = some fs;
                  stream = false;
                })))
          ↔ (params ≡ obj fs))
      × (((gs : Fields) → params ≢ obj gs) → parse_request (execute_json id command params) ≡ none)
unfolding parse_request parse_execute optional_record default_bool get as_text find_field
client_requests id command params fs =
    (refl, parse_execute_iff id command params fs, refused id command params)
