-- ===== src/Gateway/Frames.antt =====
-- What the client sends, and to whom a frame from the gateway goes.
use kb_labs_host_agent.Common.{
  ℕ, ◌∙◌, ◌≡◌, String, List, [], ◌∷◌, Option, none, some, arith, Bool, true, false, if◌then◌else◌,
}
use kb_labs_host_agent.Common.Dict.{lookup, remove}
use kb_labs_host_agent.Common.Json.{Json, null, str, get, as_text_iff, get-null}
use kb_labs_host_agent.Gateway.State.{
  Client, Action, send_on, invoke, resolve, chunk, result, error, unknown_adapter, handler_error,
  is_open, disarm, AdapterCallResponse,
}
use kb_labs_host_agent.Gateway.Methods.{
  send, handle_call, handler_returned, handler_threw, on_message, message_typed, message_of_type,
  settle,
}

-- A frame with this type, and maybe other fields.
abbrev pub HasType : Json → String → Type 0
HasType msg type = get msg "type" ≡ some (str type)

on_message-typed :
    (c : Client) (msg : Json) (type : String)
    → HasType msg type
    → on_message (some msg) c ≡ message_of_type type msg c
unfolding on_message message_typed
on_message-typed c null type t = cc (get-null "type")
on_message-typed c msg type t = rw ((as_text_iff (get msg "type") type).1 t)

-- A `call` frame reaches the handler that is registered for its adapter, and no other action is
-- taken; with no handler the one action is an error frame with the call's id, if the socket is
-- open. The client stays as it is.
pub on_message_call :
    (c : Client) (msg : Json) (adapter : String)
    → HasType msg "call"
    → get msg "adapter" ≡ some (str adapter)
    → ((handler : ℕ)
        → lookup adapter c.handlers ≡ some handler
        → on_message (some msg) c ≡ (c, invoke handler msg ∷ []))
      × (lookup adapter c.handlers ≡ none
          → on_message (some msg) c
            ≡ (c, send c (error (get msg "requestId") (unknown_adapter (some (str adapter))))))
unfolding message_of_type handle_call
on_message_call c msg adapter t a =
    let named = (as_text_iff (get msg "adapter") adapter).1 a in
    (
      λ handler h. on_message-typed c msg "call" t ∙ rw (named, h),
      λ h. on_message-typed c msg "call" t ∙ rw (named, h, a),
    )

-- The settled call leaves the map with its timer, and its promise resolves with the response.
abbrev pub settled : String → ℕ → AdapterCallResponse → Client → Client × List Action
settled r timer response c = (
  record c {
    timers = disarm timer c.timers;
    pending_adapter_calls = remove r c.pending_adapter_calls;
  },
  resolve r response ∷ [],
)

abbrev pub response_type : Bool → String
response_type failed = if failed then "adapter:error" else "adapter:response"

-- A response frame for a pending call resolves that call alone, with the frame's `result`; an
-- error frame, with its `error`. For a request that is not pending either does nothing.
pub on_message_response :
    (failed : Bool) (c : Client) (msg : Json) (r : String)
    → get msg "requestId" ≡ some (str r)
    → HasType msg (response_type failed)
    → ((timer : ℕ)
        → lookup r c.pending_adapter_calls ≡ some timer
        → on_message (some msg) c
          ≡ settled r timer
              (record {
                request_id = r;
                result = if failed then none else get msg "result";
                error = if failed then get msg "error" else none;
              })
              c)
      × (lookup r c.pending_adapter_calls ≡ none → on_message (some msg) c ≡ (c, []))
unfolding message_of_type settle
on_message_response true c msg r id t =
    let named = (as_text_iff (get msg "requestId") r).1 id in
    (
      λ timer h. on_message-typed c msg "adapter:error" t ∙ rw (named, h),
      λ h. on_message-typed c msg "adapter:error" t ∙ rw (named, h),
    )
on_message_response false c msg r id t =
    let named = (as_text_iff (get msg "requestId") r).1 id in
    (
      λ timer h. on_message-typed c msg "adapter:response" t ∙ rw (named, h),
      λ h. on_message-typed c msg "adapter:response" t ∙ rw (named, h),
    )

-- While the socket is open a handler's result goes out as one chunk and then the end marker, and
-- its error as one error frame, each with the call's id; on a socket that is not open, nothing.
pub handler_frames :
    (c : Client) (s : ℕ) (request_id : Option Json) (value : Json) (message : String)
    → c.ws ≡ some s
    → (is_open (c.ready s) ≡ true
        → (handler_returned request_id value c
            ≡ send_on s (chunk request_id value) ∷ send_on s (result request_id) ∷ [])
          × (handler_threw request_id message c
              ≡ send_on s (error request_id (handler_error message)) ∷ []))
      × (is_open (c.ready s) ≡ false
          → (handler_returned request_id value c ≡ []) × (handler_threw request_id message c ≡ []))
unfolding handler_returned handler_threw send
handler_frames c s request_id value message e =
    (λ up. (ground arith, ground arith), λ down. (ground arith, ground arith))
