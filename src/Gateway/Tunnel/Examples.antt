-- ===== src/Gateway/Tunnel/Examples.antt =====
-- Tests of the HTTP tunnel, and its theorems at concrete inputs: a line of one code point is an
-- event, and the letter `d` is `execution:done`.
use kb_labs_host_agent.Common.{
  ℕ, ◌≡◌, refl, [], ◌∷◌, some, none, subst, All, true, false, Option, ◌==◌, if◌then◌else◌,
}
use kb_labs_host_agent.Common.Json.{get, as_text, Json, num, str, obj, end, field}
use kb_labs_host_agent.Common.Text.{Text, is_space, trim, trim_end, trim_start}
use kb_labs_host_agent.Ndjson.{cut}
use kb_labs_host_agent.Ndjson.Chunks.{concat}
use kb_labs_host_agent.Gateway.Tunnel.{
  event_callbacks, line_callbacks, read, on_event, on_done, on_error, thrown, http_status, no_body,
  responded, rejected, Response, Body, do_execute_http, lines_callbacks, says_done,
}
use kb_labs_host_agent.Gateway.Tunnel.Lines.{tunnel_lines, text_callbacks, tunnel_silent, IsEvent}

abbrev done_event : Json
done_event = obj (field "type" (str "execution:done") end)

unfoldable parse : Text → Option Json
parse (c ∷ []) = if c == 100 then some done_event else some (num c)
parse _ = none

abbrev body : Body
body = record { chunks = (65 ∷ []) ∷ (10 ∷ 32 ∷ 100 ∷ 10 ∷ []) ∷ (66 ∷ []) ∷ []; failure = none }

abbrev response : Response
response = record { ok = true; status = 200; text = ""; body = some body }

tunnel_tests :
    (do_execute_http parse (responded response)
      ≡ on_event (num 65) ∷ on_event done_event ∷ on_done done_event ∷ on_event (num 66) ∷ [])
    × (do_execute_http parse (responded (record response { ok = false; status = 503; text = "no" }))
        ≡ on_error (http_status 503 "no") ∷ [])
    × (do_execute_http parse (rejected "down") ≡ on_error (thrown "down") ∷ [])
    × (do_execute_http parse (responded (record response { body = none })) ≡ on_error no_body ∷ [])
unfolding do_execute_http read lines_callbacks cut line_callbacks trim trim_end trim_start is_space
    event_callbacks parse says_done as_text get
tunnel_tests = (refl, refl, refl, refl)

tunnel_lines_example :
    do_execute_http parse (responded response) ≡ text_callbacks parse (concat body.chunks)
tunnel_lines_example = tunnel_lines parse response body refl refl refl

abbrev endless : Body
endless = record { chunks = (65 ∷ []) ∷ (10 ∷ 66 ∷ []) ∷ []; failure = none }

numbers_continue : (c : ℕ) (e : Json) → some (num c) ≡ some e → says_done e ≡ false
unfolding says_done as_text get
numbers_continue c e h = let same : num c ≡ e = cc in subst (λ v. says_done v ≡ false) same refl

tunnel_silent_example :
    All IsEvent (do_execute_http parse (responded (record response { body = some endless })))
unfolding cut concat parse trim trim_end trim_start is_space
tunnel_silent_example =
    tunnel_silent parse (record response { body = some endless }) endless refl refl refl
      (numbers_continue 65, tt) (numbers_continue 66)
