-- ===== src/Execution/Examples.antt =====
-- Tests of the execution handler, and its theorems at concrete inputs.
use kb_labs_host_agent.Common.{◌≤◌, ◌≡◌, refl, [], ◌∷◌, some, none, arith, str_eq, if◌then◌else◌}
use kb_labs_host_agent.Common.Dict.{remove, insert, lookup}
use kb_labs_host_agent.Common.Json.{null, num}
use kb_labs_host_agent.Execution.{
  with_permissions, includes, is_plugin_allowed, Request, Options, Handler, in_process, started,
  running, resolving, resolved, initial, step, calls, answers, cleans, resolved_with, rejected_with,
  returns, throws, recorded, in_progress, continue, execute, begin, resolve_plugin, clear_timeout,
  not_allowed, replay,
}
use kb_labs_host_agent.Resolver.{FileSystem, Resolver}
use kb_labs_host_agent.Execution.Subprocess.{
  handle_call, executes, throws_type_error, throws_unknown_method,
}
use kb_labs_host_agent.Execution.Journal.{Inv, step-Inv}
use kb_labs_host_agent.Execution.Replay.{replay_result, replay_error}
use kb_labs_host_agent.Execution.Credit.{run_of, runs_of}
use kb_labs_host_agent.Execution.Once.{History, final, runs_in, Within, runs_at_most_once}
use kb_labs_host_agent.Execution.Stuck.{refused_stays}

abbrev options : Options
options = record {
  execution_mode = in_process;
  timeout_ms = 1000;
  allowed_plugins = some ("p" ∷ []);
}

abbrev request : Request
request = record {
  execution_id = "x";
  plugin_id = "p";
  handler_ref = "h.js";
  export_name = none;
  input = null;
  descriptor = none;
  timeout_ms = none;
}

abbrev going : Handler
going = record {
  journal = ("x", record { status = started; result = none; error = none; started_at = 7 }) ∷ [];
  pending = ("x", (running, request)) ∷ [];
}

abbrev resolving_one : Handler
resolving_one = record going { pending = ("x", (resolving, request)) ∷ [] }

execute_tests :
    (step options 7 initial (calls request) ≡ (resolving_one, resolve_plugin "p" "h.js" ∷ []))
    × ((step options 8 going (calls request)).1 ≡ throws (in_progress "x") ∷ [])
    × ((step options 8 initial (calls (record request { plugin_id = "q" })))
        ≡ (initial, throws (not_allowed "q") ∷ []))
    × ((step options 9 going (answers "x" (resolved_with (some (num 3))))).1
        ≡ clear_timeout ∷ returns (some (num 3)) ∷ [])
unfolding step execute continue replay lookup begin is_plugin_allowed includes insert
    with_permissions remove
execute_tests = (refl, refl, refl, refl)

abbrev resolved_one : Handler
resolved_one = record going { pending = ("x", (resolved, request)) ∷ [] }

started_once : Inv resolving_one
unfolding step execute lookup begin is_plugin_allowed includes insert with_permissions
started_once = step-Inv options 7 initial (calls request) (λ id s req e. cc)

going-Inv : Inv going
unfolding step continue lookup insert
going-Inv =
    step-Inv options 8 resolved_one (answers "x" (resolved_with none))
      (step-Inv options 7 resolving_one (answers "x" (resolved_with none)) started_once)

replay_result_example :
    let g = (step options 9 going (answers "x" (resolved_with (some (num 3))))).0 in
    step options 500 g (calls request) ≡ (g, returns (some (num 3)) ∷ [])
unfolding lookup
replay_result_example =
    replay_result options 9 500 going request request (some (num 3)) going-Inv refl

replay_error_example :
    let g = (step options 9 going (answers "x" (rejected_with "no"))).0 in
    step options 500 g (calls request)
    ≡ (g, (if str_eq "no" "" then returns none else throws (recorded "no")) ∷ [])
unfolding lookup
replay_error_example = replay_error options 9 500 going request request "no" going-Inv refl

abbrev history : History
history =
    (7, calls request)
    ∷ (8, answers "x" (resolved_with none))
    ∷ (9, answers "x" (resolved_with none))
    ∷ (10, calls request)
    ∷ (11, answers "x" (resolved_with none))
    ∷ (12, calls request)
    ∷ (13, cleans)
    ∷ []

history_test : runs_in "x" options initial history ≡ 1
unfolding runs_in runs_of step execute continue replay lookup begin is_plugin_allowed includes
    run_of insert
history_test = refl

runs_at_most_once_example : runs_in "x" options initial history ≤ 1
unfolding Within
runs_at_most_once_example = runs_at_most_once options history "x" 7 (ground arith)

refused_stays_example :
    let g =
      final options
        (step options 8 resolving_one (answers "x" (rejected_with "gone"))).0
        ((900_000, cleans) ∷ []) in
    step options 900_001 g (calls request) ≡ (g, throws (in_progress "x") ∷ [])
unfolding lookup
refused_stays_example =
    refused_stays options 8 resolving_one resolving request "gone" ((900_000, cleans) ∷ []) 900_001
      request started_once refl (λ e. cc)

dispatch_tests :
    (fs : FileSystem) (r : Resolver)
    → (handle_call fs [] [] "execute" (some request) r ≡ (r, executes request))
      × (handle_call fs [] [] "execute" none r ≡ (r, throws_type_error))
      × (handle_call fs [] [] "stop" none r ≡ (r, throws_unknown_method "stop"))
unfolding handle_call
dispatch_tests fs r = (refl, refl, refl)
