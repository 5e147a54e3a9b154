-- ===== src/Daemon/Registered/Read/Reads.antt =====
-- How the fields that the command writes are read.
use kb_labs_host_agent.Common.{
  true, false, ◌≡◌, ◌≢◌, refl, ap, String, Option, none, some, List, [], ◌∷◌, map, str_eq,
}
use kb_labs_host_agent.Common.Json.{Json, str, arr, Fields, get, find_field}
use kb_labs_host_agent.Common.Text.{Text}
use kb_labs_host_agent.Execution.{in_process}
use kb_labs_host_agent.Ipc.{default_text}
use kb_labs_host_agent.Register.{is_config_url}
use kb_labs_host_agent.Register
use kb_labs_host_agent.Daemon.Config.{
  local, optional, text, array, each, host_type_of, some_texts, execution_or_default,
  parse_execution, mode_of, positive_or, positive,
}
use kb_labs_host_agent.Daemon.Registered.{optional_field, texts, last_fields}

pub find_other :
    (k j : String) (o : Option Json) (fs : Fields)
    → str_eq j k ≡ false
    → find_field k (optional_field j o fs) ≡ find_field k fs
unfolding find_field optional_field
find_other k j none fs h = refl
find_other k j (some v) fs h = rw h refl

pub find_own :
    (k : String) (o : Option Json) (fs : Fields)
    → str_eq k k ≡ true
    → find_field k fs ≡ none
    → find_field k (optional_field k o fs) ≡ o
unfolding find_field optional_field
find_own k none fs same h = h
find_own k (some v) fs same h = rw same refl

each-texts : (xs : List String) → each text (texts xs) ≡ some xs
unfolding each text texts
each-texts [] = refl
each-texts (x ∷ xs) = rw (each-texts xs) refl

some_texts-texts :
    (x : String) (xs : List String) → some_texts (some (arr (texts (x ∷ xs)))) ≡ some (x ∷ xs)
unfolding some_texts array
some_texts-texts x xs = rw (each-texts (x ∷ xs)) refl

pub paths_read :
    (f : List Text → String) (ps : List (List Text))
    → ps ≢ []
    → some_texts (some (arr (texts (map f ps)))) ≡ some (map f ps)
paths_read f [] h = absurd (h refl)
paths_read f (p ∷ ps) h = some_texts-texts (f p) (map f ps)

pub execution_step :
    (c : Register.AgentConfig) (text_of : Text → String)
    → execution_or_default (find_field "execution" (last_fields text_of c))
      ≡ some (record { mode = in_process; timeout_ms = 120_000; allowed_plugins = none })
unfolding find_field execution_or_default parse_execution get mode_of positive_or positive
    default_text
execution_step c text_of = refl

pub absent :
    {A : Type 0} (parse : Json → Option A) (o : Option Json)
    → o ≡ none
    → optional parse o ≡ some none
absent parse o e = ap (optional parse) e

pub given : (d s : String) {o : Option Json} → o ≡ some (str s) → default_text d o ≡ some s
unfolding default_text
given d s e = ap (default_text d) e

pub host_type_local : host_type_of "local" ≡ some local
unfolding host_type_of
host_type_local = refl

pub no_paths-none : some_texts (some (arr (texts []))) ≡ none
unfolding some_texts array each texts
no_paths-none = refl
