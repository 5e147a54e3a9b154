-- ===== src/Register/Examples.antt =====
-- Tests of the command, and its theorem at a concrete input.
use kb_labs_host_agent.Common.{◌≤◌, true, false, ◌≡◌, refl, none, some, [], ◌∷◌, map, length, All}
use kb_labs_host_agent.Common.Json.{str}
use kb_labs_host_agent.Common.Text.{codes, starts_with}
use kb_labs_host_agent.Files.{
  resolve, normalize, is_absolute, enter_all, parts, joined_part, enter, reversed, text_eq,
}
use kb_labs_host_agent.Transport.{is_truthy}
use kb_labs_host_agent.Register.{
  RegisterInput, Fetched, answered, AgentConfig, writes, fails, invalid_url, not_a_directory,
  execute, drop_slash, is_http, all_secret, is_secret_char, or_default, check_paths, first_good,
  finish, with_secret, with_paths, is_empty, is_secret, is_config_url, assert_secure_url,
}
use kb_labs_host_agent.Register.Written.{execute_written}

abbrev input : RegisterInput
input = record {
  gateway = some (codes "http://example.org/");
  name = none;
  workspace = some (codes "a" ∷ []);
  namespace = none;
}

abbrev gateway_answer : Fetched
gateway_answer = answered (
    some (record {
      client_id = some (str "c");
      client_secret = some (str "0123456789abcdef");
      host_id = some (str "h");
    }))

abbrev config : AgentConfig
config = record {
  client_id = some (str "c");
  client_secret = codes "0123456789abcdef";
  host_id = some (str "h");
  gateway_url = codes "http://example.org";
  namespace_id = "default";
  workspace_paths = (codes "w" ∷ codes "a" ∷ []) ∷ [];
}

execute_test : execute (codes "w" ∷ []) (λ p. true) gateway_answer input ≡ writes config
unfolding execute check_paths first_good with_paths is_empty is_http finish with_secret is_secret
    all_secret is_secret_char drop_slash resolve normalize is_absolute enter_all parts joined_part
    enter reversed text_eq starts_with is_truthy
execute_test = refl

failure_tests :
    (execute (codes "w" ∷ []) (λ p. false) gateway_answer input
      ≡ fails (not_a_directory (codes "w" ∷ codes "a" ∷ [])))
    × (execute
          (codes "w" ∷ [])
          (λ p. true)
          gateway_answer
          (record input { gateway = some (codes "ws://x") })
        ≡ fails invalid_url)
unfolding execute check_paths first_good with_paths is_empty is_http resolve normalize is_absolute
    enter_all parts joined_part enter reversed text_eq starts_with drop_slash
failure_tests = (refl, refl)

-- The URL that the command takes is one that the daemon does not start with.
daemon_tests :
    (is_config_url config.gateway_url ≡ false) × (assert_secure_url config.gateway_url ≡ false)
unfolding is_config_url assert_secure_url starts_with
daemon_tests = (refl, refl)

execute_written_example :
    (config.gateway_url ≡ drop_slash (or_default input.gateway []))
    × (is_http config.gateway_url ≡ true)
    × (config.workspace_paths
        ≡ map (resolve (codes "w" ∷ [])) (or_default input.workspace ([] ∷ [])))
    × All (λ p. true ≡ true) config.workspace_paths
    × (16 ≤ length config.client_secret)
    × (all_secret config.client_secret ≡ true)
execute_written_example =
    execute_written (codes "w" ∷ []) (λ p. true) gateway_answer input config execute_test
