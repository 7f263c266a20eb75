-- ===== src/Standalone/Calls/Tests.antt =====
-- Histories of calls of the standalone hub, connect/hub/standalone_grpc.go and standalone_rest.go, at
-- concrete inputs.
use wispers_hub.Base.{
  ℕ, ◌≡◌, refl, none, some, [], ◌∷◌, List, codes, replicate, length, bytes_eq, arith,
}
use wispers_hub.Base.Int.{pos, ◌<ℤ◌}
use wispers_hub.RegistrationTokens.{hex_encode}
use wispers_hub.Standalone.Db.{insert_node}
use wispers_hub.Standalone.Exec.{
  World, ok, err, ◌>>=◌, pure, guard, or_raise, query, execute_returning, try_insert, read_clock,
  draw, allow, transaction, quietly, called, best_effort,
}
use wispers_hub.Standalone.Exec.Progress.{Succeeds}
use wispers_hub.Standalone.Messages.{Registration, invalid_credentials}
use wispers_hub.Standalone.Answers
use wispers_hub.Standalone.Fixtures.{externals, env, token, start}
use wispers_hub.Standalone.Backend.{
  complete_node_registration, register_node, authenticate_node, deregister_node, parse_group_id,
  insert_activity_log,
}
use wispers_hub.Standalone.Backend.Progress.{complete_node_registration-Succeeds}
use wispers_hub.Standalone.Steps.{Reach}
use wispers_hub.Standalone.Steps.Invariant.{IsValid}
use wispers_hub.Standalone.Calls.{
  Call, rpc, rest, registration, deregistration, group_reset, serve, serve_all, serve_rpc,
}
use wispers_hub.Standalone.Calls.Histories.{
  serve-Reach, serve_all-IsValid, registrations_increase, deregistered_forever,
}

abbrev rest_externals : Answers.Externals
rest_externals = record {
  sha256 = λ s. s;
  hash_token = λ s. length s ∷ s;
  parse_uuid = λ s. some s;
  unmarshal_roster = λ s. none;
  rfc3339 = λ t. [];
  online = λ s. [];
}

-- A second token beside the first.
abbrev two_tokens : World
two_tokens = record start {
  db = record start.db {
    tokens =
        token
        ∷ record token { id = codes "u"; token_hash = externals.hash_token (codes "cdcd") }
        ∷ [];
  };
}

abbrev registration_of : ℕ → Registration
registration_of n = record {
  connectivity_group_id = codes "g";
  node_number = pos n;
  auth_token = hex_encode (replicate 32 7);
  attestation_jwt = [];
}

abbrev first : World
first = (complete_node_registration externals env (codes "abab") two_tokens).1

abbrev calls : List Call
calls = rpc (deregistration (codes "g") (pos 1)) ∷ rpc (registration (codes "abab")) ∷ []

abbrev later : World
later = serve_all externals rest_externals (codes "id") env calls first

abbrev second : World
second = (complete_node_registration externals env (codes "cdcd") later).1

registers_first :
    complete_node_registration externals env (codes "abab") two_tokens
    ≡ (ok (registration_of 1), first)
unfolding complete_node_registration register_node ◌>>=◌ pure guard or_raise query execute_returning
    try_insert read_clock draw allow transaction insert_node
registers_first = refl

registers_second :
    complete_node_registration externals env (codes "cdcd") later ≡ (ok (registration_of 2), second)
unfolding complete_node_registration register_node ◌>>=◌ pure guard or_raise query execute_returning
    try_insert read_clock draw allow transaction insert_node serve_all serve serve_rpc
    deregister_node parse_group_id quietly insert_activity_log best_effort
registers_second = refl

valid : IsValid two_tokens.db
valid = record { distinct_groups = (refl, tt); distinct_nodes = tt; numbered = tt }

serve-Reach_example :
    Reach two_tokens.db
      (serve externals rest_externals
        (codes "id")
        env
        (rpc (registration (codes "abab")))
        two_tokens).db
serve-Reach_example =
    serve-Reach externals rest_externals (codes "id") env (rpc (registration (codes "abab")))
      two_tokens

serve_all-IsValid_example :
    IsValid
      (serve_all externals rest_externals
        (codes "id")
        env
        (rpc (registration (codes "abab"))
          ∷ rest [] (group_reset (codes "g"))
          ∷ rpc (registration (codes "cdcd"))
          ∷ [])
        two_tokens).db
serve_all-IsValid_example =
    serve_all-IsValid externals rest_externals (codes "id") env
      (rpc (registration (codes "abab"))
        ∷ rest [] (group_reset (codes "g"))
        ∷ rpc (registration (codes "cdcd"))
        ∷ [])
      two_tokens valid

registrations_increase_example : pos 1 <ℤ pos 2
registrations_increase_example =
    registrations_increase externals rest_externals (codes "id") env (codes "abab") (codes "cdcd")
      calls two_tokens first second (registration_of 1) (registration_of 2) registers_first
      registers_second refl

complete_node_registration-Succeeds_example :
    Succeeds (complete_node_registration externals env (codes "abab")) two_tokens
complete_node_registration-Succeeds_example =
    complete_node_registration-Succeeds externals env (codes "abab") two_tokens
      (λ i. replicate 32 7) valid refl (λ i. refl) (λ i. refl) refl (ground arith, tt)

abbrev gone : World
gone = (deregister_node externals env (codes "g") (pos 1) (called first)).1

authenticates :
    authenticate_node externals env (codes "g") (pos 1) (hex_encode (replicate 32 7)) first
    ≡ (ok tt, called first)
unfolding authenticate_node complete_node_registration register_node ◌>>=◌ pure guard or_raise query
    execute_returning try_insert read_clock draw allow transaction insert_node hex_encode
    parse_group_id insert_activity_log best_effort
authenticates = refl

deregisters :
    deregister_node externals env
      (codes "g")
      (pos 1)
      (serve_all externals rest_externals (codes "id") env [] (called first))
    ≡ (ok tt, gone)
unfolding deregister_node serve_all ◌>>=◌ parse_group_id or_raise read_clock execute_returning
    quietly
deregisters = refl

deregistered_forever_example :
    authenticate_node externals env (codes "g") (pos 1) (hex_encode (replicate 32 7)) (
      serve_all externals rest_externals
        (codes "id")
        env
        (rpc (registration (codes "cdcd")) ∷ [])
        gone)
    ≡ (
      err invalid_credentials,
      called (
          serve_all externals rest_externals
            (codes "id")
            env
            (rpc (registration (codes "cdcd")) ∷ [])
            gone),
    )
deregistered_forever_example =
    deregistered_forever externals rest_externals (codes "id") env (codes "g") (codes "g")
      (hex_encode (replicate 32 7)) (hex_encode (replicate 32 7)) (pos 1) []
      (rpc (registration (codes "cdcd")) ∷ []) first (called first) gone authenticates deregisters
      refl refl
