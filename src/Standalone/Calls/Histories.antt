-- ===== src/Standalone/Calls/Histories.antt =====
-- What holds of the standalone hub's tables, connect/hub/standalone_schema.sql, along any history of
-- calls.
use wispers_hub.Base.{
  ℕ, ◌+◌, ◌≡◌, subst, update_where, ap, ◌∙◌, false, some, List, [], ◌∷◌, Bytes, any, find, bytes_eq,
  arith,
}
use wispers_hub.Base.Int.{ℤ, pos, int_eq, ◌<ℤ◌}
use wispers_hub.Grpc.{Error}
use wispers_hub.Standalone.Db.{Db, GroupRow, is_node, is_live_node}
use wispers_hub.Standalone.Exec.Inversion.{raise-bind, query-bind}
use wispers_hub.Standalone.Backend.Deregistered.{
  deregister_node-eq-ok, any-stamped, authenticate_node-gone,
}
use wispers_hub.Standalone.Backend.Tokens.{complete_node_registration-eq-ok}
use wispers_hub.Standalone.Exec.{Env, World, Exec, Result, ok, err, called}
use wispers_hub.Standalone.Messages.{Registration}
use wispers_hub.Standalone.Messages
use wispers_hub.Standalone.Answers.{Failure}
use wispers_hub.Standalone.Answers
use wispers_hub.Standalone.Backend.{
  complete_node_registration, authenticate_node, deregister_node, parse_group_id,
}
use wispers_hub.Standalone.Messages.{number_of, bump_number, stamp, invalid_credentials}
use wispers_hub.Standalone.Steps.{Reach, here, has_id}
use wispers_hub.Standalone.Steps.Methods.{update_where-map, Reaches, Reach-trans, >>=-Reaches}
use wispers_hub.Standalone.Steps.Invariant.{find-bump_in, IsValid, Reach-IsValid, Reach-Later}
use wispers_hub.Standalone.Steps.Gone.{Known, Reach-Known, Reach-Gone, find-dead, find-Known}
use wispers_hub.Standalone.Backend.Steps as BackendSteps
use wispers_hub.Standalone.Rest.Steps as RestSteps
use wispers_hub.Standalone.Calls.{
  Rpc, registration, authentication, node_listing, roster_reading, metadata_reading, policy_reading,
  roster_update, last_seen_update, deregistration, activity, Request, stats, groups, group_creation,
  group, group_deletion, group_reset, token_creation, tokens, node_patch, node_deletion, Call, rpc,
  rest, serve_rpc, with_api_key, serve_request, serve, serve_all,
}

module _ (x : Messages.Externals) (y : Answers.Externals) (instance_id : Bytes) (env : Env) where
  serve_rpc-Reach : (call : Rpc) (w : World) → Reach w.db (serve_rpc x y instance_id env call w).db
  unfolding serve_rpc
  serve_rpc-Reach (registration token) = BackendSteps.complete_node_registration-Reaches x env token
  serve_rpc-Reach (authentication raw n auth_token) =
      BackendSteps.authenticate_node-Reaches x env raw n auth_token
  serve_rpc-Reach (node_listing raw) = BackendSteps.list_nodes-Reaches x env raw
  serve_rpc-Reach (roster_reading raw) = BackendSteps.get_roster-Reaches x env raw
  serve_rpc-Reach (metadata_reading raw) =
      BackendSteps.get_group_metadata-Reaches x env instance_id raw
  serve_rpc-Reach (policy_reading raw) = BackendSteps.get_turn_policy-Reaches x env instance_id raw
  serve_rpc-Reach (roster_update raw roster new expected) =
      BackendSteps.update_roster-Reaches x env raw roster new expected
  serve_rpc-Reach (last_seen_update raw n) = BackendSteps.update_node_last_seen-Reaches x env raw n
  serve_rpc-Reach (deregistration raw n) = BackendSteps.deregister_node-Reaches x env raw n
  serve_rpc-Reach (activity raw n event success d) =
      BackendSteps.log_activity-Reaches x env raw n event success d

  with_api_key-Reach :
      {A : Type 0} (header : Bytes) (m : Exec Failure A)
      → Reaches m
      → (w : World) → Reach w.db (with_api_key x y instance_id env header m w).db
  unfolding with_api_key
  with_api_key-Reach header m h =
      >>=-Reaches _ _ (RestSteps.check_api_key-Reaches y env header) (λ key. h)

  serve_request-Reach :
      (header : Bytes) (request : Request) (w : World)
      → Reach w.db (serve_request x y instance_id env header request w).db
  unfolding serve_request
  serve_request-Reach h stats = with_api_key-Reach h _ (RestSteps.get_stats-Reaches y env)
  serve_request-Reach h (groups ak) =
      with_api_key-Reach h _ (RestSteps.get_connectivity_groups-Reaches y env ak)
  serve_request-Reach h (group_creation body) =
      with_api_key-Reach h _ (RestSteps.post_connectivity_group-Reaches y env body)
  serve_request-Reach h (group raw) =
      with_api_key-Reach h _ (RestSteps.get_connectivity_group-Reaches y env raw)
  serve_request-Reach h (group_deletion raw) =
      with_api_key-Reach h _ (RestSteps.delete_connectivity_group-Reaches y env raw)
  serve_request-Reach h (group_reset raw) =
      with_api_key-Reach h _ (RestSteps.reset_connectivity_group-Reaches y env raw)
  serve_request-Reach h (token_creation raw body) =
      with_api_key-Reach h _ (RestSteps.post_registration_token-Reaches y env raw body)
  serve_request-Reach h (tokens raw) =
      with_api_key-Reach h _ (RestSteps.get_registration_tokens-Reaches y env raw)
  serve_request-Reach h (node_patch raw number body) =
      with_api_key-Reach h _ (RestSteps.patch_node-Reaches y env raw number body)
  serve_request-Reach h (node_deletion raw number) =
      with_api_key-Reach h _ (RestSteps.delete_node-Reaches y env raw number)

  -- Every call of the standalone hub, whatever its environment answers and wherever it fails, is a
  -- sequence of steps of the abstract tables: to read, to change nodes or groups without moving a key,
  -- a group's number or bringing back what is deleted, to register a node under its group's next number,
  -- and to open a group.
  pub serve-Reach : (call : Call) (w : World) → Reach w.db (serve x y instance_id env call w).db
  unfolding serve
  serve-Reach (rpc call) = serve_rpc-Reach call
  serve-Reach (rest header request) = serve_request-Reach header request

  serve_all-Reach :
      (calls : List Call) (w : World) → Reach w.db (serve_all x y instance_id env calls w).db
  unfolding serve_all
  serve_all-Reach [] w = here
  serve_all-Reach (call ∷ calls) w = Reach-trans (serve-Reach call w) (serve_all-Reach calls _)

  -- After any history of calls over tables where group identifiers and node keys are unique and every
  -- node has a number that its existing group has given out, the tables are so again.
  pub serve_all-IsValid :
      (calls : List Call) (w : World)
      → IsValid w.db
      → IsValid (serve_all x y instance_id env calls w).db
  serve_all-IsValid calls w v = Reach-IsValid (serve_all-Reach calls w) v

-- A group's next number, before and after a registration.
abbrev Counts : Bytes → Db → ℕ → Type 0
Counts cg db n = (g : GroupRow) × (find (has_id cg) db.groups ≡ some g) × (g.next_node_number ≡ n)

module _ (x : Messages.Externals) (env : Env) where
  registration-Counts :
      (token : Bytes) (w w' : World) (r : Registration)
      → complete_node_registration x env token w ≡ (ok r, w')
      → (n : ℕ) × (r.node_number ≡ pos n)
        × Counts r.connectivity_group_id w.db n
        × Counts r.connectivity_group_id w'.db (n + 1)
  registration-Counts token w w' r e =
      let (t, n, found, same, number_eq, number, free, rows) =
        complete_node_registration-eq-ok x env token w w' r e in
      let (g, there, count) = BackendSteps.number_of-eq-some _ n number in
      (
        n,
        number_eq,
        (g, ap (λ id. find (has_id id) w.db.groups) same ∙ there, count),
        (
          bump_number g,
          ap (λ id. find (has_id id) w'.db.groups) same
              ∙ find-bump_in t.group_id w.db.groups w'.db.groups g there
                  (rows.0 ∙ update_where-map (has_id t.group_id) bump_number w.db.groups),
          omega (arith, count),
        ),
      )

authenticate_node-Reach :
    (x : Messages.Externals) (env : Env) (raw : Bytes) (n : ℤ) (token : Bytes) (w w' : World)
    → authenticate_node x env raw n token w ≡ (ok tt, w')
    → Reach w.db w'.db
authenticate_node-Reach x env raw n token w w' e =
    subst (λ (p : Result Error (Unit {0}) × World). Reach w.db p.1.db) e
      (BackendSteps.authenticate_node-Reaches x env raw n token w)

pub Known-authenticated :
    (x : Messages.Externals) (env : Env) (raw token : Bytes) (n : ℤ) (w w' : World)
    → authenticate_node x env raw n token w ≡ (ok tt, w')
    → (cg : Bytes) × (x.parse_uuid raw ≡ some cg) × Known cg n w.db
unfolding authenticate_node parse_group_id
Known-authenticated x env raw token n w w' e =
    let (cg, parsed, e1) = raise-bind _ w' _ _ _ _ e in
    let (up, e2) = query-bind _ w' _ env _ _ _ e1 in
    let (row, found, e3) = raise-bind _ w' _ _ _ _ e2 in
    (cg, parsed, find-Known cg n w.db.nodes row found)

pub Gone-deregistered :
    (x : Messages.Externals) (env : Env) (raw cg : Bytes) (n : ℤ) (w w' : World)
    → x.parse_uuid raw ≡ some cg
    → deregister_node x env raw n w ≡ (ok tt, w')
    → any (is_live_node cg n) w'.db.nodes ≡ false
Gone-deregistered x env raw cg n w w' parsed e =
    let (cg', now, parsed', nodes_eq) = deregister_node-eq-ok x env raw n w w' e in
    let same : cg' ≡ cg = cc in
    ap (any (is_live_node cg n))
      (nodes_eq ∙ ap (λ id. update_where (is_node id n) (stamp now) w.db.nodes) same)
    ∙ any-stamped cg n now w.db.nodes

deregister_node-Reach :
    (x : Messages.Externals) (env : Env) (raw : Bytes) (n : ℤ) (w w' : World)
    → deregister_node x env raw n w ≡ (ok tt, w')
    → Reach w.db w'.db
deregister_node-Reach x env raw n w w' e =
    subst (λ (p : Result Error (Unit {0}) × World). Reach w.db p.1.db) e
      (BackendSteps.deregister_node-Reaches x env raw n w)

module _ (x : Messages.Externals) (y : Answers.Externals) (instance_id : Bytes) (env : Env) where
  -- Numbers are not given out twice: of two registrations into a group, whatever calls stand between
  -- them, the later one gives the greater number.
  pub registrations_increase :
      (token token' : Bytes) (calls : List Call) (w w1 w2 : World) (r r' : Registration)
      → complete_node_registration x env token w ≡ (ok r, w1)
      → complete_node_registration x env token' (serve_all x y instance_id env calls w1)
        ≡ (ok r', w2)
      → r'.connectivity_group_id ≡ r.connectivity_group_id
      → r.node_number <ℤ r'.node_number
  registrations_increase token token' calls w w1 w2 r r' e e' same =
      let (n, number, _, (g, there, count)) = registration-Counts x env token w w1 r e in
      let (n', number', (h, there', count'), _) = registration-Counts x env token' _ w2 r' e' in
      let (k, later, up) =
        Reach-Later r.connectivity_group_id g (serve_all-Reach x y instance_id env calls w1)
          there in
      let same_row : k ≡ h = cc in
      rw (number, number')
        (omega (arith, count, count', up, ap (λ (g : GroupRow). g.next_node_number) same_row))

  -- A node that has authenticated and is then deregistered does not authenticate again, with any token
  -- and under any spelling of its group's identifier, whatever calls came between and come after.
  pub deregistered_forever :
      (raw raw' token token' : Bytes) (n : ℤ) (calls calls' : List Call) (w w1 w2 : World)
      → authenticate_node x env raw n token w ≡ (ok tt, w1)
      → deregister_node x env raw n (serve_all x y instance_id env calls w1) ≡ (ok tt, w2)
      → x.parse_uuid raw' ≡ x.parse_uuid raw
      → env.fails (serve_all x y instance_id env calls' w2).calls ≡ false
      → authenticate_node x env raw' n token' (serve_all x y instance_id env calls' w2)
        ≡ (err invalid_credentials, called (serve_all x y instance_id env calls' w2))
  deregistered_forever raw raw' token token' n calls calls' w w1 w2 e d spelling up =
      let (cg, parsed, known) = Known-authenticated x env raw token n w w1 e in
      let dead = Gone-deregistered x env raw cg n _ w2 parsed d in
      let before =
        Reach-Known cg n
          (Reach-trans (authenticate_node-Reach x env raw n token w w1 e)
            (serve_all-Reach x y instance_id env calls w1))
          known in
      let after = Reach-Known cg n (deregister_node-Reach x env raw n _ w2 d) before in
      let gone =
        Reach-Gone cg n (serve_all-Reach x y instance_id env calls' w2)
          (record { known = after; dead = dead }) in
      authenticate_node-gone x env raw' cg token' n _ (spelling ∙ parsed) up
        (find-dead cg n _ gone.dead)
