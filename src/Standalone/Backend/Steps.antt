-- ===== src/Standalone/Backend/Steps.antt =====
-- Every method of connect/hub/standalone_grpc.go does to the tables only what the step relation allows.
use wispers_hub.Base.{
  ℕ, ◌≡◌, refl, sym, ap, ◌∙◌, Bool, false, Option, none, some, Bytes, any, find, ◌==◌, bytes_eq,
  arith,
}
use wispers_hub.Base.Int.{ℤ, pos}
use wispers_hub.Grpc.{Error}
use wispers_hub.Standalone.Db.{Db, GroupRow, TokenRow, is_node}
use wispers_hub.Standalone.Exec.{Env, World, Exec, Result, ok, err, ◌>>=◌, quietly}
use wispers_hub.Standalone.Messages.{
  Registration, EventDetails, invalid_group_id, stamp, bump_number, number_of, has_version,
  with_roster,
}
use wispers_hub.Standalone.Steps.{Step, reads, registers, KeepsNode, KeepsGroup, has_id}
use wispers_hub.Standalone.Steps.Methods.{
  Reaches, Reach-step, >>=-Reaches, pure-Reaches, guard-Reaches, or_raise-Reaches, query-Reaches,
  execute_returning-Reaches, read_clock-Reaches, update_where-map, update_nodes-Step,
  update_groups-Step,
}
use wispers_hub.Standalone.Backend.{
  Externals, parse_group_id, insert_activity_log, complete_node_registration, authenticate_node,
  list_nodes, live_group, get_roster, get_group_metadata, get_turn_policy, update_roster,
  update_node_last_seen, deregister_node, log_activity, new_node,
}
use wispers_hub.Standalone.Backend.Registering.{registered_db}
use wispers_hub.Standalone.Backend.Tokens.{
  insert_activity_log-SameRows, complete_node_registration-eq-ok, complete_node_registration-eq-err,
  SameRows,
}

pub stamp-KeepsNode : (now : ℕ) → KeepsNode (stamp now)
stamp-KeepsNode now r = (refl, refl, ground arith)

with_roster-KeepsGroup : (roster : Bytes) (v : ℤ) → KeepsGroup (with_roster roster v)
with_roster-KeepsGroup roster v g = (refl, refl, ground arith)

pub number_of-eq-some :
    (o : Option GroupRow) (n : ℕ)
    → number_of o ≡ some n
    → (g : GroupRow) × (o ≡ some g) × (g.next_node_number ≡ n)
number_of-eq-some none n e = cc
number_of-eq-some (some g) n e = (g, refl, ground arith)

registered-Step :
    (x : Externals) (env : Env) (db db' : Db) (t : TokenRow) (n : ℕ) (a : Bytes) (created used : ℕ)
    → number_of (find (λ (g : GroupRow). g.id == t.group_id) db.groups) ≡ some n
    → any (is_node t.group_id (pos n)) db.nodes ≡ false
    → SameRows (registered_db x env db t n a created used) db'
    → Step db db'
registered-Step x env db db' t n a created used number free (gs, ns, ts, ks) =
    let (g, found, eq) = number_of-eq-some _ n number in
    registers (new_node x env t n a created) g found (ap pos (sym eq)) free
      (gs ∙ update_where-map (has_id t.group_id) bump_number db.groups) ns

module _ (x : Externals) (env : Env) where
  registration-Step :
      (token : Bytes) (w : World) (p : Result Error Registration × World)
      → complete_node_registration x env token w ≡ p
      → Step w.db p.1.db
  registration-Step token w (err e, w') h =
      let same = complete_node_registration-eq-err x env token w w' e h in
      reads (ap (λ (db : Db). db.groups) same) (ap (λ (db : Db). db.nodes) same)
  registration-Step token w (ok r, w') h =
      let (t, n, found, a, b, number, free, rows) =
        complete_node_registration-eq-ok x env token w w' r h in
      registered-Step x env w.db w'.db t n r.auth_token _ _ number free rows

  pub complete_node_registration-Reaches :
      (token : Bytes) → Reaches (complete_node_registration x env token)
  complete_node_registration-Reaches token w =
      Reach-step (registration-Step token w (complete_node_registration x env token w) refl)

  log-Reaches :
      (cg : Bytes) (n : ℤ) (event : Bytes) (success : Bool) (d : Option EventDetails)
      → Reaches (quietly {E = Error} (insert_activity_log x env cg n event success d))
  unfolding quietly
  log-Reaches cg n event success d w =
      let (gs, ns, ts, ks) = insert_activity_log-SameRows x env cg n event success d w in
      Reach-step (reads gs ns)

  parse-Reaches :
      {A : Type 0} (raw : Bytes) (k : Bytes → Exec Error A)
      → ((cg : Bytes) → Reaches (k cg))
      → Reaches (parse_group_id x env raw >>= k)
  unfolding parse_group_id
  parse-Reaches raw k h = >>=-Reaches _ k (or_raise-Reaches (x.parse_uuid raw) invalid_group_id) h

  pub authenticate_node-Reaches :
      (raw : Bytes) (n : ℤ) (token : Bytes) → Reaches (authenticate_node x env raw n token)
  unfolding authenticate_node
  authenticate_node-Reaches raw n token = parse-Reaches raw _ λ cg.
      >>=-Reaches _ _ (query-Reaches env Error _ _)
        λ found. >>=-Reaches _ _ (or_raise-Reaches found _) λ row. guard-Reaches _ _

  pub list_nodes-Reaches : (raw : Bytes) → Reaches (list_nodes x env raw)
  unfolding list_nodes
  list_nodes-Reaches raw =
      parse-Reaches raw _
        λ cg. >>=-Reaches _ _ (query-Reaches env Error _ _) λ rows. pure-Reaches Error _

  live_group-Reaches : (raw : Bytes) → Reaches (live_group x env raw)
  unfolding live_group
  live_group-Reaches raw =
      parse-Reaches raw _
        λ cg. >>=-Reaches _ _ (query-Reaches env Error _ _) λ found. or_raise-Reaches found _

  pub get_roster-Reaches : (raw : Bytes) → Reaches (get_roster x env raw)
  unfolding get_roster
  get_roster-Reaches raw = >>=-Reaches _ _ (live_group-Reaches raw) λ g. pure-Reaches Error _

  pub get_group_metadata-Reaches : (id raw : Bytes) → Reaches (get_group_metadata x env id raw)
  unfolding get_group_metadata
  get_group_metadata-Reaches id raw =
      >>=-Reaches _ _ (live_group-Reaches raw) λ g. pure-Reaches Error _

  pub get_turn_policy-Reaches : (id raw : Bytes) → Reaches (get_turn_policy x env id raw)
  unfolding get_turn_policy
  get_turn_policy-Reaches id raw =
      >>=-Reaches _ _ (live_group-Reaches raw) λ g. pure-Reaches Error _

  pub update_roster-Reaches :
      (raw roster : Bytes) (new expected : ℤ)
      → Reaches (update_roster x env raw roster new expected)
  unfolding update_roster
  update_roster-Reaches raw roster new expected = parse-Reaches raw _ λ cg.
      >>=-Reaches _ _ (guard-Reaches _ _) λ u.
        >>=-Reaches _ _
          (execute_returning-Reaches env Error _ _ _ (λ db.
            update_groups-Step (has_version cg expected) (with_roster roster new) db
              (with_roster-KeepsGroup roster new)))
          λ affected. guard-Reaches _ _

  pub update_node_last_seen-Reaches :
      (raw : Bytes) (n : ℤ) → Reaches (update_node_last_seen x env raw n)
  unfolding update_node_last_seen
  update_node_last_seen-Reaches raw n = parse-Reaches raw _ λ cg.
      >>=-Reaches _ _ (read_clock-Reaches env Error) λ now.
        execute_returning-Reaches env Error _ _ _
          (λ db. update_nodes-Step (is_node cg n) _ db (λ r. (refl, refl, ground arith)))

  pub deregister_node-Reaches : (raw : Bytes) (n : ℤ) → Reaches (deregister_node x env raw n)
  unfolding deregister_node
  deregister_node-Reaches raw n = parse-Reaches raw _ λ cg.
      >>=-Reaches _ _ (read_clock-Reaches env Error) λ now.
        >>=-Reaches _ _
          (execute_returning-Reaches env Error _ _ _
            (λ db. update_nodes-Step (is_node cg n) (stamp now) db (stamp-KeepsNode now)))
          λ u. log-Reaches _ _ _ _ _

  pub log_activity-Reaches :
      (raw : Bytes) (n : ℤ) (event : Bytes) (success : Bool) (d : Option EventDetails)
      → Reaches (log_activity x env raw n event success d)
  unfolding log_activity
  log_activity-Reaches raw n event success d = parse-Reaches raw _ λ cg. log-Reaches _ _ _ _ _
