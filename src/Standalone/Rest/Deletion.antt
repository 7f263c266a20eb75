-- ===== src/Standalone/Rest/Deletion.antt =====
-- Deletion and reset in connect/hub/standalone_rest.go, and what they end in the backend.
use wispers_hub.Base.{
  ℕ, ◌≡◌, sym, ap, ◌∙◌, true, false, some, Bytes, any, find, update_where, bytes_eq,
}
use wispers_hub.Base.Int.{ℤ, int_eq}
use wispers_hub.Strings.{parse_int}
use wispers_hub.Standalone.Db.{
  Db, GroupRow, is_live_group, is_live_node, is_live_in, update_groups, update_nodes,
}
use wispers_hub.Standalone.Exec.{Env, World, ok, err, called}
use wispers_hub.Standalone.Exec.Inversion.{
  raise-bind, execute-bind, clock-bind, query-bind, guard-bind, >>=-eq-ok,
}
use wispers_hub.Standalone.Backend.{authenticate_node, complete_node_registration}
use wispers_hub.Standalone.Messages.{stamp, invalid_credentials, Registration}
use wispers_hub.Standalone.Messages
use wispers_hub.Standalone.Backend.Deregistered.{authenticate_node-gone}
use wispers_hub.Standalone.Rest.{
  delete_connectivity_group, reset_connectivity_group, delete_node, node_revoked_in_roster,
  group_exists,
}
use wispers_hub.Standalone.Answers.{Externals, bury, clear_roster}
use wispers_hub.Standalone.Rest.Stamped.{
  find-emptied, find-stamped_node, some_inj, execute-eq-ok, number_inj, guard-eq-ok, guard-true,
  unregistrable,
}

module _ (x : Externals) where
  pub group_exists-eq-ok :
      (env : Env) (cg : Bytes) (w w' : World)
      → group_exists x env cg w ≡ (ok tt, w')
      → (any (is_live_group cg) w.db.groups ≡ true) × (w'.db ≡ w.db)
  unfolding group_exists
  group_exists-eq-ok env cg w w' e =
      let (up, e1) = query-bind w w' tt env _ _ _ e in
      (guard-true _ _ _ w' e1, guard-eq-ok _ _ _ w' e1)

  delete_connectivity_group-eq-ok :
      (env : Env) (raw : Bytes) (w w' : World)
      → delete_connectivity_group x env raw w ≡ (ok tt, w')
      → (cg : Bytes) × (now : ℕ) × (x.parse_uuid raw ≡ some cg)
        × (w'.db
            ≡ update_groups
                (is_live_group cg)
                (bury now)
                (update_nodes (is_live_in cg) (stamp now) w.db))
  unfolding delete_connectivity_group
  delete_connectivity_group-eq-ok env raw w w' e =
      let (cg, parsed, e1) = raise-bind _ w' _ _ _ _ e in
      let e2 = clock-bind _ w' _ env _ e1 in
      let (up, e3) = execute-bind _ w' _ env _ _ _ _ e2 in
      (cg, _, parsed, execute-eq-ok env _ _ w' e3)

  -- A group that is deleted is closed: in any later database with the groups and nodes that this left,
  -- no node authenticates in it, with any token, and no registration succeeds into it.
  pub delete_connectivity_group-closed :
      (b : Messages.Externals) (env env' : Env) (raw token blob cg : Bytes) (n : ℤ)
      (w w' w2 w3 : World) (r : Registration)
      → delete_connectivity_group x env raw w ≡ (ok tt, w')
      → x.parse_uuid raw ≡ some cg
      → b.parse_uuid raw ≡ some cg
      → w2.db.groups ≡ w'.db.groups
      → w2.db.nodes ≡ w'.db.nodes
      → env'.fails w2.calls ≡ false
      → (authenticate_node b env' raw n token w2 ≡ (err invalid_credentials, called w2))
        × (¬ (
            (complete_node_registration b env' blob w2 ≡ (ok r, w3))
            × (r.connectivity_group_id ≡ cg)))
  delete_connectivity_group-closed b env env' raw token blob cg n w w' w2 w3 r gone parsed b_parsed
        gs rows up =
      let (cg', now, parsed', db_eq) = delete_connectivity_group-eq-ok env raw w w' gone in
      let same : cg' ≡ cg = some_inj (sym parsed' ∙ parsed) in
      let rows_eq : w2.db.nodes ≡ update_where (is_live_in cg) (stamp now) w.db.nodes =
        rows
        ∙ ap (λ (db : Db). db.nodes) db_eq
        ∙ ap (λ c. update_where (is_live_in c) (stamp now) w.db.nodes) same in
      let groups_eq : w2.db.groups ≡ update_where (is_live_group cg) (bury now) w.db.groups =
        gs
        ∙ ap (λ (db : Db). db.groups) db_eq
        ∙ ap (λ c. update_where (is_live_group c) (bury now) w.db.groups) same in
      (
        authenticate_node-gone b env' raw cg token n w2 b_parsed up
            (ap (find (is_live_node cg n)) rows_eq ∙ find-emptied cg n now w.db.nodes),
        λ done. unregistrable b env' blob cg now w.db.groups w2 w3 r groups_eq done.0 done.1,
      )

  delete_node-eq-ok :
      (env : Env) (raw number : Bytes) (w w' : World)
      → delete_node x env raw number w ≡ (ok tt, w')
      → (cg : Bytes) × (n : ℤ) × (g : GroupRow) × (now : ℕ) × (x.parse_uuid raw ≡ some cg)
        × (parse_int 32 number ≡ some n)
        × (find (is_live_group cg) w.db.groups ≡ some g)
        × (any (is_live_node cg n) w.db.nodes ≡ true)
        × (node_revoked_in_roster x env g.roster n ≡ true)
        × (w'.db ≡ update_nodes (is_live_node cg n) (stamp now) w.db)
  unfolding delete_node
  delete_node-eq-ok env raw number w w' e =
      let (cg, parsed, e1) = raise-bind _ w' _ _ _ _ e in
      let (n, read, e2) = raise-bind _ w' _ _ _ _ e1 in
      let (up, e3) = query-bind _ w' _ env _ _ _ e2 in
      let (g, found, e4) = raise-bind _ w' _ _ _ _ e3 in
      let (up', e5) = query-bind _ w' _ env _ _ _ e4 in
      let (there, e6) = guard-bind _ w' _ _ _ _ e5 in
      let (revoked, e7) = guard-bind _ w' _ _ _ _ e6 in
      let e8 = clock-bind _ w' _ env _ e7 in
      let (up2, e9) = execute-bind _ w' _ env _ _ _ _ e8 in
      (cg, n, g, _, parsed, read, found, there, revoked, guard-eq-ok _ _ _ w' e9)

  gone_node :
      (b : Messages.Externals) (env env' : Env) (raw token cg cg' : Bytes) (n n' : ℤ) (g : GroupRow)
      (now : ℕ) (w w' w2 : World)
      → cg' ≡ cg
      → n' ≡ n
      → find (is_live_group cg') w.db.groups ≡ some g
      → any (is_live_node cg' n') w.db.nodes ≡ true
      → node_revoked_in_roster x env g.roster n' ≡ true
      → w'.db ≡ update_nodes (is_live_node cg' n') (stamp now) w.db
      → b.parse_uuid raw ≡ some cg
      → w2.db.nodes ≡ w'.db.nodes
      → env'.fails w2.calls ≡ false
      → ((g : GroupRow) × (now : ℕ) × (find (is_live_group cg) w.db.groups ≡ some g)
          × (any (is_live_node cg n) w.db.nodes ≡ true)
          × (node_revoked_in_roster x env g.roster n ≡ true)
          × (w'.db ≡ update_nodes (is_live_node cg n) (stamp now) w.db))
        × (authenticate_node b env' raw n token w2 ≡ (err invalid_credentials, called w2))
  gone_node b env env' raw token cg cg' n n' g now w w' w2 same same_n found there revoked db_eq
        b_parsed rows up =
      let found' = rw same at found in
      let there' = rw (same, same_n) at there in
      let revoked' = rw same_n at revoked in
      let db_eq' = rw (same, same_n) at db_eq in
      (
        (g, now, found', there', revoked', db_eq'),
        authenticate_node-gone b env' raw cg token n w2 b_parsed up (
            ap (find (is_live_node cg n)) (rows ∙ ap (λ (db : Db). db.nodes) db_eq')
            ∙ find-stamped_node cg n now w.db.nodes),
      )

  -- A node that is deleted was live, in a live group whose roster revokes it, and only its row has
  -- changed; in any later database with the nodes that this left it does not authenticate, with any
  -- token.
  pub delete_node-revoked :
      (b : Messages.Externals) (env env' : Env) (raw number token cg : Bytes) (n : ℤ)
      (w w' w2 : World)
      → delete_node x env raw number w ≡ (ok tt, w')
      → parse_int 32 number ≡ some n
      → x.parse_uuid raw ≡ some cg
      → b.parse_uuid raw ≡ some cg
      → w2.db.nodes ≡ w'.db.nodes
      → env'.fails w2.calls ≡ false
      → ((g : GroupRow) × (now : ℕ) × (find (is_live_group cg) w.db.groups ≡ some g)
          × (any (is_live_node cg n) w.db.nodes ≡ true)
          × (node_revoked_in_roster x env g.roster n ≡ true)
          × (w'.db ≡ update_nodes (is_live_node cg n) (stamp now) w.db))
        × (authenticate_node b env' raw n token w2 ≡ (err invalid_credentials, called w2))
  delete_node-revoked b env env' raw number token cg n w w' w2 gone number_eq parsed b_parsed rows
        up =
      let (cg', n', g, now, parsed', read, found, there, revoked, db_eq) =
        delete_node-eq-ok env raw number w w' gone in
      let same : cg' ≡ cg = some_inj (sym parsed' ∙ parsed) in
      let same_n : n' ≡ n = number_inj (sym read ∙ number_eq) in
      gone_node b env env' raw token cg cg' n n' g now w w' w2 same same_n found there revoked db_eq
        b_parsed rows up

  -- The rows that a reset that succeeds has written.
  pub reset_connectivity_group-eq-ok :
      (env : Env) (raw : Bytes) (w w' : World)
      → reset_connectivity_group x env raw w ≡ (ok tt, w')
      → (cg : Bytes) × (now : ℕ) × (x.parse_uuid raw ≡ some cg)
        × (any (is_live_group cg) w.db.groups ≡ true)
        × (w'.db
            ≡ update_groups
                (is_live_group cg)
                clear_roster
                (update_nodes (is_live_in cg) (stamp now) w.db))
  unfolding reset_connectivity_group
  reset_connectivity_group-eq-ok env raw w w' e =
      let (cg, parsed, e1) = raise-bind _ w' _ _ _ _ e in
      let (u, w1, exists, e2) = >>=-eq-ok _ w' _ _ _ e1 in
      let (live, same) = group_exists-eq-ok env cg w w1 exists in
      let e3 = clock-bind _ w' _ env _ e2 in
      let (up, e4) = execute-bind _ w' _ env _ _ _ _ e3 in
      (
        cg,
        _,
        parsed,
        live,
        execute-eq-ok env _ _ w' e4
            ∙ ap
                (λ (db : Db).
                  update_groups (is_live_group cg) clear_roster
                    (update_nodes (is_live_in cg) (stamp (env.now w1.calls)) db))
                same,
      )
