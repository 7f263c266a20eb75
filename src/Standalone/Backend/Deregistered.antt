-- ===== src/Standalone/Backend/Deregistered.antt =====
-- DeregisterNode and AuthenticateNode of connect/hub/standalone_grpc.go: a node that is gone does not
-- authenticate.
use wispers_hub.Base.{
  ℕ, ◌≡◌, refl, ap, ◌∙◌, true, false, false, none, some, List, [], ◌∷◌, Bytes, any, find,
  update_where, bytes_eq, Bool-cases, inl, inr, codes,
}
use wispers_hub.Base.Int.{ℤ, int_eq}
use wispers_hub.Grpc.{Error}
use wispers_hub.Standalone.Db.{NodeRow, is_node, is_live_node}
use wispers_hub.Standalone.Exec.{Env, World, ok, err, ◌>>=◌, or_raise, query, called, quietly}
use wispers_hub.Standalone.Exec.Inversion.{raise-bind, execute-bind, clock-bind}
use wispers_hub.Standalone.Backend.{deregister_node, authenticate_node, parse_group_id}
use wispers_hub.Standalone.Messages.{Externals, stamp, invalid_credentials, no_message, deregister}
use wispers_hub.Standalone.Backend.Tokens.{insert_activity_log-SameRows}

-- No live node has the key that a statement has stamped.
find-stamped :
    (cg : Bytes) (n : ℤ) (now : ℕ) (rows : List NodeRow)
    → find (is_live_node cg n) (update_where (is_node cg n) (stamp now) rows) ≡ none
find-stamped cg n now [] = refl
find-stamped cg n now (r ∷ rows) =
    let rest = find-stamped cg n now rows in
    elim (Bool-cases (is_node cg n r)) [
      | inl hit ↦ rw (hit, rest, hit) refl
      | inr miss ↦ rw (miss, rest, miss) refl
    ]

pub any-stamped :
    (cg : Bytes) (n : ℤ) (now : ℕ) (rows : List NodeRow)
    → any (is_live_node cg n) (update_where (is_node cg n) (stamp now) rows) ≡ false
any-stamped cg n now [] = refl
any-stamped cg n now (r ∷ rows) =
    let rest = any-stamped cg n now rows in
    elim (Bool-cases (is_node cg n r)) [
      | inl hit ↦ rw (hit, rest, hit) refl
      | inr miss ↦ rw (miss, rest, miss) refl
    ]

quietly-eq-ok :
    (f : World → World) (w w' : World) → quietly {E = Error} f w ≡ (ok tt, w') → w' ≡ f w
unfolding quietly
quietly-eq-ok f w w' e = cc

module _ (x : Externals) where
  pub deregister_node-eq-ok :
      (env : Env) (raw : Bytes) (n : ℤ) (w w' : World)
      → deregister_node x env raw n w ≡ (ok tt, w')
      → (cg : Bytes) × (now : ℕ) × (x.parse_uuid raw ≡ some cg)
        × (w'.db.nodes ≡ update_where (is_node cg n) (stamp now) w.db.nodes)
  unfolding deregister_node parse_group_id
  deregister_node-eq-ok env raw n w w' e =
      let (cg, parsed, e1) = raise-bind _ w' _ _ _ _ e in
      let e2 = clock-bind _ w' _ env _ e1 in
      let (up, e3) = execute-bind _ w' _ env _ _ _ _ e2 in
      let same = quietly-eq-ok _ _ w' e3 in
      let rows =
        insert_activity_log-SameRows x env cg n (codes "deregister") true
          (some (record { error_message = no_message; kind = deregister })) _ in
      (cg, _, parsed, ap (λ (v : World). v.db.nodes) same ∙ rows.1)

  pub authenticate_node-gone :
      (env : Env) (raw cg token : Bytes) (n : ℤ) (w : World)
      → x.parse_uuid raw ≡ some cg
      → env.fails w.calls ≡ false
      → find (is_live_node cg n) w.db.nodes ≡ none
      → authenticate_node x env raw n token w ≡ (err invalid_credentials, called w)
  unfolding authenticate_node parse_group_id ◌>>=◌ query or_raise
  authenticate_node-gone env raw cg token n w parsed up gone = rw (parsed, up, gone) refl

  -- After a node is deregistered, authentication as it is refused, with any token, in any later
  -- database with the nodes that this left.
  authenticate_node-deregister_node :
      (env env' : Env) (raw token : Bytes) (n : ℤ) (w w' w2 : World)
      → deregister_node x env raw n w ≡ (ok tt, w')
      → w2.db.nodes ≡ w'.db.nodes
      → env'.fails w2.calls ≡ false
      → authenticate_node x env' raw n token w2 ≡ (err invalid_credentials, called w2)
  authenticate_node-deregister_node env env' raw token n w w' w2 gone same up =
      let (cg, now, parsed, nodes_eq) = deregister_node-eq-ok env raw n w w' gone in
      authenticate_node-gone env' raw cg token n w2 parsed up
        (ap (find (is_live_node cg n)) (same ∙ nodes_eq) ∙ find-stamped cg n now w.db.nodes)
