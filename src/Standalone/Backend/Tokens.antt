-- ===== src/Standalone/Backend/Tokens.antt =====
-- CompleteNodeRegistration of connect/hub/standalone_grpc.go: all or nothing, and a token that is
-- used is not used again.
use wispers_hub.Base.{
  ℕ, suc, ◌∙◌, ◌≡◌, Bool, true, false, Option, none, some, Bytes, any, find, ◌==◌, bytes_eq,
  Bool-cases, inl, inr, codes, Option-cases,
}
use wispers_hub.Base.Int.{ℤ, pos}
use wispers_hub.Grpc.{Error}
use wispers_hub.Standalone.Db.{Db, GroupRow, TokenRow, is_node, is_usable}
use wispers_hub.Standalone.Exec.{
  Env, World, Exec, Result, ok, err, ◌>>=◌, guard, allow, transaction, settle, called, continue,
  best_effort,
}
use wispers_hub.Standalone.Exec.Inversion.{guard-bind, transaction-bind}
use wispers_hub.Standalone.Backend.{
  complete_node_registration, register_node, registered, insert_activity_log,
}
use wispers_hub.Standalone.Messages.{
  Externals, Registration, number_of, EventDetails, no_message, register,
}
use wispers_hub.Standalone.Backend.Registering.{register_node-eq-ok, registered_db}

-- The activity log is all that a log entry changes.
abbrev pub SameRows : Db → Db → Type 0
SameRows db db' =
    (db'.groups ≡ db.groups)
    × (db'.nodes ≡ db.nodes)
    × (db'.tokens ≡ db.tokens)
    × (db'.api_keys ≡ db.api_keys)

module _ (x : Externals) (env : Env) where
  settle-eq-err :
      (db : Db) (p : Result Error (Bytes × ℕ × Bytes) × World) (e : Error) (w' : World)
      → continue (settle db p).0 (registered x env) (settle db p).1 ≡ (err e, w')
      → w'.db ≡ db
  settle-eq-err db (ok (cg, n, a), w) e w' h = cc
  settle-eq-err db (err e', w) e w' h = cc

  -- A registration that fails, at whatever statement, leaves the database as it was: the number
  -- is not taken, no node is there, and the token is not used.
  pub complete_node_registration-eq-err :
      (token : Bytes) (w w' : World) (e : Error)
      → complete_node_registration x env token w ≡ (err e, w')
      → w'.db ≡ w.db
  unfolding complete_node_registration allow guard transaction ◌>>=◌
  complete_node_registration-eq-err token w w' e h = elim (Bool-cases (env.allows w.calls)) [
    | inl allowed ↦
        settle-eq-err w.db (register_node x env (x.hash_token token) (called w)) e w'
          (rw allowed at h)
    | inr refused ↦ let h' = rw refused at h in cc
  ]

  allow-bind :
      (w : World) {B : Type 0} (k : Bool → Exec Error B) (r : Result Error B × World)
      → (allow env >>= k) w ≡ r
      → k (env.allows w.calls) (called w) ≡ r
  unfolding allow ◌>>=◌
  allow-bind w k r e = e

  pub insert_activity_log-SameRows :
      (cg : Bytes) (n : ℤ) (event : Bytes) (success : Bool) (d : Option EventDetails) (w : World)
      → SameRows w.db (insert_activity_log x env cg n event success d w).db
  unfolding insert_activity_log best_effort
  insert_activity_log-SameRows cg n event success none w =
      elim (Bool-cases (env.fails (suc w.calls))) [
        | inl bad ↦ (rw bad, rw bad, rw bad, rw bad)
        | inr good ↦ (rw good, rw good, rw good, rw good)
      ]
  insert_activity_log-SameRows cg n event success (some d) w =
      elim (Option-cases (x.marshal_details d)) [
        | inl bare ↦ (rw bare, rw bare, rw bare, rw bare)
        | inr (b, full) ↦ elim (Bool-cases (env.fails (suc w.calls))) [
          | inl bad ↦ (rw (full, bad), rw (full, bad), rw (full, bad), rw (full, bad))
          | inr good ↦ (rw (full, good), rw (full, good), rw (full, good), rw (full, good))
        ]
      ]

  registered-eq-ok :
      (cg auth_token : Bytes) (n : ℕ) (w w' : World) (r : Registration)
      → registered x env (cg, n, auth_token) w ≡ (ok r, w')
      → (r.connectivity_group_id ≡ cg)
        × (r.node_number ≡ pos n)
        × (r.auth_token ≡ auth_token)
        × (w'.db.groups ≡ w.db.groups)
        × (w'.db.nodes ≡ w.db.nodes)
        × (w'.db.tokens ≡ w.db.tokens)
        × (w'.db.api_keys ≡ w.db.api_keys)
  registered-eq-ok cg auth_token n w w' r h =
      let (a, b, c, d) =
        insert_activity_log-SameRows cg (pos n) (codes "register") true
          (some (record { error_message = no_message; kind = register })) w in
      let same : w'.db
          ≡ (insert_activity_log x env cg (pos n) (codes "register") true
              (some (record { error_message = no_message; kind = register })) w).db =
        cc in
      (cc, cc, cc, rw same a, rw same b, rw same c, rw same d)

  SameRows-registered :
      (db db1 db2 : Db) (t : TokenRow) (n : ℕ) (a a' : Bytes) (created used : ℕ)
      → a' ≡ a
      → SameRows db1 db2
      → db1 ≡ registered_db x env db t n a created used
      → SameRows (registered_db x env db t n a' created used) db2
  SameRows-registered db db1 db2 t n a a' created used d (e1, e2, e3, e4) e =
      (rw (e1, e), rw (e2, e, d), rw (e3, e), rw (e4, e))

  -- What a registration that succeeds has done: it found an unused token with this hash that has not
  -- expired, in a live group; the node has the next number of that group, which no node of it had;
  -- the group's number has moved on, the node is stored with the hash of the token that it was given,
  -- and the registration token is marked as used. API keys stay as they were.
  pub complete_node_registration-eq-ok :
      (token : Bytes) (w w' : World) (r : Registration)
      → complete_node_registration x env token w ≡ (ok r, w')
      → (t : TokenRow) × (n : ℕ) × (find
            (is_usable w.db (x.hash_token token) (env.now (suc (suc w.calls))))
            w.db.tokens
          ≡ some t)
        × (r.connectivity_group_id ≡ t.group_id)
        × (r.node_number ≡ pos n)
        × (number_of (find (λ (g : GroupRow). g.id == t.group_id) w.db.groups) ≡ some n)
        × (any (is_node t.group_id (pos n)) w.db.nodes ≡ false)
        × SameRows
            (registered_db x env w.db t n r.auth_token
              (env.now (suc (suc (suc (suc (suc (suc w.calls)))))))
              (env.now (suc (suc (suc (suc (suc (suc (suc (suc w.calls))))))))))
            w'.db
  unfolding complete_node_registration
  complete_node_registration-eq-ok token w w' r h =
      let h1 = allow-bind w _ _ h in
      let (allowed, h2) = guard-bind _ w' _ _ _ _ h1 in
      let ((cg, n, a), w1, body, logged) = transaction-bind _ w' _ _ _ h2 in
      let (t, found, cg_eq, number, free, db_eq) = register_node-eq-ok x env _ _ _ _ _ _ body in
      let (b, c, d, e1, e2, e3, e4) = registered-eq-ok cg a n w1 w' r logged in
      (
        t,
        n,
        found,
        b ∙ cg_eq,
        c,
        number,
        free,
        SameRows-registered w.db w1.db w'.db t n a r.auth_token _ _ d (e1, e2, e3, e4) db_eq,
      )
