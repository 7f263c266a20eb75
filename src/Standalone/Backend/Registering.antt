-- ===== src/Standalone/Backend/Registering.antt =====
-- CompleteNodeRegistration of connect/hub/standalone_grpc.go: all or nothing, one-shot tokens, and
-- when it succeeds.
use wispers_hub.Base.{
  ℕ, suc, ◌≡◌, false, some, [], ◌∷◌, ◌++◌, Bytes, any, find, update_where, ◌==◌, bytes_eq,
  Bool-cases, inl, inr,
}
use wispers_hub.Base.Int.{pos}
use wispers_hub.Grpc.{Error}
use wispers_hub.RegistrationTokens.{hex_encode}
use wispers_hub.Standalone.Db.{
  Db, GroupRow, NodeRow, TokenRow, is_usable, is_node, insert_node, update_groups, update_tokens,
}
use wispers_hub.Standalone.Exec.{Env, World, ok, pure}
use wispers_hub.Standalone.Exec.Inversion.{
  query-bind, execute-bind, insert-bind, raise-bind, clock-bind, draw-bind,
}
use wispers_hub.Standalone.Backend.{register_node, new_node}
use wispers_hub.Standalone.Messages.{Externals, bump_number, number_of}

insert_node-eq-some :
    (r : NodeRow) (db db' : Db)
    → insert_node r db ≡ some db'
    → (any (is_node r.group_id r.node_number) db.nodes ≡ false)
      × (db' ≡ record db { nodes = db.nodes ++ r ∷ [] })
unfolding insert_node
insert_node-eq-some r db db' e =
    elim (Bool-cases (any (is_node r.group_id r.node_number) db.nodes)) [
      | inl bad ↦ absurd (cc (rw bad at e))
      | inr good ↦ elim (Bool-cases (any (λ (g : GroupRow). g.id == r.group_id) db.groups)) [
        | inl there ↦ (good, cc (rw (good, there) at e))
        | inr missing ↦ absurd (cc (rw (good, missing) at e))
      ]
    ]

pure-eq-ok :
    (w w' : World) (a b : Bytes × ℕ × Bytes)
    → pure {E = Error} a w ≡ (ok b, w')
    → (b ≡ a) × (w'.db ≡ w.db)
unfolding pure
pure-eq-ok w w' a b e = (cc, cc)

triple-inj :
    {a a' c c' : Bytes} {b b' : ℕ}
    → ◌≡◌ {A = Bytes × ℕ × Bytes} (a, b, c) (a', b', c')
    → (a ≡ a') × (b ≡ b') × (c ≡ c')
triple-inj e = (cc, cc, cc)

module _ (x : Externals) (env : Env) where
  abbrev pub registered_db : Db → TokenRow → ℕ → Bytes → ℕ → ℕ → Db
  registered_db db t n auth_token created used = record db {
    groups = update_where (λ (g : GroupRow). g.id == t.group_id) bump_number db.groups;
    nodes = db.nodes ++ new_node x env t n auth_token created ∷ [];
    tokens =
        update_where (λ (r : TokenRow). r.id == t.id) (λ r. record r { used_at = some used })
          db.tokens;
  }

  -- What the transaction has done where it ends well. The clock is read at the second, sixth and
  -- eighth call.
  abbrev RegisteredBy : Bytes → World → World → Bytes → ℕ → Bytes → TokenRow → Type 0
  RegisteredBy hash w w' cg n auth_token t =
      (find (is_usable w.db hash (env.now (suc w.calls))) w.db.tokens ≡ some t)
      × (cg ≡ t.group_id)
      × (number_of (find (λ (g : GroupRow). g.id == t.group_id) w.db.groups) ≡ some n)
      × (any (is_node t.group_id (pos n)) w.db.nodes ≡ false)
      × (w'.db
          ≡ registered_db w.db t n auth_token (env.now (suc (suc (suc (suc (suc w.calls))))))
              (env.now (suc (suc (suc (suc (suc (suc (suc w.calls)))))))))

  conclude :
      (hash : Bytes) (w w' : World) (cg auth_token : Bytes) (n : ℕ) (t : TokenRow) (k : ℕ)
      (tok : Bytes) (db : Db)
      → cg ≡ t.group_id
      → n ≡ k
      → auth_token ≡ tok
      → find (is_usable w.db hash (env.now (suc w.calls))) w.db.tokens ≡ some t
      → number_of (find (λ (g : GroupRow). g.id == t.group_id) w.db.groups) ≡ some k
      → any (is_node t.group_id (pos k)) w.db.nodes ≡ false
      → db ≡ record (update_groups (λ (g : GroupRow). g.id == t.group_id) bump_number w.db) {
        nodes =
            w.db.nodes
            ++ new_node x env t k tok (env.now (suc (suc (suc (suc (suc w.calls)))))) ∷ [];
      }
      → w'.db
        ≡ update_tokens
            (λ (r : TokenRow). r.id == t.id)
            (λ r. record r {
              used_at = some (env.now (suc (suc (suc (suc (suc (suc (suc w.calls))))))));
            })
            db
      → RegisteredBy hash w w' cg n auth_token t
  conclude hash w w' cg auth_token n t k tok db a b c found number free d e =
      (found, a, rw b number, rw b free, rw (e, d, b, c))

  pub register_node-eq-ok :
      (hash : Bytes) (w w' : World) (cg auth_token : Bytes) (n : ℕ)
      → register_node x env hash w ≡ (ok (cg, n, auth_token), w')
      → (t : TokenRow) × (find (is_usable w.db hash (env.now (suc w.calls))) w.db.tokens ≡ some t)
        × (cg ≡ t.group_id)
        × (number_of (find (λ (g : GroupRow). g.id == t.group_id) w.db.groups) ≡ some n)
        × (any (is_node t.group_id (pos n)) w.db.nodes ≡ false)
        × (w'.db
            ≡ registered_db w.db t n auth_token
                (env.now (suc (suc (suc (suc (suc w.calls))))))
                (env.now (suc (suc (suc (suc (suc (suc (suc w.calls)))))))))
  unfolding register_node pure
  register_node-eq-ok hash w w' cg auth_token n e =
      let (f0, e0) = execute-bind w w' _ env _ _ _ _ e in
      let e1 = clock-bind _ w' _ env _ e0 in
      let (f2, e2) = query-bind _ w' _ env _ _ _ e1 in
      let (t, found, e3) = raise-bind _ w' _ _ _ _ e2 in
      let e4 = draw-bind _ w' _ env _ _ e3 in
      let (bytes, drawn, e5) = raise-bind _ w' _ _ _ _ e4 in
      let (f6, e6) = execute-bind _ w' _ env _ _ _ _ e5 in
      let (k, number, e7) = raise-bind _ w' _ _ _ _ e6 in
      let e8 = clock-bind _ w' _ env _ e7 in
      let (db, inserted, f9, e9) = insert-bind _ w' _ env _ _ _ _ e8 in
      let e10 = clock-bind _ w' _ env _ e9 in
      let (f11, e11) = execute-bind _ w' _ env _ _ _ _ e10 in
      let (f12, e12) = execute-bind _ w' _ env _ _ _ _ e11 in
      let (free, db_eq) = insert_node-eq-some _ _ _ inserted in
      let (same, end_eq) = pure-eq-ok _ _ _ _ e12 in
      let (cg_eq, n_eq, token_eq) = triple-inj same in
      let c =
        conclude hash w w' cg auth_token n t k (hex_encode bytes) db cg_eq n_eq token_eq found
          number free db_eq end_eq in
      (t, c.0, c.1, c.2, c.3, c.4)
