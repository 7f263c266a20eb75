-- ===== src/Standalone/Rest/Admission.antt =====
-- Registration tokens and API keys in connect/hub/standalone_rest.go.
use wispers_hub.Base.{
  ℕ, suc, ◌≡◌, refl, sym, ap, ◌∙◌, true, ◌&&◌, Option, none, some, [], ◌∷◌, ◌++◌, Bytes, any, find,
  arith, ltb, ◌==◌, ==_iff, ==_refl, bytes_eq, Bool-cases, inl, inr,
}
use wispers_hub.ApiKeys.Keys.{ApiKey, Authorized, from_auth_header}
use wispers_hub.ApiKeys.Keys
use wispers_hub.RegistrationTokens.{
  CreateRegistrationTokenRequest, MintedRegistrationToken, Minted, minted, invalid,
  mint_registration_token, hex_encode,
}
use wispers_hub.RegistrationTokens
use wispers_hub.Standalone.Db.{
  Db, ApiKeyRow, GroupRow, TokenRow, is_null, is_live_group, is_usable, insert_token,
}
use wispers_hub.Standalone.Exec.{Env, World, Exec, ok, called, pure, ◌>>=◌, uuid}
use wispers_hub.Standalone.Exec.Inversion.{
  raise-bind, clock-bind, query-bind, guard-bind, >>=-eq-ok, insert-bind,
}
use wispers_hub.Standalone.Rest.{post_registration_token, mint, new_token_row, check_api_key}
use wispers_hub.Standalone.Answers.{
  Failure, Externals, RegistrationTokenCreated, of_minted, header_key, accepts,
}
use wispers_hub.Standalone.Rest.Deletion.{group_exists-eq-ok}

pub insert_token-eq-some :
    (t : TokenRow) (db db' : Db)
    → insert_token t db ≡ some db'
    → db' ≡ record db { tokens = db.tokens ++ t ∷ [] }
unfolding insert_token
insert_token-eq-some t db db' e =
    elim (Bool-cases (any (λ (r : TokenRow). r.id == t.id) db.tokens)) [
      | inl bad ↦ absurd (cc (rw bad at e))
      | inr good ↦ elim (Bool-cases (any (λ (g : GroupRow). g.id == t.group_id) db.groups)) [
        | inl there ↦ cc (rw (good, there) at e)
        | inr missing ↦ absurd (cc (rw (good, missing) at e))
      ]
    ]

of_minted-eq-ok :
    (r : Minted) (w w' : World) (m : MintedRegistrationToken)
    → of_minted r w ≡ (ok m, w')
    → (r ≡ minted m) × (w' ≡ w)
of_minted-eq-ok (minted m') w w' m e = (cc, cc)
of_minted-eq-ok (invalid t) w w' m e = cc
of_minted-eq-ok RegistrationTokens.internal w w' m e = cc

abbrev with_token : TokenRow → Db → Db
with_token t db = record db { tokens = db.tokens ++ t ∷ [] }

module _ (x : Externals) (env : Env) where
  mint-eq-ok :
      (dto : CreateRegistrationTokenRequest) (w w' : World) (m : MintedRegistrationToken)
      → mint x env dto w ≡ (ok m, w')
      → (mint_registration_token x.hash_token (env.random w.calls) (env.now (suc w.calls)) dto
          ≡ minted m)
        × (w'.db ≡ w.db)
  unfolding mint
  mint-eq-ok dto w w' m e =
      let (a, b) = of_minted-eq-ok _ _ w' m e in (a, ap (λ (v : World). v.db) b)

  uuid-bind :
      (w w' : World) {B : Type 0} (b : B) (k : Bytes → Exec Failure B)
      → (uuid env >>= k) w ≡ (ok b, w')
      → k (env.new_uuid w.calls) (called w) ≡ (ok b, w')
  unfolding uuid ◌>>=◌
  uuid-bind w w' b k e = e

  pure-eq-ok :
      (r r' : RegistrationTokenCreated) (w w' : World)
      → pure {E = Failure} r w ≡ (ok r', w')
      → (r'.token ≡ r.token) × (w'.db ≡ w.db)
  unfolding pure
  pure-eq-ok r r' w w' e = (cc, cc)

  handed_out :
      (id cg : Bytes) (dto : CreateRegistrationTokenRequest) (m : MintedRegistrationToken)
      (created : ℕ) (db : Db) (now : ℕ)
      → is_usable db m.token_hash now (new_token_row x env id cg dto m created)
        ≡ (ltb now m.expires_at && any (is_live_group cg) db.groups)
  handed_out id cg dto m created db now = rw (==_refl m.token_hash) refl

  -- A token that is handed out is stored, for a live group, and comes from the minting of the request's
  -- token: whoever presents the text that was hashed presents a usable token exactly before it
  -- expires and while a group of this id is live.
  pub post_registration_token-eq-ok :
      (raw : Bytes) (body : Option CreateRegistrationTokenRequest) (w w' : World)
      (r : RegistrationTokenCreated)
      → post_registration_token x env raw body w ≡ (ok r, w')
      → (dto : CreateRegistrationTokenRequest) × (cg : Bytes) × (m : MintedRegistrationToken)
        × (t : TokenRow) × (i : ℕ) × (body ≡ some dto)
        × (x.parse_uuid raw ≡ some cg)
        × (any (is_live_group cg) w.db.groups ≡ true)
        × (mint_registration_token x.hash_token (env.random i) (env.now (suc i)) dto ≡ minted m)
        × (r.token ≡ m.token)
        × (w'.db ≡ record w.db { tokens = w.db.tokens ++ t ∷ [] })
        × ((db : Db) (now : ℕ)
            → is_usable db m.token_hash now t
              ≡ (ltb now m.expires_at && any (is_live_group cg) db.groups))
  unfolding post_registration_token
  post_registration_token-eq-ok raw body w w' r e =
      let (cg, parsed, e1) = raise-bind _ w' _ _ _ _ e in
      let (dto, body_eq, e2) = raise-bind _ w' _ _ _ _ e1 in
      let (u, w1, exists, e3) = >>=-eq-ok _ w' _ _ _ e2 in
      let (live, same) = group_exists-eq-ok x env cg w w1 exists in
      let (m, w2, drawn, e4) = >>=-eq-ok _ w' _ _ _ e3 in
      let (mint_eq, same2) = mint-eq-ok dto w1 w2 m drawn in
      let e5 = uuid-bind w2 w' r _ e4 in
      let e6 = clock-bind _ w' _ env _ e5 in
      let (db, inserted, up, e7) = insert-bind _ w' _ env _ _ _ _ e6 in
      let stored_eq = insert_token-eq-some _ _ _ inserted in
      let (token_eq, same3) = pure-eq-ok _ _ _ w' e7 in
      (
        dto,
        cg,
        m,
        _,
        w1.calls,
        body_eq,
        parsed,
        live,
        mint_eq,
        token_eq,
        same3 ∙ stored_eq ∙ ap (with_token _) (same2 ∙ same),
        λ db' now. handed_out (env.new_uuid w2.calls) cg dto m (env.now (suc w2.calls)) db' now,
      )

  header_key-eq-ok :
      (a : Authorized) (w w' : World) (key : ApiKey)
      → header_key a w ≡ (ok key, w')
      → (a ≡ Keys.ok key) × (w' ≡ w)
  header_key-eq-ok (Keys.ok k) w w' key e = (cc, cc)
  header_key-eq-ok (Keys.err f) w w' key e = cc

  accepts-eq-true :
      (key : ApiKey) (found : Option ApiKeyRow)
      → accepts key found ≡ true
      → (row : ApiKeyRow) × (found ≡ some row)
        × (is_null row.revoked_at ≡ true)
        × (hex_encode key.secret_hash ≡ row.secret_hash)
  accepts-eq-true key none e = cc
  accepts-eq-true key (some row) e = (
    row,
    refl,
    ground arith,
    (==_iff (hex_encode key.secret_hash) row.secret_hash).0 (ground arith),
  )

  pure-id : (a b : Bytes) (w w' : World) → pure {E = Failure} a w ≡ (ok b, w') → b ≡ a
  unfolding pure
  pure-id a b w w' e = cc

  admitted :
      (header id : Bytes) (key : ApiKey) (row : ApiKeyRow) (w w1 : World)
      → from_auth_header x.sha256 header ≡ Keys.ok key
      → id ≡ key.id
      → find (λ (k : ApiKeyRow). k.id == key.id) w1.db.api_keys ≡ some row
      → is_null row.revoked_at ≡ true
      → hex_encode key.secret_hash ≡ row.secret_hash
      → w1 ≡ w
      → (key : ApiKey) × (row : ApiKeyRow) × (from_auth_header x.sha256 header ≡ Keys.ok key)
        × (id ≡ key.id)
        × (find (λ (k : ApiKeyRow). k.id == id) w.db.api_keys ≡ some row)
        × (is_null row.revoked_at ≡ true)
        × (hex_encode key.secret_hash ≡ row.secret_hash)
  admitted header id key row w w1 held id_eq found live hash_eq same =
      (key, row, held, id_eq, rw (id_eq, sym same) found, live, hash_eq)

  -- A request is let in only with a header that holds a well-formed key, whose id is that of a stored
  -- key that is not revoked and has the hash of its secret.
  pub check_api_key-eq-ok :
      (header id : Bytes) (w w' : World)
      → check_api_key x env header w ≡ (ok id, w')
      → (key : ApiKey) × (row : ApiKeyRow) × (from_auth_header x.sha256 header ≡ Keys.ok key)
        × (id ≡ key.id)
        × (find (λ (k : ApiKeyRow). k.id == id) w.db.api_keys ≡ some row)
        × (is_null row.revoked_at ≡ true)
        × (hex_encode key.secret_hash ≡ row.secret_hash)
  unfolding check_api_key
  check_api_key-eq-ok header id w w' e =
      let (key, w1, parsed, e1) = >>=-eq-ok _ w' _ _ _ e in
      let (held, same) = header_key-eq-ok _ w w1 key parsed in
      let (up, e2) = query-bind w1 w' _ env _ _ _ e1 in
      let (accepted, e3) = guard-bind _ w' _ _ _ _ e2 in
      let (row, found, live, hash_eq) = accepts-eq-true key _ accepted in
      let id_eq = pure-id _ _ _ w' e3 in
      admitted header id key row w w1 held id_eq found live hash_eq same
