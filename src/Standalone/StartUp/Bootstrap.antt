-- ===== src/Standalone/StartUp/Bootstrap.antt =====
-- The API key that ensureAPIKey of connect/hub/standalone.go mints where there is no active one.
use wispers_hub.Base.{
  ℕ, suc, ◌<◌, ◌≡◌, refl, sym, ap, ◌∙◌, ◌⊎◌, inl, inr, Bool, true, false, some, List, [], ◌∷◌, ◌++◌,
  Bytes, codes, length, filter, any, find, All, ltb, if◌then◌else◌, ◌==◌, ==_refl, bytes_eq,
  Bool-cases, arith,
}
use wispers_hub.RegistrationTokens.{hex_encode}
use wispers_hub.ApiKeys.Keys.{ApiKey, generate_with_reader, from_auth_header, is_blank}
use wispers_hub.ApiKeys.Keys
use wispers_hub.ApiKeys.Keys.RoundTrip.{from_auth_header-generate}
use wispers_hub.Standalone.Db.{Db, ApiKeyRow, insert_api_key}
use wispers_hub.Standalone.Exec.{Env, World, ok, ◌>>=◌, pure, query, called, guard}
use wispers_hub.Standalone.Exec.Inversion.{
  query-bind, insert-bind, raise-bind, clock-bind, draw-bind,
}
use wispers_hub.Standalone.Answers
use wispers_hub.Standalone.Answers.{accepts, header_key}
use wispers_hub.Standalone.Rest.{check_api_key}
use wispers_hub.Standalone.StartUp.{
  Failure, Externals, api_key_env, is_active, bootstrap_row, ensure_api_key, mint_api_key,
}

pub pure-same :
    {A : Type 0} (a b : A) (w w' : World) → pure {E = Failure} a w ≡ (ok b, w') → (b ≡ a) × (w' ≡ w)
unfolding pure
pure-same a b w w' e = (cc, cc)

insert_api_key-eq-some :
    (row : ApiKeyRow) (db db' : Db)
    → insert_api_key row db ≡ some db'
    → (any (λ (r : ApiKeyRow). r.id == row.id) db.api_keys ≡ false)
      × (db' ≡ record db { api_keys = db.api_keys ++ row ∷ [] })
unfolding insert_api_key
insert_api_key-eq-some row db db' e =
    elim (Bool-cases (any (λ (r : ApiKeyRow). r.id == row.id) db.api_keys)) [
      | inl bad ↦ absurd (cc (rw bad at e))
      | inr free ↦ (free, cc (rw free at e))
    ]

module _ (x : Externals) (env : Env) where
  -- The key of these random bytes is stored behind the others, none of which has its id.
  abbrev pub Minted : Bytes → World → World → Type 0
  Minted encoded w w' =
      (key : ApiKey) × (now : ℕ) × (generate_with_reader x.sha256 api_key_env
          (env.random w.calls 12) (env.random (suc w.calls) 32)
        ≡ some key)
      × (encoded ≡ key.encoded)
      × (any (λ (r : ApiKeyRow). r.id == key.id) w.db.api_keys ≡ false)
      × (w'.db ≡ record w.db { api_keys = w.db.api_keys ++ bootstrap_row key now ∷ [] })

  minted_by :
      (encoded : Bytes) (w w' w1 : World) (key : ApiKey) (now : ℕ) (db : Db)
      → generate_with_reader x.sha256 api_key_env
          (env.random w.calls 12)
          (env.random (suc w.calls) 32)
        ≡ some key
      → insert_api_key (bootstrap_row key now) w.db ≡ some db
      → encoded ≡ key.encoded
      → w' ≡ w1
      → w1.db ≡ db
      → Minted encoded w w'
  minted_by encoded w w' w1 key now db made inserted same end stored =
      let (free, eq) = insert_api_key-eq-some (bootstrap_row key now) w.db db inserted in
      (key, now, made, same, free, ap (λ (u : World). u.db) end ∙ stored ∙ eq)

  mint_api_key-Minted :
      (encoded : Bytes) (w w' : World)
      → mint_api_key x env w ≡ (ok encoded, w')
      → Minted encoded w w'
  unfolding mint_api_key
  mint_api_key-Minted encoded w w' e =
      let e1 = draw-bind w w' encoded env _ _ e in
      let e2 = draw-bind _ w' encoded env _ _ e1 in
      let (key, made, e3) = raise-bind _ w' encoded _ _ _ e2 in
      let e4 = clock-bind _ w' encoded env _ e3 in
      let (db, inserted, up, e5) = insert-bind _ w' encoded env _ _ _ _ e4 in
      let (same, end) = pure-same _ encoded _ w' e5 in
      minted_by encoded w w' _ key _ db made inserted same end refl

  counted :
      (b : Bool) (encoded : Bytes) (w w' : World)
      → (if b then pure [] else mint_api_key x env) w ≡ (ok encoded, w')
      → ((encoded ≡ []) × (w' ≡ w)) ⊎ Minted encoded w w'
  counted true encoded w w' e = inl (pure-same [] encoded w w' e)
  counted false encoded w w' e = inr (mint_api_key-Minted encoded w w' e)

  pub ensure_api_key-Minted :
      (encoded : Bytes) (w w' : World)
      → ensure_api_key x env w ≡ (ok encoded, w')
      → ((encoded ≡ []) × (w'.db ≡ w.db)) ⊎ Minted encoded (called w) w'
  unfolding ensure_api_key
  ensure_api_key-Minted encoded w w' e =
      let (up, e1) = query-bind w w' encoded env _ _ _ e in
      elim (counted (ltb 0 (length (filter is_active w.db.api_keys))) encoded (called w) w' e1) [
        | inl (none_made, same) ↦ inl (none_made, ap (λ (u : World). u.db) same)
        | inr minted ↦ inr minted
      ]

find-new :
    (id : Bytes) (rows : List ApiKeyRow) (row : ApiKeyRow)
    → row.id ≡ id
    → any (λ (r : ApiKeyRow). r.id == id) rows ≡ false
    → find (λ (r : ApiKeyRow). r.id == id) (rows ++ row ∷ []) ≡ some row
find-new id [] row same free = rw (same, ==_refl id) refl
find-new id (r ∷ rows) row same free = elim (Bool-cases (r.id == id)) [
  | inl hit ↦ absurd (cc (rw hit at free))
  | inr miss ↦ rw miss (find-new id rows row same (rw miss at free))
]

accepts-bootstrap : (key : ApiKey) (now : ℕ) → accepts key (some (bootstrap_row key now)) ≡ true
accepts-bootstrap key now = rw (==_refl (hex_encode key.secret_hash)) refl

env_not_blank : is_blank api_key_env ≡ false
unfolding is_blank
env_not_blank = refl

generated-once :
    (x : Externals) (ib sb : Bytes) (key key' : ApiKey)
    → generate_with_reader x.sha256 api_key_env (some ib) (some sb) ≡ some key
    → generate_with_reader x.sha256 api_key_env (some ib) (some sb) ≡ some key'
    → key ≡ key'
generated-once x ib sb key key' e e' = some-inj (sym e ∙ e')
  where
    some-inj : {k k' : ApiKey} → some k ≡ some k' → k ≡ k'
    some-inj e = cc

passes :
    (y : Answers.Externals) (env : Env) (header : Bytes) (key : ApiKey) (now : ℕ)
    (rows : List ApiKeyRow) (w : World)
    → from_auth_header y.sha256 header ≡ Keys.ok key
    → w.db.api_keys ≡ rows ++ bootstrap_row key now ∷ []
    → any (λ (r : ApiKeyRow). r.id == key.id) rows ≡ false
    → env.fails w.calls ≡ false
    → check_api_key y env header w ≡ (ok key.id, called w)
unfolding check_api_key query guard pure ◌>>=◌
passes y env header key now rows w good stored free up =
    rw
      (
        good,
        header_key,
        up,
        stored,
        find-new key.id rows (bootstrap_row key now) refl free,
        accepts-bootstrap key now,
      )
      refl

-- The key that a start-up mints lets its holder in: where ensureAPIKey made one from 12 and 32 random
-- bytes, the header `Bearer <key>` passes the API-key check, in any later database with the API keys that
-- this left and where the query does not fail.
pub check_api_key-ensure_api_key :
    (x : Externals) (y : Answers.Externals) (env env' : Env) (encoded id_bytes secret_bytes : Bytes)
    (c : ℕ) (w w1 w2 : World)
    → y.sha256 ≡ x.sha256
    → env.random (suc w.calls) 12 ≡ some id_bytes
    → env.random (suc (suc w.calls)) 32 ≡ some secret_bytes
    → All (λ b. b < 256) id_bytes
    → All (λ b. b < 256) secret_bytes
    → length id_bytes ≡ 12
    → length secret_bytes ≡ 32
    → ensure_api_key x env w ≡ (ok (c ∷ encoded), w1)
    → w2.db.api_keys ≡ w1.db.api_keys
    → env'.fails w2.calls ≡ false
    → (id : Bytes) × (check_api_key y env' (codes "Bearer " ++ c ∷ encoded) w2 ≡ (ok id, called w2))
check_api_key-ensure_api_key x y env env' encoded id_bytes secret_bytes c w w1 w2 hash ri rs bi bs
      li ls e keys up =
    elim (ensure_api_key-Minted x env (c ∷ encoded) w w1 e) [
      | inl (none_made, _) ↦ absurd (cc)
      | inr (key, now, made, same, free, stored) ↦
          let (key2, made2, _, header) =
            from_auth_header-generate x.sha256 api_key_env id_bytes secret_bytes env_not_blank
              (ground arith) (ground arith) bi bs li ls in
          let one : key2 ≡ key =
            generated-once x id_bytes secret_bytes key2 key made2 (rw (ri, rs) at made) in
          (
            key.id,
            passes y env' (codes "Bearer " ++ c ∷ encoded) key now w.db.api_keys w2
                (ap (λ h. from_auth_header h (codes "Bearer " ++ c ∷ encoded)) hash
                  ∙ ap (λ s. from_auth_header x.sha256 (codes "Bearer " ++ s))
                      (same ∙ ap (λ (k : ApiKey). k.encoded) (sym one))
                  ∙ header
                  ∙ ap Keys.ok one)
                (keys ∙ ap (λ (d : Db). d.api_keys) stored) free up,
          )
    ]
