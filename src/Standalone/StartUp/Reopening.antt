-- ===== src/Standalone/StartUp/Reopening.antt =====
-- Open of connect/hub/standalone.go on a database that it has opened before.
use wispers_hub.Base.{
  ℕ, ◌≡◌, refl, sym, ap, subst, ◌∙◌, true, false, Option, none, some, List, [], ◌∷◌, Bytes, length,
  filter, any, ltb, bytes_eq, Bool-cases, inl, inr, arith,
}
use wispers_hub.Base.Assoc.{lookup}
use wispers_hub.Standalone.Db.{Db, ApiKeyRow}
use wispers_hub.Standalone.Exec.{
  Env, World, Exec, ok, ◌>>=◌, pure, or_raise, query, execute_returning, called, guard,
}
use wispers_hub.Standalone.Exec.Inversion.{execute-bind, raise-bind, >>=-eq-ok}
use wispers_hub.Standalone.StartUp.{
  Failure, Externals, State, instance_id_key, attestation_key, is_active, stored_or_new,
  ensure_meta, new_instance_id, new_attestation_key, ensure_attestation_key, ensure_api_key,
  write_bootstrap_file, open_state,
}
use wispers_hub.Standalone.StartUp.Bootstrap.{ensure_api_key-Minted}
use wispers_hub.Standalone.StartUp.Stored.{
  Stored, ensure_meta-Stored, new_instance_id-Draws, new_attestation_key-Draws,
}

any-count :
    (rows : List ApiKeyRow)
    → any is_active rows ≡ true
    → ltb 0 (length (filter is_active rows)) ≡ true
any-count [] h = cc
any-count (r ∷ rows) h = elim (Bool-cases (is_active r)) [
  | inl hit ↦ rw hit (ground arith)
  | inr miss ↦ rw miss (any-count rows (rw miss at h))
]

module _ (x : Externals) (env : Env) where
  ensure_meta-found :
      (key value : Bytes) (m : Exec Failure (Option Bytes)) (w : World)
      → env.fails w.calls ≡ false
      → lookup key w.db.meta ≡ some value
      → ensure_meta x env key m w ≡ (ok value, called w)
  unfolding ensure_meta query stored_or_new pure ◌>>=◌
  ensure_meta-found key value m w up there = rw (up, there) refl

  ensure_api_key-found :
      (w : World)
      → env.fails w.calls ≡ false
      → any is_active w.db.api_keys ≡ true
      → ensure_api_key x env w ≡ (ok [], called w)
  unfolding ensure_api_key query pure ◌>>=◌
  ensure_api_key-found w up active = rw (up, any-count w.db.api_keys active) refl

  ensure_api_key-meta :
      (encoded : Bytes) (w w' : World)
      → ensure_api_key x env w ≡ (ok encoded, w')
      → w'.db.meta ≡ w.db.meta
  ensure_api_key-meta encoded w w' e = elim (ensure_api_key-Minted x env encoded w w' e) [
    | inl (_, same) ↦ ap (λ (d : Db). d.meta) same
    | inr (key, now, _, _, _, same) ↦ ap (λ (d : Db). d.meta) same
  ]

  write_bootstrap_file-db :
      (key : Bytes) (w w' : World) → write_bootstrap_file x env key w ≡ (ok tt, w') → w'.db ≡ w.db
  unfolding write_bootstrap_file pure guard
  write_bootstrap_file-db [] w w' e = cc
  write_bootstrap_file-db (c ∷ key) w w' e = elim (Bool-cases (x.file_written w.calls)) [
    | inl good ↦ (let e' = rw good at e in cc)
    | inr bad ↦ (let e' = rw bad at e in absurd (cc))
  ]

  raise-same :
      {A : Type 0} (o : Option A) (x : Failure) (w w' : World) (a : A)
      → or_raise o x w ≡ (ok a, w')
      → (o ≡ some a) × (w' ≡ w)
  unfolding or_raise
  raise-same none x w w' a e = cc
  raise-same (some b) x w w' a e = (cc, cc)

  ensure_attestation_key-Stored :
      (key : Bytes) (w w' : World)
      → ensure_attestation_key x env w ≡ (ok key, w')
      → (pem : Bytes) × (x.parse_key pem ≡ some key) × Stored x env attestation_key pem w w'
  unfolding ensure_attestation_key
  ensure_attestation_key-Stored key w w' e =
      let (pem, w1, e1, e2) = >>=-eq-ok w w' key _ _ e in
      let stored =
        ensure_meta-Stored x env attestation_key pem (new_attestation_key x env) w w1
          (new_attestation_key-Draws x env) e1 in
      let (parsed, same) = raise-same (x.parse_key pem) _ w1 w' key e2 in
      (pem, parsed, subst (λ u. Stored x env attestation_key pem w u) (sym same) stored)

  -- What an opened database has in it.
  abbrev pub Holds : State → Db → Type 0
  Holds st db =
      (lookup instance_id_key db.meta ≡ some st.instance_id)
      × ((pem : Bytes) × (lookup attestation_key db.meta ≡ some pem)
          × (x.parse_key pem ≡ some st.signing_key))
      × (x.key_set st.signing_key ≡ some st.jwks)

  state-same :
      (id key set bootstrap : Bytes) (st : State) (w w' : World)
      → pure {E = Failure}
          (record {
            instance_id = id;
            signing_key = key;
            jwks = set;
            bootstrap_api_key = bootstrap;
          })
          w
        ≡ (ok st, w')
      → (st.instance_id ≡ id) × (st.signing_key ≡ key) × (st.jwks ≡ set) × (w' ≡ w)
  unfolding pure
  state-same id key set bootstrap st w w' e = (cc, cc, cc, cc)

  held :
      (st : State) (id key set pem : Bytes) (w1 w2 w3 w4 w' : World)
      → lookup instance_id_key w1.db.meta ≡ some id
      → Stored x env attestation_key pem w1 w2
      → x.parse_key pem ≡ some key
      → x.key_set key ≡ some set
      → w3.db.meta ≡ w2.db.meta
      → w4.db ≡ w3.db
      → (st.instance_id ≡ id) × (st.signing_key ≡ key) × (st.jwks ≡ set) × (w' ≡ w4)
      → Holds st w'.db
  held st id key set pem w1 w2 w3 w4 w' there (pem_there, keeps, _) parsed keys m3 m4
        (i, k, j, end) =
      let meta = ap (λ (u : World). u.db.meta) end ∙ ap (λ (d : Db). d.meta) m4 ∙ m3 in
      (
        ap (lookup instance_id_key) meta ∙ keeps instance_id_key id there ∙ ap some (sym i),
        (pem, ap (lookup attestation_key) meta ∙ pem_there, parsed ∙ ap some (sym k)),
        ap x.key_set k ∙ keys ∙ ap some (sym j),
      )

  open_state-Holds : (st : State) (w w' : World) → open_state x env w ≡ (ok st, w') → Holds st w'.db
  unfolding open_state
  open_state-Holds st w w' e =
      let (up, e0) = execute-bind w w' st env _ _ _ _ e in
      let (id, w1, e1, e2) = >>=-eq-ok _ w' st _ _ e0 in
      let kept =
        ensure_meta-Stored x env instance_id_key id (new_instance_id x env) _ w1
          (new_instance_id-Draws x env) e1 in
      let (key, w2, e3, e4) = >>=-eq-ok w1 w' st _ _ e2 in
      let (pem, parsed, pem_there) = ensure_attestation_key-Stored key w1 w2 e3 in
      let (set, keys, e5) = raise-bind w2 w' st _ _ _ e4 in
      let (bootstrap, w3, e6, e7) = >>=-eq-ok w2 w' st _ _ e5 in
      let (u, w4, e8, e9) = >>=-eq-ok w3 w' st _ _ e7 in
      held st id key set pem w1 w2 w3 w4 w' kept.0 pem_there parsed keys
        (ensure_api_key-meta bootstrap w2 w3 e6) (write_bootstrap_file-db bootstrap w3 w4 e8)
        (state-same id key set bootstrap st w4 w' e9)

  ensure_attestation_key-found :
      (pem key : Bytes) (w : World)
      → env.fails w.calls ≡ false
      → lookup attestation_key w.db.meta ≡ some pem
      → x.parse_key pem ≡ some key
      → ensure_attestation_key x env w ≡ (ok key, called w)
  unfolding ensure_attestation_key ◌>>=◌ or_raise
  ensure_attestation_key-found pem key w up there parsed =
      rw (ensure_meta-found attestation_key pem (new_attestation_key x env) w up there, parsed) refl

  open_state-Held :
      (st : State) (w : World)
      → ((i : ℕ) → env.fails i ≡ false)
      → Holds st w.db
      → any is_active w.db.api_keys ≡ true
      → open_state x env w
        ≡ (ok (record st { bootstrap_api_key = [] }), called (called (called (called w))))
  unfolding open_state ◌>>=◌ execute_returning or_raise write_bootstrap_file pure
  open_state-Held st w up (id, (pem, there, parsed), keys) active =
      rw
        (
          up w.calls,
          ensure_meta-found instance_id_key st.instance_id (new_instance_id x env) (called w) (up _)
              id,
          ensure_attestation_key-found pem st.signing_key (called (called w)) (up _) there parsed,
          keys,
          ensure_api_key-found (called (called (called w))) (up _) active,
        )
        refl

-- A hub that is opened again is the same instance: over a later database with the same meta data and
-- some active API key, and where nothing fails, opening gives the same instance identifier, signing key
-- and key set, mints no API key, and leaves the database as it was.
pub open_state-again :
    (x : Externals) (env env' : Env) (st : State) (w w1 w2 : World)
    → open_state x env w ≡ (ok st, w1)
    → w2.db.meta ≡ w1.db.meta
    → any is_active w2.db.api_keys ≡ true
    → ((i : ℕ) → env'.fails i ≡ false)
    → (w3 : World) × (open_state x env' w2 ≡ (ok (record st { bootstrap_api_key = [] }), w3))
      × (w3.db ≡ w2.db)
open_state-again x env env' st w w1 w2 e meta active up =
    let (id, (pem, there, parsed), keys) = open_state-Holds x env st w w1 e in
    let held : Holds x env' st w2.db = (
      ap (lookup instance_id_key) meta ∙ id,
      (pem, ap (lookup attestation_key) meta ∙ there, parsed),
      keys,
    ) in
    (_, open_state-Held x env' st w2 up held active, refl)
