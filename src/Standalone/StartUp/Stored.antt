-- ===== src/Standalone/StartUp/Stored.antt =====
-- ensureMeta of connect/hub/standalone.go: what it gives is stored, and what was stored stays.
use wispers_hub.Base.{
  ◌≡◌, refl, sym, ap, ◌∙◌, Option, none, some, Bytes, if◌then◌else◌, ◌==◌, ==_iff, ==_refl,
  bytes_eq, Bool-cases, Option-cases, inl, inr,
}
use wispers_hub.Base.Assoc.{lookup, insert, lookup-insert}
use wispers_hub.Standalone.Db.{Db}
use wispers_hub.Standalone.Exec.{Env, World, Exec, Result, ok, ◌>>=◌, pure, uuid, called}
use wispers_hub.Standalone.Exec.Inversion.{query-bind, insert-bind, raise-bind, >>=-eq-ok}
use wispers_hub.Standalone.StartUp.{
  Failure, Externals, insert_meta, stored_once, generate_and_store, stored_or_new, ensure_meta,
  new_instance_id, new_attestation_key,
}
use wispers_hub.Standalone.StartUp.Bootstrap.{pure-same}

-- What is stored stays.
abbrev pub Keeps : Db → Db → Type 0
Keeps db db' = (k v : Bytes) → lookup k db.meta ≡ some v → lookup k db'.meta ≡ some v

other :
    (key k value v : Bytes) (db : Db)
    → lookup key db.meta ≡ none
    → lookup k db.meta ≡ some v
    → (if key == k then some value else lookup k db.meta) ≡ some v
other key k value v db free there = elim (Bool-cases (key == k)) [
  | inl hit ↦ (let same : key ≡ k = (==_iff key k).0 hit in absurd (cc))
  | inr miss ↦ rw miss there
]

insert_meta-eq-some :
    (key value : Bytes) (db db' : Db)
    → insert_meta key value db ≡ some db'
    → (lookup key db'.meta ≡ some value) × Keeps db db' × (db'.api_keys ≡ db.api_keys)
unfolding insert_meta
insert_meta-eq-some key value db db' e = elim (Option-cases (lookup key db.meta)) [
  | inl free ↦
      let same : db' ≡ record db { meta = insert key value db.meta } =
        cc (rw (free, stored_once) at e) in
      (
        rw (same, lookup-insert key key value db.meta, ==_refl key) refl,
        λ k v h. rw (same, lookup-insert key k value db.meta) (other key k value v db free h),
        ap (λ (d : Db). d.api_keys) same,
      )
  | inr (old, there) ↦ absurd (cc (rw (there, stored_once) at e))
]

module _ (x : Externals) (env : Env) where
  -- A generator only draws: the tables stay.
  abbrev pub Draws : Exec Failure (Option Bytes) → Type 0
  Draws m = (w : World) → (m w).1.db ≡ w.db

  pub new_instance_id-Draws : Draws (new_instance_id x env)
  unfolding new_instance_id uuid ◌>>=◌ pure
  new_instance_id-Draws w = refl

  pub new_attestation_key-Draws : Draws (new_attestation_key x env)
  unfolding new_attestation_key pure
  new_attestation_key-Draws w = refl

  -- The value is stored, whatever else was, and the API keys stay.
  abbrev pub Stored : Bytes → Bytes → World → World → Type 0
  Stored key value w w' =
      (lookup key w'.db.meta ≡ some value) × Keeps w.db w'.db × (w'.db.api_keys ≡ w.db.api_keys)

  insertion :
      (key value v : Bytes) (w w1 w' : World) (db : Db)
      → w1.db ≡ w.db
      → insert_meta key v w1.db ≡ some db
      → value ≡ v
      → w'.db ≡ db
      → Stored key value w w'
  insertion key value v w w1 w' db drawn inserted same end =
      let (there, keeps, keys) = insert_meta-eq-some key v w1.db db inserted in
      (
        ap (λ (d : Db). lookup key d.meta) end ∙ there ∙ ap some (sym same),
        λ k u h.
            ap (λ (d : Db). lookup k d.meta) end
            ∙ keeps k u (ap (λ (d : Db). lookup k d.meta) drawn ∙ h),
        ap (λ (d : Db). d.api_keys) end ∙ keys ∙ ap (λ (d : Db). d.api_keys) drawn,
      )

  generate_and_store-Stored :
      (key value : Bytes) (m : Exec Failure (Option Bytes)) (w w' : World)
      → Draws m
      → generate_and_store x env key m w ≡ (ok value, w')
      → Stored key value w w'
  unfolding generate_and_store
  generate_and_store-Stored key value m w w' draws e =
      let (made, w1, e1, e2) = >>=-eq-ok w w' value m _ e in
      let (v, some_v, e3) = raise-bind w1 w' value made _ _ e2 in
      let (db, inserted, up, e4) = insert-bind w1 w' value env _ _ _ _ e3 in
      let (same, end) = pure-same v value _ w' e4 in
      insertion key value v w w1 w' db
        (ap (λ (p : Result Failure (Option Bytes) × World). p.1.db) (sym e1) ∙ draws w) inserted
        same (ap (λ (u : World). u.db) end)

  stored_or_new-Stored :
      (key value : Bytes) (m : Exec Failure (Option Bytes)) (o : Option Bytes) (w w0 w' : World)
      → Draws m
      → w.db ≡ w0.db
      → lookup key w0.db.meta ≡ o
      → stored_or_new x env key m o w ≡ (ok value, w')
      → Stored key value w w'
  unfolding stored_or_new
  stored_or_new-Stored key value m none w w0 w' draws same found e =
      generate_and_store-Stored key value m w w' draws e
  stored_or_new-Stored key value m (some old) w w0 w' draws same found e =
      let (v, end) = pure-same old value w w' e in
      (
        ap (λ (u : World). lookup key u.db.meta) end
            ∙ ap (λ (d : Db). lookup key d.meta) same
            ∙ found
            ∙ ap some (sym v),
        λ k u h. ap (λ (z : World). lookup k z.db.meta) end ∙ h,
        ap (λ (z : World). z.db.api_keys) end,
      )

  pub ensure_meta-Stored :
      (key value : Bytes) (m : Exec Failure (Option Bytes)) (w w' : World)
      → Draws m
      → ensure_meta x env key m w ≡ (ok value, w')
      → Stored key value w w'
  unfolding ensure_meta
  ensure_meta-Stored key value m w w' draws e =
      let (up, e1) = query-bind w w' value env _ _ _ e in
      stored_or_new-Stored key value m (lookup key w.db.meta) (called w) w w' draws refl refl e1
