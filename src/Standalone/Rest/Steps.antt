-- ===== src/Standalone/Rest/Steps.antt =====
-- Every handler of connect/hub/standalone_rest.go does to the tables only what the step relation allows.
use wispers_hub.Base.{
  ℕ, ◌≡◌, refl, ap, false, Option, none, some, [], ◌∷◌, ◌++◌, Bytes, any, bytes_eq, Bool-cases,
  Option-cases, inl, inr, arith,
}
use wispers_hub.Base.Int.{ℤ}
use wispers_hub.RegistrationTokens.{
  CreateRegistrationTokenRequest, Minted, minted, invalid, mint_registration_token,
}
use wispers_hub.RegistrationTokens
use wispers_hub.ApiKeys.Keys.{Authorized}
use wispers_hub.ApiKeys.Keys
use wispers_hub.Standalone.Db.{
  Db, GroupRow, TokenRow, is_live_group, is_live_in, is_live_node, insert_group, clashes,
  insert_token,
}
use wispers_hub.Standalone.Exec.{Env, World, called, stored}
use wispers_hub.Standalone.Messages.{stamp}
use wispers_hub.Standalone.Answers.{
  Externals, Failure, bury, clear_roster, CreateConnectivityGroupRequest, header_key, of_minted,
}
use wispers_hub.Standalone.Steps.{Step, reads, opens, Reach, here, has_id}
use wispers_hub.Standalone.Steps.Methods.{
  Reaches, Reach-step, >>=-Reaches, pure-Reaches, guard-Reaches, or_raise-Reaches, query-Reaches,
  execute_returning-Reaches, try_insert-Reaches, read_clock-Reaches, uuid-Reaches,
  update_nodes-Step, update_groups-Step,
}
use wispers_hub.Standalone.Backend.Steps.{stamp-KeepsNode}
use wispers_hub.Standalone.Rest.Admission.{insert_token-eq-some}
use wispers_hub.Standalone.Rest.{
  check_api_key, get_stats, get_connectivity_groups, add_group, post_connectivity_group,
  count_activity, get_connectivity_group, delete_connectivity_group, group_exists,
  reset_connectivity_group, mint, post_registration_token, get_registration_tokens, with_name,
  patch_node, delete_node,
}

insert_group-eq-some :
    (g : GroupRow) (db db' : Db)
    → insert_group g db ≡ some db'
    → (any (has_id g.id) db.groups ≡ false) × (db' ≡ record db { groups = db.groups ++ g ∷ [] })
unfolding insert_group
insert_group-eq-some g db db' e = elim (Bool-cases (any (has_id g.id) db.groups)) [
  | inl bad ↦ absurd (cc (rw bad at e))
  | inr good ↦ elim (Bool-cases (any (clashes g.association_key) db.groups)) [
    | inl clash ↦ absurd (cc (rw (good, clash) at e))
    | inr free ↦ (good, cc (rw (good, free) at e))
  ]
]

insert_group-Step : (g : GroupRow) (db db' : Db) → insert_group g db ≡ some db' → Step db db'
insert_group-Step g db db' e =
    let (free, same) = insert_group-eq-some g db db' e in
    opens g free (ap (λ (d : Db). d.groups) same) (ap (λ (d : Db). d.nodes) same)

insert_token-Step : (t : TokenRow) (db db' : Db) → insert_token t db ≡ some db' → Step db db'
insert_token-Step t db db' e =
    let same = insert_token-eq-some t db db' e in
    reads (ap (λ (d : Db). d.groups) same) (ap (λ (d : Db). d.nodes) same)

header_key-Reaches : (a : Authorized) → Reaches (header_key a)
header_key-Reaches (Keys.ok key) w = here
header_key-Reaches (Keys.err e) w = here

of_minted-db : (m : Minted) (w : World) → Reach w.db (of_minted m w).1.db
of_minted-db (minted m) w = here
of_minted-db (invalid t) w = here
of_minted-db RegistrationTokens.internal w = here

module _ (x : Externals) (env : Env) where
  pub check_api_key-Reaches : (header : Bytes) → Reaches (check_api_key x env header)
  unfolding check_api_key
  check_api_key-Reaches header = >>=-Reaches _ _ (header_key-Reaches _) λ key.
      >>=-Reaches _ _ (query-Reaches env Failure _ _)
        λ found. >>=-Reaches _ _ (guard-Reaches _ _) λ u. pure-Reaches Failure _

  pub get_stats-Reaches : Reaches (get_stats x env)
  unfolding get_stats
  get_stats-Reaches = query-Reaches env Failure _ _

  pub get_connectivity_groups-Reaches : (ak : Bytes) → Reaches (get_connectivity_groups x env ak)
  unfolding get_connectivity_groups
  get_connectivity_groups-Reaches [] = query-Reaches env Failure _ _
  get_connectivity_groups-Reaches (c ∷ ak) = query-Reaches env Failure _ _

  add_group-Reaches : (g : GroupRow) → Reaches (add_group x env g)
  unfolding add_group
  add_group-Reaches g w = elim (Bool-cases (env.fails w.calls)) [
    | inl bad ↦ rw bad here
    | inr good ↦ elim (Option-cases (insert_group g w.db)) [
      | inl n ↦ rw (good, n, stored) here
      | inr (db, y) ↦ rw (good, y, stored) (Reach-step (insert_group-Step g w.db db y))
    ]
  ]

  pub post_connectivity_group-Reaches :
      (body : Option CreateConnectivityGroupRequest) → Reaches (post_connectivity_group x env body)
  unfolding post_connectivity_group
  post_connectivity_group-Reaches body = >>=-Reaches _ _ (or_raise-Reaches body _) λ dto.
      >>=-Reaches _ _ (uuid-Reaches env Failure) λ id.
        >>=-Reaches _ _ (read_clock-Reaches env Failure)
          λ now. >>=-Reaches _ _ (add_group-Reaches _) λ u. pure-Reaches Failure _

  count_activity-Reaches : (cg : Bytes) (since : ℕ) → Reaches (count_activity x env cg since)
  unfolding count_activity
  count_activity-Reaches cg since w = elim (Bool-cases (env.fails w.calls)) [
    | inl bad ↦ rw bad here
    | inr good ↦ rw good here
  ]

  pub get_connectivity_group-Reaches : (raw : Bytes) → Reaches (get_connectivity_group x env raw)
  unfolding get_connectivity_group
  get_connectivity_group-Reaches raw = >>=-Reaches _ _ (or_raise-Reaches _ _) λ cg.
      >>=-Reaches _ _ (query-Reaches env Failure _ _) λ found.
        >>=-Reaches _ _ (or_raise-Reaches found _) λ g.
          >>=-Reaches _ _ (query-Reaches env Failure _ _) λ rows.
            >>=-Reaches _ _ (read_clock-Reaches env Failure) λ week_end.
              >>=-Reaches _ _ (count_activity-Reaches _ _) λ connections.
                >>=-Reaches _ _ (read_clock-Reaches env Failure) λ now.
                  >>=-Reaches _ _ (query-Reaches env Failure _ _) λ pending. pure-Reaches Failure _

  pub delete_connectivity_group-Reaches :
      (raw : Bytes) → Reaches (delete_connectivity_group x env raw)
  unfolding delete_connectivity_group
  delete_connectivity_group-Reaches raw = >>=-Reaches _ _ (or_raise-Reaches _ _) λ cg.
      >>=-Reaches _ _ (read_clock-Reaches env Failure) λ now.
        >>=-Reaches _ _
          (execute_returning-Reaches env Failure _ _ _
            (λ db. update_nodes-Step (is_live_in cg) (stamp now) db (stamp-KeepsNode now)))
          λ u. execute_returning-Reaches env Failure _ _ _ (λ db.
            update_groups-Step (is_live_group cg) (bury now) db (λ g. (refl, refl, ground arith)))

  group_exists-Reaches : (cg : Bytes) → Reaches (group_exists x env cg)
  unfolding group_exists
  group_exists-Reaches cg =
      >>=-Reaches _ _ (query-Reaches env Failure _ _) λ found. guard-Reaches _ _

  pub reset_connectivity_group-Reaches :
      (raw : Bytes) → Reaches (reset_connectivity_group x env raw)
  unfolding reset_connectivity_group
  reset_connectivity_group-Reaches raw = >>=-Reaches _ _ (or_raise-Reaches _ _) λ cg.
      >>=-Reaches _ _ (group_exists-Reaches cg) λ v.
        >>=-Reaches _ _ (read_clock-Reaches env Failure) λ now.
          >>=-Reaches _ _
            (execute_returning-Reaches env Failure _ _ _
              (λ db. update_nodes-Step (is_live_in cg) (stamp now) db (stamp-KeepsNode now)))
            λ u. execute_returning-Reaches env Failure _ _ _ (λ db.
              update_groups-Step (is_live_group cg) clear_roster db
                (λ g. (refl, refl, ground arith)))

  mint-Reaches : (dto : CreateRegistrationTokenRequest) → Reaches (mint x env dto)
  unfolding mint
  mint-Reaches dto w = of_minted-db _ (called (called w))

  pub post_registration_token-Reaches :
      (raw : Bytes) (body : Option CreateRegistrationTokenRequest)
      → Reaches (post_registration_token x env raw body)
  unfolding post_registration_token
  post_registration_token-Reaches raw body = >>=-Reaches _ _ (or_raise-Reaches _ _) λ cg.
      >>=-Reaches _ _ (or_raise-Reaches body _) λ dto.
        >>=-Reaches _ _ (group_exists-Reaches cg) λ v. >>=-Reaches _ _ (mint-Reaches dto) λ m.
          >>=-Reaches _ _ (uuid-Reaches env Failure) λ id.
            >>=-Reaches _ _ (read_clock-Reaches env Failure) λ now.
              >>=-Reaches _ _ (try_insert-Reaches env Failure _ _ _ (insert_token-Step _))
                λ u. pure-Reaches Failure _

  pub get_registration_tokens-Reaches : (raw : Bytes) → Reaches (get_registration_tokens x env raw)
  unfolding get_registration_tokens
  get_registration_tokens-Reaches raw = >>=-Reaches _ _ (or_raise-Reaches _ _) λ cg.
      >>=-Reaches _ _ (group_exists-Reaches cg)
        λ v. >>=-Reaches _ _ (read_clock-Reaches env Failure) λ now. query-Reaches env Failure _ _

  with_name-Reaches :
      (cg : Bytes) (n : ℤ) (name : Option Bytes) → Reaches (with_name x env cg n name)
  with_name-Reaches cg n none = pure-Reaches Failure tt
  with_name-Reaches cg n (some name) = >>=-Reaches _ _ (guard-Reaches _ _) λ u.
      execute_returning-Reaches env Failure _ _ _
        (λ db. update_nodes-Step (is_live_node cg n) _ db (λ r. (refl, refl, ground arith)))

  pub patch_node-Reaches :
      (raw number : Bytes) (body : Option (Option Bytes))
      → Reaches (patch_node x env raw number body)
  unfolding patch_node
  patch_node-Reaches raw number body = >>=-Reaches _ _ (or_raise-Reaches _ _) λ cg.
      >>=-Reaches _ _ (or_raise-Reaches _ _)
        λ n. >>=-Reaches _ _ (or_raise-Reaches body _) λ name. with_name-Reaches cg n name

  pub delete_node-Reaches : (raw number : Bytes) → Reaches (delete_node x env raw number)
  unfolding delete_node
  delete_node-Reaches raw number = >>=-Reaches _ _ (or_raise-Reaches _ _) λ cg.
      >>=-Reaches _ _ (or_raise-Reaches _ _) λ n.
        >>=-Reaches _ _ (query-Reaches env Failure _ _) λ found.
          >>=-Reaches _ _ (or_raise-Reaches found _) λ g.
            >>=-Reaches _ _ (query-Reaches env Failure _ _) λ there.
              >>=-Reaches _ _ (guard-Reaches _ _) λ u. >>=-Reaches _ _ (guard-Reaches _ _) λ v.
                >>=-Reaches _ _ (read_clock-Reaches env Failure) λ now.
                  >>=-Reaches _ _
                    (execute_returning-Reaches env Failure _ _ _ (λ db.
                      update_nodes-Step (is_live_node cg n) (stamp now) db (stamp-KeepsNode now)))
                    λ affected. guard-Reaches _ _
