-- ===== src/Standalone/Db.antt =====
-- The tables of connect/hub/standalone_schema.sql as lists of rows, oldest first, and the statements
-- on them. NULL is `none`; times are Unix milliseconds.
use wispers_hub.Base.{
  ℕ, Bool, true, false, not, ◌&&◌, ◌||◌, Option, none, some, List, [], ◌∷◌, ◌++◌, Bytes, any,
  update_where, ltb, ◌==◌, bytes_eq, if◌then◌else◌,
}
use wispers_hub.Base.Int.{ℤ, int_eq}

pub record ApiKeyRow : Type 0 where
  pub id : Bytes
  pub secret_hash : Bytes
  pub name : Option Bytes
  pub created_at : ℕ
  pub revoked_at : Option ℕ

pub record GroupRow : Type 0 where
  pub id : Bytes
  pub name : Option Bytes
  pub association_key : Option Bytes
  pub next_node_number : ℕ
  pub roster : Option Bytes
  pub roster_version : ℤ
  pub created_at : ℕ
  pub deleted_at : Option ℕ

pub record NodeRow : Type 0 where
  pub group_id : Bytes
  pub node_number : ℤ
  pub name : Option Bytes
  pub auth_token_hash : Bytes
  pub metadata : Option Bytes
  pub last_seen_at : Option ℕ
  pub created_at : ℕ
  pub deleted_at : Option ℕ

pub record TokenRow : Type 0 where
  pub id : Bytes
  pub group_id : Bytes
  pub token_hash : Bytes
  pub node_name : Option Bytes
  pub node_metadata : Option Bytes
  pub created_at : ℕ
  pub expires_at : ℕ
  pub used_at : Option ℕ

pub record ActivityRow : Type 0 where
  pub group_id : Bytes
  pub node_number : ℤ
  pub event_type : Bytes
  pub success : Bool
  pub details : Option Bytes
  pub created_at : ℕ

pub record Db : Type 0 where
  pub meta : List (Bytes × Bytes)
  pub api_keys : List ApiKeyRow
  pub groups : List GroupRow
  pub nodes : List NodeRow
  pub tokens : List TokenRow
  pub activity : List ActivityRow

abbrev pub empty_db : Db
empty_db = record { meta = []; api_keys = []; groups = []; nodes = []; tokens = []; activity = [] }

abbrev pub is_null : {A : Type 0} → Option A → Bool
is_null none = true
is_null (some a) = false

-- id = ? AND deleted_at_millis IS NULL
abbrev pub is_live_group : Bytes → GroupRow → Bool
is_live_group id g = (g.id == id) && is_null g.deleted_at

abbrev pub is_node : Bytes → ℤ → NodeRow → Bool
is_node id n row = (row.group_id == id) && (row.node_number == n)

abbrev pub is_live_node : Bytes → ℤ → NodeRow → Bool
is_live_node id n row = is_node id n row && is_null row.deleted_at

abbrev pub in_group : Bytes → NodeRow → Bool
in_group id row = row.group_id == id

abbrev pub is_live_in : Bytes → NodeRow → Bool
is_live_in id row = in_group id row && is_null row.deleted_at

-- The WHERE clause of the registration look-up, the join with the token's group included.
abbrev pub is_usable : Db → Bytes → ℕ → TokenRow → Bool
is_usable db hash now t =
    (t.token_hash == hash)
    && is_null t.used_at
    && ltb now t.expires_at
    && any (is_live_group t.group_id) db.groups

-- A unique key on association_key over the live groups that have one.
abbrev pub same_key : Option Bytes → Option Bytes → Bool
same_key (some a) (some b) = a == b
same_key _ _ = false

abbrev pub clashes : Option Bytes → GroupRow → Bool
clashes key g = same_key key g.association_key && is_null g.deleted_at

-- An insert that a constraint refuses is `none`.
unfoldable pub insert_group : GroupRow → Db → Option Db
insert_group g db =
    if any (λ r. r.id == g.id) db.groups || any (clashes g.association_key) db.groups
    then none
    else some (record db { groups = db.groups ++ g ∷ [] })

unfoldable pub insert_node : NodeRow → Db → Option Db
insert_node n db =
    if any (is_node n.group_id n.node_number) db.nodes
      || not (any (λ (g : GroupRow). g.id == n.group_id) db.groups)
    then none
    else some (record db { nodes = db.nodes ++ n ∷ [] })

unfoldable pub insert_token : TokenRow → Db → Option Db
insert_token t db =
    if any (λ (r : TokenRow). r.id == t.id) db.tokens
      || not (any (λ (g : GroupRow). g.id == t.group_id) db.groups)
    then none
    else some (record db { tokens = db.tokens ++ t ∷ [] })

unfoldable pub insert_api_key : ApiKeyRow → Db → Option Db
insert_api_key k db =
    if any (λ (r : ApiKeyRow). r.id == k.id) db.api_keys
    then none
    else some (record db { api_keys = db.api_keys ++ k ∷ [] })

abbrev pub insert_activity : ActivityRow → Db → Db
insert_activity a db = record db { activity = db.activity ++ a ∷ [] }

abbrev pub update_groups : (GroupRow → Bool) → (GroupRow → GroupRow) → Db → Db
update_groups p f db = record db { groups = update_where p f db.groups }

abbrev pub update_nodes : (NodeRow → Bool) → (NodeRow → NodeRow) → Db → Db
update_nodes p f db = record db { nodes = update_where p f db.nodes }

abbrev pub update_tokens : (TokenRow → Bool) → (TokenRow → TokenRow) → Db → Db
update_tokens p f db = record db { tokens = update_where p f db.tokens }
