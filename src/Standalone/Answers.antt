-- ===== src/Standalone/Answers.antt =====
-- The answers, requests and row tests of connect/hub/standalone_rest.go and of the JSON types in
-- connect/shared/integratorapi.go. A time in an answer is text.
use wispers_hub.Base.{
  ℕ, ◌+◌, ◌*◌, Bool, false, ◌&&◌, ◌||◌, Option, none, some, List, [], ◌∷◌, Bytes, codes, any, ltb,
  leb, ◌==◌, bytes_eq, if◌then◌else◌, String,
}
use wispers_hub.Base.Int.{ℤ, pos, int_eq}
use wispers_hub.Proto.{Roster, RosterNode}
use wispers_hub.ApiKeys.Keys.{ApiKey, Authorized, AuthError, from_auth_header}
use wispers_hub.ApiKeys.Keys
use wispers_hub.RegistrationTokens.{
  CreateRegistrationTokenRequest, MintedRegistrationToken, Minted, minted, invalid,
  mint_registration_token, hex_encode, longer_than,
}
use wispers_hub.RegistrationTokens
use wispers_hub.Standalone.Db.{ApiKeyRow, GroupRow, TokenRow, ActivityRow, is_null}
use wispers_hub.Standalone.Exec.{World, Exec, Result, ok, err}
use wispers_hub.Standalone.Messages.{or_empty}

-- An answer with a status other than 200; `bad_request` also stands for an abort without a body.
pub data Failure : Type 0 where
  bad_request : String → Failure
  unauthorized : Failure
  not_authorized : AuthError → Failure
  not_found : Failure
  conflict : String → Failure
  internal : Failure

pub record Externals : Type 0 where
  pub sha256 : Bytes → Bytes
  pub hash_token : Bytes → Bytes
  pub parse_uuid : Bytes → Option Bytes
  pub unmarshal_roster : Bytes → Option Roster
  pub rfc3339 : ℕ → Bytes
  pub online : Bytes → List ℤ

pub record GroupSummary : Type 0 where
  pub id : Bytes
  pub name : Option Bytes

pub record CreateConnectivityGroupRequest : Type 0 where
  pub name : Option Bytes
  pub association_key : Option Bytes

pub record GroupCreated : Type 0 where
  pub id : Bytes
  pub created_at : Bytes
  pub name : Option Bytes

pub record Node : Type 0 where
  pub node_number : ℤ
  pub created_at : Bytes
  pub name : Option Bytes
  pub last_seen_at : Option Bytes
  pub metadata : Option Bytes
  pub is_online : Bool

-- The limit of the quota is always null here.
pub record GroupDetail : Type 0 where
  pub id : Bytes
  pub created_at : Bytes
  pub name : Option Bytes
  pub nodes : List Node
  pub successful_connections_7d : ℕ
  pub quota_current : ℕ

pub record RegistrationTokenCreated : Type 0 where
  pub token : Bytes
  pub expires_at : Bytes

pub record RegistrationTokenInfo : Type 0 where
  pub node_name : Option Bytes
  pub node_metadata : Option Bytes
  pub created_at : Bytes
  pub expires_at : Bytes
  pub used_at : Option Bytes

-- ORDER BY created_at_millis, of rows that have the same time the older first.
unfoldable pub insert_group_by_age : GroupRow → List GroupRow → List GroupRow
insert_group_by_age g [] = g ∷ []
insert_group_by_age g (h ∷ gs) =
    if leb g.created_at h.created_at then g ∷ h ∷ gs else h ∷ insert_group_by_age g gs

unfoldable pub order_by_age : List GroupRow → List GroupRow
unfolding insert_group_by_age
order_by_age [] = []
order_by_age (g ∷ gs) = insert_group_by_age g (order_by_age gs)

-- ORDER BY created_at_millis DESC.
unfoldable pub insert_newest : TokenRow → List TokenRow → List TokenRow
insert_newest t [] = t ∷ []
insert_newest t (u ∷ ts) =
    if ltb t.created_at u.created_at then u ∷ insert_newest t ts else t ∷ u ∷ ts

unfoldable pub newest_first : List TokenRow → List TokenRow
unfolding insert_newest
newest_first [] = []
newest_first (t ∷ ts) = insert_newest t (newest_first ts)

abbrev pub is_live : GroupRow → Bool
is_live g = is_null g.deleted_at

abbrev pub summary : GroupRow → GroupSummary
summary g = record { id = g.id; name = g.name }

abbrev pub has_association_key : Bytes → GroupRow → Bool
has_association_key ak g = is_live g && (or_empty g.association_key == ak)

-- The list window: seven days.
abbrev pub window : ℕ
window = 7 * 24 * 60 * 60 * 1000

abbrev pub is_listed : Bytes → ℕ → TokenRow → Bool
is_listed cg now t =
    (t.group_id == cg)
    && ((is_null t.used_at && ltb now t.expires_at) || leb now (t.created_at + window))

abbrev pub is_pending : Bytes → ℕ → TokenRow → Bool
is_pending cg now t = (t.group_id == cg) && is_null t.used_at && ltb now t.expires_at

abbrev pub is_connection : Bytes → ℕ → ActivityRow → Bool
is_connection cg since a =
    (a.group_id == cg)
    && (a.event_type == codes "start-connection")
    && a.success
    && leb since a.created_at

abbrev pub map_time : (ℕ → Bytes) → Option ℕ → Option Bytes
map_time f none = none
map_time f (some t) = some (f t)

abbrev pub is_revoked : ℤ → RosterNode → Bool
is_revoked n node = (node.node_number == n) && node.revoked

abbrev pub revoked_in : ℤ → Option Roster → Bool
revoked_in n none = false
revoked_in n (some r) = any (is_revoked n) r.nodes

abbrev pub bury : ℕ → GroupRow → GroupRow
bury now g = record g { deleted_at = some now }

abbrev pub clear_roster : GroupRow → GroupRow
clear_roster g = record g { roster = none; roster_version = pos 0 }

abbrev pub header_key : Authorized → Exec Failure ApiKey
header_key (Keys.ok key) w = (ok key, w)
header_key (Keys.err e) w = (err (not_authorized e), w)

abbrev pub of_minted : Minted → World → Result Failure MintedRegistrationToken × World
of_minted (minted m) w = (ok m, w)
of_minted (invalid text) w = (err (bad_request text), w)
of_minted RegistrationTokens.internal w = (err internal, w)

-- Unknown id, bad secret and revoked key are one rejection.
abbrev pub accepts : ApiKey → Option ApiKeyRow → Bool
accepts key none = false
accepts key (some row) = is_null row.revoked_at && (hex_encode key.secret_hash == row.secret_hash)
