-- ===== src/Standalone/Messages.antt =====
-- The messages of proto/connect/be.proto with the fields that connect/hub/standalone_grpc.go fills,
-- its errors, and its tests and changes of rows.
use wispers_hub.Base.{
  ℕ, ◌+◌, ◌^◌, Bool, ◌&&◌, Option, none, some, List, [], ◌∷◌, Bytes, ltb, ◌==◌, bytes_eq,
  if◌then◌else◌,
}
use wispers_hub.Base.Int.{ℤ, leb_ℤ, int_eq}
use wispers_hub.Grpc.{
  Error, status, invalid_argument, not_found, unauthenticated, resource_exhausted, internal,
  aborted,
}
use wispers_hub.Standalone.Db.{GroupRow, NodeRow, is_live_group}

pub data EventKind : Type 0 where
  connect disconnect register deregister : EventKind
  activate : ℤ → EventKind
  connection : Bytes → ℤ → EventKind
  roster_update : Bytes → EventKind

-- The text of an error: empty, that of an error of the hub, or what a peer sent.
pub data ErrorMessage : Type 0 where
  no_message : ErrorMessage
  of_error : Error → ErrorMessage
  of_peer : Bytes → ErrorMessage

pub record EventDetails : Type 0 where
  pub error_message : ErrorMessage
  pub kind : EventKind

-- Cryptography and serialisation: SHA-256 in hexadecimal, the UUID parser, the serialisation of event
-- details, and the attestation signer at some time, `none` where there is none or it fails.
pub record Externals : Type 0 where
  pub hash_token : Bytes → Bytes
  pub parse_uuid : Bytes → Option Bytes
  pub marshal_details : EventDetails → Option Bytes
  pub sign_attestation : ℕ → Bytes → ℤ → Option Bytes

pub record Registration : Type 0 where
  pub connectivity_group_id : Bytes
  pub node_number : ℤ
  pub auth_token : Bytes
  pub attestation_jwt : Bytes

pub record NodeInfo : Type 0 where
  pub node_number : ℤ
  pub name : Bytes
  pub last_seen_at : ℕ
  pub metadata : Bytes

pub record GroupMetadata : Type 0 where
  pub domain_id : Bytes
  pub created_at : ℕ
  pub name : Bytes
  pub association_key : Bytes

pub record TurnPolicy : Type 0 where
  pub enabled : Bool
  pub floor_bps : ℤ
  pub ceil_bps : ℤ
  pub organisation_id : Bytes

abbrev pub internal_error : Error
internal_error = status internal "internal error" []

abbrev pub invalid_group_id : Error
invalid_group_id = status invalid_argument "invalid connectivity_group_id" []

abbrev pub group_not_found : Error
group_not_found = status not_found "connectivity group not found" []

abbrev pub invalid_credentials : Error
invalid_credentials = status unauthenticated "invalid credentials" []

abbrev pub invalid_token : Error
invalid_token = status not_found "invalid or expired token" []

abbrev pub registration_limited : Error
registration_limited =
    status resource_exhausted "registration rate limit exceeded, try again shortly" []

abbrev pub bad_new_version : Error
bad_new_version = status invalid_argument "new_version must be greater than expected_version" []

abbrev pub version_conflict : Error
version_conflict = status aborted "roster version conflict" []

-- A NULL text is the empty one in a message.
abbrev pub or_empty : Option Bytes → Bytes
or_empty none = []
or_empty (some s) = s

abbrev pub or_zero : Option ℕ → ℕ
or_zero none = 0
or_zero (some n) = n

abbrev pub number_of : Option GroupRow → Option ℕ
number_of none = none
number_of (some g) = if ltb g.next_node_number (2 ^ 31) then some g.next_node_number else none

abbrev pub bump_number : GroupRow → GroupRow
bump_number g = record g { next_node_number = g.next_node_number + 1 }

abbrev pub stamp : ℕ → NodeRow → NodeRow
stamp now row = record row { deleted_at = some now }

-- ORDER BY node_number.
unfoldable pub insert_sorted : NodeRow → List NodeRow → List NodeRow
insert_sorted r [] = r ∷ []
insert_sorted r (s ∷ rs) =
    if leb_ℤ r.node_number s.node_number then r ∷ s ∷ rs else s ∷ insert_sorted r rs

unfoldable pub order_by_node_number : List NodeRow → List NodeRow
unfolding insert_sorted
order_by_node_number [] = []
order_by_node_number (r ∷ rs) = insert_sorted r (order_by_node_number rs)

abbrev pub node_info : NodeRow → NodeInfo
node_info row = record {
  node_number = row.node_number;
  name = or_empty row.name;
  last_seen_at = or_zero row.last_seen_at;
  metadata = or_empty row.metadata;
}

abbrev pub has_version : Bytes → ℤ → GroupRow → Bool
has_version cg expected g = is_live_group cg g && (g.roster_version == expected)

abbrev pub with_roster : Bytes → ℤ → GroupRow → GroupRow
with_roster roster version g = record g { roster = some roster; roster_version = version }
