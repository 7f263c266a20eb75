-- ===== src/Proto.antt =====
-- The messages of the node-facing protocol, with the fields that the hub reads. Message bodies that
-- the hub only passes on are opaque bytes. A request id is the 64-bit pattern of an int64.
use wispers_hub.Base.{ℕ, Bytes, Bool, List}
use wispers_hub.Base.Int.{ℤ}

pub record RosterNode : Type 0 where
  pub node_number : ℤ
  pub revoked : Bool

pub record Activation : Type 0 where
  pub version : ℤ
  pub new_node_number : ℤ
  pub endorser_node_number : ℤ
  pub endorser_signature : Bytes

pub record Revocation : Type 0 where
  pub version : ℤ
  pub revoker_node_number : ℤ

pub data Addendum : Type 0 where
  activation : Activation → Addendum
  revocation : Revocation → Addendum
  unset : Addendum

pub record Roster : Type 0 where
  pub version : ℤ
  pub nodes : List RosterNode
  pub addenda : List Addendum

pub data RequestKind : Type 0 where
  pair_nodes : Bytes → RequestKind
  roster_cosign : ℤ → Roster → RequestKind
  start_connection : Bytes → RequestKind

pub record ServingRequest : Type 0 where
  pub request_id : ℕ
  pub dest_node_number : ℤ
  pub source_node_number : ℤ
  pub kind : RequestKind

pub data ResponseKind : Type 0 where
  check_in : ResponseKind
  paired : Bytes → ResponseKind
  cosigned : Bytes → ResponseKind
  connection_started : Bytes → ResponseKind
  unset : ResponseKind

pub record ServingResponse : Type 0 where
  pub request_id : ℕ
  pub error : Bytes
  pub kind : ResponseKind
