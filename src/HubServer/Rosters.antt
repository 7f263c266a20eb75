-- ===== src/HubServer/Rosters.antt =====
-- UpdateRoster and getEndorserCosignature of connect/hub/hubsrv.go.
pub mod Endorsement
pub mod Stored
use wispers_hub.Base.{true, Option, none, some, List, [], ◌∷◌, Bytes, codes, is_empty, ◌==◌}
use wispers_hub.Base.Int.{ℤ, int_eq, pred_int64}
use wispers_hub.Grpc.{
  Error, status, wrapped, text, invalid_argument, failed_precondition, internal, permission_denied,
  unavailable,
}
use wispers_hub.Proto.{
  Roster, Addendum, Activation, activation, revocation, ServingResponse, ResponseKind,
  roster_cosign, cosigned,
}
use wispers_hub.Standalone.Exec.{Result, ok, err}
use wispers_hub.Standalone.Messages.{no_message, roster_update}
use wispers_hub.HubServer.Interface.{Deps}
use wispers_hub.HubServer.Exec.{
  ◌>>=◌, ◌>>◌, Handler, pure, raise, guard, or_raise, ask, log_activity, route, wait,
}
use wispers_hub.HubServer.Auth.{Metadata, authenticate_and_rate_limit}
use wispers_hub.HubServer.Handlers.{to_peer}

abbrev pub last : List Addendum → Option Addendum
last [] = none
last (a ∷ []) = some a
last (a ∷ b ∷ rest) = last (b ∷ rest)

-- The signature is written through the pointer to the roster's last addendum.
abbrev pub sign_last : Bytes → List Addendum → List Addendum
sign_last signature [] = []
sign_last signature (activation a ∷ []) =
    activation (record a { endorser_signature = signature }) ∷ []
sign_last signature (a ∷ []) = a ∷ []
sign_last signature (a ∷ b ∷ rest) = a ∷ sign_last signature (b ∷ rest)

abbrev pub cosigned_by : Bytes → Roster → Roster
cosigned_by signature r = record r { addenda = sign_last signature r.addenda }

abbrev pub no_addenda : Error
no_addenda = status invalid_argument "roster has no addenda" []

abbrev pub not_new_node : Error
not_new_node = status permission_denied "caller must be the new node" []

abbrev pub not_revoker : Error
not_revoker = status permission_denied "caller must be the revoker" []

abbrev pub unknown_addendum : Error
unknown_addendum = status invalid_argument "addendum has no activation or revocation" []

abbrev pub not_serializable : Error
not_serializable = status internal "failed to serialize roster" []

abbrev pub cosignature : ResponseKind → Option Bytes
cosignature (cosigned signature) = some signature
cosignature _ = none

module _ {S L : Type 0} (d : Deps S L) where
  unfoldable pub or_unreachable : Result Error ServingResponse → Handler S L ServingResponse
  or_unreachable (ok r) = pure r
  or_unreachable (err e) = raise (wrapped unavailable "endorser unreachable: %v" e)

  -- The endorser's signature over the roster.
  unfoldable pub get_endorser_cosignature : Bytes → ℤ → Roster → Activation → Handler S L Bytes
  get_endorser_cosignature cg n roster a = do
    f ← route d cg (to_peer a.endorser_node_number n (roster_cosign a.new_node_number roster))
    answer ← wait d cg f
    resp ← or_unreachable answer
    guard (is_empty resp.error)
        (status failed_precondition "endorser rejected: %s" (text resp.error ∷ []))
    or_raise (cosignature resp.kind) (status internal "invalid cosign response" [])

  -- The roster to store, the version that it replaces, and what is logged.
  unfoldable pub prepare : Bytes → ℤ → Roster → Addendum → Handler S L (Roster × ℤ × Bytes)
  prepare cg n roster (activation a) = do
    guard (n == a.new_node_number) not_new_node
    signature ← get_endorser_cosignature cg n roster a
    pure (cosigned_by signature roster, pred_int64 a.version, codes "activation")
  prepare cg n roster (revocation r) = do
    guard (n == r.revoker_node_number) not_revoker
    pure (roster, pred_int64 r.version, codes "revocation")
  prepare cg n roster Addendum.unset = raise unknown_addendum

  unfoldable pub store : Bytes × ℤ → Roster × ℤ × Bytes → Handler S L Roster
  store (cg, n) (roster, expected, kind) = do
    bytes ← or_raise (d.marshal_roster roster) not_serializable
    ask (d.client.update_roster cg bytes roster.version expected)
    log_activity d cg n (codes "roster_update") true
        (record { error_message = no_message; kind = roster_update kind })
    pure roster

  unfoldable pub update_roster : Option Metadata → Roster → Handler S L Roster
  update_roster md roster = do
    who ← authenticate_and_rate_limit d md
    addendum ← or_raise (last roster.addenda) no_addenda
    prepared ← prepare who.0 who.1 roster addendum
    store who prepared
