-- ===== src/HubServer/Laws.antt =====
-- What connect/hub/hubsrv.go may rely on of its storage backend, as laws of the interface: how its
-- state can change, and that a deregistered node is refused.
use wispers_hub.Base.{◌≡◌, Bool, Option, Bytes}
use wispers_hub.Base.Int.{ℤ}
use wispers_hub.Grpc.{Error}
use wispers_hub.Standalone.Exec.{ok, err}
use wispers_hub.Standalone.Messages.{EventDetails}
use wispers_hub.HubServer.Interface.{BackendClient}

pub record BackendLaws {S : Type 0} (b : BackendClient S) : Type 1 where
  pub Evolves : S → S → Type 0
  pub Gone : Bytes → ℤ → S → Type 0
  pub stays : (s : S) → Evolves s s
  pub then : {s s1 s2 : S} → Evolves s s1 → Evolves s1 s2 → Evolves s s2
  pub registration_evolves :
      (token : Bytes) (s : S) → Evolves s (b.complete_node_registration token s).1
  pub authentication_evolves :
      (cg : Bytes) (n : ℤ) (token : Bytes) (s : S) → Evolves s (b.authenticate_node cg n token s).1
  pub listing_evolves : (cg : Bytes) (s : S) → Evolves s (b.list_nodes cg s).1
  pub roster_evolves : (cg : Bytes) (s : S) → Evolves s (b.get_roster cg s).1
  pub metadata_evolves : (cg : Bytes) (s : S) → Evolves s (b.get_group_metadata cg s).1
  pub policy_evolves : (cg : Bytes) (s : S) → Evolves s (b.get_turn_policy cg s).1
  pub update_evolves :
      (cg roster : Bytes) (new expected : ℤ) (s : S)
      → Evolves s (b.update_roster cg roster new expected s).1
  pub last_seen_evolves :
      (cg : Bytes) (n : ℤ) (s : S) → Evolves s (b.update_node_last_seen cg n s).1
  pub deregistration_evolves : (cg : Bytes) (n : ℤ) (s : S) → Evolves s (b.deregister_node cg n s).1
  pub log_evolves :
      (cg : Bytes) (n : ℤ) (event : Bytes) (success : Bool) (details : Option EventDetails) (s : S)
      → Evolves s (b.log_activity cg n event success details s).1
  pub gone_stays : (cg : Bytes) (n : ℤ) {s s' : S} → Evolves s s' → Gone cg n s → Gone cg n s'
  pub gone_refused :
      (cg : Bytes) (n : ℤ) (token : Bytes) (s : S)
      → Gone cg n s
      → (e : Error) × ((b.authenticate_node cg n token s).0 ≡ err e)
  pub deregistered :
      (cg : Bytes) (n : ℤ) (token : Bytes) (s s1 : S)
      → (b.authenticate_node cg n token s).0 ≡ ok tt
      → Evolves s s1
      → (b.deregister_node cg n s1).0 ≡ ok tt
      → Gone cg n (b.deregister_node cg n s1).1
