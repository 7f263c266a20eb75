-- ===== src/HubServer/Serving/Ending.antt =====
-- How a serving stream of connect/hub/hubsrv.go ends.
use wispers_hub.Base.{
  ℕ, ◌≡◌, refl, sym, subst, ◌⊎◌, inl, inr, false, Option, Bytes, bytes_eq, Bool-cases,
}
use wispers_hub.Base.Int.{ℤ, int_eq}
use wispers_hub.Base.Assoc.{lookup, lookup-insert_self, lookup-delete_self}
use wispers_hub.Routing.{ConnectivityGroup, disconnect, is_current, clear_futures}
use wispers_hub.Routing.Router.{
  Router, find_or_create_group, router_connect, router_disconnect, put,
}
use wispers_hub.HubServer.Interface.{Hub, Deps}
use wispers_hub.HubServer.Exec.{
  Outcome, replied, failed, waiting, panicked, ◌>>=◌, tell, log_activity,
}
use wispers_hub.HubServer.Auth.{Metadata, authenticate_and_rate_limit}
use wispers_hub.HubServer.Serving.{
  connect, connector, sheds, send_welcome, run, is_evicted, serve_stream, finally, with_disconnect,
  start_serving, after_others, ended, superseded, resharding,
}
use wispers_hub.HubServer.Serving

-- The connector is not its node's current one.
abbrev pub Left : Bytes → ℕ → Router → Type 0
Left cg c r =
    is_current (lookup (connector cg c r).node_num (find_or_create_group cg r).connectors) c ≡ false

disconnect-left :
    (c : ℕ) (g : ConnectivityGroup)
    → is_current (lookup ((disconnect c g).conns c).node_num (disconnect c g).connectors) c ≡ false
unfolding disconnect clear_futures
disconnect-left c g = elim (Bool-cases (is_current (lookup (g.conns c).node_num g.connectors) c)) [
  | inl mine ↦ rw (mine, lookup-delete_self (g.conns c).node_num g.connectors) refl
  | inr other ↦ rw (other, other) refl
]

pub find_or_create_group-put :
    (cg : Bytes) (g : ConnectivityGroup) (r : Router) → find_or_create_group cg (put cg g r) ≡ g
unfolding find_or_create_group
find_or_create_group-put cg g r = rw (lookup-insert_self cg g r.groups) refl

router_disconnect-Left : (cg : Bytes) (c : ℕ) (r : Router) → Left cg c (router_disconnect cg c r)
unfolding router_disconnect
router_disconnect-Left cg c r =
    subst
      (λ (g : ConnectivityGroup). is_current (lookup (g.conns c).node_num g.connectors) c ≡ false)
      (sym (find_or_create_group-put cg (disconnect c (find_or_create_group cg r)) r))
      (disconnect-left c (find_or_create_group cg r))

module _ {S L : Type 0} (d : Deps S L) where
  finally-Left :
      (cg : Bytes) (c : ℕ) (p : Outcome (Unit {0}) × Hub S L)
      → ((finally d cg c p).0 ≡ waiting) ⊎ Left cg c (finally d cg c p).1.router
  unfolding Serving.disconnect
  finally-Left cg c (replied u, h) = inr (router_disconnect-Left cg c h.router)
  finally-Left cg c (failed e, h) = inr (router_disconnect-Left cg c h.router)
  finally-Left cg c (waiting, h) = inl refl
  finally-Left cg c (panicked, h) = inr (router_disconnect-Left cg c h.router)

  -- A stream that has authenticated and does not wait for good ends with its connector taken out of the
  -- router, however it ends: it is not its node's current connector.
  pub start_serving-Left :
      (md : Option Metadata) (h h1 : Hub S L) (cg : Bytes) (n : ℤ)
      → authenticate_and_rate_limit d md h ≡ (replied (cg, n), h1)
      → ((start_serving d md h).0 ≡ waiting)
        ⊎ Left cg (router_connect cg n h1.router).0 (start_serving d md h).1.router
  unfolding start_serving ◌>>=◌ tell log_activity connect with_disconnect
  start_serving-Left md h h1 cg n e = rw e (finally-Left cg (router_connect cg n h1.router).0 _)
