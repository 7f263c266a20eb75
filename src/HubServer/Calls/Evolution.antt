-- ===== src/HubServer/Calls/Evolution.antt =====
-- Every call of connect/hub/hubsrv.go changes the backend's state only as the backend's methods do,
-- if the calls beside it do.
pub mod Parts
pub mod Unary
pub mod Stream
use wispers_hub.Base.{Option, is_empty}
use wispers_hub.HubServer.Interface.{Deps}
use wispers_hub.HubServer.Laws.{BackendLaws}
use wispers_hub.HubServer.Auth.{Metadata}
use wispers_hub.HubServer.Handlers.{
  pair_nodes_handler, list_nodes, get_roster, get_group_metadata, get_stun_turn_config,
  start_connection_handler, deregister_node,
}
use wispers_hub.HubServer.Rosters.{update_roster}
use wispers_hub.HubServer.Calls.{
  Call, pairing, node_listing, roster_reading, metadata_reading, configuration, connecting,
  deregistration, roster_update, serving, serve,
}
use wispers_hub.HubServer.Calls.Evolution.Parts.{
  OthersEvolve, HandlerEvolves, >>=-Evolves, pure-Evolves, or_raise-Evolves, ask-Evolves,
  authenticate-Evolves,
}
use wispers_hub.HubServer.Calls.Evolution.Unary.{
  pair_with-Evolves, present-Evolves, decoded-Evolves, configured-Evolves, start_with-Evolves,
  prepare-Evolves, store-Evolves,
}
use wispers_hub.HubServer.Calls.Evolution.Stream.{serving-Evolves}

module _ {S L : Type 0} (d : Deps S L) (laws : BackendLaws d.client)
    (rely : OthersEvolve d laws) where
  -- Every call of a node, however it ends, changes the backend's state only as the backend's methods
  -- do, if the other calls do so while it waits.
  pub serve-Evolves : (c : Call) (md : Option Metadata) → HandlerEvolves d laws (serve d c md)
  unfolding serve pair_nodes_handler list_nodes get_roster get_group_metadata get_stun_turn_config
      start_connection_handler deregister_node update_roster
  serve-Evolves (pairing m) md =
      >>=-Evolves d laws _ _ (authenticate-Evolves d laws md)
        λ who. pair_with-Evolves d laws rely m who
  serve-Evolves node_listing md = >>=-Evolves d laws _ _ (authenticate-Evolves d laws md) λ who.
      >>=-Evolves d laws _ _ (ask-Evolves d laws _ (laws.listing_evolves who.0))
        λ nodes. present-Evolves d laws rely who.0 nodes
  serve-Evolves roster_reading md = >>=-Evolves d laws _ _ (authenticate-Evolves d laws md) λ who.
      >>=-Evolves d laws _ _ (ask-Evolves d laws _ (laws.roster_evolves who.0))
        λ stored. decoded-Evolves d laws rely _
  serve-Evolves metadata_reading md = >>=-Evolves d laws _ _ (authenticate-Evolves d laws md) λ who.
      >>=-Evolves d laws _ _ (ask-Evolves d laws _ (laws.metadata_evolves who.0))
        λ m. pure-Evolves d laws _
  serve-Evolves configuration md =
      >>=-Evolves d laws _ _ (authenticate-Evolves d laws md)
        λ who. configured-Evolves d laws rely (is_empty d.turn_server) who.0
  serve-Evolves (connecting r) md =
      >>=-Evolves d laws _ _ (authenticate-Evolves d laws md)
        λ who. start_with-Evolves d laws rely r who
  serve-Evolves deregistration md =
      >>=-Evolves d laws _ _ (authenticate-Evolves d laws md)
        λ who. ask-Evolves d laws _ (laws.deregistration_evolves who.0 who.1)
  serve-Evolves (roster_update r) md =
      >>=-Evolves d laws _ _ (authenticate-Evolves d laws md) λ who.
        >>=-Evolves d laws _ _ (or_raise-Evolves d laws _ _) λ a.
          >>=-Evolves d laws _ _ (prepare-Evolves d laws rely who.0 who.1 r a)
            λ p. store-Evolves d laws rely who p
  serve-Evolves serving md = serving-Evolves d laws rely md
