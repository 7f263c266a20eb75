-- ===== src/HubServer/Calls.antt =====
-- The calls that a node makes with its credentials, the RPCs of connect/hub/hubsrv.go but
-- CompleteNodeRegistration, as one function of the call.
pub mod Credentials
pub mod Evolution
pub mod Deregistration
use wispers_hub.Base.{Option, List, Bytes}
use wispers_hub.Proto.{Roster}
use wispers_hub.HubServer.Interface.{Deps}
use wispers_hub.HubServer.Exec.{Handler}
use wispers_hub.HubServer.Auth.{Metadata}
use wispers_hub.HubServer.Handlers.{
  PairNodesMessage, StartConnectionRequest, Node, GroupInfo, StunTurnConfig, pair_nodes_handler,
  list_nodes, get_roster, get_group_metadata, get_stun_turn_config, start_connection_handler,
  deregister_node,
}
use wispers_hub.HubServer.Rosters.{update_roster}
use wispers_hub.HubServer.Serving.{start_serving}

pub data Call : Type 0 where
  pairing : PairNodesMessage → Call
  node_listing : Call
  roster_reading : Call
  metadata_reading : Call
  configuration : Call
  connecting : StartConnectionRequest → Call
  deregistration : Call
  roster_update : Roster → Call
  serving : Call

abbrev pub Reply : Call → Type 0
Reply (pairing m) = Bytes
Reply node_listing = List Node
Reply roster_reading = Roster
Reply metadata_reading = GroupInfo
Reply configuration = StunTurnConfig
Reply (connecting r) = Bytes
Reply deregistration = Unit {0}
Reply (roster_update r) = Roster
Reply serving = Unit {0}

module _ {S L : Type 0} (d : Deps S L) where
  unfoldable pub serve : (c : Call) → Option Metadata → Handler S L (Reply c)
  serve (pairing m) md = pair_nodes_handler d md m
  serve node_listing md = list_nodes d md
  serve roster_reading md = get_roster d md
  serve metadata_reading md = get_group_metadata d md
  serve configuration md = get_stun_turn_config d md
  serve (connecting r) md = start_connection_handler d md r
  serve deregistration md = deregister_node d md
  serve (roster_update r) md = update_roster d md r
  serve serving md = start_serving d md
