-- ===== src/Peers/Tests.antt =====
-- Runs and witnesses on a network of two nodes in one cluster, the second behind a DNS name.
use infra.Base.{
  ℕ, ◌≡◌, ◌↔◌, ◌&&◌, refl, Bool, true, false, some, String, List, [], ◌∷◌, str_eq, if◌then◌else◌,
}
use infra.Base.Dict.{elem, lookup, insert, erase}
use infra.Peers.{PeerInfo, NodeState, NetworkState, NodeConfig, Network}
use infra.Peers.Poll.{
  Answers, cleanup, poll, poll_node, update_node, forget_old, update_graph, known_peers,
  healthy_name, expect, mark_healthy, missing, resolve_state, tick,
}
use infra.Peers.Connect.{Call, connect_peer, peer_address, fill_peer_id, strip_suffix, until_error}
use infra.Peers.Index.{IsIndexed, tick-IsIndexed}
use infra.Peers.Missing.{wants, is_called, resolve_state-calls}
use infra.Peers.Calls.{Connects, IsReady, Succeed, release_calls, connect_peer_iff}

abbrev config_of : String → NodeConfig
config_of address = record {
  peer_id = "";
  peer_address = address;
  peer_address_local = "";
  cluster = "one";
  prevent_inbound = false;
  prevent_outbound = false;
}

abbrev network : Network
network = record {
  members = "a" ∷ "b" ∷ [];
  nodes_config = ("a", config_of "") ∷ ("b", config_of "/dns4/b/p2p/{peer_id}") ∷ [];
  node_state_expiration = 100;
  dry_run = false;
}

abbrev info : String → String → PeerInfo
info id connectedness = record {
  peer_id = id;
  addresses = "/ip4/1" ∷ [];
  connectedness = connectedness;
}

abbrev answer : String → String → String → ℕ → Answers
answer id peer connectedness now = record {
  connected = true;
  self = some (info id "");
  peers = some ((peer, info peer connectedness) ∷ []);
  now = now;
}

abbrev answers : String → Answers
answers name =
    if str_eq name "a"
    then answer "ida" "idb" "notconnected" 5
    else answer "idb" "ida" "connected" 6

abbrev no_nodes : NetworkState
no_nodes = record { nodes = []; nodes_by_peer_id = [] }

abbrev both : List String
both = "a" ∷ "b" ∷ []

abbrev after_tick : NetworkState
unfolding tick cleanup poll poll_node update_node forget_old update_graph known_peers resolve_state
    insert lookup erase
after_tick = (tick network 5 [] answers both both no_nodes).0

tick_lem : (tick network 5 [] answers both both no_nodes).1 ≡ ("a", "b") ∷ []
unfolding tick cleanup poll poll_node update_node forget_old update_graph known_peers resolve_state
    insert lookup erase missing expect mark_healthy healthy_name
tick_lem = refl

no_nodes-IsIndexed : IsIndexed no_nodes
unfolding IsIndexed lookup
no_nodes-IsIndexed id name h = cc h

tick-IsIndexed_example : IsIndexed (tick network 5 [] answers both both no_nodes).0
tick-IsIndexed_example = tick-IsIndexed network 5 [] both both answers no_nodes no_nodes-IsIndexed

resolve_state-calls_example :
    is_called "a" "b" (resolve_state network both after_tick)
    ≡ (elem "a" both && wants network after_tick "a" "b")
resolve_state-calls_example = resolve_state-calls network both after_tick "a" "b"

abbrev only_protect_fails : Call → Bool
only_protect_fails (Call.protect x i) = true
only_protect_fails _ = false

abbrev made : List Call
made =
    Call.unprotect "a" "idb"
    ∷ Call.unprotect "b" "ida"
    ∷ Call.unblock "a" "idb"
    ∷ Call.unblock "b" "ida"
    ∷ Call.disconnect "a" "idb"
    ∷ Call.disconnect "b" "ida"
    ∷ Call.connect "a" "/dns4/b/p2p/idb"
    ∷ Call.protect "a" "idb"
    ∷ []

connect_peer_lem :
    connect_peer network after_tick (λ x. true) only_protect_fails "a" "b" ≡ some made
unfolding connect_peer peer_address fill_peer_id strip_suffix until_error lookup insert tick cleanup
    poll poll_node update_node forget_old update_graph known_peers after_tick
connect_peer_lem = refl

connect_peer_iff_example : Connects "a" "/dns4/b/p2p/idb" made ↔ (
    (st : NodeState) × (peer_st : NodeState) × IsReady network after_tick
      (λ x. true)
      "a"
      "b"
      st
      peer_st
      "/dns4/b/p2p/idb"
    × Succeed only_protect_fails (release_calls "a" "b" st peer_st))
connect_peer_iff_example =
    connect_peer_iff network after_tick (λ x. true) only_protect_fails "a" "b" "/dns4/b/p2p/idb"
      made connect_peer_lem
