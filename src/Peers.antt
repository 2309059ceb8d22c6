-- ===== src/Peers.antt =====
-- peer-mgmt-service/pkg/pms/network.go: the state of a network of nodes that are to be connected
-- with one another.
--
-- A peer ID is its text. `connectedness` is the text of libp2p's constant in lower case. Instants
-- are nanoseconds. The mutex of the state guards nothing here: one tick is over before the next one.
pub mod Poll
pub mod Connect
pub mod Index
pub mod Missing
pub mod Calls
mod Tests
use infra.Base.{ℕ, Bool, Option, String, List}
use infra.Base.Dict.{Dict}

-- What `p2p.PeerInfo` says of a node.
pub record PeerInfo : Type 0 where
  pub peer_id : String
  pub addresses : List String
  pub connectedness : String

pub record NodeState : Type 0 where
  pub self : PeerInfo
  pub peers : Dict PeerInfo
  pub known_peers : List String
  pub updated_at : ℕ

pub record NetworkState : Type 0 where
  pub nodes : Dict NodeState
  pub nodes_by_peer_id : Dict String

-- `config.NodeConfig`
pub record NodeConfig : Type 0 where
  pub peer_id : String
  pub peer_address : String
  pub peer_address_local : String
  pub cluster : String
  pub prevent_inbound : Bool
  pub prevent_outbound : Bool

-- `Network`, with what it uses of the configuration.
pub record Network : Type 0 where
  pub members : List String
  pub nodes_config : Dict NodeConfig
  pub node_state_expiration : ℕ
  pub dry_run : Bool
