-- ===== src/Peers/Poll.antt =====
-- peer-mgmt-service/pkg/pms/poll.go: `cleanup`, `poll` and `updateGraph`, which make the state, and
-- the peers that `resolveState` finds missing.
--
-- Go ranges over a map in any order, so the names of the nodes in their order are an argument.
use infra.Base.{
  ℕ, Bool, true, false, ◌-◌, not, Option, none, some, String, str_eq, List, [], ◌∷◌, ◌++◌, map,
  select, ltb, if◌then◌else◌,
}
use infra.Base.Dict.{Dict, keys_of, lookup, insert, erase}
use infra.Peers.{PeerInfo, NodeState, NetworkState, Network}

-- `cleanup`, at an instant: the loop over the names.
unfoldable pub cleanup : Network → ℕ → List String → NetworkState → NetworkState
cleanup n now [] s = s
cleanup n now (name ∷ names) s = cleanup n now names (elim (lookup name s.nodes) [
  | none ↦ s
  | some st ↦
      if ltb n.node_state_expiration (now - st.updated_at)
      then record s {
        nodes = erase name s.nodes;
        nodes_by_peer_id = erase st.self.peer_id s.nodes_by_peer_id;
      }
      else s
])

-- What the client of a node returns: `none` is an error.
pub record Answers : Type 0 where
  pub connected : Bool
  pub self : Option PeerInfo
  pub peers : Option (Dict PeerInfo)
  pub now : ℕ

-- The index without the old ID of a node whose ID has changed.
unfoldable pub forget_old : Option NodeState → String → Dict String → Dict String
forget_old none id by_id = by_id
forget_old (some st) id by_id =
    if str_eq st.self.peer_id id then by_id else erase st.self.peer_id by_id

-- The end of `pollNode`.
unfoldable pub update_node : String → PeerInfo → Dict PeerInfo → ℕ → NetworkState → NetworkState
unfolding forget_old
update_node name self peers now s = record {
  nodes =
      insert name (record { self = self; peers = peers; known_peers = []; updated_at = now })
        s.nodes;
  nodes_by_peer_id =
      insert self.peer_id name (forget_old (lookup name s.nodes) self.peer_id s.nodes_by_peer_id);
}

-- `pollNode`
unfoldable pub poll_node : String → Answers → NetworkState → NetworkState
unfolding update_node
poll_node name a s = elim a.connected [
  | false ↦ s
  | true ↦ elim a.self [
    | none ↦ s
    | some self ↦ elim a.peers [ none ↦ s | some peers ↦ update_node name self peers a.now s ]
  ]
]

-- `poll`
unfoldable pub poll : (String → Answers) → List String → NetworkState → NetworkState
unfolding poll_node
poll answers [] s = s
poll answers (name ∷ names) s = poll answers names (poll_node name (answers name) s)

-- The inner loop of `updateGraph`.
unfoldable pub known_peers : Dict String → String → Dict PeerInfo → List String
known_peers by_id self [] = []
known_peers by_id self ((id, peer) ∷ peers) =
    let rest = known_peers by_id self peers in
    if str_eq id self
    then rest
    else elim (lookup id by_id) [ none ↦ rest | some name ↦ name ∷ rest ]

-- `updateGraph`
unfoldable pub update_graph : NetworkState → NetworkState
unfolding known_peers
update_graph s = record s {
  nodes =
      map
        (λ e. (
          e.0,
          record (e.1) { known_peers = known_peers s.nodes_by_peer_id e.1.self.peer_id e.1.peers },
        ))
        s.nodes;
}

-- A peer is healthy if it is connected and known; then the name it has.
unfoldable pub healthy_name : Dict String → String × PeerInfo → Option String
healthy_name by_id (id, peer) =
    if str_eq peer.connectedness "connected" then lookup id by_id else none

-- The two loops of `resolveState` for one node that fill `expectedPeers`.
unfoldable pub expect : String → List String → Dict Bool → Dict Bool
expect node [] expected = expected
expect node (m ∷ members) expected =
    expect node members (if str_eq m node then expected else insert m false expected)

unfoldable pub mark_healthy : Dict String → Dict PeerInfo → Dict Bool → Dict Bool
unfolding healthy_name
mark_healthy by_id [] expected = expected
mark_healthy by_id (p ∷ peers) expected =
    mark_healthy by_id peers
      (elim (healthy_name by_id p) [ none ↦ expected | some name ↦ insert name true expected ])

-- The peers that one node is to connect to.
unfoldable pub missing : Network → NetworkState → String → NodeState → List String
unfolding expect mark_healthy
missing n s node st =
    keys_of (
      select (λ e. not (e.1)) (mark_healthy s.nodes_by_peer_id st.peers (expect node n.members [])))

-- `resolveState`: the calls of `connectPeer`, by node and peer.
unfoldable pub resolve_state : Network → List String → NetworkState → List (String × String)
unfolding missing
resolve_state n [] s = []
resolve_state n (node ∷ names) s = elim (lookup node s.nodes) [
  | none ↦ resolve_state n names s
  | some st ↦ map (λ peer. (node, peer)) (missing n s node st) ++ resolve_state n names s
]

-- The state that a tick leaves, and what it connects.
unfoldable pub tick :
    Network
    → ℕ
    → List String
    → (String → Answers)
    → List String
    → List String
    → NetworkState
    → NetworkState × List (String × String)
unfolding cleanup poll update_graph resolve_state
tick n now names answers polled resolved s =
    let s' = update_graph (poll answers polled (cleanup n now names s)) in
    (s', (if n.dry_run then [] else resolve_state n resolved s'))
