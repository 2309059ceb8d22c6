-- ===== src/Peers/Connect.antt =====
-- peer-mgmt-service/pkg/pms/poll.go: `connectPeer`. A client is named by its node; the test hook
-- that replaces the function is left out.
use Prim.Native.String.{◌++◌ as str_append}
use text.Mathlib.Text.{starts_with}
use infra.Base.{Bool, ◌&&◌, not, Option, none, some, String, str_eq, List, [], ◌∷◌, if◌then◌else◌}
use infra.Base.Dict.{lookup}
use infra.Peers.{PeerInfo, NodeState, NetworkState, NodeConfig, Network}

-- A call of a client: of which node, on which peer ID or address.
pub data Call : Type 0 where
  unprotect : String → String → Call
  unblock : String → String → Call
  disconnect : String → String → Call
  connect : String → String → Call
  protect : String → String → Call

-- The text before a suffix, if it is there.
unfoldable pub strip_suffix : String → String → Option String
strip_suffix suffix String.[] = if str_eq String.[] suffix then some "" else none
strip_suffix suffix (String.◌∷◌ c s) =
    let rest = strip_suffix suffix s in
    if str_eq (String.◌∷◌ c s) suffix
    then some ""
    else elim rest [ none ↦ none | some t ↦ some (String.◌∷◌ c t) ]

-- The place of the peer ID in an address is filled in.
unfoldable pub fill_peer_id : String → String → String
unfolding strip_suffix
fill_peer_id id addr =
    if starts_with addr "/dns4/"
    then elim (strip_suffix "/p2p/{peer_id}" addr) [
      | none ↦ addr
      | some stem ↦ str_append stem (str_append "/p2p/" id)
    ]
    else addr

-- `peerState.self.Addresses[0]`, which panics where there is none.
abbrev pub first_address : PeerInfo → Option String
first_address self = elim self.addresses [ [] ↦ none | a ∷ _ ↦ some a ]

-- The address as configured, for the same cluster or any.
abbrev pub configured_address : NodeConfig → NodeConfig → String
configured_address node peer =
    if str_eq node.cluster peer.cluster && not (str_eq peer.peer_address_local "")
    then peer.peer_address_local
    else peer.peer_address

-- The address to connect to; `none` is the panic.
unfoldable pub peer_address : NodeConfig → NodeConfig → PeerInfo → Option String
unfolding fill_peer_id
peer_address node peer self =
    let id = if str_eq peer.peer_id "" then self.peer_id else peer.peer_id in
    let configured = configured_address node peer in
    if str_eq configured ""
    then elim (first_address self) [ none ↦ none | some a ↦ some (fill_peer_id id a) ]
    else some (fill_peer_id id configured)

-- The calls in their order.
abbrev pub connect_calls : String → String → NodeState → NodeState → String → List Call
connect_calls node peer st peer_st addr =
    unprotect node peer_st.self.peer_id
    ∷ unprotect peer st.self.peer_id
    ∷ unblock node peer_st.self.peer_id
    ∷ unblock peer st.self.peer_id
    ∷ disconnect node peer_st.self.peer_id
    ∷ disconnect peer st.self.peer_id
    ∷ connect node addr
    ∷ protect node peer_st.self.peer_id
    ∷ []

-- The calls that are made: an error ends them.
unfoldable pub until_error : (Call → Bool) → List Call → List Call
until_error fails [] = []
until_error fails (c ∷ cs) = let rest = until_error fails cs in if fails c then c ∷ [] else c ∷ rest

-- `connectPeer`: the calls that it makes; `none` is the panic.
unfoldable pub connect_peer :
    Network → NetworkState → (String → Bool) → (Call → Bool) → String → String → Option (List Call)
unfolding peer_address until_error
connect_peer n s dials fails node peer = elim (lookup node s.nodes) [
  | none ↦ some []
  | some st ↦ elim (lookup node n.nodes_config) [
    | none ↦ some []
    | some config ↦ elim (lookup peer s.nodes) [
      | none ↦ some []
      | some peer_st ↦ elim (lookup peer n.nodes_config) [
        | none ↦ some []
        | some peer_config ↦
            if config.prevent_outbound
            then some []
            else if peer_config.prevent_inbound
            then some []
            else if not (dials node)
            then some []
            else if not (dials peer)
            then some []
            else elim (peer_address config peer_config peer_st.self) [
              | none ↦ none
              | some addr ↦ some (until_error fails (connect_calls node peer st peer_st addr))
            ]
      ]
    ]
  ]
]
