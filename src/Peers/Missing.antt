-- ===== src/Peers/Missing.antt =====
-- peer-mgmt-service/pkg/pms/poll.go: what `resolveState` takes for missing.
use infra.Base.{
  ◌≡◌, refl, ◌∙◌, Bool, true, false, not, ◌&&◌, ◌||◌, Option, none, some, String, str_eq, eq_iff,
  List, [], ◌∷◌, ◌++◌, map, select, if◌then◌else◌, Bool-cases, Option-cases, arith, inl, inr,
}
use infra.Base.Dict.{elem, Dict, keys_of, lookup, insert, lookup-insert}
use infra.Peers.{PeerInfo, NodeState, NetworkState, Network}
use infra.Peers.Poll.{healthy_name, expect, mark_healthy, missing, resolve_state}

unfoldable pub names_it : Option String → String → Bool
names_it none x = false
names_it (some y) x = str_eq y x

-- Some entry of the peers is healthy and has the name.
unfoldable pub healthy : Dict String → String → Dict PeerInfo → Bool
healthy by_id x [] = false
healthy by_id x (p ∷ peers) = names_it (healthy_name by_id p) x || healthy by_id x peers

-- The pair is among the calls.
unfoldable pub is_called : String → String → List (String × String) → Bool
is_called a b [] = false
is_called a b ((x, y) ∷ cs) = (str_eq x a && str_eq y b) || is_called a b cs

-- Each key has one entry.
unfoldable pub HasOneEach : Dict Bool → Type 0
HasOneEach [] = Unit
HasOneEach ((k, v) ∷ m) = (lookup k m ≡ none) × HasOneEach m

is_false : Option Bool → Bool
is_false none = false
is_false (some b) = not b

insert-HasOneEach :
    (k : String) (v : Bool) (m : Dict Bool) → HasOneEach m → HasOneEach (insert k v m)
unfolding HasOneEach insert lookup
insert-HasOneEach k v [] u = (refl, tt)
insert-HasOneEach k v ((j, w) ∷ m) (e, u) = elim (Bool-cases (str_eq j k)) [
  | inl y ↦ rw (insert, y) (rw ((eq_iff j k).0 y) at e, u)
  | inr n ↦
      let apart : str_eq k j ≡ false = ground (arith, n, eq_iff j k, eq_iff k j) in
      rw (insert, n) (rw (lookup-insert k j v m, apart) e, insert-HasOneEach k v m u)
]

expect-HasOneEach :
    (node : String) (ms : List String) (d : Dict Bool)
    → HasOneEach d
    → HasOneEach (expect node ms d)
unfolding expect
expect-HasOneEach node [] d u = u
expect-HasOneEach node (m ∷ ms) d u =
    expect-HasOneEach node ms _ (elim (Bool-cases (str_eq m node)) [
      | inl y ↦ rw y u
      | inr n ↦ rw n (insert-HasOneEach m false d u)
    ])

mark_healthy-HasOneEach :
    (by_id : Dict String) (peers : Dict PeerInfo) (d : Dict Bool)
    → HasOneEach d
    → HasOneEach (mark_healthy by_id peers d)
unfolding mark_healthy
mark_healthy-HasOneEach by_id [] d u = u
mark_healthy-HasOneEach by_id (p ∷ peers) d u =
    mark_healthy-HasOneEach by_id peers _ (elim (Option-cases (healthy_name by_id p)) [
      | inl e ↦ rw e u
      | inr (name, e) ↦ rw e (insert-HasOneEach name true d u)
    ])

lookup-expect :
    (node x : String) (ms : List String) (d : Dict Bool)
    → lookup x (expect node ms d)
      ≡ (if elem x ms && not (str_eq x node) then some false else lookup x d)
unfolding expect elem
lookup-expect node x [] d = refl
lookup-expect node x (m ∷ ms) d = elim (Bool-cases (str_eq m node)) [
  | inl y ↦
      rw (expect, y)
        (lookup-expect node x ms d ∙ ground (arith, y, eq_iff m node, eq_iff m x, eq_iff x node))
  | inr n ↦
      rw (expect, n)
        (lookup-expect node x ms (insert m false d)
          ∙ ground (arith, n, lookup-insert m x false d, eq_iff m node, eq_iff m x, eq_iff x node))
]

lookup-mark_healthy :
    (by_id : Dict String) (x : String) (peers : Dict PeerInfo) (d : Dict Bool)
    → lookup x (mark_healthy by_id peers d)
      ≡ (if healthy by_id x peers then some true else lookup x d)
unfolding mark_healthy healthy names_it
lookup-mark_healthy by_id x [] d = refl
lookup-mark_healthy by_id x (p ∷ peers) d = elim (Option-cases (healthy_name by_id p)) [
  | inl e ↦ rw (mark_healthy, e) (lookup-mark_healthy by_id x peers d)
  | inr (name, e) ↦
      rw (mark_healthy, e)
        (lookup-mark_healthy by_id x peers (insert name true d)
          ∙ ground (arith, lookup-insert name x true d))
]

-- The keys that are selected from entries with one each are those with the value `false`.
elem-select :
    (x : String) (d : Dict Bool)
    → HasOneEach d
    → elem x (keys_of (select (λ e. not (e.1)) d)) ≡ is_false (lookup x d)
unfolding elem is_false HasOneEach lookup
elem-select x [] u = refl
elem-select x ((k, true) ∷ m) (e, u) = elim (Bool-cases (str_eq k x)) [
  | inl y ↦ elem-select x m u ∙ rw (y, rw ((eq_iff k x).0 y) at e) refl
  | inr n ↦ rw n (elem-select x m u)
]
elem-select x ((k, false) ∷ m) (e, u) = ground (arith, elem-select x m u)

-- The peers missing at a node: the members other than itself that no healthy peer has the name of.
elem-missing :
    (n : Network) (s : NetworkState) (node x : String) (st : NodeState)
    → elem x (missing n s node st)
      ≡ ((elem x n.members && not (str_eq x node)) && not (healthy s.nodes_by_peer_id x st.peers))
unfolding missing is_false lookup HasOneEach
elem-missing n s node x st =
    elem-select x _ (
      mark_healthy-HasOneEach s.nodes_by_peer_id st.peers _
        (expect-HasOneEach node n.members [] tt))
    ∙ ground (
      arith,
      lookup-mark_healthy s.nodes_by_peer_id x st.peers (expect node n.members []),
      lookup-expect node x n.members [],
    )

is_called-append :
    (a b : String) (cs ds : List (String × String))
    → is_called a b (cs ++ ds) ≡ (is_called a b cs || is_called a b ds)
unfolding is_called
is_called-append a b [] ds = refl
is_called-append a b ((x, y) ∷ cs) ds = ground (arith, is_called-append a b cs ds)

is_called-map :
    (a b node : String) (peers : List String)
    → is_called a b (map (λ peer. (node, peer)) peers) ≡ (str_eq node a && elem b peers)
unfolding is_called elem
is_called-map a b node [] = ground arith
is_called-map a b node (y ∷ peers) = ground (arith, is_called-map a b node peers)

-- What one node is asked for.
unfoldable pub wants : Network → NetworkState → String → String → Bool
wants n s a b = elim (lookup a s.nodes) [
  | none ↦ false
  | some st ↦ (elem b n.members && not (str_eq b a)) && not (healthy s.nodes_by_peer_id b st.peers)
]

-- `resolveState` calls `connectPeer` for a pair exactly if the first is a node that it ranges over
-- and that has a state, the second is a member of the network other than the first, and no peer that
-- the first node reports is both connected and indexed under the second's name.
pub resolve_state-calls :
    (n : Network) (names : List String) (s : NetworkState) (a b : String)
    → is_called a b (resolve_state n names s) ≡ (elem a names && wants n s a b)
unfolding resolve_state wants elem is_called
resolve_state-calls n [] s a b = refl
resolve_state-calls n (node ∷ names) s a b = elim (Option-cases (lookup node s.nodes)) [
  | inl e ↦
      rw (resolve_state, e) (resolve_state-calls n names s a b ∙ ground (arith, e, eq_iff node a))
  | inr (st, e) ↦
      rw (resolve_state, e)
        (is_called-append a b (map (λ peer. (node, peer)) (missing n s node st))
            (resolve_state n names s)
          ∙ ground (
            arith,
            e,
            eq_iff node a,
            is_called-map a b node (missing n s node st),
            elem-missing n s node b st,
            resolve_state-calls n names s a b,
          ))
]
