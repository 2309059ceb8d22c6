-- ===== src/Peers/Index.antt =====
-- peer-mgmt-service/pkg/pms/poll.go: the index of peer IDs names only nodes that report the ID.
use infra.Base.{
  ℕ, ◌-◌, ◌≡◌, ◌≢◌, refl, sym, subst, ap, ◌∙◌, inl, inr, false, none, some, String, str_eq, eq_iff,
  List, [], ◌∷◌, ltb, if◌then◌else◌, Bool-cases, Option-cases,
}
use infra.Base.Dict.{Dict, lookup, insert, erase, lookup-insert, lookup-erase, lookup-map}
use infra.Peers.{PeerInfo, NodeState, NetworkState, Network}
use infra.Peers.Poll.{
  cleanup, Answers, forget_old, update_node, poll_node, poll, known_peers, update_graph, tick,
}

-- A node that reports an ID is there under a name.
unfoldable pub Reports : NetworkState → String → String → Type 0
Reports s name id = (st : NodeState) × (lookup name s.nodes ≡ some st) × (st.self.peer_id ≡ id)

-- What the index says of an ID, the node reports.
unfoldable pub IsIndexed : NetworkState → Type 0
IsIndexed s = (id name : String) → lookup id s.nodes_by_peer_id ≡ some name → Reports s name id

str_eq_apart : (a b : String) → str_eq a b ≡ false → a ≢ b
str_eq_apart a b n e = cc ((eq_iff a b).1 e, n)

module _ (s : NetworkState) (sound : IsIndexed s) where
  -- An ID other than that of a node is not indexed for it.
  other_name :
      (name other id : String) (st : NodeState)
      → lookup name s.nodes ≡ some st
      → st.self.peer_id ≢ id
      → Reports s other id
      → name ≢ other
  unfolding Reports
  other_name name other id st e apart (kept, k, same) z =
      let both : some st ≡ some kept = sym e ∙ ap (λ x. lookup x s.nodes) z ∙ k in
      let one : st ≡ kept = cc both in apart (ap (λ (x : NodeState). x.self.peer_id) one ∙ same)

  not_there :
      (name other id : String) → lookup name s.nodes ≡ none → Reports s other id → name ≢ other
  unfolding Reports
  not_there name other id e (kept, k, same) z =
      let both : none ≡ some kept = sym e ∙ ap (λ x. lookup x s.nodes) z ∙ k in cc both

  erase-IsIndexed :
      (name : String) (st : NodeState)
      → lookup name s.nodes ≡ some st
      → IsIndexed (record s {
        nodes = erase name s.nodes;
        nodes_by_peer_id = erase st.self.peer_id s.nodes_by_peer_id;
      })
  unfolding IsIndexed Reports
  erase-IsIndexed name st e id other h =
      let h' : (if str_eq st.self.peer_id id then none else lookup id s.nodes_by_peer_id)
          ≡ some other =
        sym (lookup-erase st.self.peer_id id s.nodes_by_peer_id) ∙ h in
      elim (Bool-cases (str_eq st.self.peer_id id)) [
        | inl y ↦ cc (rw y at h')
        | inr n ↦
            let (kept, k, same) = sound id other (rw n at h') in
            elim (Bool-cases (str_eq name other)) [
              | inl z ↦ absurd (
                  other_name name other id st e (str_eq_apart _ _ n) (kept, k, same)
                    ((eq_iff name other).0 z))
              | inr z ↦ (kept, (rw (lookup-erase name other s.nodes, z) k), same)
            ]
      ]

  insert-Reports :
      (name other id : String) (st : NodeState) (by_id : Dict String)
      → Reports s other id
      → name ≢ other
      → Reports (record { nodes = insert name st s.nodes; nodes_by_peer_id = by_id }) other id
  unfolding Reports
  insert-Reports name other id st by_id (kept, k, same) apart =
      elim (Bool-cases (str_eq name other)) [
        | inl z ↦ absurd (apart ((eq_iff name other).0 z))
        | inr z ↦ (kept, (rw (lookup-insert name other st s.nodes, z) k), same)
      ]

  insert_self-Reports :
      (name : String) (st : NodeState) (by_id : Dict String)
      → Reports
          (record { nodes = insert name st s.nodes; nodes_by_peer_id = by_id })
          name
          st.self.peer_id
  unfolding Reports
  insert_self-Reports name st by_id =
      (st, (rw (lookup-insert name name st s.nodes, (eq_iff name name).1 refl) refl), refl)

  -- What is left of the index for IDs other than the new one, is for other nodes.
  forget_old_lem :
      (name new id other : String)
      → new ≢ id
      → lookup id (forget_old (lookup name s.nodes) new s.nodes_by_peer_id) ≡ some other
      → Reports s other id × (name ≢ other)
  unfolding forget_old IsIndexed
  forget_old_lem name new id other apart h = elim (Option-cases (lookup name s.nodes)) [
    | inl e ↦ let r = sound id other (rw e at h) in (r, not_there name other id e r)
    | inr (st, e) ↦ elim (Bool-cases (str_eq st.self.peer_id new)) [
      | inl y ↦
          let r = sound id other (rw (e, forget_old, y) at h) in
          (r, other_name name other id st e (λ z. apart (sym ((eq_iff _ _).0 y) ∙ z)) r)
      | inr n ↦
          let h' : (if str_eq st.self.peer_id id then none else lookup id s.nodes_by_peer_id)
              ≡ some other =
            sym (lookup-erase st.self.peer_id id s.nodes_by_peer_id)
            ∙ (rw (e, forget_old, n) at h) in
          elim (Bool-cases (str_eq st.self.peer_id id)) [
            | inl y ↦ cc (rw y at h')
            | inr m ↦
                let r = sound id other (rw m at h') in
                (r, other_name name other id st e (str_eq_apart _ _ m) r)
          ]
    ]
  ]

  update_node-IsIndexed :
      (name : String) (self : PeerInfo) (peers : Dict PeerInfo) (now : ℕ)
      → IsIndexed (update_node name self peers now s)
  unfolding IsIndexed update_node
  update_node-IsIndexed name self peers now id other h =
      let old = forget_old (lookup name s.nodes) self.peer_id s.nodes_by_peer_id in
      let h' : (if str_eq self.peer_id id then some name else lookup id old) ≡ some other =
        sym (lookup-insert self.peer_id id name old) ∙ h in
      elim (Bool-cases (str_eq self.peer_id id)) [
        | inl y ↦
            let is_name : some name ≡ some other = rw y at h' in
            let r =
              insert_self-Reports name
                (record { self = self; peers = peers; known_peers = []; updated_at = now })
                (insert self.peer_id name old) in
            let named =
              subst (λ a. Reports (update_node name self peers now s) a self.peer_id) (cc is_name)
                r in
            subst (Reports (update_node name self peers now s) other) ((eq_iff _ _).0 y) named
        | inr n ↦
            let (r, apart) =
              forget_old_lem name self.peer_id id other (str_eq_apart _ _ n) (rw n at h') in
            insert-Reports name other id _ _ r apart
      ]

  poll_node-IsIndexed : (name : String) (a : Answers) → IsIndexed (poll_node name a s)
  unfolding poll_node
  poll_node-IsIndexed name a = elim (Bool-cases a.connected) [
    | inr n ↦ rw n sound
    | inl y ↦ elim (Option-cases a.self) [
      | inl n ↦ rw (poll_node, y, n) sound
      | inr (self, e) ↦ elim (Option-cases a.peers) [
        | inl n ↦ rw (poll_node, y, e, n) sound
        | inr (peers, f) ↦ rw (poll_node, y, e, f) (update_node-IsIndexed name self peers a.now)
      ]
    ]
  ]

cleanup-IsIndexed :
    (n : Network) (now : ℕ) (names : List String) (s : NetworkState)
    → IsIndexed s
    → IsIndexed (cleanup n now names s)
unfolding cleanup
cleanup-IsIndexed n now [] s sound = sound
cleanup-IsIndexed n now (name ∷ names) s sound = elim (Option-cases (lookup name s.nodes)) [
  | inl e ↦ rw (cleanup, e) (cleanup-IsIndexed n now names s sound)
  | inr (st, e) ↦ elim (Bool-cases (ltb n.node_state_expiration (now - st.updated_at))) [
    | inl y ↦
        rw (cleanup, e, y) (cleanup-IsIndexed n now names _ (erase-IsIndexed s sound name st e))
    | inr k ↦ rw (cleanup, e, k) (cleanup-IsIndexed n now names s sound)
  ]
]

poll-IsIndexed :
    (answers : String → Answers) (names : List String) (s : NetworkState)
    → IsIndexed s
    → IsIndexed (poll answers names s)
unfolding poll
poll-IsIndexed answers [] s sound = sound
poll-IsIndexed answers (name ∷ names) s sound =
    poll-IsIndexed answers names _ (poll_node-IsIndexed s sound name (answers name))

update_graph-IsIndexed : (s : NetworkState) → IsIndexed s → IsIndexed (update_graph s)
unfolding IsIndexed Reports update_graph
update_graph-IsIndexed s sound id name h =
    let (st, e, same) = sound id name h in
    let wired = λ (x : NodeState). record x {
      known_peers = known_peers s.nodes_by_peer_id x.self.peer_id x.peers;
    } in
    (wired st, lookup-map wired name s.nodes e, same)

-- A tick keeps it: where the index names a node for a peer ID, the node is there and reports that
-- ID; whichever nodes expire, whatever the clients answer, also if an ID changes or two nodes report
-- the same one.
pub tick-IsIndexed :
    (n : Network) (now : ℕ) (names polled resolved : List String) (answers : String → Answers)
    (s : NetworkState)
    → IsIndexed s
    → IsIndexed (tick n now names answers polled resolved s).0
unfolding tick
tick-IsIndexed n now names polled resolved answers s sound =
    update_graph-IsIndexed _
      (poll-IsIndexed answers polled _ (cleanup-IsIndexed n now names s sound))
