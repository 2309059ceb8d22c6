-- ===== src/Peers/Calls.antt =====
-- peer-mgmt-service/pkg/pms/poll.go: which calls `connectPeer` makes of the clients, and when.
use infra.Base.{
  ◌≡◌, ◌⊎◌, ◌↔◌, refl, sym, subst, ◌∙◌, ap, Bool, true, false, some, String, List, [], ◌∷◌,
  Bool-cases, Option-cases, arith, inl, inr,
}
use infra.Base.Dict.{lookup}
use infra.Peers.{NodeState, NetworkState, NodeConfig, Network}
use infra.Peers.Connect.{Call, peer_address, connect_calls, until_error, connect_peer}

-- A node is told to connect to an address.
unfoldable pub Connects : String → String → List Call → Type 0
Connects node addr [] = ⊥
Connects node addr (Call.connect x a ∷ cs) = ((x ≡ node) × (a ≡ addr)) ⊎ Connects node addr cs
Connects node addr (Call.unprotect x i ∷ cs) = Connects node addr cs
Connects node addr (Call.unblock x i ∷ cs) = Connects node addr cs
Connects node addr (Call.disconnect x i ∷ cs) = Connects node addr cs
Connects node addr (Call.protect x i ∷ cs) = Connects node addr cs

-- No call of the list fails.
unfoldable pub Succeed : (Call → Bool) → List Call → Type 0
Succeed fails [] = Unit
Succeed fails (c ∷ cs) = (fails c ≡ false) × Succeed fails cs

-- The calls that free both ends of the old connection.
abbrev pub release_calls : String → String → NodeState → NodeState → List Call
release_calls node peer st peer_st =
    Call.unprotect node peer_st.self.peer_id
    ∷ Call.unprotect peer st.self.peer_id
    ∷ Call.unblock node peer_st.self.peer_id
    ∷ Call.unblock peer st.self.peer_id
    ∷ Call.disconnect node peer_st.self.peer_id
    ∷ Call.disconnect peer st.self.peer_id
    ∷ []

-- Both nodes have a state and are configured to be connected, and both clients are there.
unfoldable pub IsReady :
    Network
    → NetworkState
    → (String → Bool)
    → String
    → String
    → NodeState
    → NodeState
    → String
    → Type 0
IsReady n s dials node peer st peer_st addr =
    (lookup node s.nodes ≡ some st)
    × (lookup peer s.nodes ≡ some peer_st)
    × (config : NodeConfig) × (peer_config : NodeConfig) × (lookup node n.nodes_config
        ≡ some config)
    × (lookup peer n.nodes_config ≡ some peer_config)
    × (config.prevent_outbound ≡ false)
    × (peer_config.prevent_inbound ≡ false)
    × (dials node ≡ true)
    × (dials peer ≡ true)
    × (peer_address config peer_config peer_st.self ≡ some addr)

until_error-Connects :
    (fails : Call → Bool) (node peer : String) (st peer_st : NodeState) (addr a : String)
    → Connects node addr (until_error fails (connect_calls node peer st peer_st a))
    → (a ≡ addr) × Succeed fails (release_calls node peer st peer_st)
unfolding Connects Succeed until_error
until_error-Connects fails node peer st peer_st addr a h = ground arith

Connects-until_error :
    (fails : Call → Bool) (node peer : String) (st peer_st : NodeState) (addr : String)
    → Succeed fails (release_calls node peer st peer_st)
    → Connects node addr (until_error fails (connect_calls node peer st peer_st addr))
unfolding Connects Succeed until_error
Connects-until_error fails node peer st peer_st addr (a, (b, (c, (d, (e, (f, u)))))) =
    elim (Bool-cases (fails (Call.connect node addr))) [
      | inl y ↦ rw (until_error, a, b, c, d, e, f, y) (inl (refl, refl))
      | inr y ↦ rw (until_error, a, b, c, d, e, f, y) (inl (refl, refl))
    ]

Connects-cons_none :
    (node addr : String) (calls : List Call) → some [] ≡ some calls → ¬ Connects node addr calls
unfolding Connects
Connects-cons_none node addr [] e k = k
Connects-cons_none node addr (c ∷ cs) e k = cc e

module _ (n : Network) (s : NetworkState) (dials : String → Bool) (fails : Call → Bool)
    (node peer addr : String) (calls : List Call) where
  -- A connection is the work of nodes that are ready.
  Connects-IsReady :
      connect_peer n s dials fails node peer ≡ some calls
      → Connects node addr calls
      → (st : NodeState) × (peer_st : NodeState) × IsReady n s dials node peer st peer_st addr
        × Succeed fails (release_calls node peer st peer_st)
  unfolding connect_peer IsReady
  Connects-IsReady h k = elim (Option-cases (lookup node s.nodes)) [
    | inl e ↦ absurd (Connects-cons_none node addr calls (rw (connect_peer, e) at h) k)
    | inr (st, e1) ↦ elim (Option-cases (lookup node n.nodes_config)) [
      | inl e ↦ absurd (Connects-cons_none node addr calls (rw (connect_peer, e1, e) at h) k)
      | inr (config, e2) ↦ elim (Option-cases (lookup peer s.nodes)) [
        | inl e ↦ absurd (Connects-cons_none node addr calls (rw (connect_peer, e1, e2, e) at h) k)
        | inr (peer_st, e3) ↦ elim (Option-cases (lookup peer n.nodes_config)) [
          | inl e ↦
              absurd (Connects-cons_none node addr calls (rw (connect_peer, e1, e2, e3, e) at h) k)
          | inr (peer_config, e4) ↦ elim (Bool-cases config.prevent_outbound) [
            | inl e ↦
                absurd
                  (Connects-cons_none node addr calls (rw (connect_peer, e1, e2, e3, e4, e) at h) k)
            | inr e5 ↦ elim (Bool-cases peer_config.prevent_inbound) [
              | inl e ↦ absurd (
                  Connects-cons_none node addr calls (rw (connect_peer, e1, e2, e3, e4, e5, e) at h)
                    k)
              | inr e6 ↦ elim (Bool-cases (dials node)) [
                | inr e ↦ absurd (
                    Connects-cons_none node addr calls
                      (rw (connect_peer, e1, e2, e3, e4, e5, e6, e) at h) k)
                | inl e7 ↦ elim (Bool-cases (dials peer)) [
                  | inr e ↦ absurd (
                      Connects-cons_none node addr calls
                        (rw (connect_peer, e1, e2, e3, e4, e5, e6, e7, e) at h) k)
                  | inl e8 ↦ elim (Option-cases (peer_address config peer_config peer_st.self)) [
                    | inl e ↦
                        absurd (cc (rw (connect_peer, e1, e2, e3, e4, e5, e6, e7, e8, e) at h))
                    | inr (a, e9) ↦
                        let made = until_error fails (connect_calls node peer st peer_st a) in
                        let h' : some made ≡ some calls =
                          rw (connect_peer, e1, e2, e3, e4, e5, e6, e7, e8, e9) at h in
                        let same : made ≡ calls = cc h' in
                        let (q, w) =
                          until_error-Connects fails node peer st peer_st addr a
                            (subst (Connects node addr) (sym same) k) in
                        (
                          st,
                          peer_st,
                          (e1, e3, config, peer_config, e2, e4, e5, e6, e7, e8, e9 ∙ ap some q),
                          w,
                        )
                  ]
                ]
              ]
            ]
          ]
        ]
      ]
    ]
  ]

  IsReady-Connects :
      connect_peer n s dials fails node peer ≡ some calls
      → (st peer_st : NodeState) → IsReady n s dials node peer st peer_st addr
      → Succeed fails (release_calls node peer st peer_st)
      → Connects node addr calls
  unfolding connect_peer IsReady
  IsReady-Connects h st peer_st (e1, e3, config, peer_config, e2, e4, e5, e6, e7, e8, e9) w =
      let made = until_error fails (connect_calls node peer st peer_st addr) in
      let h' : some made ≡ some calls =
        rw (connect_peer, e1, e2, e3, e4, e5, e6, e7, e8, e9) at h in
      let same : made ≡ calls = cc h' in
      subst (Connects node addr) same (Connects-until_error fails node peer st peer_st addr w)

  -- Where `connectPeer` does not panic, it tells the client of the node to connect to an address
  -- exactly if both nodes have a state and a configuration, the node may open connections and the
  -- peer may take them, both clients can be made, the address is the one chosen for the peer, and
  -- all six calls that unprotect, unblock and disconnect the two ends before it succeed.
  pub connect_peer_iff :
      connect_peer n s dials fails node peer ≡ some calls
      → Connects node addr calls ↔ (
          (st : NodeState) × (peer_st : NodeState) × IsReady n s dials node peer st peer_st addr
          × Succeed fails (release_calls node peer st peer_st))
  connect_peer_iff h = (
    Connects-IsReady h,
    λ r. let (st, peer_st, ready, w) = r in IsReady-Connects h st peer_st ready w,
  )
