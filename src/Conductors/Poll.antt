-- ===== src/Conductors/Poll.antt =====
-- op-conductor-mon/pkg/monitor: `cleanup`, `poll` and `reportMetrics`.
use infra.Base.{
  ℕ, ◌+◌, ◌-◌, true, false, Option, none, some, String, List, [], ◌∷◌, ◌++◌, map, length, ltb,
  if◌then◌else◌, ◌>>=◌,
}
use infra.Base.Dict.{Dict, lookup, insert, erase}
use infra.Conductors.{
  ServerInfo, NodeState, Answers, Report, node_leader, node_state, membership_count, voters_count,
  leader_count,
}

abbrev pub State : Type 0
State = Dict NodeState

-- One pass of `cleanup`.
unfoldable pub expire : ℕ → ℕ → String → State → State
unfolding lookup erase
expire expiration now name s = elim (lookup name s) [
  | none ↦ s
  | some st ↦ if ltb expiration (now - st.updated_at) then erase name s else s
]

-- `cleanup`
unfoldable pub cleanup : ℕ → ℕ → List String → State → State
unfolding expire
cleanup expiration now [] s = s
cleanup expiration now (name ∷ names) s =
    cleanup expiration now names (expire expiration now name s)

-- The calls of `pollNode`: the state of the node, unless one of them fails.
unfoldable pub node_of : Answers → Option NodeState
node_of a = do
  paused ← a.paused
  stopped ← a.stopped
  active ← a.active
  healthy ← a.healthy
  leader ← a.leader
  leader_with_id ← a.leader_with_id
  cluster_membership ← a.cluster_membership
  some (record {
    paused = paused;
    stopped = stopped;
    active = active;
    healthy = healthy;
    leader = leader;
    leader_with_id = leader_with_id;
    cluster_membership = cluster_membership;
    updated_at = a.now;
  })

-- What `pollNode` finds: nothing, if there is no client or a call fails.
unfoldable pub polled : Answers → Option NodeState
unfolding node_of
polled a = if a.connected then node_of a else none

-- The end of `pollNode`.
unfoldable pub update : String → Option NodeState → State → State
unfolding insert
update name none s = s
update name (some st) s = insert name st s

-- `pollNode`
unfoldable pub poll_node : String → Answers → State → State
unfolding polled update
poll_node name a s = update name (polled a) s

-- `poll`
unfoldable pub poll : (String → Answers) → List String → State → State
unfolding poll_node
poll answers [] s = s
poll answers (name ∷ names) s = poll answers names (poll_node name (answers name) s)

-- The loop of `reportNodeMetrics`.
unfoldable pub voters : List ServerInfo → ℕ
voters [] = 0
voters (m ∷ ms) = let rest = voters ms in if m.is_voter then rest + 1 else rest

-- `reportNodeMetrics`
unfoldable pub report_node_metrics : String → NodeState → List Report
unfolding voters
report_node_metrics name st =
    node_state name "paused" st.paused
    ∷ node_state name "stopped" st.stopped
    ∷ node_state name "active" st.active
    ∷ node_state name "healthy" st.healthy
    ∷ node_state name "leader" st.leader
    ∷ node_leader name st.leader_with_id.id true
    ∷ membership_count name (length st.cluster_membership)
    ∷ voters_count name (voters st.cluster_membership)
    ∷ []

-- The loop of `reportMetrics`, which counts the leaders.
unfoldable pub report_nodes : List String → State → ℕ → List Report
unfolding report_node_metrics
report_nodes config [] n = leader_count n ∷ []
report_nodes config ((name, st) ∷ s) n =
    map (λ other. node_leader name other false) config
    ++ (map (λ (m : ServerInfo). node_leader name m.id false) st.cluster_membership
        ++ (report_node_metrics name st ++ report_nodes config s (if st.leader then n + 1 else n)))

-- `reportMetrics`
unfoldable pub report_metrics : List String → State → List Report
unfolding report_nodes
report_metrics config s = report_nodes config s 0

-- `Tick`: the state that it leaves, and what it reports.
unfoldable pub tick :
    ℕ → ℕ → List String → List String → (String → Answers) → State → State × List Report
unfolding cleanup poll report_metrics
tick expiration now names config answers s =
    let s' = poll answers config (cleanup expiration now names s) in (s', report_metrics config s')
