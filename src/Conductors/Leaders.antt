-- ===== src/Conductors/Leaders.antt =====
-- op-conductor-mon/pkg/monitor: what a tick leaves and how many leaders it reports.
use infra.Base.{
  ℕ, ◌+◌, ◌≡◌, refl, ap, ◌∙◌, false, String, List, [], ◌∷◌, ◌++◌, map, if◌then◌else◌, arith,
}
use infra.Base.Dict.{elem, lookup}
use infra.Conductors.{ServerInfo, Answers, Report, leader_count, node_leader}
use infra.Conductors.Poll.{State, cleanup, poll, report_nodes, report_metrics, tick}
use infra.Conductors.States.{kept, found, or_else, lookup-cleanup, lookup-poll}

-- The leaders of a state.
unfoldable pub leaders : State → ℕ
leaders [] = 0
leaders ((name, st) ∷ s) = let rest = leaders s in if st.leader then rest + 1 else rest

-- The counts of leaders among the reports.
unfoldable pub counts_in : List Report → List ℕ
counts_in [] = []
counts_in (leader_count n ∷ rs) = n ∷ counts_in rs
counts_in (Report.node_leader a b c ∷ rs) = counts_in rs
counts_in (Report.node_state a b c ∷ rs) = counts_in rs
counts_in (Report.membership_count a n ∷ rs) = counts_in rs
counts_in (Report.voters_count a n ∷ rs) = counts_in rs

counts_in-config :
    (name : String) (config : List String) (rs : List Report)
    → counts_in (map (λ other. node_leader name other false) config ++ rs) ≡ counts_in rs
unfolding counts_in
counts_in-config name [] rs = refl
counts_in-config name (c ∷ config) rs = counts_in-config name config rs

counts_in-servers :
    (name : String) (ms : List ServerInfo) (rs : List Report)
    → counts_in (map (λ (m : ServerInfo). node_leader name m.id false) ms ++ rs) ≡ counts_in rs
unfolding counts_in
counts_in-servers name [] rs = refl
counts_in-servers name (m ∷ ms) rs = counts_in-servers name ms rs

counts_in-report_nodes :
    (config : List String) (s : State) (n : ℕ)
    → counts_in (report_nodes config s n) ≡ (n + leaders s) ∷ []
unfolding counts_in report_nodes leaders
counts_in-report_nodes config [] n = ap (λ x. x ∷ []) (omega arith)
counts_in-report_nodes config ((name, st) ∷ s) n =
    counts_in-config name config _
    ∙ (counts_in-servers name st.cluster_membership _
        ∙ (counts_in-report_nodes config s (if st.leader then n + 1 else n)
            ∙ ap (λ x. x ∷ []) (ground arith)))

-- After a tick a node has the state that was polled, if it is configured, has a client and answers all
-- the calls; or else the state that it had, unless it was ranged over and that is older than the
-- expiration. The tick reports the number of leaders once, and it is that of the nodes in this state
-- that call themselves leaders.
pub tick-lookup :
    (expiration now : ℕ) (names config : List String) (answers : String → Answers) (s : State)
    (x : String)
    → (lookup x (tick expiration now names config answers s).0
        ≡ or_else
            (found answers config x)
            (if elem x names then kept expiration now (lookup x s) else lookup x s))
      × (counts_in (tick expiration now names config answers s).1
          ≡ leaders (tick expiration now names config answers s).0 ∷ [])
unfolding tick report_metrics
tick-lookup expiration now names config answers s x = (
  lookup-poll answers config x (cleanup expiration now names s)
      ∙ ap (or_else (found answers config x)) (lookup-cleanup expiration now names x s),
  counts_in-report_nodes config (poll answers config (cleanup expiration now names s)) 0
      ∙ ap (λ n. n ∷ []) (omega arith),
)
