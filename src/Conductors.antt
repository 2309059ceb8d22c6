-- ===== src/Conductors.antt =====
-- op-conductor-mon/pkg/monitor (`poller.go`, `poll.go`): the state of the conductors of a cluster, and
-- what is reported of it.
--
-- Instants are nanoseconds. The calls of a client are an argument: `none` is an error. Go ranges over
-- a map in any order, so the names are an argument, in their order.
pub mod Poll
pub mod States
pub mod Leaders
mod Tests
use infra.Base.{ℕ, Bool, Option, String, List}
use infra.Base.Dict.{Dict}

-- `consensus.ServerInfo`: does the server vote?
pub record ServerInfo : Type 0 where
  pub id : String
  pub is_voter : Bool

pub record NodeState : Type 0 where
  pub paused : Bool
  pub stopped : Bool
  pub active : Bool
  pub healthy : Bool
  pub leader : Bool
  pub leader_with_id : ServerInfo
  pub cluster_membership : List ServerInfo
  pub updated_at : ℕ

-- What a client returns, call by call.
pub record Answers : Type 0 where
  pub connected : Bool
  pub paused : Option Bool
  pub stopped : Option Bool
  pub active : Option Bool
  pub healthy : Option Bool
  pub leader : Option Bool
  pub leader_with_id : Option ServerInfo
  pub cluster_membership : Option (List ServerInfo)
  pub now : ℕ

-- What a tick reports, in order.
pub data Report : Type 0 where
  node_leader : String → String → Bool → Report
  node_state : String → String → Bool → Report
  membership_count : String → ℕ → Report
  voters_count : String → ℕ → Report
  leader_count : ℕ → Report
