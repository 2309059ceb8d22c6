-- ===== src/Consensus.antt =====
-- proxyd/consensus_poller.go: the data of the consensus poller.
--
-- The poller keeps one `backendState` for each backend of its group, in a map that `Reset` fills
-- for every member and that is read and written for members only. A `Member` is a backend with
-- its entry of that map. Instants are nanoseconds since Go's zero time, durations nanoseconds.
-- The mutexes serialise each read and write of an entry, so an operation is a function on it.
pub mod Reply
pub mod Poll
pub mod Rounds
pub mod Candidates
pub mod Walk
pub mod Agreement
pub mod Lag
pub mod LowestBlocks
pub mod Group
pub mod Resolution
mod Tests
use infra.Base.{ℕ, ◌+◌, Bool, String, ltb}

-- The part of a `Backend` that the poller reads. The number stands for the pointer.
pub record Backend : Type 0 where
  pub id : ℕ
  pub name : String
  pub skip_peer_count_check : Bool
  pub forced_candidate : Bool

pub record BackendState : Type 0 where
  pub latest_block_number : ℕ
  pub latest_block_hash : String
  pub safe_block_number : ℕ
  pub finalized_block_number : ℕ
  pub peer_count : ℕ
  pub in_sync : Bool
  pub last_update : ℕ
  pub banned_until : ℕ

pub record Member : Type 0 where
  pub be : Backend
  pub state : BackendState

-- The settings of a `ConsensusPoller`.
pub record Settings : Type 0 where
  pub min_peer_count : ℕ
  pub ban_period : ℕ
  pub max_update_threshold : ℕ
  pub max_block_lag : ℕ
  pub max_block_range : ℕ

-- `&backendState{}`
abbrev pub zero_state : BackendState
zero_state = record {
  latest_block_number = 0;
  latest_block_hash = "";
  safe_block_number = 0;
  finalized_block_number = 0;
  peer_count = 0;
  in_sync = Bool.false;
  last_update = 0;
  banned_until = 0;
}

-- `backendState.IsBanned`, at the instant that it reads from the clock.
abbrev pub is_banned : ℕ → BackendState → Bool
is_banned now s = ltb now s.banned_until
