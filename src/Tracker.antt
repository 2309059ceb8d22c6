-- ===== src/Tracker.antt =====
-- proxyd/consensus_tracker.go: the interface `ConsensusTracker`, and the tracker in memory.
-- Block numbers are `uint64`s. The mutex makes each method one step.
pub mod Redis
pub mod Leadership
mod Tests
use infra.Base.{ℕ, ◌<◌, ◌≡◌, refl, Bool, ◌&&◌, ◌||◌, ltb}

pub record ConsensusTrackerState : Type 0 where
  pub latest : ℕ
  pub safe : ℕ
  pub finalized : ℕ

-- The interface. What is set is read back only where the tracker says so: the one in Redis reads
-- what the leader published.
pub record ConsensusTracker (T : Type 0) : Type 0 where
  pub get_latest_block_number : T → ℕ
  pub set_latest_block_number : ℕ → T → T
  pub get_safe_block_number : T → ℕ
  pub set_safe_block_number : ℕ → T → T
  pub get_finalized_block_number : T → ℕ
  pub set_finalized_block_number : ℕ → T → T

-- `NewInMemoryConsensusTracker`
abbrev pub new_in_memory : ConsensusTrackerState
new_in_memory = record { latest = 0; safe = 0; finalized = 0 }

-- `InMemoryConsensusTracker`
abbrev pub in_memory : ConsensusTracker ConsensusTrackerState
in_memory = record {
  get_latest_block_number = λ t. t.latest;
  set_latest_block_number = λ n t. record t { latest = n };
  get_safe_block_number = λ t. t.safe;
  set_safe_block_number = λ n t. record t { safe = n };
  get_finalized_block_number = λ t. t.finalized;
  set_finalized_block_number = λ n t. record t { finalized = n };
}

-- `InMemoryConsensusTracker.update`
unfoldable pub update : ConsensusTrackerState → ConsensusTrackerState → ConsensusTrackerState
update o t = record t { latest = o.latest; safe = o.safe; finalized = o.finalized }

-- `Valid`
unfoldable pub valid : ConsensusTrackerState → Bool
valid t = ltb 0 t.latest && ltb 0 t.safe && ltb 0 t.finalized

-- `Behind`
unfoldable pub behind : ConsensusTrackerState → ConsensusTrackerState → Bool
behind t other =
    ltb t.latest other.latest || ltb t.safe other.safe || ltb t.finalized other.finalized
