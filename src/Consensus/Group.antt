-- ===== src/Consensus/Group.antt =====
-- proxyd/consensus_poller.go: `UpdateBackendGroupConsensus` as a whole.
use infra.Base.{
  ℕ, Bool, false, ◌||◌, Option, String, List, [], ◌∷◌, map, select, ltb, ◌==◌, if◌then◌else◌,
}
use infra.Hex.{Hex}
use infra.Tracker.{ConsensusTracker}
use infra.Consensus.{Backend, Member, Settings}
use infra.Consensus.Reply.{Reply}
use infra.Consensus.Candidates.{Sight, consensus_candidates}
use infra.Consensus.Walk.{no_lowest, lowest_from, Walked, found, crashed, out_of_fuel, walk}

-- What one update reads from outside: each backend's health and the clock, the order in which Go
-- ranges over the map of candidates (in the loop for the lowest blocks, and in each round of the
-- walk), and the replies by round, backend and requested block.
pub record Outside : Type 0 where
  pub look : ℕ → Sight
  pub first_order : List Member → List Member
  pub order : ℕ → List Member → List Member
  pub ask : ℕ → ℕ → String → Reply

-- What one update leaves: the tracker, the consensus group, and whether the listeners of a broken
-- consensus were called.
pub record Consensus (T : Type 0) : Type 0 where
  pub tracker : T
  pub group : List Backend
  pub broken : Bool

pub data Updated (T : Type 0) : Type 0 where
  updated : Consensus T → Updated T
  panicked : Updated T
  unfinished : Updated T

-- `_, exist := candidates[be]`
unfoldable pub has_key : ℕ → List Member → Bool
has_key id [] = false
has_key id (m ∷ ms) = m.be.id == id || has_key id ms

-- The loop that fills the new group.
unfoldable pub group_of : List Member → List Member → List Backend
group_of candidates ms = map (λ m. m.be) (select (λ m. has_key m.be.id candidates) ms)

module _ {T : Type 0} (tracker : ConsensusTracker T) (hex : Hex) (cp : Settings)
    (fb : String → Option Bool) (env : Outside) where
  -- From the candidates to the block, the hash and the broken flag.
  unfoldable pub resolve : ℕ → ℕ → List Member → Walked
  resolve fuel current candidates =
      let lowest = lowest_from no_lowest (env.first_order candidates) in
      if ltb 0 lowest.latest
      then walk hex env.ask current env.order candidates fuel 0 lowest.latest lowest.hash false
      else found lowest.latest lowest.hash false

  -- The tracker and the group after the walk.
  unfoldable pub publish : T → List Member → List Member → Walked → Updated T
  unfolding has_key group_of
  publish t ms candidates (found block hash broken) =
      let lowest = lowest_from no_lowest (env.first_order candidates) in
      updated (record {
        tracker =
            tracker.set_finalized_block_number lowest.finalized
              (tracker.set_safe_block_number lowest.safe (tracker.set_latest_block_number block t));
        group = group_of candidates ms;
        broken = broken;
      })
  publish t ms candidates crashed = panicked
  publish t ms candidates out_of_fuel = unfinished

  -- `UpdateBackendGroupConsensus`
  unfoldable pub update_backend_group_consensus : ℕ → List Member → T → Updated T
  unfolding resolve publish
  update_backend_group_consensus fuel ms t =
      let candidates = consensus_candidates cp env.look fb ms in
      publish t ms candidates (resolve fuel (tracker.get_latest_block_number t) candidates)
