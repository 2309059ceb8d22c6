-- ===== src/Consensus/Walk.antt =====
-- proxyd/consensus_poller.go: the body of `UpdateBackendGroupConsensus`: the lowest blocks of the
-- candidates, the walk back to a block on which they agree, and the new consensus group.
--
-- Go ranges over the map of candidates in an order of its own each time, and a backend may answer
-- each round otherwise: both are arguments here, by the number of the round.
use infra.Base.{
  ℕ, zero, suc, ◌+◌, Bool, true, false, not, ◌||◌, Option, none, some, String, str_eq, List, [],
  ◌∷◌, map, ltb, leb, ◌==◌, sub64, if◌then◌else◌,
}
use infra.Base.Call.{Call, done, failed, panicked}
use infra.Hex.{Hex}
use infra.Consensus.{Member}
use infra.Consensus.Reply.{Reply, fetch_block}

pub record Lowest : Type 0 where
  pub latest : ℕ
  pub hash : String
  pub safe : ℕ
  pub finalized : ℕ

-- One iteration of the loop over the candidates.
unfoldable pub lower : Lowest → Member → Lowest
lower l m =
    let s = m.state in
    let takes = l.latest == 0 || ltb s.latest_block_number l.latest in
    record {
      latest = if takes then s.latest_block_number else l.latest;
      hash = if takes then s.latest_block_hash else l.hash;
      safe = if l.safe == 0 || ltb s.safe_block_number l.safe then s.safe_block_number else l.safe;
      finalized =
          if l.finalized == 0 || ltb s.finalized_block_number l.finalized
          then s.finalized_block_number
          else l.finalized;
    }

unfoldable pub lowest_from : Lowest → List Member → Lowest
lowest_from l [] = l
lowest_from l (m ∷ ms) = lowest_from (lower l m) ms

abbrev pub no_lowest : Lowest
no_lowest = record { latest = 0; hash = ""; safe = 0; finalized = 0 }

-- The state of the walk after the loop over the candidates at one block.
pub record Pass : Type 0 where
  pub hash : String
  pub broken : Bool
  pub all_agreed : Bool

-- How the walk ends.
pub data Walked : Type 0 where
  found : ℕ → String → Bool → Walked
  crashed : Walked
  out_of_fuel : Walked

-- What `fetchBlock` returns.
abbrev pub Answer : Type 0
Answer = Call (Unit {0}) (ℕ × String)

-- The loop over the candidates at the proposed block, on their answers: an error is passed over,
-- the first hash is taken where none is proposed, and the first block that does not match ends
-- the loop. `none` is a panic.
unfoldable pub pass : ℕ → ℕ → List Answer → String → Bool → Option Pass
pass current proposed [] hash broken =
    some (record { hash = hash; broken = broken; all_agreed = true })
pass current proposed (failed _ ∷ answers) hash broken = pass current proposed answers hash broken
pass current proposed (panicked ∷ answers) hash broken = none
pass current proposed (done (number, actual) ∷ answers) hash broken =
    let hash' = if str_eq hash "" then actual else hash in
    let rest = pass current proposed answers hash' broken in
    if not (number == proposed) || not (str_eq actual hash')
    then some (record { hash = hash'; broken = broken || leb number current; all_agreed = false })
    else rest

module _ (hex : Hex) (ask : ℕ → ℕ → String → Reply) where
  -- `cp.fetchBlock(ctx, be, proposedBlock.String())`
  abbrev pub answer : ℕ → ℕ → Member → Answer
  answer round proposed m = fetch_block hex (ask round m.be.id (hex.encode proposed))

  module _ (current : ℕ) (order : ℕ → List Member → List Member) (candidates : List Member) where
    -- `for !hasConsensus`, on fuel.
    unfoldable pub walk : ℕ → ℕ → ℕ → String → Bool → Walked
    walk zero round proposed hash broken = out_of_fuel
    walk (suc fuel) round proposed hash broken =
        elim (pass current proposed (map (answer round proposed) (order round candidates)) hash
          broken) [
            | none ↦ crashed
            | some p ↦
                let back = walk fuel (round + 1) (sub64 proposed 1) "" p.broken in
                if p.all_agreed then found proposed p.hash p.broken else back
          ]
