-- ===== src/Consensus/Resolution.antt =====
-- proxyd/consensus_poller.go: what `UpdateBackendGroupConsensus` promises of the block that it
-- publishes, with the tracker in memory.
use infra.Base.{
  lt→ltb, ap, All-intro, ◌∙◌, ℕ, ◌+◌, ◌≤◌, ◌<◌, ◌≡◌, ◌↔◌, ◌⊎◌, inl, inr, u64, Bool, false, Option,
  String, List, All, All-In, In, arith, refl,
}
use infra.Hex.{Hex}
use infra.Tracker.{ConsensusTrackerState, in_memory}
use infra.Consensus.{Member, Settings}
use infra.Consensus.Candidates.{consensus_candidates}
use infra.Consensus.Walk.{answer, no_lowest, lowest_from, walk}
use infra.Consensus.Agreement.{Common, Decodes, Reorders, Accepts, walk-agrees}
use infra.Consensus.LowestBlocks.{
  lowest_latest_pos, IsPolled, IsBelow, lowest_from-IsBelow, lowest_latest_attained,
}
use infra.Consensus.Group.{
  publish, Outside, Consensus, updated, resolve, update_backend_group_consensus, group_of,
}

-- A candidate `x` whose numbers are not below those published, and whose answer in round `k` did
-- not stand against the published block.
pub record IsPublished (hex : Hex) (env : Outside) (c : Consensus ConsensusTrackerState)
    (h : String) (k : ℕ) (x : Member) : Type 0 where
  pub latest_le : c.tracker.latest ≤ x.state.latest_block_number
  pub safe_le : c.tracker.safe ≤ x.state.safe_block_number
  pub finalized_le : c.tracker.finalized ≤ x.state.finalized_block_number
  pub accepted : Accepts c.tracker.latest h (answer hex env.ask k c.tracker.latest x)

module _ (hex : Hex) (cp : Settings) (fb : String → Option Bool) (env : Outside)
    (ms : List Member) where
  abbrev candidates : List Member
  candidates = consensus_candidates cp env.look fb ms

  -- What the code relies on: every candidate has been polled and reported `uint64`s, Go ranges
  -- over all of them, and no reply makes the decoding panic.
  pub record Sound : Type 0 where
    pub polled : All IsPolled candidates
    pub bounded : All (λ m. m.state.latest_block_number < u64) candidates
    pub ranged : (m : Member) → In m candidates ↔ In m (env.first_order candidates)
    pub reordered : Reorders env.order candidates
    pub decodes : Decodes hex env.ask env.order candidates

  -- A block `a` with hash `h` that all candidates report in every round, at most `fuel` - 1 blocks
  -- below each one's latest; a candidate whose latest block it is has seen it with that hash.
  pub record IsAncestor (fuel a : ℕ) (h : String) : Type 0 where
    pub common : Common hex env.ask env.order candidates a h
    pub below : (m : Member) → In m candidates → a ≤ m.state.latest_block_number
    pub near : (m : Member) → In m candidates → m.state.latest_block_number < a + fuel
    pub head :
        (m : Member)
        → In m candidates
        → a ≡ m.state.latest_block_number
        → (m.state.latest_block_hash ≡ h) ⊎ (m.state.latest_block_hash ≡ "")

  ranged_polled : Sound → All IsPolled (env.first_order candidates)
  ranged_polled s = All-intro IsPolled _ (λ m i. All-In IsPolled ((s.ranged m).1 i) s.polled)

  lowest-IsBelow :
      (m : Member)
      → Sound
      → In m candidates
      → IsBelow (lowest_from no_lowest (env.first_order candidates)) m
  lowest-IsBelow m s i =
      All-In _ ((s.ranged m).0 i) (lowest_from-IsBelow no_lowest _ (ranged_polled s))

  -- The block from which the walk begins is a candidate's.
  lowest_of_candidate :
      (m : Member)
      → Sound
      → In m candidates
      → let l = lowest_from no_lowest (env.first_order candidates) in
        (x : Member) × In x candidates
        × (l.latest ≡ x.state.latest_block_number)
        × (l.hash ≡ x.state.latest_block_hash)
  lowest_of_candidate m s i = elim (lowest_latest_attained no_lowest (env.first_order candidates)) [
    | inl (z, _) ↦
        let pos = lowest_latest_pos no_lowest _ ((s.ranged m).0 i) (ranged_polled s) in
        absurd (omega arith)
    | inr (x, j, a, b) ↦ (x, (s.ranged x).1 j, a, b)
  ]

  resolve_walks :
      (fuel current : ℕ)
      → 0 < (lowest_from no_lowest (env.first_order candidates)).latest
      → let l = lowest_from no_lowest (env.first_order candidates) in
        resolve in_memory hex cp fb env fuel current candidates
        ≡ walk hex env.ask current env.order candidates fuel 0 l.latest l.hash false
  unfolding resolve
  resolve_walks fuel current pos = rw (lt→ltb _ _ pos)

  -- Where every candidate has been polled and has numbers in the range of `uint64`, no reply makes the
  -- decoding panic, the backends are ranged over in any order, and block `a`, at or below the latest of
  -- each candidate and less than `fuel` blocks below it, is reported with hash `h` by every candidate
  -- in every round that does not get an error (a candidate whose latest it is having seen it with that
  -- hash or none): the update ends, and it publishes a block from `a` up to the least of the candidates'
  -- latest. In the round in which that was chosen no candidate contradicted it: each one's answer was
  -- an error, or that block with one hash or with none. The published safe and finalized blocks are no
  -- higher than those of any candidate, and the new group is that of the candidates.
  pub update_group-agrees :
      (fuel a : ℕ) (h : String) (m : Member) (t : ConsensusTrackerState)
      → Sound
      → In m candidates
      → IsAncestor fuel a h
      → (c : Consensus ConsensusTrackerState) × (hb : String) × (k : ℕ)
        × (update_backend_group_consensus in_memory hex cp fb env fuel ms t ≡ updated c)
        × (a ≤ c.tracker.latest)
        × ((x : Member) → In x candidates → IsPublished hex env c hb k x)
        × (c.group ≡ group_of candidates ms)
  unfolding update_backend_group_consensus
  update_group-agrees fuel a h m t s i n =
      let l = lowest_from no_lowest (env.first_order candidates) in
      let (x, j, top, head) = lowest_of_candidate m s i in
      let pos = (All-In IsPolled j s.polled).latest_pos in
      let (b, hb, broke, k, e, lo, hi, agree) =
        walk-agrees hex env.ask t.latest env.order candidates fuel 0 l.latest a h l.hash false
          (rw top (All-In _ j s.bounded)) (rw top (n.below x j)) (rw top (n.near x j)) n.common
          s.decodes (λ q. rw head (n.head x j (q ∙ top))) s.reordered in
      (
        record {
          tracker = record { latest = b; safe = l.safe; finalized = l.finalized };
          group = group_of candidates ms;
          broken = broke;
        },
        hb,
        k,
        ap (publish in_memory hex cp fb env t ms candidates)
            (resolve_walks fuel t.latest (rw top pos) ∙ e),
        lo,
        (λ y jy.
            let below = lowest-IsBelow y s jy in
            record {
              latest_le = omega arith;
              safe_le = below.safe_le;
              finalized_le = below.finalized_le;
              accepted = agree y jy;
            }),
        refl,
      )
