-- ===== src/Consensus/Candidates.antt =====
-- proxyd/consensus_poller.go: which backends may form the consensus group (`FilterCandidates`,
-- `getConsensusCandidates`), over the primaries and the fallbacks of proxyd/backend.go.
--
-- `FilterCandidates` builds a map and ranges over it; what it returns does not depend on the
-- order, and the candidates are listed here in the order of the backends.
use infra.Base.{
  ℕ, ◌+◌, Bool, true, false, not, ◌&&◌, Option, some, String, List, [], ◌∷◌, select, ltb, sub64,
  if◌then◌else◌,
}
use infra.Consensus.{Member, Settings, is_banned}

-- What a pass over the backends reads of each: `IsHealthy`, and the clock at the two tests.
pub record Sight : Type 0 where
  pub healthy : Bool
  pub ban_now : ℕ
  pub now : ℕ

-- `bg.FallbackBackends[name]`
unfoldable pub fallbacks : (String → Option Bool) → List Member → List Member
fallbacks fb ms = select (λ m. elim (fb m.be.name) [ some true ↦ true | _ ↦ false ]) ms

unfoldable pub primaries : (String → Option Bool) → List Member → List Member
primaries fb ms = select (λ m. elim (fb m.be.name) [ some false ↦ true | _ ↦ false ]) ms

-- The second loop: the highest latest block.
unfoldable pub highest_latest : ℕ → List Member → ℕ
highest_latest h [] = h
highest_latest h (m ∷ ms) =
    highest_latest (if ltb h m.state.latest_block_number then m.state.latest_block_number else h) ms

module _ (cp : Settings) (look : ℕ → Sight) where
  -- The first loop of `FilterCandidates`: the tests before a backend becomes a candidate.
  unfoldable pub serves : Member → Bool
  serves m =
      let sight = look m.be.id in
      if m.be.forced_candidate
      then true
      else if is_banned sight.ban_now m.state
      then false
      else if not sight.healthy
      then false
      else if not m.be.skip_peer_count_check && ltb m.state.peer_count cp.min_peer_count
      then false
      else if not m.state.in_sync
      then false
      else not (ltb (m.state.last_update + cp.max_update_threshold) sight.now)

  -- The third loop and the deletions after it.
  unfoldable pub keeps_up : ℕ → Member → Bool
  keeps_up h m = not (ltb cp.max_block_lag (sub64 h m.state.latest_block_number))

  unfoldable pub filter_candidates : List Member → List Member
  filter_candidates ms =
      let candidates = select serves ms in
      select (keeps_up (highest_latest 0 candidates)) candidates

  -- `getConsensusCandidates`
  unfoldable pub consensus_candidates : (String → Option Bool) → List Member → List Member
  consensus_candidates fb ms = elim (filter_candidates (primaries fb ms)) [
    | [] ↦ filter_candidates (fallbacks fb ms)
    | m ∷ rest ↦ m ∷ rest
  ]
