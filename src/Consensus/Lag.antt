-- ===== src/Consensus/Lag.antt =====
-- proxyd/consensus_poller.go: exactly which backends `FilterCandidates` and
-- `getConsensusCandidates` let into the consensus group.
use native.Mathlib.Nat.{le_trans}
use infra.Base.{
  In-select, select-passes, select-In, sub64_exact, All-In, there, sym, here, ltb, if◌then◌else◌, ℕ,
  ◌+◌, ◌≤◌, ◌<◌, ◌≡◌, ◌↔◌, u64, true, false, List, [], ◌∷◌, All, In, arith, refl, select, inl, inr,
  ◌⊎◌, Bool-cases,
}
use infra.Consensus.{Member, Settings}
use infra.Consensus.Candidates.{Sight, serves, highest_latest, keeps_up, filter_candidates}

module _ (cp : Settings) (look : ℕ → Sight) where
  -- The conditions of the comment above `FilterCandidates`, but for the lag.
  pub record Qualifies (m : Member) : Type 0 where
    pub not_banned : m.state.banned_until ≤ (look m.be.id).ban_now
    pub healthy : (look m.be.id).healthy ≡ true
    pub peers : (m.be.skip_peer_count_check ≡ true) ⊎ (cp.min_peer_count ≤ m.state.peer_count)
    pub in_sync : m.state.in_sync ≡ true
    pub recent : (look m.be.id).now ≤ m.state.last_update + cp.max_update_threshold

  serves-Qualifies :
      (m : Member) → m.be.forced_candidate ≡ false → serves cp look m ≡ true → Qualifies m
  unfolding serves
  serves-Qualifies m f h = ground arith

  Qualifies-serves : (m : Member) → Qualifies m → serves cp look m ≡ true
  unfolding serves
  Qualifies-serves m q = ground arith

  forced-serves : (m : Member) → m.be.forced_candidate ≡ true → serves cp look m ≡ true
  unfolding serves
  forced-serves m q = ground arith

highest_latest-ge : (h : ℕ) (ms : List Member) → h ≤ highest_latest h ms
unfolding highest_latest
highest_latest-ge h [] = omega arith
highest_latest-ge h (m ∷ ms) =
    ground (arith, highest_latest-ge h ms, highest_latest-ge m.state.latest_block_number ms)

highest_latest-bounds :
    (h : ℕ) (ms : List Member) → All (λ m. m.state.latest_block_number ≤ highest_latest h ms) ms
unfolding highest_latest
highest_latest-bounds h [] = tt
highest_latest-bounds h (m ∷ ms) =
    let h' = if ltb h m.state.latest_block_number then m.state.latest_block_number else h in
    (ground (arith, highest_latest-ge h' ms), highest_latest-bounds h' ms)

highest_latest_attained :
    (h : ℕ) (ms : List Member)
    → (highest_latest h ms ≡ h)
      ⊎ ((m : Member) × In m ms × (m.state.latest_block_number ≡ highest_latest h ms))
unfolding highest_latest
highest_latest_attained h [] = inl refl
highest_latest_attained h (m ∷ ms) = elim (Bool-cases (ltb h m.state.latest_block_number)) [
  | inl e ↦ rw e (elim (highest_latest_attained m.state.latest_block_number ms) [
    | inl q ↦ inr (m, here ms, sym q)
    | inr (x, i, q) ↦ inr (x, there m ms i, q)
  ])
  | inr e ↦ rw e (elim (highest_latest_attained h ms) [
    | inl q ↦ inl q
    | inr (x, i, q) ↦ inr (x, there m ms i, q)
  ])
]

module _ (cp : Settings) (look : ℕ → Sight) where
  -- A backend that may become a candidate.
  abbrev pub Eligible : Member → Type 0
  Eligible m = (m.be.forced_candidate ≡ true) ⊎ Qualifies cp look m

  serves_iff : (m : Member) → (serves cp look m ≡ true) ↔ Eligible m
  serves_iff m = (to, from)
    where
      to : serves cp look m ≡ true → Eligible m
      to h = elim (Bool-cases m.be.forced_candidate) [
        | inl f ↦ inl f
        | inr f ↦ inr (serves-Qualifies cp look m f h)
      ]

      from : Eligible m → serves cp look m ≡ true
      from (inl f) = forced-serves cp look m f
      from (inr q) = Qualifies-serves cp look m q

  keeps_up_iff :
      (h : ℕ) (m : Member)
      → m.state.latest_block_number ≤ h
      → h < u64
      → (keeps_up cp look h m ≡ true) ↔ (h ≤ m.state.latest_block_number + cp.max_block_lag)
  unfolding keeps_up
  keeps_up_iff h m le bound =
      let e = sub64_exact h m.state.latest_block_number le bound in ground arith

  -- A backend is a candidate exactly if it may become one and no other that may is more than
  -- `maxBlockLag` blocks ahead of it.
  pub filter_candidates_iff :
      (ms : List Member) (m : Member)
      → All (λ x. x.state.latest_block_number < u64) ms
      → In m (filter_candidates cp look ms) ↔ (
          In m ms
          × Eligible m
          × ((x : Member)
              → In x ms
              → Eligible x
              → x.state.latest_block_number ≤ m.state.latest_block_number + cp.max_block_lag))
  unfolding filter_candidates
  filter_candidates_iff ms m bounds = (to, from)
    where
      cs : List Member
      cs = select (serves cp look) ms

      high : ℕ
      high = highest_latest 0 cs

      high_bound : high < u64
      high_bound = elim (highest_latest_attained 0 cs) [
        | inl z ↦ rw z (omega arith)
        | inr (x, i, q) ↦ rw (← q) (All-In _ (select-In (serves cp look) ms i) bounds)
      ]

      up : {x : Member} → In x cs → x.state.latest_block_number ≤ high
      up i = All-In _ i (highest_latest-bounds 0 cs)

      to :
          In m (select (keeps_up cp look high) cs)
          → In m ms
            × Eligible m
            × ((x : Member)
                → In x ms
                → Eligible x
                → x.state.latest_block_number ≤ m.state.latest_block_number + cp.max_block_lag)
      to i =
          let j = select-In (keeps_up cp look high) cs i in
          let near =
            (keeps_up_iff high m (up j) high_bound).0
              (All-In _ i (select-passes (keeps_up cp look high) cs)) in
          (
            select-In (serves cp look) ms j,
            (serves_iff m).0 (All-In _ j (select-passes (serves cp look) ms)),
            λ x k q. le_trans (up (In-select (serves cp look) k ((serves_iff x).1 q))) near,
          )

      from :
          In m ms
            × Eligible m
            × ((x : Member)
                → In x ms
                → Eligible x
                → x.state.latest_block_number ≤ m.state.latest_block_number + cp.max_block_lag)
          → In m (select (keeps_up cp look high) cs)
      from (i, q, near) =
          let j = In-select (serves cp look) i ((serves_iff m).1 q) in
          In-select (keeps_up cp look high) j (
            (keeps_up_iff high m (up j) high_bound).1 (elim (highest_latest_attained 0 cs) [
              | inl z ↦ rw z (omega arith)
              | inr (x, k, e) ↦ rw (← e) (
                  near x (select-In (serves cp look) ms k)
                    ((serves_iff x).0 (All-In _ k (select-passes (serves cp look) ms))))
            ]))
