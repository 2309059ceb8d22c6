-- ===== src/Consensus/LowestBlocks.antt =====
-- proxyd/consensus_poller.go: the loop over the candidates finds their lowest latest, safe and
-- finalized block, in any order, provided that every candidate has been polled: a number 0 in it
-- would be taken for "none yet".
use infra.Base.{◌∙◌, ◌≤◌, ◌<◌, ◌≡◌, ◌⊎◌, inl, inr, List, [], ◌∷◌, All, In, arith, refl, here, there}
use infra.Consensus.{Member}
use infra.Consensus.Walk.{Lowest, lower, lowest_from}

-- The backend has been polled since its last ban.
pub record IsPolled (m : Member) : Type 0 where
  pub latest_pos : 0 < m.state.latest_block_number
  pub safe_pos : 0 < m.state.safe_block_number
  pub finalized_pos : 0 < m.state.finalized_block_number

-- No number of `l` is above that of the member.
pub record IsBelow (l : Lowest) (m : Member) : Type 0 where
  pub latest_le : l.latest ≤ m.state.latest_block_number
  pub safe_le : l.safe ≤ m.state.safe_block_number
  pub finalized_le : l.finalized ≤ m.state.finalized_block_number

-- `k` is not above `l`, where `l` has numbers.
record Sinks (k l : Lowest) : Type 0 where
  latest_sinks : (l.latest ≡ 0) ⊎ ((0 < k.latest) × (k.latest ≤ l.latest))
  safe_sinks : (l.safe ≡ 0) ⊎ ((0 < k.safe) × (k.safe ≤ l.safe))
  finalized_sinks : (l.finalized ≡ 0) ⊎ ((0 < k.finalized) × (k.finalized ≤ l.finalized))

lower-Sinks : (l : Lowest) (m : Member) → IsPolled m → Sinks (lower l m) l
unfolding lower
lower-Sinks l m p = ground arith

lower-IsBelow : (l : Lowest) (m : Member) → IsPolled m → IsBelow (lower l m) m
unfolding lower
lower-IsBelow l m p = ground arith

record IsTaken (l : Lowest) : Type 0 where
  latest_set : 0 < l.latest
  safe_set : 0 < l.safe
  finalized_set : 0 < l.finalized

lower-IsTaken : (l : Lowest) (m : Member) → IsPolled m → IsTaken (lower l m)
unfolding lower
lower-IsTaken l m p = ground arith

Sinks-trans : (a b c : Lowest) → Sinks a b → Sinks b c → Sinks a c
Sinks-trans a b c x y = ground arith

lowest_from-Sinks : (l : Lowest) (ms : List Member) → All IsPolled ms → Sinks (lowest_from l ms) l
unfolding lowest_from
lowest_from-Sinks l [] p = ground arith
lowest_from-Sinks l (m ∷ ms) p =
    Sinks-trans _ _ l (lowest_from-Sinks (lower l m) ms p.1) (lower-Sinks l m p.0)

IsBelow-of-Sinks : (k l : Lowest) (m : Member) → IsTaken l → Sinks k l → IsBelow l m → IsBelow k m
IsBelow-of-Sinks k l m t s b = ground arith

pub lowest_from-IsBelow :
    (l : Lowest) (ms : List Member) → All IsPolled ms → All (IsBelow (lowest_from l ms)) ms
unfolding lowest_from
lowest_from-IsBelow l [] p = tt
lowest_from-IsBelow l (m ∷ ms) p = (
  IsBelow-of-Sinks _ (lower l m) m (lower-IsTaken l m p.0) (lowest_from-Sinks (lower l m) ms p.1)
      (lower-IsBelow l m p.0),
  lowest_from-IsBelow (lower l m) ms p.1,
)

lower_cases :
    (l : Lowest) (m : Member)
    → ((lower l m).latest ≡ l.latest) × ((lower l m).hash ≡ l.hash)
      ⊎ (((lower l m).latest ≡ m.state.latest_block_number)
          × ((lower l m).hash ≡ m.state.latest_block_hash))
unfolding lower
lower_cases l m = ground arith

-- The lowest latest block is 0 or a candidate's, with that candidate's hash.
pub lowest_latest_attained :
    (l : Lowest) (ms : List Member)
    → ((lowest_from l ms).latest ≡ l.latest) × ((lowest_from l ms).hash ≡ l.hash)
      ⊎ ((m : Member) × In m ms
          × ((lowest_from l ms).latest ≡ m.state.latest_block_number)
          × ((lowest_from l ms).hash ≡ m.state.latest_block_hash))
unfolding lowest_from
lowest_latest_attained l [] = inl (refl, refl)
lowest_latest_attained l (m ∷ ms) = elim (lowest_latest_attained (lower l m) ms) [
  | inl (a, b) ↦ elim (lower_cases l m) [
    | inl (c, d) ↦ inl (a ∙ c, b ∙ d)
    | inr (c, d) ↦ inr (m, here ms, a ∙ c, b ∙ d)
  ]
  | inr (x, i, a, b) ↦ inr (x, there m ms i, a, b)
]

pub lowest_latest_pos :
    (l : Lowest) {m : Member} (ms : List Member)
    → In m ms
    → All IsPolled ms
    → 0 < (lowest_from l ms).latest
unfolding lowest_from
lowest_latest_pos l [] i p = elim i [ ]
lowest_latest_pos l (m ∷ ms) i p =
    ground (arith, lowest_from-Sinks (lower l m) ms p.1, lower-IsTaken l m p.0)
