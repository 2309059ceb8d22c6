-- ===== src/Consensus/Rounds.antt =====
-- proxyd/consensus_poller.go: what a round of `UpdateBackend` keeps and what it guarantees.
use mathlib.Core.Path.{subst}
use infra.Base.{
  ◌&&◌, not, ℕ, zero, suc, ◌≤◌, ◌<◌, ◌≡◌, ◌≢◌, refl, ◌⊎◌, inl, inr, u64, false, Option, none, some,
  arith, Option-cases, Bool-cases,
}
use infra.Base.Call.{Call, done, failed, panicked}
use infra.Hex.{Hex}
use infra.Consensus.{Backend, BackendState, Settings, is_banned}
use infra.Consensus.Reply.{Reply, is_in_sync, get_peer_count, fetch_block, fetch_block_bound}
use infra.Consensus.Poll.{
  finish, Probe, Seen, Early, continue, return, crash, ◌>>=◌, or_return, nonzero, poll_block,
  poll_peers, observe, settle, update_backend, ban,
}

-- The three numbers of a state are `uint64`s, and zero together or not at all.
pub record IsWellFormed (s : BackendState) : Type 0 where
  pub latest_bound : s.latest_block_number < u64
  pub safe_bound : s.safe_block_number < u64
  pub finalized_bound : s.finalized_block_number < u64
  pub together :
      (s.latest_block_number ≡ 0) × (s.safe_block_number ≡ 0) × (s.finalized_block_number ≡ 0)
      ⊎ (0 < s.latest_block_number) × (0 < s.safe_block_number) × (0 < s.finalized_block_number)

-- finalized ≤ safe ≤ latest
pub record IsOrdered (s : BackendState) : Type 0 where
  pub finalized_le : s.finalized_block_number ≤ s.safe_block_number
  pub safe_le : s.safe_block_number ≤ s.latest_block_number

-- What a ban leaves of the numbers.
pub record IsCleared (s : BackendState) : Type 0 where
  pub no_latest : s.latest_block_number ≡ 0
  pub no_safe : s.safe_block_number ≡ 0
  pub no_finalized : s.finalized_block_number ≡ 0

-- A state after another: finalized ≤ safe ≤ latest, and the safe and the finalized block have not
-- gone back, unless all three numbers were cleared.
abbrev pub Follows : BackendState → BackendState → Type 0
Follows s s' =
    IsOrdered s'
    × (IsCleared s'
        ⊎ (s.safe_block_number ≤ s'.safe_block_number)
          × (s.finalized_block_number ≤ s'.finalized_block_number))

-- What holds of the value with which a part of the round goes on, if it does.
abbrev Ensures : {A : Type 0} → (A → Type 0) → Early A → Type 0
Ensures P (continue a) = P a
Ensures P (return n) = Unit
Ensures P crash = Unit

>>=-Ensures :
    {A B : Type 0} (Q : A → Type 0) (P : B → Type 0) (m : Early A) (f : A → Early B)
    → Ensures Q m
    → ((a : A) → Q a → Ensures P (f a))
    → Ensures P (m >>= f)
>>=-Ensures Q P (continue a) f h k = k a h
>>=-Ensures Q P (return n) f h k = tt
>>=-Ensures Q P crash f h k = tt

abbrev Anything : {A : Type 0} → A → Type 0
Anything _ = Unit

Ensures-Anything : {A : Type 0} (m : Early A) → Ensures Anything m
Ensures-Anything (continue a) = tt
Ensures-Anything (return n) = tt
Ensures-Anything crash = tt

Ensures-map :
    {A : Type 0} (P Q : A → Type 0) (m : Early A)
    → ((a : A) → P a → Q a)
    → Ensures P m
    → Ensures Q m
Ensures-map P Q (continue a) f h = f a h
Ensures-map P Q (return n) f h = tt
Ensures-map P Q crash f h = tt

or_return-Ensures :
    {A : Type 0} (P : A → Type 0) (c : Call (Unit {0}) A)
    → ((a : A) → c ≡ done a → P a)
    → Ensures P (or_return c)
or_return-Ensures P (done a) h = h a refl
or_return-Ensures P (failed e) h = tt
or_return-Ensures P panicked h = tt

-- A number of a block that a round accepts: not 0, and a `uint64`.
abbrev IsBlock : ℕ → Type 0
IsBlock n = (0 < n) × (n < u64)

nonzero-Ensures : (n : ℕ) → n < u64 → Ensures IsBlock (nonzero n)
nonzero-Ensures zero h = tt
nonzero-Ensures (suc n) h = ground arith

-- What a round has learnt when it writes the state.
record IsAccepted (seen : Seen) : Type 0 where
  latest_block : IsBlock seen.latest
  safe_block : IsBlock seen.safe
  finalized_block : IsBlock seen.finalized

ban-IsWellFormed :
    (cp : Settings) (be : Backend) (now : ℕ) (s : BackendState)
    → IsWellFormed s
    → IsWellFormed (ban cp be now s)
unfolding ban
ban-IsWellFormed cp be now s h = ground arith

ban-Follows :
    (cp : Settings) (be : Backend) (now : ℕ) (s : BackendState)
    → be.forced_candidate ≡ false
    → IsOrdered s
    → Follows s (ban cp be now s)
unfolding ban
ban-Follows cp be now s f h = ground arith

module _ (hex : Hex) (be : Backend) where
  poll_block-Ensures : (r : Reply) → Ensures (λ x. IsBlock x.0) (poll_block hex be r)
  poll_block-Ensures r =
      >>=-Ensures (λ x. x.0 < u64) (λ x. IsBlock x.0) _ _
        (or_return-Ensures _ (fetch_block hex r) (λ x e. fetch_block_bound hex r e))
        (λ x bound.
          >>=-Ensures IsBlock (λ y. IsBlock y.0) _ _ (nonzero-Ensures x.0 bound) (λ n h. h))

  observe-IsAccepted : (p : Probe) → Ensures IsAccepted (observe hex be p)
  unfolding observe
  observe-IsAccepted p =
      >>=-Ensures Anything IsAccepted _ _ (Ensures-Anything (or_return (is_in_sync p.syncing)))
        λ sync _.
          >>=-Ensures Anything IsAccepted _ _ (Ensures-Anything (poll_peers hex be p.peers))
            λ peers _.
              >>=-Ensures (λ x. IsBlock x.0) IsAccepted _ _ (poll_block-Ensures p.latest)
                λ l hl.
                  >>=-Ensures (λ x. IsBlock x.0) IsAccepted _ _ (poll_block-Ensures p.safe)
                    λ s hs.
                      >>=-Ensures (λ x. IsBlock x.0) IsAccepted _ _ (poll_block-Ensures p.finalized)
                        λ f hf. record { latest_block = hl; safe_block = hs; finalized_block = hf }

  settle-IsWellFormed :
      (cp : Settings) (p : Probe) (s : BackendState) (seen : Seen)
      → IsAccepted seen
      → IsWellFormed (settle hex be cp p s seen)
  unfolding settle
  settle-IsWellFormed cp p s seen a = ground arith

  settle_lem :
      (cp : Settings) (p : Probe) (s : BackendState) (seen : Seen)
      → be.forced_candidate ≡ false
      → let s' = settle hex be cp p s seen in
        IsOrdered s'
        × (IsCleared s'
            ⊎ (s.safe_block_number ≤ s'.safe_block_number)
              × (s.finalized_block_number ≤ s'.finalized_block_number))
  unfolding settle
  settle_lem cp p s seen f = ground arith

  -- What holds of the state after a round, if the round does not panic.
  abbrev After : (BackendState → Type 0) → Option (BackendState × ℕ) → Type 0
  After P none = Unit
  After P (some (s', n)) = P s'

  After-observe :
      (P : BackendState → Type 0) (m : Early Seen) (s : BackendState) (f : Seen → BackendState)
      → P s
      → Ensures (λ seen. P (f seen)) m
      → After P (finish s f m)
  After-observe P (continue seen) s f h k = k
  After-observe P (return n) s f h k = h
  After-observe P crash s f h k = tt

  -- A property of the state holds after a round if each of the round's ends has it.
  update_backend-After :
      (P : BackendState → Type 0) (cp : Settings) (p : Probe) (s : BackendState)
      → P s
      → P (ban cp be p.ban_time s)
      → ((seen : Seen) → IsAccepted seen → P (settle hex be cp p s seen))
      → After P (update_backend hex be cp p s)
  unfolding update_backend
  update_backend-After P cp p s h b k = elim (Bool-cases (is_banned p.now s)) [
    | inl banned ↦ rw banned h
    | inr free ↦ rw free (elim (Bool-cases (not p.healthy && not be.forced_candidate)) [
      | inl ill ↦ rw ill b
      | inr well ↦ rw well (
          After-observe P (observe hex be p) s (settle hex be cp p s) h (
            Ensures-map IsAccepted (λ seen. P (settle hex be cp p s seen)) (observe hex be p) k
              (observe-IsAccepted p)))
    ])
  ]

  -- The replies of a round that can be decoded, as far as they are blocks or a count at all.
  pub record Decodable (p : Probe) : Type 0 where
    pub peers : get_peer_count hex p.peers ≢ panicked
    pub latest : fetch_block hex p.latest ≢ panicked
    pub safe : fetch_block hex p.safe ≢ panicked
    pub finalized : fetch_block hex p.finalized ≢ panicked

  or_return-ne-crash : {A : Type 0} (c : Call (Unit {0}) A) → c ≢ panicked → or_return c ≢ crash
  or_return-ne-crash (done a) h e = cc
  or_return-ne-crash (failed x) h e = cc
  or_return-ne-crash panicked h e = h refl

  >>=-ne-crash :
      {A B : Type 0} (m : Early A) (f : A → Early B)
      → m ≢ crash
      → ((a : A) → f a ≢ crash)
      → (m >>= f) ≢ crash
  >>=-ne-crash (continue a) f h k = k a
  >>=-ne-crash (return n) f h k = λ e. cc
  >>=-ne-crash crash f h k = absurd (h refl)

  nonzero-ne-crash : (n : ℕ) → nonzero n ≢ crash
  nonzero-ne-crash n e = ground arith

  poll_block-ne-crash : (r : Reply) → fetch_block hex r ≢ panicked → poll_block hex be r ≢ crash
  poll_block-ne-crash r h =
      >>=-ne-crash (or_return (fetch_block hex r)) _ (or_return-ne-crash _ h)
        λ a. >>=-ne-crash (nonzero a.0) _ (nonzero-ne-crash a.0) (λ n e. cc e)

  poll_peers-ne-crash : (r : Reply) → get_peer_count hex r ≢ panicked → poll_peers hex be r ≢ crash
  poll_peers-ne-crash r h = elim (Bool-cases be.skip_peer_count_check) [
    | inl s ↦ rw s (λ e. cc e)
    | inr s ↦ rw s (
        >>=-ne-crash (or_return (get_peer_count hex r)) nonzero (or_return-ne-crash _ h)
          nonzero-ne-crash)
  ]

  is_in_sync-ne-panicked : (r : Reply) → is_in_sync r ≢ panicked
  unfolding is_in_sync
  is_in_sync-ne-panicked r e = ground arith

  observe-ne-crash : (p : Probe) → Decodable p → observe hex be p ≢ crash
  unfolding observe
  observe-ne-crash p d =
      >>=-ne-crash (or_return (is_in_sync p.syncing)) _
        (or_return-ne-crash _ (is_in_sync-ne-panicked p.syncing))
        λ sync.
          >>=-ne-crash (poll_peers hex be p.peers) _ (poll_peers-ne-crash p.peers d.peers) λ peers.
            >>=-ne-crash (poll_block hex be p.latest) _ (poll_block-ne-crash p.latest d.latest) λ l.
              >>=-ne-crash (poll_block hex be p.safe) _ (poll_block-ne-crash p.safe d.safe) λ s.
                >>=-ne-crash (poll_block hex be p.finalized) _
                  (poll_block-ne-crash p.finalized d.finalized) (λ f e. cc e)

  update_backend-ne-none :
      (cp : Settings) (p : Probe) (s : BackendState)
      → Decodable p
      → update_backend hex be cp p s ≢ none
  unfolding update_backend
  update_backend-ne-none cp p s d e = ground (arith, observe-ne-crash p d)

  update_backend_returns :
      (P : BackendState → Type 0) (cp : Settings) (p : Probe) (s : BackendState)
      → Decodable p
      → After P (update_backend hex be cp p s)
      → (s' : BackendState) × (n : ℕ) × (update_backend hex be cp p s ≡ some (s', n)) × P s'
  update_backend_returns P cp p s d h = elim (Option-cases (update_backend hex be cp p s)) [
    | inl e ↦ absurd (update_backend-ne-none cp p s d e)
    | inr ((s', n), e) ↦ (s', n, e, subst (After P) e h)
  ]

  -- Where the replies can be decoded, a round ends, and keeps the numbers of a state within 64
  -- bits, and zero together or not at all.
  pub update_backend-IsWellFormed :
      (cp : Settings) (p : Probe) (s : BackendState)
      → Decodable p
      → IsWellFormed s
      → (s' : BackendState) × (n : ℕ) × (update_backend hex be cp p s ≡ some (s', n))
        × IsWellFormed s'
  update_backend-IsWellFormed cp p s d h = update_backend_returns IsWellFormed cp p s d (
      update_backend-After IsWellFormed cp p s h (ban-IsWellFormed cp be p.ban_time s h)
        (settle-IsWellFormed cp p s))

  -- Where the replies can be decoded, a round of a backend that is not a forced candidate ends,
  -- and from an ordered state it leaves one with finalized ≤ safe ≤ latest, in which the safe and
  -- the finalized block have not gone back, unless all three numbers were cleared.
  pub update_backend-Follows :
      (cp : Settings) (p : Probe) (s : BackendState)
      → Decodable p
      → be.forced_candidate ≡ false
      → IsOrdered s
      → (s' : BackendState) × (n : ℕ) × (update_backend hex be cp p s ≡ some (s', n)) × Follows s s'
  update_backend-Follows cp p s d f h = update_backend_returns (Follows s) cp p s d (
      update_backend-After (Follows s) cp p s (h, inr (omega arith))
        (ban-Follows cp be p.ban_time s f h) (λ seen a. settle_lem cp p s seen f))
