-- ===== src/Consensus/Poll.antt =====
-- proxyd/consensus_poller.go: one round of a backend's own poller (`UpdateBackend`), and the
-- operations on a backend's state (`Ban`, `Unban`, `setBackendState`, `checkExpectedBlockTags`).
-- Metrics and logs are left out.
use infra.Base.{
  ℕ, ◌+◌, ◌-◌, ◌*◌, Bool, not, ◌&&◌, Option, none, some, String, leb, ◌==◌, if◌then◌else◌,
}
use infra.Base.Call.{Call, done, failed, panicked}
use infra.Hex.{Hex}
use infra.Consensus.{Backend, BackendState, Settings, is_banned}
use infra.Consensus.Reply.{Reply, is_in_sync, get_peer_count, fetch_block}

-- What a round reads from outside: the backend's health, its replies, and the clock at the ban
-- check, at the write of the state and at a ban.
pub record Probe : Type 0 where
  pub now : ℕ
  pub healthy : Bool
  pub syncing : Reply
  pub peers : Reply
  pub latest : Reply
  pub safe : Reply
  pub finalized : Reply
  pub update_time : ℕ
  pub ban_time : ℕ

-- What a round has learnt when it reaches `setBackendState`.
pub record Seen : Type 0 where
  pub peer_count : ℕ
  pub in_sync : Bool
  pub latest : ℕ
  pub hash : String
  pub safe : ℕ
  pub finalized : ℕ

-- `checkExpectedBlockTags`
unfoldable pub check_expected_block_tags : ℕ → ℕ → ℕ → ℕ → ℕ → Bool
check_expected_block_tags latest old_safe safe old_finalized finalized =
    leb old_finalized finalized && leb old_safe safe && leb finalized safe && leb safe latest

-- `Ban`
unfoldable pub ban : Settings → Backend → ℕ → BackendState → BackendState
ban cp be now s = if be.forced_candidate then s else record s {
  banned_until = now + cp.ban_period;
  latest_block_number = 0;
  safe_block_number = 0;
  finalized_block_number = 0;
}

-- 10 hours in nanoseconds.
abbrev ten_hours : ℕ
ten_hours = 36000 * 1_000_000_000

-- `Unban`. The clock stands far beyond ten hours, so `-` does not stop at 0.
unfoldable pub unban : ℕ → BackendState → BackendState
unban now s = record s { banned_until = now - ten_hours }

-- `setBackendState`, without its result, which is only logged.
unfoldable pub set_backend_state : ℕ → Seen → BackendState → BackendState
set_backend_state now seen s = record s {
  peer_count = seen.peer_count;
  in_sync = seen.in_sync;
  latest_block_number = seen.latest;
  latest_block_hash = seen.hash;
  finalized_block_number = seen.finalized;
  safe_block_number = seen.safe;
  last_update = now;
}

-- The part of a round that asks the backend: it goes on, or it returns early, having called
-- `intermittentErrorsSlidingWindow.Incr` so many times, or it panics.
pub data Early (A : Type 0) : Type 0 where
  continue : A → Early A
  return : ℕ → Early A
  crash : Early A

infixl 5 ◌>>=◌
abbrev pub ◌>>=◌ : {A B : Type 0} → Early A → (A → Early B) → Early B
continue a >>= f = f a
return n >>= f = return n
crash >>= f = crash

-- `if err != nil { return }`
abbrev pub or_return : {A : Type 0} → Call (Unit {0}) A → Early A
or_return (done a) = continue a
or_return (failed _) = return 0
or_return panicked = crash

-- `if number == 0 { Incr(); return }`
abbrev pub nonzero : ℕ → Early ℕ
nonzero n = if n == 0 then return 1 else continue n

-- The end of a round that has asked the backend.
abbrev pub finish : BackendState → (Seen → BackendState) → Early Seen → Option (BackendState × ℕ)
finish s write (continue seen) = some (write seen, 0)
finish s write (return n) = some (s, n)
finish s write crash = none

module _ (hex : Hex) (be : Backend) where
  abbrev pub poll_peers : Reply → Early ℕ
  poll_peers r =
      if be.skip_peer_count_check
      then continue 0
      else (or_return (get_peer_count hex r) >>= nonzero)

  abbrev pub poll_block : Reply → Early (ℕ × String)
  poll_block r = do
    (number, hash) ← or_return (fetch_block hex r)
    n ← nonzero number
    continue (n, hash)

  unfoldable pub observe : Probe → Early Seen
  observe p = do
    in_sync ← or_return (is_in_sync p.syncing)
    peer_count ← poll_peers p.peers
    (latest, hash) ← poll_block p.latest
    (safe, _) ← poll_block p.safe
    (finalized, _) ← poll_block p.finalized
    continue (record {
      peer_count = peer_count;
      in_sync = in_sync;
      latest = latest;
      hash = hash;
      safe = safe;
      finalized = finalized;
    })

  -- From `setBackendState` on. `s` is the state before the round: `bs` is a copy.
  unfoldable pub settle : Settings → Probe → BackendState → Seen → BackendState
  unfolding check_expected_block_tags ban set_backend_state
  settle cp p s seen =
      let s' = set_backend_state p.update_time seen s in
      if not (
          check_expected_block_tags seen.latest s.safe_block_number seen.safe
            s.finalized_block_number seen.finalized)
        && not be.forced_candidate
      then ban cp be p.ban_time s'
      else s'

  -- `UpdateBackend`: the state after the round, and how often the backend's window of
  -- intermittent errors was incremented; `none` is a panic.
  unfoldable pub update_backend : Settings → Probe → BackendState → Option (BackendState × ℕ)
  unfolding ban
  update_backend cp p s =
      if is_banned p.now s
      then some (s, 0)
      else if not p.healthy && not be.forced_candidate
      then some (ban cp be p.ban_time s, 0)
      else finish s (settle cp p s) (observe p)
