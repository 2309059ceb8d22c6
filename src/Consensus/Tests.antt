-- ===== src/Consensus/Tests.antt =====
-- Runs of the consensus poller on two backends that agree up to block 2, and the theorems at them.
use infra.Consensus.Rounds.{
  update_backend-IsWellFormed, update_backend-Follows, Decodable, IsWellFormed, Follows,
}
use infra.Consensus.Lag.{filter_candidates_iff, Eligible}
use infra.Consensus.Resolution.{update_group-agrees, IsAncestor, IsPublished, Sound}
use infra.Consensus.Agreement.{walk-agrees, Common, Decodes, Accepts}
use infra.Base.{
  ◌<◌, ◌+◌, All-In, ◌≤◌, ◌≢◌, sub64, ℕ, ◌≡◌, ◌↔◌, refl, Bool, true, false, Option, some, String,
  str_eq, List, [], ◌∷◌, In, here, arith, ◌==◌, if◌then◌else◌,
}
use infra.Base.Call.{panicked}
use infra.Hex.{tally}
use infra.Json.{Json, field, end}
use infra.Tracker.{ConsensusTrackerState, new_in_memory, in_memory}
use infra.Consensus.{Backend, BackendState, Member, Settings}
use infra.Consensus.Reply.{is_in_sync, get_peer_count, fetch_block, Reply, result, error}
use infra.Consensus.Poll.{observe, settle, Probe, update_backend}
use infra.Consensus.Candidates.{
  primaries, serves, keeps_up, highest_latest, filter_candidates, consensus_candidates,
}
use infra.Consensus.Walk.{answer, lowest_from, lower, walk, pass, found}
use infra.Consensus.Group.{group_of, Outside, Consensus, updated, update_backend_group_consensus}

abbrev settings : Settings
settings = record {
  min_peer_count = 3;
  ban_period = 300;
  max_update_threshold = 30;
  max_block_lag = 8;
  max_block_range = 1000;
}

abbrev backend : ℕ → Backend
backend n = record {
  id = n;
  name = "node";
  skip_peer_count_check = false;
  forced_candidate = false;
}

abbrev polled : ℕ → String → BackendState
polled n h = record {
  latest_block_number = n;
  latest_block_hash = h;
  safe_block_number = 2;
  finalized_block_number = 1;
  peer_count = 5;
  in_sync = true;
  last_update = 100;
  banned_until = 0;
}

abbrev first : Member
first = record { be = backend 1; state = polled 4 "x" }

abbrev second : Member
second = record { be = backend 2; state = polled 3 "y" }

abbrev members : List Member
members = first ∷ second ∷ []

-- From block 3 on the two disagree; other blocks are refused.
abbrev block_reply : String → String → Reply
block_reply number hash =
    result (Json.obj (field "number" (Json.text number) (field "hash" (Json.text hash) end)))

abbrev head_hash : ℕ → String
head_hash id = if id == 1 then "x" else "y"

abbrev chain : ℕ → ℕ → String → Reply
chain round id block =
    if str_eq block "|||"
    then block_reply "|||" (head_hash id)
    else if str_eq block "||"
    then block_reply "||" "h"
    else error

abbrev outside : Outside
outside = record {
  look = λ id. record { healthy = true; ban_now = 110; now = 110 };
  first_order = λ ms. ms;
  order = λ k ms. ms;
  ask = chain;
}

abbrev all_primary : String → Option Bool
all_primary name = some false

run-group :
    update_backend_group_consensus in_memory tally settings all_primary outside 5 members
      new_in_memory
    ≡ updated (record {
      tracker = record { latest = 2; safe = 2; finalized = 1 };
      group = backend 1 ∷ backend 2 ∷ [];
      broken = false;
    })
unfolding update_backend_group_consensus lowest_from consensus_candidates filter_candidates
    primaries serves keeps_up sub64 highest_latest lower walk pass fetch_block
run-group = refl

-- The candidates are both members, in their order.
candidates-eq : consensus_candidates settings outside.look all_primary members ≡ members
unfolding consensus_candidates filter_candidates primaries serves keeps_up sub64 highest_latest
candidates-eq = refl

members-Common : Common tally chain (λ k ms. ms) members 2 "h"
unfolding fetch_block
members-Common k = ((refl, refl), ((refl, refl), tt))

chain-ne-panicked : (k id : ℕ) (block : String) → fetch_block tally (chain k id block) ≢ panicked
unfolding fetch_block
chain-ne-panicked k id block e = ground arith

members-Decodes : Decodes tally chain (λ k ms. ms) members
members-Decodes k b h =
    (chain-ne-panicked k 1 (tally.encode b), (chain-ne-panicked k 2 (tally.encode b), tt))

walk-agrees_example :
    (b : ℕ) × (hb : String) × (broke : Bool) × (k : ℕ) × (walk tally chain 1
        (λ k ms. ms)
        members
        5
        0
        3
        "y"
        false
      ≡ found b hb broke)
    × (2 ≤ b)
    × (b ≤ 3)
    × ((m : Member) → In m members → Accepts b hb (answer tally chain k b m))
walk-agrees_example =
    walk-agrees tally chain 1 (λ k ms. ms) members 5 0 3 2 "h" "y" false (omega arith) (omega arith)
      (omega arith) members-Common members-Decodes (λ e. absurd (omega arith)) (λ k m i. i)

members-Sound : Sound tally settings all_primary outside members
unfolding consensus_candidates filter_candidates primaries serves keeps_up sub64 highest_latest
members-Sound = record {
  polled = omega arith;
  bounded = omega arith;
  ranged = λ m. (λ i. i, λ i. i);
  reordered = λ k m i. i;
  decodes = members-Decodes;
}

members-IsAncestor : IsAncestor tally settings all_primary outside members 5 2 "h"
unfolding consensus_candidates filter_candidates primaries serves keeps_up sub64 highest_latest
members-IsAncestor = record {
  common = members-Common;
  below = λ m i. All-In (λ (m : Member). 2 ≤ m.state.latest_block_number) i (omega arith);
  near = λ m i. All-In (λ (m : Member). m.state.latest_block_number < 7) i (omega arith);
  head =
      λ m i e. absurd (All-In (λ (m : Member). 2 ≢ m.state.latest_block_number) i (omega arith) e);
}

first_member : In first (consensus_candidates settings outside.look all_primary members)
unfolding consensus_candidates filter_candidates primaries serves keeps_up sub64 highest_latest
first_member = here _

update_group-agrees_example :
    (c : Consensus ConsensusTrackerState) × (hb : String) × (k : ℕ)
    × (update_backend_group_consensus in_memory tally settings all_primary outside 5 members
          new_in_memory
        ≡ updated c)
    × (2 ≤ c.tracker.latest)
    × ((x : Member)
        → In x (consensus_candidates settings outside.look all_primary members)
        → IsPublished tally outside c hb k x)
    × (c.group ≡ group_of (consensus_candidates settings outside.look all_primary members) members)
update_group-agrees_example =
    update_group-agrees tally settings all_primary outside members 5 2 "h" first new_in_memory
      members-Sound first_member members-IsAncestor

filter_candidates_iff_example : In first (filter_candidates settings outside.look members) ↔ (
    In first members
    × Eligible settings outside.look first
    × ((x : Member)
        → In x members
        → Eligible settings outside.look x
        → x.state.latest_block_number ≤ 4 + 8))
filter_candidates_iff_example =
    filter_candidates_iff settings outside.look members first (omega arith)

-- A round of the first backend that moves from block 3 to block 4.
abbrev round : Probe
round = record {
  now = 100;
  healthy = true;
  syncing = result (Json.bool false);
  peers = result (Json.text "||||");
  latest = block_reply "||||" "z";
  safe = block_reply "|||" "y";
  finalized = block_reply "||" "x";
  update_time = 101;
  ban_time = 102;
}

run-round :
    update_backend tally (backend 1) settings round (polled 3 "y")
    ≡ some (
      record {
        latest_block_number = 4;
        latest_block_hash = "z";
        safe_block_number = 3;
        finalized_block_number = 2;
        peer_count = 4;
        in_sync = true;
        last_update = 101;
        banned_until = 0;
      },
      0,
    )
unfolding update_backend observe is_in_sync get_peer_count fetch_block settle
run-round = refl

round-Decodable : Decodable tally (backend 1) round
unfolding get_peer_count fetch_block
round-Decodable = record {
  peers = λ e. cc e;
  latest = λ e. cc e;
  safe = λ e. cc e;
  finalized = λ e. cc e;
}

update_backend-Follows_example :
    (s' : BackendState) × (n : ℕ) × (update_backend tally (backend 1) settings round (polled 3 "y")
      ≡ some (s', n))
    × Follows (polled 3 "y") s'
update_backend-Follows_example =
    update_backend-Follows tally (backend 1) settings round (polled 3 "y") round-Decodable refl
      (omega arith)

update_backend-IsWellFormed_example :
    (s' : BackendState) × (n : ℕ) × (update_backend tally (backend 1) settings round (polled 3 "y")
      ≡ some (s', n))
    × IsWellFormed s'
update_backend-IsWellFormed_example =
    update_backend-IsWellFormed tally (backend 1) settings round (polled 3 "y") round-Decodable
      (ground arith)
