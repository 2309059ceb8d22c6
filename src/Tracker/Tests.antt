-- ===== src/Tracker/Tests.antt =====
-- Two proxies over one Redis: a leader that posts, a follower, and a candidate.
use infra.Base.{String, ℕ, ◌≡◌, ◌⊎◌, refl, true, false, none, some, List, [], ◌∷◌}
use infra.Tracker.{ConsensusTrackerState}
use infra.Tracker.Redis.{
  RedisConsensusTracker, Answers, Write, set_state, set_leader, payload, state_heartbeat,
}
use infra.Tracker.Leadership.{
  HoldsLock, heartbeat-HoldsLock, heartbeat-remote, heartbeat-publishes, Changes, Leads, Stands,
  Wrote,
}

abbrev blocks : ℕ → ConsensusTrackerState
blocks n = record { latest = n; safe = 2; finalized = 1 }

abbrev fresh : RedisConsensusTracker
fresh = record {
  redlock = none;
  leader = false;
  leader_name = "";
  local = blocks 5;
  remote = blocks 4;
}

-- No lock is there, and it can be had.
abbrev vacancy : Answers
vacancy = record {
  lock_value = some "";
  unlock = true;
  extend = true;
  leader_read = some "";
  state_read = payload (blocks 4);
  lock = some "token";
  marshal = true;
  state_set = true;
  leader_set = true;
  hostname = "host";
}

abbrev elected : RedisConsensusTracker
elected = record {
  redlock = some "token";
  leader = true;
  leader_name = "host";
  local = blocks 5;
  remote = blocks 5;
}

abbrev election : List Write
election = set_state "token" (blocks 5) ∷ set_leader "token" "host" ∷ []

run-election : state_heartbeat vacancy fresh ≡ some (elected, election)
unfolding state_heartbeat
run-election = refl

heartbeat-HoldsLock_example :
    (ct : RedisConsensusTracker) × (ws : List Write) × (state_heartbeat vacancy fresh
      ≡ some (ct, ws))
    × HoldsLock ct
heartbeat-HoldsLock_example = heartbeat-HoldsLock vacancy fresh (λ e. cc)

heartbeat-remote_example : Changes vacancy fresh elected election
heartbeat-remote_example = heartbeat-remote vacancy fresh elected election run-election

heartbeat-publishes_example :
    (val : String) × (Leads vacancy fresh val ⊎ Stands vacancy fresh val)
    × Wrote vacancy fresh val election
heartbeat-publishes_example =
    heartbeat-publishes vacancy fresh elected election run-election (λ e. cc)
