-- ===== src/Tracker/Redis.antt =====
-- proxyd/consensus_tracker.go: the tracker that several proxies share over Redis
-- (`RedisConsensusTracker`): one heartbeat (`stateHeartbeat`, `postPayload`) as a step on the
-- tracker's fields. Redis and the lock of redsync are outside: a heartbeat takes what they answer,
-- and lists the keys that it sets. Metrics and logs are left out.
use infra.Base.{
  Bool, true, false, not, ◌&&◌, Option, none, some, String, str_eq, List, [], ◌∷◌, if◌then◌else◌,
}
use infra.Tracker.{ConsensusTrackerState, ConsensusTracker, new_in_memory, update, valid, behind}

-- `redlock` is the mutex that was last acquired, by its value; `none` is the nil pointer.
pub record RedisConsensusTracker : Type 0 where
  pub redlock : Option String
  pub leader : Bool
  pub leader_name : String
  pub local : ConsensusTrackerState
  pub remote : ConsensusTrackerState

abbrev pub new_redis : RedisConsensusTracker
new_redis = record {
  redlock = none;
  leader = false;
  leader_name = "";
  local = new_in_memory;
  remote = new_in_memory;
}

-- `client.Set`, of `state:<val>` and of `leader:<val>`.
pub data Write : Type 0 where
  set_state : String → ConsensusTrackerState → Write
  set_leader : String → String → Write

-- What the state read from Redis is: an error, a missing key, no JSON of a state, or a state.
pub data Payload : Type 0 where
  read_error missing malformed : Payload
  payload : ConsensusTrackerState → Payload

-- What Redis and redsync answer in one heartbeat. `lock_value` is `none` on an error and empty for
-- `redis.Nil`; the Booleans are "no error, and ok"; `lock` is the acquired mutex's value.
pub record Answers : Type 0 where
  pub lock_value : Option String
  pub unlock : Bool
  pub extend : Bool
  pub leader_read : Option String
  pub state_read : Payload
  pub lock : Option String
  pub marshal : Bool
  pub state_set : Bool
  pub leader_set : Bool
  pub hostname : String

-- `none` is the panic of a method on the nil `redlock`.
abbrev pub Beat : Type 0
Beat = Option (RedisConsensusTracker × List Write)

-- `postPayload`
unfoldable pub post_payload :
    Answers → String → RedisConsensusTracker → RedisConsensusTracker × List Write
unfolding update
post_payload a val ct =
    if not a.marshal
    then (record ct { leader = false }, [])
    else if not a.state_set
    then (record ct { leader = false }, [])
    else if not a.leader_set
    then (record ct { leader = false }, set_state val ct.local ∷ [])
    else (
      record ct { leader_name = a.hostname; remote = update ct.local ct.remote },
      set_state val ct.local ∷ set_leader val a.hostname ∷ [],
    )

-- `redlock.Unlock`, and the flag after it.
unfoldable pub release : Answers → RedisConsensusTracker → Beat
release a ct = elim ct.redlock [
  | none ↦ none
  | some _ ↦ if a.unlock then some (record ct { leader = false }, []) else some (ct, [])
]

-- The leader's branch: extend the lock and publish.
unfoldable pub lead : Answers → String → RedisConsensusTracker → Beat
unfolding release post_payload
lead a val ct = elim ct.redlock [
  | none ↦ none
  | some _ ↦ if a.extend then some (post_payload a val ct) else release a ct
]

-- The branch of a proxy that does not lead: read the leader and its state. An empty value in
-- Redis counts as a missing one.
unfoldable pub follow : Answers → RedisConsensusTracker → RedisConsensusTracker
unfolding update
follow a ct = elim a.leader_read [
  | none ↦ ct
  | some name ↦
      let named = record ct { leader_name = name } in
      elim a.state_read [
        | read_error ↦ named
        | missing ↦ named
        | malformed ↦ named
        | payload state ↦ record named { remote = update state ct.remote }
      ]
]

-- The branch without a lock: stand for leader, unless the local state is unusable.
unfoldable pub stand : Answers → RedisConsensusTracker → RedisConsensusTracker × List Write
unfolding post_payload valid behind
stand a ct =
    if not (valid ct.local)
    then (ct, [])
    else if valid ct.remote && behind ct.local ct.remote
    then (ct, [])
    else elim a.lock [
      | none ↦ (record ct { leader = false }, [])
      | some val ↦ post_payload a val (record ct { redlock = some val; leader = true })
    ]

-- `stateHeartbeat`
unfoldable pub state_heartbeat : Answers → RedisConsensusTracker → Beat
unfolding lead follow stand
state_heartbeat a ct = elim a.lock_value [
  | none ↦ if ct.leader then release a ct else some (ct, [])
  | some val ↦
      if not (str_eq val "")
      then if ct.leader then lead a val ct else some (follow a ct, [])
      else some (stand a ct)
]

-- The interface: reads are of the shared state, writes of the local one.
abbrev pub redis : ConsensusTracker RedisConsensusTracker
redis = record {
  get_latest_block_number = λ t. t.remote.latest;
  set_latest_block_number =
      λ n t. let local = t.local in record t { local = record local { latest = n } };
  get_safe_block_number = λ t. t.remote.safe;
  set_safe_block_number =
      λ n t. let local = t.local in record t { local = record local { safe = n } };
  get_finalized_block_number = λ t. t.remote.finalized;
  set_finalized_block_number =
      λ n t. let local = t.local in record t { local = record local { finalized = n } };
}
