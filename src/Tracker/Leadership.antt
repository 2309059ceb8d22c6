-- ===== src/Tracker/Leadership.antt =====
-- proxyd/consensus_tracker.go: who publishes the shared state, and how it changes.
use infra.Base.{
  ◌<◌, inr, inl, Option-cases, ◌≤◌, ◌≡◌, ◌≢◌, ◌⊎◌, true, false, none, some, String, str_eq, List,
  [], ◌∷◌, arith, Bool-cases, eq_iff,
}
use infra.Tracker.{valid, behind, update}
use infra.Tracker.Redis.{
  RedisConsensusTracker, Answers, Write, set_state, set_leader, state_heartbeat, payload,
}

-- A leader holds a lock.
abbrev pub HoldsLock : RedisConsensusTracker → Type 0
HoldsLock ct = ct.leader ≡ true → ct.redlock ≢ none

heartbeat-ne-none :
    (a : Answers) (ct : RedisConsensusTracker) → HoldsLock ct → state_heartbeat a ct ≢ none
unfolding state_heartbeat
heartbeat-ne-none a ct h e = ground arith

heartbeat-keeps :
    (a : Answers) (ct ct' : RedisConsensusTracker) (ws : List Write)
    → HoldsLock ct
    → state_heartbeat a ct ≡ some (ct', ws)
    → HoldsLock ct'
unfolding state_heartbeat
heartbeat-keeps a ct ct' ws h e = ground arith

-- From a tracker whose leader flag comes with a lock a heartbeat does not panic, and leaves such
-- a tracker.
pub heartbeat-HoldsLock :
    (a : Answers) (ct : RedisConsensusTracker)
    → HoldsLock ct
    → (ct' : RedisConsensusTracker) × (ws : List Write) × (state_heartbeat a ct ≡ some (ct', ws))
      × HoldsLock ct'
heartbeat-HoldsLock a ct h = elim (Option-cases (state_heartbeat a ct)) [
  | inl e ↦ absurd (heartbeat-ne-none a ct h e)
  | inr ((ct', ws), e) ↦ (ct', ws, e, heartbeat-keeps a ct ct' ws h e)
]

-- The ways in which the shared state changes, where the lock of a leader has the value `val`.
abbrev ChangesBy :
    String → Answers → RedisConsensusTracker → RedisConsensusTracker → List Write → Type 0
ChangesBy val a ct ct' ws =
    (ct'.remote ≡ ct.remote)
    ⊎ ((ct.leader ≡ false) × (ws ≡ []) × (a.state_read ≡ payload ct'.remote))
    ⊎ ((ct'.leader ≡ true)
        × (ct'.remote ≡ ct.local)
        × (ws ≡ set_state val ct.local ∷ set_leader val a.hostname ∷ []))

abbrev pub Changes : Answers → RedisConsensusTracker → RedisConsensusTracker → List Write → Type 0
Changes a ct ct' ws =
    (ct'.remote ≡ ct.remote)
    ⊎ ((ct.leader ≡ false) × (ws ≡ []) × (a.state_read ≡ payload ct'.remote))
    ⊎ ((ct'.leader ≡ true)
        × (ct'.remote ≡ ct.local)
        × ((val : String) × (ws ≡ set_state val ct.local ∷ set_leader val a.hostname ∷ [])))

changes :
    (val : String) (a : Answers) (ct ct' : RedisConsensusTracker) (ws : List Write)
    → ChangesBy val a ct ct' ws
    → Changes a ct ct' ws
changes val a ct ct' ws (inl e) = inl e
changes val a ct ct' ws (inr (inl f)) = inr (inl f)
changes val a ct ct' ws (inr (inr (l, r, w))) = inr (inr (l, r, (val, w)))

held-ChangesBy :
    (a : Answers) (ct ct' : RedisConsensusTracker) (ws : List Write) (v : String)
    → a.lock_value ≡ some v
    → str_eq v "" ≡ false
    → state_heartbeat a ct ≡ some (ct', ws)
    → ChangesBy v a ct ct' ws
unfolding state_heartbeat update
held-ChangesBy a ct ct' ws v q n e = ground arith

free-ChangesBy :
    (a : Answers) (ct ct' : RedisConsensusTracker) (ws : List Write) (v l : String)
    → a.lock_value ≡ some v
    → str_eq v "" ≡ true
    → a.lock ≡ some l
    → state_heartbeat a ct ≡ some (ct', ws)
    → ChangesBy l a ct ct' ws
unfolding state_heartbeat update
free-ChangesBy a ct ct' ws v l q y k e = ground arith

-- The shared state as this proxy sees it changes in two ways only: it takes over what the leader
-- published while it follows, and writes nothing, or it leads and takes over its local state, where
-- the two writes of the heartbeat have been that local state and its name, under one lock's value.
pub heartbeat-remote :
    (a : Answers) (ct ct' : RedisConsensusTracker) (ws : List Write)
    → state_heartbeat a ct ≡ some (ct', ws)
    → Changes a ct ct' ws
unfolding state_heartbeat update
heartbeat-remote a ct ct' ws e = elim (Option-cases a.lock_value) [
  | inl q ↦ changes "" a ct ct' ws (ground arith)
  | inr (v, q) ↦ elim (Bool-cases (str_eq v "")) [
    | inr n ↦ changes v a ct ct' ws (held-ChangesBy a ct ct' ws v q n e)
    | inl y ↦ elim (Option-cases a.lock) [
      | inl k ↦ changes "" a ct ct' ws (ground arith)
      | inr (l, k) ↦ changes l a ct ct' ws (free-ChangesBy a ct ct' ws v l q y k e)
    ]
  ]
]

-- It leads, and has extended the lock with that value.
abbrev pub Leads : Answers → RedisConsensusTracker → String → Type 0
Leads a ct val = (ct.leader ≡ true) × (a.extend ≡ true) × (a.lock_value ≡ some val)

-- The heartbeat has written the tracker's local state under the value of the lock, and then its name
-- or nothing.
abbrev pub Wrote : Answers → RedisConsensusTracker → String → List Write → Type 0
Wrote a ct val ws =
    (ws ≡ set_state val ct.local ∷ [])
    ⊎ (ws ≡ set_state val ct.local ∷ set_leader val a.hostname ∷ [])

-- No lock was there, it has acquired one with that value, its local state is usable and, where the shared state
-- is, not behind that.
pub record Stands (a : Answers) (ct : RedisConsensusTracker) (val : String) : Type 0 where
  pub no_lock : a.lock_value ≡ some ""
  pub acquired : a.lock ≡ some val
  pub usable : (0 < ct.local.latest) × (0 < ct.local.safe) × (0 < ct.local.finalized)
  pub not_behind :
      0 < ct.remote.latest
      → 0 < ct.remote.safe
      → 0 < ct.remote.finalized
      → (ct.remote.latest ≤ ct.local.latest)
        × (ct.remote.safe ≤ ct.local.safe)
        × (ct.remote.finalized ≤ ct.local.finalized)

held-Wrote :
    (a : Answers) (ct ct' : RedisConsensusTracker) (ws : List Write) (v : String)
    → a.lock_value ≡ some v
    → str_eq v "" ≡ false
    → state_heartbeat a ct ≡ some (ct', ws)
    → ws ≢ []
    → Leads a ct v × Wrote a ct v ws
unfolding state_heartbeat
held-Wrote a ct ct' ws v q n e w = ground arith

free-Wrote :
    (a : Answers) (ct ct' : RedisConsensusTracker) (ws : List Write) (v l : String)
    → a.lock_value ≡ some v
    → str_eq v "" ≡ true
    → a.lock ≡ some l
    → state_heartbeat a ct ≡ some (ct', ws)
    → ws ≢ []
    → Stands a ct l × Wrote a ct l ws
unfolding state_heartbeat valid behind
free-Wrote a ct ct' ws v l q y k e w = ground (arith, eq_iff v "")

-- A heartbeat that writes to Redis writes the local state of the proxy, and after it at most the name
-- of the proxy, both under the value of its lock. Either it led and has extended that lock, or no lock
-- was there and it has just acquired that one; in the second case the local state is usable and,
-- where the shared one is, not behind it.
pub heartbeat-publishes :
    (a : Answers) (ct ct' : RedisConsensusTracker) (ws : List Write)
    → state_heartbeat a ct ≡ some (ct', ws)
    → ws ≢ []
    → (val : String) × (Leads a ct val ⊎ Stands a ct val) × Wrote a ct val ws
unfolding state_heartbeat
heartbeat-publishes a ct ct' ws e w = elim (Option-cases a.lock_value) [
  | inl q ↦ ground arith
  | inr (v, q) ↦ elim (Bool-cases (str_eq v "")) [
    | inr n ↦ let (leads, wrote) = held-Wrote a ct ct' ws v q n e w in (v, inl leads, wrote)
    | inl y ↦ elim (Option-cases a.lock) [
      | inl k ↦ ground arith
      | inr (l, k) ↦
          let (stands, wrote) = free-Wrote a ct ct' ws v l q y k e w in (l, inr stands, wrote)
    ]
  ]
]
