-- ===== src/Conductors/States.antt =====
-- op-conductor-mon/pkg/monitor: the states that `cleanup` and `poll` leave, node by node.
use infra.Base.{
  ℕ, ◌-◌, ◌≡◌, refl, subst, ◌∙◌, inl, inr, Bool, true, false, ◌||◌, Option, none, some, String,
  str_eq, eq_iff, List, [], ◌∷◌, ltb, if◌then◌else◌, Bool-cases, Option-cases,
}
use infra.Base.Dict.{elem, lookup, lookup-insert, lookup-erase}
use infra.Conductors.{NodeState, Answers}
use infra.Conductors.Poll.{State, expire, cleanup, polled, update, poll_node, poll}

-- What is kept of a state: nothing, if it is too old.
unfoldable pub kept : ℕ → ℕ → Option NodeState → Option NodeState
kept expiration now none = none
kept expiration now (some st) = if ltb expiration (now - st.updated_at) then none else some st

-- What the poll finds of a node, if it is polled.
unfoldable pub found : (String → Answers) → List String → String → Option NodeState
unfolding elem
found answers config x = if elem x config then polled (answers x) else none

unfoldable pub or_else : Option NodeState → Option NodeState → Option NodeState
or_else none o = o
or_else (some st) o = some st

lookup-expire :
    (expiration now : ℕ) (name x : String) (s : State)
    → lookup x (expire expiration now name s)
      ≡ (if str_eq name x then kept expiration now (lookup x s) else lookup x s)
unfolding expire kept
lookup-expire expiration now name x s = elim (Option-cases (lookup name s)) [
  | inl e ↦ elim (Bool-cases (str_eq name x)) [
    | inr n ↦ rw (expire, e, n) refl
    | inl y ↦
        let f : lookup x s ≡ none = subst (λ z. lookup z s ≡ none) ((eq_iff name x).0 y) e in
        rw (expire, e, y, f) refl
  ]
  | inr (st, e) ↦ elim (Bool-cases (ltb expiration (now - st.updated_at))) [
    | inr old ↦ elim (Bool-cases (str_eq name x)) [
      | inr n ↦ rw (expire, e, old, n) refl
      | inl y ↦
          let f : lookup x s ≡ some st =
            subst (λ z. lookup z s ≡ some st) ((eq_iff name x).0 y) e in
          rw (expire, e, old, y, f, kept, old) refl
    ]
    | inl old ↦ elim (Bool-cases (str_eq name x)) [
      | inr n ↦ rw (expire, e, old, lookup-erase name x s, n) refl
      | inl y ↦
          let f : lookup x s ≡ some st =
            subst (λ z. lookup z s ≡ some st) ((eq_iff name x).0 y) e in
          rw (expire, e, old, lookup-erase name x s, y, f, kept, old) refl
    ]
  ]
]

kept-kept :
    (expiration now : ℕ) (o : Option NodeState)
    → kept expiration now (kept expiration now o) ≡ kept expiration now o
unfolding kept
kept-kept expiration now none = refl
kept-kept expiration now (some st) = elim (Bool-cases (ltb expiration (now - st.updated_at))) [
  | inl y ↦ rw y refl
  | inr n ↦ rw n (rw (kept, n) refl)
]

-- After the cleanup a node has its state, unless it was ranged over and its state is too old.
pub lookup-cleanup :
    (expiration now : ℕ) (names : List String) (x : String) (s : State)
    → lookup x (cleanup expiration now names s)
      ≡ (if elem x names then kept expiration now (lookup x s) else lookup x s)
unfolding cleanup elem
lookup-cleanup expiration now [] x s = refl
lookup-cleanup expiration now (name ∷ names) x s =
    lookup-cleanup expiration now names x (expire expiration now name s)
    ∙ rw (lookup-expire expiration now name x s) (by_case (str_eq name x) (elem x names))
  where
    by_case :
        (b c : Bool)
        → (if c
            then kept expiration now (if b then kept expiration now (lookup x s) else lookup x s)
            else if b
            then kept expiration now (lookup x s)
            else lookup x s)
          ≡ (if b || c then kept expiration now (lookup x s) else lookup x s)
    by_case true true = kept-kept expiration now (lookup x s)
    by_case true false = refl
    by_case false true = refl
    by_case false false = refl

lookup-update :
    (name x : String) (o : Option NodeState) (s : State)
    → lookup x (update name o s) ≡ (if str_eq name x then or_else o (lookup x s) else lookup x s)
unfolding update or_else
lookup-update name x none s = elim (Bool-cases (str_eq name x)) [
  | inl y ↦ rw y refl
  | inr n ↦ rw n refl
]
lookup-update name x (some st) s = lookup-insert name x st s

or_else-again :
    (b : Bool) (o p : Option NodeState)
    → or_else (if b then o else none) (or_else o p) ≡ or_else o p
unfolding or_else
or_else-again true none p = refl
or_else-again true (some st) p = refl
or_else-again false none p = refl
or_else-again false (some st) p = refl

-- One more update, of a name that may have been updated already.
or_else-update :
    (f : String → Option NodeState) (name x : String) (b : Bool) (s : State)
    → or_else (if b then f x else none) (lookup x (update name (f name) s))
      ≡ or_else (if str_eq name x || b then f x else none) (lookup x s)
or_else-update f name x b s = elim (Bool-cases (str_eq name x)) [
  | inr n ↦ rw (lookup-update name x (f name) s, n) refl
  | inl y ↦
      let e = (eq_iff name x).0 y in
      rw (lookup-update name x (f name) s, y, e) (or_else-again b (f x) (lookup x s))
]

pub lookup-poll :
    (answers : String → Answers) (config : List String) (x : String) (s : State)
    → lookup x (poll answers config s) ≡ or_else (found answers config x) (lookup x s)
unfolding poll found or_else elem
lookup-poll answers [] x s = refl
lookup-poll answers (name ∷ config) x s =
    lookup-poll answers config x (poll_node name (answers name) s)
    ∙ or_else-update (λ z. polled (answers z)) name x (elem x config) s
