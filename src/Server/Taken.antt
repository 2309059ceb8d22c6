-- ===== src/Server/Taken.antt =====
-- proxyd/server.go: what the first loop of `handleBatchRPC` leaves: each request has a response with
-- its ID, or a place in a batch that goes to a backend group that is there.
use infra.Base.{
  ℕ, zero, suc, ◌+◌, ◌≡◌, ◌⊎◌, inl, inr, refl, sym, subst, ap, ◌∙◌, Bool, true, false, ◌&&◌, Option,
  none, some, String, str_eq, List, [], ◌∷◌, ◌++◌, get_elem?, map, All, In, here, there, ◌==◌,
  ==_iff, if◌then◌else◌, Bool-cases, Option-cases, arith,
}
use infra.Rpc.{RpcReq, RpcRes, RpcErr, Bytes, req_ids, res_ids, validate_rpc_req}
use infra.Forward.SortOrder.{Distinct}
use infra.Server.{Outside, Reply, Elem, BatchGroup, Batches}
use infra.Server.Intake.{
  Verdict, answered, queued, healthy, same_group, count_id, append_elem, Taken, early, taken,
  with_slot, sent_by, limited_method, limit, screen, admit, intake,
}
use infra.Server.Waiting.{Waits, append_elem-Waits}
use infra.Server.Slots.{Fits, Answers, Covers}

-- The ID that the response to a request has, in a call of `n` requests: none if it cannot be parsed
-- or is invalid.
unfoldable pub wanted_id : ℕ → Option RpcReq → Bytes
wanted_id n none = []
wanted_id n (some req) =
    if n == 1 && str_eq req.method "proxyd_healthz"
    then req.id
    else elim (validate_rpc_req req) [ some _ ↦ [] | none ↦ req.id ]

-- The element of a batch stands for a request whose ID is wanted.
abbrev pub Placed : List Bytes → Elem → Type 0
Placed want e = get_elem? want e.index ≡ some e.req.id

-- What a group may answer, if it does not panic: the requests with their IDs, and without an error one
-- response for each of them, with its ID.
abbrev pub IsProper : List RpcReq → Option Reply → Type 0
IsProper reqs none = Unit
IsProper reqs (some a) =
    (req_ids a.reqs ≡ req_ids reqs) × ((a.error ≡ none) → res_ids a.res ≡ req_ids reqs)

module _ {S : Type 0} (o : Outside S) where
  -- A group panics on requests with distinct IDs, all of them wanted.
  abbrev pub Panics : List Bytes → Type 0
  Panics want =
      (group : String) × (is_batch : Bool) × (reqs : List RpcReq) × (s : S) × Distinct
        (req_ids reqs)
      × All (λ k. In k want) (req_ids reqs)
      × ((o.forward group is_batch reqs s).0 ≡ none)

  -- A group serves requests with distinct IDs; nothing is said of its answer to others.
  abbrev pub Serves : String → Type 0
  Serves group =
      (is_batch : Bool) (reqs : List RpcReq) (s : S)
      → Distinct (req_ids reqs)
      → IsProper reqs (o.forward group is_batch reqs s).0

  abbrev pub IsBatch : List Bytes → BatchGroup × List Elem → Type 0
  IsBatch want b = Serves b.0.backend_group × All (Placed want) b.1

  IsRight : ℕ → Option RpcReq → Verdict → Type 0
  IsRight n q (answered r) = r.id ≡ wanted_id n q
  IsRight n q (queued req group) = (wanted_id n q ≡ req.id) × Serves group
  IsRight n q (healthy r) = (n ≡ 1) × (r.id ≡ wanted_id n q)

pub All-snoc {ℓ κ} :
    {A : Type ℓ} (P : A → Type κ) (xs : List A) (x : A) → All P xs → P x → All P (xs ++ x ∷ [])
All-snoc P [] x h p = (p, tt)
All-snoc P (y ∷ xs) x h p = (h.0, All-snoc P xs x h.1 p)

pub and_left : (a b : Bool) → (a && b) ≡ true → a ≡ true
and_left true b e = refl
and_left false b e = e

pub In-head {ℓ} : {A : Type ℓ} {a b : A} → a ≡ b → (xs : List A) → In a (b ∷ xs)
In-head {A} {a} {b} e xs = subst (λ c. In a (c ∷ xs)) e (here xs)

pub Verdict-cases :
    (v : Verdict)
    → ((r : RpcRes) × (v ≡ answered r))
      ⊎ (((r : RpcRes) × (v ≡ healthy r))
          ⊎ ((req : RpcReq) × (group : String) × (v ≡ queued req group)))
Verdict-cases (answered r) = inl (r, refl)
Verdict-cases (healthy r) = inr (inl (r, refl))
Verdict-cases (queued req group) = inr (inr (req, group, refl))

module _ {S : Type 0} (o : Outside S) where
  append_elem-IsBatch :
      (want : List Bytes) (g : BatchGroup) (e : Elem) (batches : Batches)
      → Serves o g.backend_group
      → Placed want e
      → All (IsBatch o want) batches
      → All (IsBatch o want) (append_elem g e batches)
  unfolding append_elem
  append_elem-IsBatch want g e [] serves placed h = ((serves, (placed, tt)), tt)
  append_elem-IsBatch want g e ((k, es) ∷ batches) serves placed h =
      elim (Bool-cases (same_group k g)) [
        | inl y ↦ rw y ((h.0.0, All-snoc (Placed want) es e h.0.1 placed), h.1)
        | inr n ↦ rw n (h.0, append_elem-IsBatch want g e batches serves placed h.1)
      ]

  sent_by_ok :
      (n : ℕ) (req : RpcReq) (group : String) (x : Option RpcErr × S)
      → wanted_id n (some req) ≡ req.id
      → Serves o group
      → IsRight o n (some req) (sent_by o req group x).0
  unfolding IsRight
  sent_by_ok n req group (some f, t) e serves = sym e
  sent_by_ok n req group (none, t) e serves = (e, serves)

  limit_ok :
      (n : ℕ) (req : RpcReq) (group : String) (s : S)
      → wanted_id n (some req) ≡ req.id
      → Serves o group
      → IsRight o n (some req) (limit o req group s).0
  unfolding limit IsRight
  limit_ok n req group s e serves = elim (Bool-cases (o.is_limited "" s).0) [
    | inl y ↦ rw (limit, y) (sym e)
    | inr free ↦
        let (limited, t) = limited_method o req (o.is_limited "" s).1 in
        elim (Bool-cases limited) [
          | inl y ↦ rw (limit, free, y) (sym e)
          | inr n₁ ↦ rw (limit, free, n₁) (sent_by_ok n req group _ e serves)
        ]
  ]

  screen_ok :
      (n : ℕ) (req : RpcReq) (s : S)
      → ((m : String) → str_eq (o.group_of_method m) "" ≡ false → Serves o (o.group_of_method m))
      → (n == 1 && str_eq req.method "proxyd_healthz") ≡ false
      → IsRight o n (some req) (screen o req s).0
  unfolding screen IsRight wanted_id
  screen_ok n req s mapped other = elim (Option-cases (validate_rpc_req req)) [
    | inl v ↦
        let id : wanted_id n (some req) ≡ req.id = rw (other, v) refl in
        elim (Bool-cases (str_eq req.method "eth_accounts")) [
          | inl y ↦ rw (screen, v, y) (sym id)
          | inr n₁ ↦ elim (Bool-cases (str_eq (o.group_of_method req.method) "")) [
            | inl y ↦ rw (screen, v, n₁, y) (sym id)
            | inr known ↦
                rw (screen, v, n₁, known)
                  (limit_ok n req (o.group_of_method req.method) s id (mapped req.method known))
          ]
        ]
    | inr (e, v) ↦ rw (screen, v) (rw (v, other) refl)
  ]

  admit_ok :
      (n : ℕ) (q : Option RpcReq) (s : S)
      → ((m : String) → str_eq (o.group_of_method m) "" ≡ false → Serves o (o.group_of_method m))
      → IsRight o n q (admit o n q s).0
  unfolding admit IsRight wanted_id
  admit_ok n none s mapped = refl
  admit_ok n (some req) s mapped =
      elim (Bool-cases (n == 1 && str_eq req.method "proxyd_healthz")) [
        | inl y ↦
            let id : wanted_id n (some req) ≡ req.id = rw y refl in
            rw (admit, y) ((==_iff n 1).0 (and_left _ _ y), sym id)
        | inr other ↦ rw (admit, other) (screen_ok n req s mapped other)
      ]

  -- What a part of the loop leaves of the requests from number `i` on, where `batches` were there.
  unfoldable pub Took : ℕ → ℕ → List (Option RpcReq) → List Bytes → Batches → Taken S → Type 0
  Took n i qs want batches (early r) = (n ≡ 1) × In r.id (map (wanted_id n) qs)
  Took n i qs want batches (taken slots out s) =
      Answers (map (wanted_id n) qs) slots
      × All (IsBatch o want) out
      × Covers slots (λ j. Waits out (i + j))
      × ((j : ℕ) → Waits batches j → Waits out j)

  with_slot-Took :
      (n i : ℕ) (q : Option RpcReq) (qs : List (Option RpcReq)) (want : List Bytes)
      (batches more : Batches) (slot : Option RpcRes) (t : Taken S)
      → Fits (wanted_id n q) slot
      → (slot ≡ none → Waits more i)
      → ((j : ℕ) → Waits batches j → Waits more j)
      → Took n (i + 1) qs want more t
      → Took n i (q ∷ qs) want batches (with_slot slot t)
  unfolding Took Answers Covers
  with_slot-Took n i q qs want batches more slot (early r) fits waits kept h = (h.0, there _ _ h.1)
  with_slot-Took n i q qs want batches more slot (taken slots out s) fits waits kept h =
      let (answers, parts, covers, on) = h in
      ((fits, answers), parts, covers_all, (λ j w. on j (kept j w)))
    where
      covers_all : (j : ℕ) → get_elem? (slot ∷ slots) j ≡ some none → Waits out (i + j)
      covers_all zero e = let w = h.3 i (waits (cc e)) in subst (Waits out) (omega arith) w
      covers_all (suc j) e = let w = h.2 j e in subst (Waits out) (omega arith) w

  -- What the loop leaves, where the groups of the methods are there and the IDs wanted are those of
  -- the requests.
  pub intake-Took :
      (n i : ℕ) (qs : List (Option RpcReq)) (want : List Bytes) (batches : Batches)
      (ids : List (Bytes × ℕ)) (s : S)
      → ((m : String) → str_eq (o.group_of_method m) "" ≡ false → Serves o (o.group_of_method m))
      → ((j : ℕ) → get_elem? want (i + j) ≡ get_elem? (map (wanted_id n) qs) j)
      → All (IsBatch o want) batches
      → Took n i qs want batches (intake o n i qs batches ids s)
  unfolding Took intake Answers Covers IsRight
  intake-Took n i [] want batches ids s mapped same h = (tt, h, (λ j e. cc), (λ j w. w))
  intake-Took n i (q ∷ qs) want batches ids s mapped same h =
      let rest : (out : Batches) (ids' : List (Bytes × ℕ)) (s' : S)
          → All (IsBatch o want) out
          → Took n (i + 1) qs want out (intake o n (i + 1) qs out ids' s') =
        λ out ids' s'.
          intake-Took n (i + 1) qs want out ids' s' mapped
            (λ j. ap (get_elem? want) (omega arith) ∙ same (suc j)) in
      let ok = admit_ok n q s mapped in
      elim (Verdict-cases (admit o n q s).0) [
        | inl (r, e) ↦
            rw (intake, e)
              (with_slot-Took n i q qs want batches batches (some r) _ (rw (e, IsRight) at ok)
                (λ z. cc) (λ j w. w) (rest batches ids _ h))
        | inr (inl (r, e)) ↦
            let (one, id) : (n ≡ 1) × (r.id ≡ wanted_id n q) = rw (e, IsRight) at ok in
            rw (intake, e) (one, In-head id (map (wanted_id n) qs))
        | inr (inr (req, group, e)) ↦
            let (id, serves) : (wanted_id n q ≡ req.id) × Serves o group = rw (e, IsRight) at ok in
            let g : BatchGroup = record {
              group_id = count_id req.id ids + 1;
              backend_group = group;
            } in
            let el : Elem = record { req = req; index = i } in
            let placed : Placed want el = ap (get_elem? want) (omega arith) ∙ same 0 ∙ ap some id in
            let (new, old) = append_elem-Waits g el batches in
            rw (intake, e)
              (with_slot-Took n i q qs want batches (append_elem g el batches) none _ tt (λ _. new)
                old
                (rest (append_elem g el batches) _ _
                  (append_elem-IsBatch want g el batches serves placed h)))
      ]
