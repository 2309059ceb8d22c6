-- ===== src/Server/Ready.antt =====
-- proxyd/server.go: what the slots and the elements of batches go through in the second loop of
-- `handleBatchRPC`.
use infra.Base.{
  ℕ, ◌≡◌, ◌⊎◌, inl, inr, refl, ap, Option, some, List, [], ◌∷◌, get_elem?, set, All, In, here,
  there,
}
use infra.Rpc.{RpcReq, RpcRes, Bytes, req_ids, res_ids}
use infra.Server.{Failure, Elem}
use infra.Server.Batch.{
  Progress, Step, next, deadline_exceeded, stop, crash, and_then, updated, reqs_of, failures,
}
use infra.Server.Slots.{Answers, Covers, Answers-set, Covers-set, indexes}
use infra.Server.Taken.{In-head, Placed}

-- The slots hold right responses, and each empty one has its number in `Q`.
unfoldable pub Ready : List Bytes → (ℕ → Type 0) → List (Option RpcRes) → Type 0
Ready want Q slots = Answers want slots × Covers slots Q

abbrev pub elem_ids : List Elem → List Bytes
elem_ids es = req_ids (reqs_of es)

pub Ready-set :
    (want : List Bytes) (Q : ℕ → Type 0) (slots : List (Option RpcRes)) (i : ℕ) (is : List ℕ)
    (r : RpcRes)
    → get_elem? want i ≡ some r.id
    → Ready want (λ j. In j (i ∷ is) ⊎ Q j) slots
    → Ready want (λ j. In j is ⊎ Q j) (set slots i (some r))
unfolding Ready
Ready-set want Q slots i is r e (answers, covers) = (
  Answers-set want slots i r e answers,
  Covers-set slots i r (λ j. In j (i ∷ is) ⊎ Q j) (λ j. In j is ⊎ Q j) split covers,
)
  where
    split : (j : ℕ) → In j (i ∷ is) ⊎ Q j → (j ≡ i) ⊎ (In j is ⊎ Q j)
    split j (inl (here _)) = inl refl
    split j (inl (there _ _ m)) = inr (inl m)
    split j (inr q) = inr (inr q)

pub Ready-map :
    (want : List Bytes) (Q R : ℕ → Type 0) (slots : List (Option RpcRes))
    → ((j : ℕ) → Q j → R j)
    → Ready want Q slots
    → Ready want R slots
unfolding Ready Covers
Ready-map want Q R slots f (answers, covers) = (answers, (λ j e. f j (covers j e)))

-- A step that goes on leaves slots of which just those in `Q` are waited for, and one crashes only if
-- `P`.
unfoldable pub Goes : {S : Type 0} → Type 0 → List Bytes → (ℕ → Type 0) → Step S → Type 0
Goes P want Q (next p) = Ready want Q p.responses
Goes P want Q deadline_exceeded = Unit
Goes P want Q (stop f) = Unit
Goes P want Q crash = P

pub and_then-Goes :
    {S : Type 0} (P : Type 0) (want : List Bytes) (Q R : ℕ → Type 0) (step : Step S)
    (k : Progress S → Step S)
    → ((p : Progress S) → Ready want Q p.responses → Goes P want R (k p))
    → Goes P want Q step
    → Goes P want R (and_then step k)
unfolding Goes
and_then-Goes P want Q R (next p) k f g = f p g
and_then-Goes P want Q R deadline_exceeded k f g = tt
and_then-Goes P want Q R (stop f') k f g = tt
and_then-Goes P want Q R crash k f g = g

-- The elements hold the requests as the group leaves them, with their IDs and places.
pub updated_same :
    (want : List Bytes) (es : List Elem) (qs : List RpcReq)
    → req_ids qs ≡ elem_ids es
    → All (Placed want) es
    → All (Placed want) (updated es qs)
      × (indexes (updated es qs) ≡ indexes es)
      × (elem_ids (updated es qs) ≡ elem_ids es)
updated_same want [] qs e h = (tt, refl, refl)
updated_same want (x ∷ es) [] e h = (h, refl, refl)
updated_same want (x ∷ es) (q ∷ qs) e h =
    let (placed, same, ids) = updated_same want es qs (cc e) h.1 in
    ((cc (e, h.0), placed), ap (λ l. x.index ∷ l) same, cc (e, ids))

pub failures_ids : (f : Failure) (es : List Elem) → res_ids (failures f es) ≡ elem_ids es
failures_ids f [] = refl
failures_ids f (e ∷ es) = ap (λ l. e.req.id ∷ l) (failures_ids f es)

pub none_out : (Q : ℕ → Type 0) (j : ℕ) → In j [] ⊎ Q j → Q j
none_out Q j (inl m) = elim m [ ]
none_out Q j (inr q) = q

-- The number of the first element, waited for or not.
pub wait_outside :
    (i : ℕ) (is : List ℕ) (Q : ℕ → Type 0) (j : ℕ) → In j (i ∷ is) ⊎ Q j → In j is ⊎ ((j ≡ i) ⊎ Q j)
wait_outside i is Q j (inl (here _)) = inr (inl refl)
wait_outside i is Q j (inl (there _ _ m)) = inl m
wait_outside i is Q j (inr q) = inr (inr q)

pub wait_inside :
    (i : ℕ) (is : List ℕ) (Q : ℕ → Type 0) (j : ℕ) → In j is ⊎ ((j ≡ i) ⊎ Q j) → In j (i ∷ is) ⊎ Q j
wait_inside i is Q j (inl m) = inl (there _ _ m)
wait_inside i is Q j (inr (inl e)) = inl (In-head e is)
wait_inside i is Q j (inr (inr q)) = inr q
