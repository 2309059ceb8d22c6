-- ===== src/Server/Answers.antt =====
-- proxyd/server.go: `handleBatchRPC` answers each request of a call once.
use infra.Base.{
  ℕ, ◌<◌, ◌≡◌, ◌↔◌, refl, subst, ap, Bool, false, Option, some, String, str_eq, List, [], ◌∷◌,
  length, get_elem?, map, All, All-In, All-intro, In, here, there, arith,
}
use infra.Rpc.{RpcReq, RpcRes, Bytes, res_ids}
use infra.Server.{Outside, Elem, BatchGroup, Batches}
use infra.Server.Intake.{Taken, early, taken, intake}
use infra.Server.Batch.{
  Step, next, deadline_exceeded, stop, crash, Outcome, responded, late, refused, crashed, outcome,
  conclude, handle_batch_rpc,
}
use infra.Server.Slots.{Covers, Answers-full}
use infra.Server.Loops.{run_batches_ok}
use infra.Server.Ready.{Ready, Goes}
use infra.Server.Waiting.{Waits}
use infra.Server.Distinct.{Distinct, intake-Distinct}
use infra.Server.Taken.{wanted_id, Panics, Serves, IsBatch, Took, intake-Took}

-- A call that responds has one response for each ID wanted, with that ID, in their order; it may
-- come too late or be refused, and it crashes only if `P`.
unfoldable pub Answered : Type 0 → List Bytes → Outcome → Type 0
Answered P want (responded slots cached served_by) =
    (rs : List RpcRes) × (slots ≡ map some rs) × (res_ids rs ≡ want)
Answered P want late = Unit
Answered P want (refused f) = Unit
Answered P want crashed = P

pub Answered-crash :
    (P Q : Type 0) (want : List Bytes) (out : Outcome)
    → (P → Q)
    → Answered P want out
    → Answered Q want out
unfolding Answered
Answered-crash P Q want (responded slots cached served_by) f a = a
Answered-crash P Q want late f a = a
Answered-crash P Q want (refused e) f a = a
Answered-crash P Q want crashed f a = f a

outcome-Answered :
    {S : Type 0} (P : Type 0) (o : Outside S) (size : ℕ) (is_batch : Bool) (want : List Bytes)
    (step : Step S)
    → Goes P want (λ _. ⊥) step
    → Answered P want (outcome o size is_batch step)
unfolding Goes Answered Ready
outcome-Answered P o size is_batch want (next p) (answers, covers) =
    Answers-full want p.responses answers covers
outcome-Answered P o size is_batch want deadline_exceeded g = tt
outcome-Answered P o size is_batch want (stop f) g = tt
outcome-Answered P o size is_batch want crash g = g

-- The ID wanted by the only request.
only_one :
    (f : Option RpcReq → Bytes) (reqs : List (Option RpcReq)) {w : Bytes}
    → length reqs ≡ 1
    → In w (map f reqs)
    → w ∷ [] ≡ map f reqs
only_one f [] e m = elim m [ ]
only_one f (q ∷ []) e (here _) = refl
only_one f (q ∷ []) e (there _ _ m) = elim m [ ]
only_one f (q ∷ q' ∷ reqs) e m = absurd (omega (arith, e))

module _ {S : Type 0} (o : Outside S) (size : ℕ) (is_batch : Bool) (order : Batches → Batches) where
  conclude-Answered :
      (reqs : List (Option RpcReq)) (t : Taken S)
      → 0 < size
      → ((req : RpcReq) (s : S) (r : RpcRes) → (o.get_rpc req s).0 ≡ some r → r.id ≡ req.id)
      → ((bs : Batches) (b : BatchGroup × List Elem) → In b (order bs) ↔ In b bs)
      → Took o (length reqs) 0 reqs (map (wanted_id (length reqs)) reqs) [] t
      → ((slots : List (Option RpcRes)) (bs : Batches) (s : S)
          → t ≡ taken slots bs s
          → All (λ (b : BatchGroup × List Elem). Distinct b.1) bs)
      → Answered
          (Panics o (map (wanted_id (length reqs)) reqs))
          (map (wanted_id (length reqs)) reqs)
          (conclude o size is_batch order t)
  unfolding Took Answered Ready Covers Waits
  conclude-Answered reqs (early r) positive hits ranged (one, m) distinct =
      (r ∷ [], refl, only_one (wanted_id (length reqs)) reqs one m)
  conclude-Answered reqs (taken slots bs s) positive hits ranged (answers, parts, covers, _)
        distinct =
      let want = map (wanted_id (length reqs)) reqs in
      outcome-Answered (Panics o want) o size is_batch want _ (
        run_batches_ok o size is_batch want (order bs) _ positive hits
          (All-intro (IsBatch o want) (order bs)
            (λ b m. All-In (IsBatch o want) ((ranged bs b).0 m) parts))
          (All-intro (λ (b : BatchGroup × List Elem). Distinct b.1) (order bs)
            (λ b m.
              All-In (λ (b : BatchGroup × List Elem). Distinct b.1) ((ranged bs b).0 m)
                (distinct slots bs s refl)))
          (answers, (λ j e. let w = covers j e in reach j (subst (Waits bs) (omega arith) w))))
    where
      reach : (j : ℕ) → Waits bs j → Waits (order bs) j
      reach j (b, m, k) = (b, (ranged bs b).1 m, k)

-- Where minibatches may hold a request, the cache answers with the ID of the request, each group
-- that a method is mapped to leaves the IDs of requests with distinct IDs and, when it answers them
-- without an error, gives the responses in their order, and the batches are ranged over in any order
-- that has them all, whatever IDs the call repeats: `handleBatchRPC` panics only if a group panics on
-- requests with distinct IDs that are IDs of the call's, and if nothing of that, the deadline or an error ends it, it returns one
-- response for each request, in their order, with the ID of the request, or none if that cannot be
-- parsed or is invalid.
pub handle_batch_rpc-Answered :
    {S : Type 0} (o : Outside S) (size : ℕ) (is_batch : Bool) (order : Batches → Batches)
    (reqs : List (Option RpcReq)) (s : S)
    → 0 < size
    → ((req : RpcReq) (s : S) (r : RpcRes) → (o.get_rpc req s).0 ≡ some r → r.id ≡ req.id)
    → ((m : String) → str_eq (o.group_of_method m) "" ≡ false → Serves o (o.group_of_method m))
    → ((bs : Batches) (b : BatchGroup × List Elem) → In b (order bs) ↔ In b bs)
    → Answered
        (Panics o (map (wanted_id (length reqs)) reqs))
        (map (wanted_id (length reqs)) reqs)
        (handle_batch_rpc o size is_batch order reqs s)
unfolding handle_batch_rpc Answered
handle_batch_rpc-Answered o size is_batch order reqs s positive hits mapped ranged =
    let want = map (wanted_id (length reqs)) reqs in
    conclude-Answered o size is_batch order reqs (intake o (length reqs) 0 reqs [] [] s) positive
      hits ranged
      (intake-Took o (length reqs) 0 reqs want [] [] s mapped
        (λ j. ap (get_elem? want) (omega arith)) tt)
      (λ slots bs s' e. intake-Distinct o reqs s s' slots bs e)
