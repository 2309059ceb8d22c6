-- ===== src/Server/Batch.antt =====
-- proxyd/server.go: the second loop of `handleBatchRPC`, over the batches, which looks requests up
-- in the cache and forwards the others in minibatches; and the whole of it.
--
-- Go ranges over a map in any order, so the order of the batches is an argument. A batch of requests
-- has at least one, and `maxUpstreamBatchSize` is positive: `NewServer` puts a default for 0.
use infra.Base.{
  ℕ, zero, suc, ◌+◌, ◌-◌, ◌*◌, ◌/◌, Bool, true, false, not, ◌&&◌, Option, none, some, String,
  str_eq, List, [], ◌∷◌, length, set, take, drop, map, if◌then◌else◌,
}
use infra.Json.{Json}
use infra.Rpc.{RpcReq, RpcRes, is_error, new_rpc_error_res}
use infra.Server.{Outside, Failure, Elem, BatchGroup, Batches}
use infra.Server.Intake.{Taken, early, taken, intake}

-- The variables of the loop.
pub record Progress (S : Type 0) : Type 0 where
  pub responses : List (Option RpcRes)
  pub cached : Bool
  pub served_by : List String
  pub outside : S

-- The loop goes on, or ends with the deadline or with an error, or panics.
pub data Step (S : Type 0) : Type 0 where
  next : Progress S → Step S
  deadline_exceeded : Step S
  stop : Failure → Step S
  crash : Step S

-- A loop goes on only after `next`.
abbrev pub and_then : {S : Type 0} → Step S → (Progress S → Step S) → Step S
and_then (next p) k = k p
and_then deadline_exceeded k = deadline_exceeded
and_then (stop f) k = stop f
and_then crash k = crash

-- The result of `handleBatchRPC`.
pub data Outcome : Type 0 where
  responded : List (Option RpcRes) → Bool → List String → Outcome
  late : Outcome
  refused : Failure → Outcome
  crashed : Outcome

-- `servedBy[sb] = true`
unfoldable pub add_served : String → List String → List String
add_served sb [] = sb ∷ []
add_served sb (x ∷ xs) = if str_eq x sb then x ∷ xs else x ∷ add_served sb xs

-- A request is a pointer: the elements hold what `Forward` leaves of it.
abbrev pub updated : List Elem → List RpcReq → List Elem
updated [] qs = []
updated (e ∷ es) [] = e ∷ es
updated (e ∷ es) (q ∷ qs) = record e { req = q } ∷ updated es qs

abbrev pub reqs_of : List Elem → List RpcReq
reqs_of es = map (λ (e : Elem). e.req) es

abbrev pub is_null : Json → Bool
is_null Json.null = true
is_null _ = false

-- The responses when `Forward` has failed.
abbrev pub failures : Failure → List Elem → List RpcRes
failures f es = map (λ (e : Elem). new_rpc_error_res e.req.id f.shown) es

module _ {S : Type 0} (o : Outside S) (max_upstream_batch_size : ℕ) (is_batch : Bool) where
  -- A response is written to its slot.
  abbrev pub write : ℕ → RpcRes → Progress S → Progress S
  write i r p = record p { responses = set p.responses i (some r) }

  -- What becomes of the variables, and of the misses, for one answer of the cache.
  abbrev pub looked_up : Elem → Option RpcRes → S → Progress S → Progress S
  looked_up e (some r) s p = record p {
    responses = set p.responses e.index (some r);
    cached = true;
    outside = s;
  }
  looked_up e none s p = record p { outside = s }

  abbrev pub with_miss : Elem → Option RpcRes → List Elem × Progress S → List Elem × Progress S
  with_miss e (some r) (misses, p) = (misses, p)
  with_miss e none (misses, p) = (e ∷ misses, p)

  -- The loop over a batch that asks the cache: what it misses, in order.
  unfoldable pub ask_cache : List Elem → Progress S → List Elem × Progress S
  ask_cache [] p = ([], p)
  ask_cache (e ∷ es) p =
      let (hit, s) = o.get_rpc e.req p.outside in
      with_miss e hit (ask_cache es (looked_up e hit s p))

  -- The loop over the responses of a minibatch; `res[i]` panics where there is none.
  unfoldable pub deliver : List Elem → List RpcRes → Progress S → Step S
  deliver [] rs p = next p
  deliver (e ∷ es) [] p = crash
  deliver (e ∷ es) (r ∷ rs) p = deliver es rs (record p {
    responses = set p.responses e.index (some r);
    outside =
        (if not (is_error r) && not (is_null r.result)
          then o.put_rpc e.req r p.outside
          else p.outside);
  })

  -- One minibatch.
  unfoldable pub send_minibatch : String → List Elem → Progress S → Step S
  unfolding deliver add_served
  send_minibatch group es p =
      let (reply, s) = o.forward group is_batch (reqs_of es) p.outside in
      elim reply [
        | none ↦ crash
        | some a ↦
            let es' = updated es a.reqs in
            let p' : Progress S = record p {
              served_by = add_served a.served_by p.served_by;
              outside = s;
            } in
            elim a.error [
              | none ↦ deliver es' a.res p'
              | some f ↦ if f.ends_call then stop f else deliver es' (failures f es') p'
            ]
      ]

  -- The minibatches from number `i` on, with the number of those that are left.
  unfoldable pub minibatches : String → List Elem → ℕ → ℕ → Progress S → Step S
  unfolding send_minibatch
  minibatches group misses zero i p = next p
  minibatches group misses (suc left) i p =
      if o.expired p.outside
      then deadline_exceeded
      else and_then
          (send_minibatch group
            (take max_upstream_batch_size (drop (i * max_upstream_batch_size) misses)) p)
          (minibatches group misses left (i + 1))

  -- `math.Ceil(float64(n) / float64(size))`
  abbrev pub num_batches : ℕ → ℕ
  num_batches n = (n + max_upstream_batch_size - 1) / max_upstream_batch_size

  -- One batch.
  unfoldable pub run_batch : BatchGroup × List Elem → Progress S → Step S
  unfolding ask_cache minibatches
  run_batch (g, batch) p =
      let (misses, p') = ask_cache batch p in
      minibatches g.backend_group misses (num_batches (length misses)) 0 p'

  -- The loop over the batches.
  unfoldable pub run_batches : Batches → Progress S → Step S
  unfolding run_batch
  run_batches [] p = next p
  run_batches (b ∷ bs) p = and_then (run_batch b p) (run_batches bs)

  abbrev pub outcome : Step S → Outcome
  outcome (next p) = responded p.responses p.cached p.served_by
  outcome deadline_exceeded = late
  outcome (stop f) = refused f
  outcome crash = crashed

  -- `handleBatchRPC` from the end of its first loop on.
  abbrev pub conclude : (Batches → Batches) → Taken S → Outcome
  conclude order (early r) = responded (some r ∷ []) false []
  conclude order (taken slots batches s) = outcome (
      run_batches (order batches)
        (record { responses = slots; cached = false; served_by = []; outside = s }))

  -- `handleBatchRPC`
  unfoldable pub handle_batch_rpc : (Batches → Batches) → List (Option RpcReq) → S → Outcome
  unfolding intake run_batches
  handle_batch_rpc order reqs s = conclude order (intake o (length reqs) 0 reqs [] [] s)
