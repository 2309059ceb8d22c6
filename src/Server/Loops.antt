-- ===== src/Server/Loops.antt =====
-- proxyd/server.go: the second loop of `handleBatchRPC` fills the slots of all requests in the
-- batches, and panics only where a group does on requests with distinct IDs.
use native.Mathlib.Nat.{div-add-mod', mod-lt}
use infra.Base.{
  ℕ, zero, suc, ◌+◌, ◌-◌, ◌*◌, ◌/◌, ◌≤◌, ◌<◌, ◌≡◌, ◌⊎◌, inl, inr, refl, sym, subst, ap, ◌∙◌, Bool,
  Option, none, some, String, List, [], ◌∷◌, length, take, drop, All, In, here, there, Bool-cases,
  Option-cases, arith,
}
use infra.Rpc.{RpcReq, RpcRes, Bytes, res_ids}
use infra.Server.{Outside, Elem, BatchGroup, Batches}
use infra.Server.Batch.{
  Progress, add_served, updated, reqs_of, failures, with_miss, looked_up, ask_cache, deliver,
  send_minibatch, minibatches, num_batches, run_batch, run_batches,
}
use infra.Server.Slots.{indexes, In-take-drop, All-take, All-drop, drop-drop, drop-all}
use infra.Server.Ready.{
  Ready, elem_ids, Ready-set, Ready-map, Goes, and_then-Goes, updated_same, failures_ids, none_out,
  wait_outside, wait_inside,
}
use infra.Server.Waiting.{Waits}
use infra.Server.Taken.{Placed, IsProper, Panics, Serves, IsBatch}
use infra.Server.Distinct.{Distinct}
use infra.Server.Minibatch.{
  ask_cache-Distinct, Distinct-take, Distinct-drop, reqs_of-Distinct, Placed-wanted,
}

-- The minibatches hold all misses.
batches_cover : (n size : ℕ) → 0 < size → n ≤ (0 + (n + size - 1) / size) * size
batches_cover n size positive =
    let whole = div-add-mod' (n + size - 1) size in
    let part = mod-lt (n + size - 1) positive in omega (arith, whole, part)

module _ {S : Type 0} (o : Outside S) (size : ℕ) (is_batch : Bool) (want : List Bytes) where
  -- The cache has missed elements that stand for requests, and the slots wait for those.
  Missed : (ℕ → Type 0) → List Elem × Progress S → Type 0
  Missed Q (es, p) = All (Placed want) es × Ready want (λ j. In j (indexes es) ⊎ Q j) p.responses

  ask_cache_ok :
      (es : List Elem) (p : Progress S) (Q : ℕ → Type 0)
      → ((req : RpcReq) (s : S) (r : RpcRes) → (o.get_rpc req s).0 ≡ some r → r.id ≡ req.id)
      → All (Placed want) es
      → Ready want (λ j. In j (indexes es) ⊎ Q j) p.responses
      → Missed Q (ask_cache o size is_batch es p)
  unfolding ask_cache Missed
  ask_cache_ok [] p Q hits h ready = (tt, ready)
  ask_cache_ok (e ∷ es) p Q hits h ready =
      let s = (o.get_rpc e.req p.outside).1 in
      found_ok (o.get_rpc e.req p.outside).0 (hits e.req p.outside)
        (λ p' Q'. ask_cache_ok es p' Q' hits h.1)
    where
      found_ok :
          (hit : Option RpcRes)
          → ((r : RpcRes) → hit ≡ some r → r.id ≡ e.req.id)
          → ((p' : Progress S) (Q' : ℕ → Type 0)
              → Ready want (λ j. In j (indexes es) ⊎ Q' j) p'.responses
              → Missed Q' (ask_cache o size is_batch es p'))
          → Missed Q (
              with_miss o size is_batch e hit (
                ask_cache o size is_batch es
                  (looked_up o size is_batch e hit (o.get_rpc e.req p.outside).1 p)))
      found_ok none fits rest =
          let Q' : ℕ → Type 0 = λ j. (j ≡ e.index) ⊎ Q j in
          let (placed, filled) =
            rest (record p { outside = (o.get_rpc e.req p.outside).1 }) Q'
              (Ready-map want _ (λ j. In j (indexes es) ⊎ Q' j) p.responses
                (wait_outside e.index (indexes es) Q) ready) in
          ((h.0, placed), Ready-map want _ _ _ (wait_inside e.index _ Q) filled)
      found_ok (some r) fits rest = rest _ Q (
          Ready-set want Q p.responses e.index (indexes es) r (h.0 ∙ ap some (sym (fits r refl)))
            ready)

  deliver_ok :
      (es : List Elem) (rs : List RpcRes) (p : Progress S) (Q : ℕ → Type 0)
      → res_ids rs ≡ elem_ids es
      → All (Placed want) es
      → Ready want (λ j. In j (indexes es) ⊎ Q j) p.responses
      → Goes (Panics o want) want Q (deliver o size is_batch es rs p)
  unfolding deliver Goes
  deliver_ok [] rs p Q e h ready = Ready-map want _ Q p.responses (none_out Q) ready
  deliver_ok (x ∷ es) [] p Q e h ready = cc
  deliver_ok (x ∷ es) (r ∷ rs) p Q e h ready =
      deliver_ok es rs _ Q (cc e) h.1
        (Ready-set want Q p.responses x.index (indexes es) r (cc (e, h.0)) ready)

  send_minibatch_ok :
      (group : String) (es : List Elem) (p : Progress S) (Q : ℕ → Type 0)
      → Serves o group
      → Distinct es
      → All (Placed want) es
      → Ready want (λ j. In j (indexes es) ⊎ Q j) p.responses
      → Goes (Panics o want) want Q (send_minibatch o size is_batch group es p)
  unfolding send_minibatch Goes
  send_minibatch_ok group es p Q serves distinct h ready =
      let proper = serves is_batch (reqs_of es) p.outside (reqs_of-Distinct es distinct) in
      elim (Option-cases (o.forward group is_batch (reqs_of es) p.outside).0) [
        | inl n ↦
            rw (send_minibatch, n)
              (
                group,
                is_batch,
                reqs_of es,
                p.outside,
                reqs_of-Distinct es distinct,
                Placed-wanted want es h,
                n,
              )
        | inr (a, y) ↦
            let (kept, answers) : IsProper (reqs_of es) (some a) = rw y at proper in
            let (placed, same, ids) = updated_same want es a.reqs kept h in
            let p' : Progress S = record p {
              served_by = add_served a.served_by p.served_by;
              outside = (o.forward group is_batch (reqs_of es) p.outside).1;
            } in
            let ready' =
              subst (λ is. Ready want (λ j. In j is ⊎ Q j) p.responses) (sym same) ready in
            elim (Option-cases a.error) [
              | inl n ↦
                  rw (send_minibatch, y, n)
                    (deliver_ok (updated es a.reqs) a.res p' Q (answers n ∙ sym ids) placed ready')
              | inr (f, z) ↦ elim (Bool-cases f.ends_call) [
                | inl ends ↦ rw (send_minibatch, y, z, ends) tt
                | inr on ↦
                    rw (send_minibatch, y, z, on)
                      (deliver_ok (updated es a.reqs) (failures f (updated es a.reqs)) p' Q
                        (failures_ids f (updated es a.reqs)) placed ready')
              ]
            ]
      ]

  minibatches_ok :
      (group : String) (misses : List Elem) (left i : ℕ) (p : Progress S) (Q : ℕ → Type 0)
      → length misses ≤ (i + left) * size
      → Serves o group
      → Distinct misses
      → All (Placed want) misses
      → Ready want (λ j. In j (indexes (drop (i * size) misses)) ⊎ Q j) p.responses
      → Goes (Panics o want) want Q (minibatches o size is_batch group misses left i p)
  unfolding minibatches Goes
  minibatches_ok group misses zero i p Q enough serves distinct h ready =
      let done : drop (i * size) misses ≡ [] =
        drop-all (i * size) misses (subst (λ k. length misses ≤ k * size) (omega arith) enough) in
      Ready-map want (λ j. In j (indexes (drop (i * size) misses)) ⊎ Q j) Q p.responses
        (λ j w. none_out Q j (subst (λ l. In j (indexes l) ⊎ Q j) done w)) ready
  minibatches_ok group misses (suc left) i p Q enough serves distinct h ready =
      elim (Bool-cases (o.expired p.outside)) [
        | inl y ↦ rw (minibatches, y) tt
        | inr n ↦
            let rest = drop (i * size) misses in
            let Q' : ℕ → Type 0 = λ j. In j (indexes (drop ((i + 1) * size) misses)) ⊎ Q j in
            rw (minibatches, n)
              (and_then-Goes (Panics o want) want Q' Q _ _
                (λ p' ready'.
                  minibatches_ok group misses left (i + 1) p' Q
                    (subst (λ k. length misses ≤ k * size) (omega arith) enough) serves distinct h
                    ready')
                (send_minibatch_ok group (take size rest) p Q' serves
                  (Distinct-take size rest (Distinct-drop (i * size) misses distinct))
                  (All-take (Placed want) size rest (All-drop (Placed want) (i * size) misses h))
                  (Ready-map want _ _ p.responses (λ j w. part j w) ready)))
      ]
    where
      part :
          (j : ℕ)
          → In j (indexes (drop (i * size) misses)) ⊎ Q j
          → In j (indexes (take size (drop (i * size) misses)))
            ⊎ (In j (indexes (drop ((i + 1) * size) misses)) ⊎ Q j)
      part j (inr q) = inr (inr q)
      part j (inl m) = elim (In-take-drop size (drop (i * size) misses) j m) [
        | inl k ↦ inl k
        | inr k ↦ inr (
            inl (
              subst (λ l. In j (indexes l))
                (drop-drop size (i * size) ((i + 1) * size) misses (omega arith)) k))
      ]

  run_batch_ok :
      (b : BatchGroup × List Elem) (p : Progress S) (Q : ℕ → Type 0)
      → 0 < size
      → ((req : RpcReq) (s : S) (r : RpcRes) → (o.get_rpc req s).0 ≡ some r → r.id ≡ req.id)
      → IsBatch o want b
      → Distinct b.1
      → Ready want (λ j. In j (indexes b.1) ⊎ Q j) p.responses
      → Goes (Panics o want) want Q (run_batch o size is_batch b p)
  unfolding run_batch Missed
  run_batch_ok (g, batch) p Q positive hits (serves, h) distinct ready =
      let (placed, ready') = ask_cache_ok batch p Q hits h ready in
      let (misses, p') = ask_cache o size is_batch batch p in
      minibatches_ok g.backend_group misses (num_batches o size is_batch (length misses)) 0 p' Q
        (batches_cover (length misses) size positive) serves
        (ask_cache-Distinct o size is_batch batch p distinct) placed
        (subst (λ k. Ready want (λ j. In j (indexes (drop k misses)) ⊎ Q j) p'.responses) {x = 0}
          (omega arith) ready')

  pub run_batches_ok :
      (bs : Batches) (p : Progress S)
      → 0 < size
      → ((req : RpcReq) (s : S) (r : RpcRes) → (o.get_rpc req s).0 ≡ some r → r.id ≡ req.id)
      → All (IsBatch o want) bs
      → All (λ (b : BatchGroup × List Elem). Distinct b.1) bs
      → Ready want (Waits bs) p.responses
      → Goes (Panics o want) want (λ _. ⊥) (run_batches o size is_batch bs p)
  unfolding run_batches Goes Waits
  run_batches_ok [] p positive hits h distinct ready =
      Ready-map want _ (λ _. ⊥) p.responses (λ j w. elim (w.1) [ ]) ready
  run_batches_ok (b ∷ bs) p positive hits h distinct ready =
      and_then-Goes (Panics o want) want (Waits bs) (λ _. ⊥) (run_batch o size is_batch b p) _
        (λ p' ready'. run_batches_ok bs p' positive hits h.1 distinct.1 ready')
        (run_batch_ok b p (Waits bs) positive hits h.0 distinct.0
          (Ready-map want _ _ p.responses (λ j w. part j w) ready))
    where
      part : (j : ℕ) → Waits (b ∷ bs) j → In j (indexes b.1) ⊎ Waits bs j
      part j (_, here _, m) = inl m
      part j (c, there _ _ k, m) = inr (c, k, m)
