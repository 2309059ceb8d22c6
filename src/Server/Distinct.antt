-- ===== src/Server/Distinct.antt =====
-- proxyd/server.go: the requests of a batch have distinct IDs, which the sorting of the responses of
-- a batch relies on.
use infra.Base.{
  ℕ, ◌+◌, ◌≤◌, ◌≡◌, ◌≢◌, inl, inr, refl, sym, subst, ap, ◌∙◌, Option, none, some, List, [], ◌∷◌,
  ◌++◌, length, All, All-map, ==_iff, Bool-cases, arith,
}
use infra.Rpc.{RpcReq, RpcRes, Bytes}
use infra.Forward.SortOrder.{bytes_eq_refl}
use infra.Server.{Outside, Elem, BatchGroup, Batches}
use infra.Server.Taken.{Verdict-cases, All-snoc, and_left}
use infra.Server.Intake.{
  count_id, bump_id, same_group, append_elem, Taken, early, taken, with_slot, admit, intake,
}

-- The requests of the elements have distinct IDs.
abbrev pub Distinct : List Elem → Type 0
Distinct [] = Unit
Distinct (e ∷ es) = All (λ (f : Elem). f.req.id ≢ e.req.id) es × Distinct es

Distinct-snoc :
    (es : List Elem) (e : Elem)
    → Distinct es
    → All (λ (f : Elem). f.req.id ≢ e.req.id) es
    → Distinct (es ++ e ∷ [])
Distinct-snoc [] e d h = (tt, tt)
Distinct-snoc (x ∷ es) e d h = (
  All-snoc (λ (f : Elem). f.req.id ≢ x.req.id) es e d.0 (λ z. h.0 (sym z)),
  Distinct-snoc es e d.1 h.1,
)

count_id-bump_id :
    (k j : Bytes) (ids : List (Bytes × ℕ)) → count_id j ids ≤ count_id j (bump_id k ids)
unfolding count_id bump_id
count_id-bump_id k j [] = ground arith
count_id-bump_id k j ((i, m) ∷ ids) = ground (arith, count_id-bump_id k j ids)

count_id_bumped :
    (k : Bytes) (ids : List (Bytes × ℕ)) → count_id k (bump_id k ids) ≡ count_id k ids + 1
unfolding count_id bump_id
count_id_bumped k [] = ground (arith, bytes_eq_refl k)
count_id_bumped k ((i, m) ∷ ids) = ground (arith, bytes_eq_refl k, count_id_bumped k ids)

-- A batch, where each ID in it has been counted at least as often as its number says.
abbrev IsCounted : List (Bytes × ℕ) → BatchGroup × List Elem → Type 0
IsCounted ids b = Distinct b.1 × All (λ (e : Elem). b.0.group_id ≤ count_id e.req.id ids) b.1

append_elem-IsCounted :
    (g : BatchGroup) (e : Elem) (ids : List (Bytes × ℕ)) (batches : Batches)
    → g.group_id ≡ count_id e.req.id ids + 1
    → All (IsCounted ids) batches
    → All (IsCounted (bump_id e.req.id ids)) (append_elem g e batches)
unfolding append_elem
append_elem-IsCounted g e ids [] number h =
    (((tt, tt), (rw (count_id_bumped e.req.id ids, number) (omega arith), tt)), tt)
append_elem-IsCounted g e ids ((k, es) ∷ batches) number h = elim (Bool-cases (same_group k g)) [
  | inl y ↦
      let same : k.group_id ≡ g.group_id = (==_iff k.group_id g.group_id).0 (and_left _ _ y) in
      rw y (
        (
          Distinct-snoc es e h.0.0 (
              All-map _ _ es
                (λ (f : Elem) (c : k.group_id ≤ count_id f.req.id ids). other f (same ∙ number) c)
                h.0.1),
          All-snoc _ es e (grown k es h.0.1)
              (omega (arith, same, number, count_id_bumped e.req.id ids)),
        ),
        rest batches h.1,
      )
  | inr n ↦ rw n ((h.0.0, grown k es h.0.1), append_elem-IsCounted g e ids batches number h.1)
]
  where
    other :
        (f : Elem)
        → k.group_id ≡ count_id e.req.id ids + 1
        → k.group_id ≤ count_id f.req.id ids
        → f.req.id ≢ e.req.id
    other f a c z =
        let q : count_id f.req.id ids ≡ count_id e.req.id ids = ap (λ i. count_id i ids) z in
        omega (arith, a, c, q)

    grown :
        (b : BatchGroup) (fs : List Elem)
        → All (λ (f : Elem). b.group_id ≤ count_id f.req.id ids) fs
        → All (λ (f : Elem). b.group_id ≤ count_id f.req.id (bump_id e.req.id ids)) fs
    grown b fs a =
        All-map _ _ fs
          (λ (f : Elem) (c : b.group_id ≤ count_id f.req.id ids).
            omega (arith, c, count_id-bump_id e.req.id f.req.id ids))
          a

    rest : (bs : Batches) → All (IsCounted ids) bs → All (IsCounted (bump_id e.req.id ids)) bs
    rest bs a = All-map _ _ bs (λ b (c : IsCounted ids b). (c.0, grown b.0 b.1 c.1)) a

-- All batches at the end of the loop are of requests with distinct IDs.
HasDistinct : {S : Type 0} → Taken S → Type 0
HasDistinct (early r) = Unit
HasDistinct (taken slots batches s) = All (λ (b : BatchGroup × List Elem). Distinct b.1) batches

module _ {S : Type 0} (o : Outside S) where
  with_slot-HasDistinct :
      (slot : Option RpcRes) (t : Taken S) → HasDistinct t → HasDistinct (with_slot slot t)
  unfolding HasDistinct
  with_slot-HasDistinct slot (early r) h = tt
  with_slot-HasDistinct slot (taken slots batches s) h = h

  intake-HasDistinct :
      (n i : ℕ) (qs : List (Option RpcReq)) (batches : Batches) (ids : List (Bytes × ℕ)) (s : S)
      → All (IsCounted ids) batches
      → HasDistinct (intake o n i qs batches ids s)
  unfolding HasDistinct intake
  intake-HasDistinct n i [] batches ids s h = All-map _ _ batches (λ b (c : IsCounted ids b). c.0) h
  intake-HasDistinct n i (q ∷ qs) batches ids s h = elim (Verdict-cases (admit o n q s).0) [
    | inl (r, e) ↦
        rw (intake, e)
          (with_slot-HasDistinct (some r) _ (intake-HasDistinct n (i + 1) qs batches ids _ h))
    | inr (inl (r, e)) ↦ rw (intake, e) tt
    | inr (inr (req, group, e)) ↦
        let g : BatchGroup = record { group_id = count_id req.id ids + 1; backend_group = group } in
        let el : Elem = record { req = req; index = i } in
        rw (intake, e)
          (with_slot-HasDistinct none _ (
            intake-HasDistinct n (i + 1) qs (append_elem g el batches) (bump_id req.id ids) _
              (append_elem-IsCounted g el ids batches refl h)))
  ]

  -- The batches that the first loop of `handleBatchRPC` makes of the requests of a call hold requests
  -- with distinct IDs, whatever IDs the call repeats.
  pub intake-Distinct :
      (reqs : List (Option RpcReq)) (s s' : S) (slots : List (Option RpcRes)) (batches : Batches)
      → intake o (length reqs) 0 reqs [] [] s ≡ taken slots batches s'
      → All (λ (b : BatchGroup × List Elem). Distinct b.1) batches
  unfolding HasDistinct
  intake-Distinct reqs s s' slots batches e =
      subst HasDistinct e (intake-HasDistinct (length reqs) 0 reqs [] [] s tt)
