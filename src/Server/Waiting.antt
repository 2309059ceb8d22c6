-- ===== src/Server/Waiting.antt =====
-- proxyd/server.go: the requests that wait in batches, as `handleBatchRPC` appends them.
use infra.Base.{ℕ, ◌≡◌, inl, inr, refl, ap, List, [], ◌∷◌, ◌++◌, In, here, there, Bool-cases}
use infra.Server.{Elem, BatchGroup, Batches}
use infra.Server.Intake.{same_group, append_elem}
use infra.Server.Slots.{indexes}

-- There is a batch with a number.
unfoldable pub Waits : Batches → ℕ → Type 0
Waits batches i = (b : BatchGroup × List Elem) × In b batches × In i (indexes b.1)

In-append {ℓ} : {A : Type ℓ} (a : A) (xs ys : List A) → In a ys → In a (xs ++ ys)
In-append a [] ys m = m
In-append a (x ∷ xs) ys m = there _ _ (In-append a xs ys m)

In-append_left {ℓ} : {A : Type ℓ} {a : A} {xs : List A} (ys : List A) → In a xs → In a (xs ++ ys)
In-append_left ys (here xs) = here _
In-append_left ys (there x xs m) = there _ _ (In-append_left ys m)

indexes-append : (es fs : List Elem) → indexes (es ++ fs) ≡ indexes es ++ indexes fs
indexes-append [] fs = refl
indexes-append (e ∷ es) fs = ap (λ l. e.index ∷ l) (indexes-append es fs)

Waits-there :
    (b : BatchGroup × List Elem) (batches : Batches) (i : ℕ)
    → Waits batches i
    → Waits (b ∷ batches) i
unfolding Waits
Waits-there b batches i (c, m, k) = (c, there _ _ m, k)

-- An element that is appended waits, and so do those before.
pub append_elem-Waits :
    (g : BatchGroup) (e : Elem) (batches : Batches)
    → Waits (append_elem g e batches) e.index
      × ((i : ℕ) → Waits batches i → Waits (append_elem g e batches) i)
unfolding append_elem Waits
append_elem-Waits g e [] = ((_, here _, here _), (λ i w. elim (w.1) [ ]))
append_elem-Waits g e ((h, es) ∷ batches) = elim (Bool-cases (same_group h g)) [
  | inl y ↦ rw y (new_here, grown)
  | inr n ↦
      let (new, old) = append_elem-Waits g e batches in
      rw n (Waits-there (h, es) _ e.index new, kept old)
]
  where
    new_here : Waits ((h, es ++ e ∷ []) ∷ batches) e.index
    new_here = (
      (h, es ++ e ∷ []),
      here _,
      rw (indexes-append es (e ∷ [])) (In-append e.index (indexes es) _ (here _)),
    )

    grown : (i : ℕ) → Waits ((h, es) ∷ batches) i → Waits ((h, es ++ e ∷ []) ∷ batches) i
    grown i (_, here _, k) =
        ((h, es ++ e ∷ []), here _, rw (indexes-append es (e ∷ [])) (In-append_left _ k))
    grown i (b, there _ _ m, k) = (b, there _ _ m, k)

    kept :
        ((i : ℕ) → Waits batches i → Waits (append_elem g e batches) i)
        → (i : ℕ) → Waits ((h, es) ∷ batches) i
        → Waits ((h, es) ∷ append_elem g e batches) i
    kept old i (_, here _, k) = ((h, es), here _, k)
    kept old i (b, there _ _ m, k) = Waits-there (h, es) _ i (old i (b, m, k))
