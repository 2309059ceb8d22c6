-- ===== src/Server/Slots.antt =====
-- proxyd/server.go: the slots that `handleBatchRPC` makes for its responses. What is in them belongs
-- there, and a slot that is still empty is waited for.
use infra.Base.{
  ℕ, zero, suc, ◌+◌, ◌≤◌, ◌≡◌, ◌≢◌, ◌⊎◌, inl, inr, refl, sym, ap, Option, none, some, List, [], ◌∷◌,
  length, get_elem?, set, take, drop, map, All, In, here, there, arith,
}
use infra.Rpc.{RpcRes, Bytes, res_ids}
use infra.Server.{Elem}

-- A response in the slot of a request has the ID that is wanted there.
abbrev pub Fits : Bytes → Option RpcRes → Type 0
Fits w none = Unit
Fits w (some r) = r.id ≡ w

-- There is one slot for each ID wanted, and responses fit.
unfoldable pub Answers : List Bytes → List (Option RpcRes) → Type 0
Answers [] [] = Unit
Answers (w ∷ ws) (o ∷ os) = Fits w o × Answers ws os
Answers _ _ = ⊥

-- Each empty slot has its number in `Q`.
unfoldable pub Covers : List (Option RpcRes) → (ℕ → Type 0) → Type 0
Covers slots Q = (i : ℕ) → get_elem? slots i ≡ some none → Q i

pub Answers-set :
    (want : List Bytes) (slots : List (Option RpcRes)) (i : ℕ) (r : RpcRes)
    → get_elem? want i ≡ some r.id
    → Answers want slots
    → Answers want (set slots i (some r))
unfolding Answers
Answers-set [] [] i r e a = tt
Answers-set (w ∷ ws) (o ∷ os) zero r e a = (cc, a.1)
Answers-set (w ∷ ws) (o ∷ os) (suc i) r e a = (a.0, Answers-set ws os i r e a.1)
Answers-set [] (o ∷ os) i r e a = absurd a
Answers-set (w ∷ ws) [] i r e a = absurd a

-- A slot that is empty after a write was so before, and is another one.
set_empty :
    (slots : List (Option RpcRes)) (i j : ℕ) (r : RpcRes)
    → get_elem? (set slots j (some r)) i ≡ some none
    → (i ≢ j) × (get_elem? slots i ≡ some none)
set_empty [] i j r e = cc
set_empty (o ∷ os) zero zero r e = cc
set_empty (o ∷ os) zero (suc j) r e = ((λ z. omega (arith, z)), e)
set_empty (o ∷ os) (suc i) zero r e = ((λ z. omega (arith, z)), e)
set_empty (o ∷ os) (suc i) (suc j) r e =
    let (n, h) = set_empty os i j r e in ((λ z. n (omega (arith, z))), h)

-- The slot written is waited for no more.
pub Covers-set :
    (slots : List (Option RpcRes)) (j : ℕ) (r : RpcRes) (Q R : ℕ → Type 0)
    → ((i : ℕ) → Q i → (i ≡ j) ⊎ R i)
    → Covers slots Q
    → Covers (set slots j (some r)) R
unfolding Covers
Covers-set slots j r Q R split covers i e =
    let (other, empty) = set_empty slots i j r e in
    elim (split i (covers i empty)) [ inl z ↦ absurd (other z) | inr q ↦ q ]

-- Where nothing is waited for, there is a response with each ID wanted, in their order.
pub Answers-full :
    (want : List Bytes) (slots : List (Option RpcRes))
    → Answers want slots
    → Covers slots (λ _. ⊥)
    → (rs : List RpcRes) × (slots ≡ map some rs) × (res_ids rs ≡ want)
unfolding Answers Covers
Answers-full [] [] a c = ([], refl, refl)
Answers-full (w ∷ ws) (none ∷ os) a c = absurd (c 0 refl)
Answers-full (w ∷ ws) (some r ∷ os) a c =
    let (rs, e, h) = Answers-full ws os a.1 (λ i z. c (suc i) z) in
    (r ∷ rs, ap (λ l. some r ∷ l) e, cc (a.0, h))
Answers-full [] (o ∷ os) a c = absurd a
Answers-full (w ∷ ws) [] a c = absurd a

abbrev pub indexes : List Elem → List ℕ
indexes es = map (λ (e : Elem). e.index) es

-- The front and the rest of a list.
pub In-take-drop :
    (n : ℕ) (es : List Elem) (i : ℕ)
    → In i (indexes es)
    → In i (indexes (take n es)) ⊎ In i (indexes (drop n es))
In-take-drop zero es i m = inr m
In-take-drop (suc n) [] i m = elim m [ ]
In-take-drop (suc n) (e ∷ es) i (here _) = inl (here _)
In-take-drop (suc n) (e ∷ es) i (there _ _ m) = elim (In-take-drop n es i m) [
  | inl h ↦ inl (there _ _ h)
  | inr h ↦ inr h
]

pub All-take {ℓ κ} :
    {A : Type ℓ} (P : A → Type κ) (n : ℕ) (xs : List A) → All P xs → All P (take n xs)
All-take P zero xs h = tt
All-take P (suc n) [] h = tt
All-take P (suc n) (x ∷ xs) h = (h.0, All-take P n xs h.1)

pub All-drop {ℓ κ} :
    {A : Type ℓ} (P : A → Type κ) (n : ℕ) (xs : List A) → All P xs → All P (drop n xs)
All-drop P zero xs h = h
All-drop P (suc n) [] h = tt
All-drop P (suc n) (x ∷ xs) h = All-drop P n xs h.1

drop-nil {ℓ} : {A : Type ℓ} (n : ℕ) → drop {A = A} n [] ≡ []
drop-nil zero = refl
drop-nil (suc n) = refl

pub drop-drop {ℓ} :
    {A : Type ℓ} (m n k : ℕ) (xs : List A) → n + m ≡ k → drop m (drop n xs) ≡ drop k xs
drop-drop m zero k xs e = ap (λ j. drop j xs) (omega (arith, e))
drop-drop zero (suc n) k [] e = sym (drop-nil k)
drop-drop (suc m) (suc n) k [] e = sym (drop-nil k)
drop-drop m (suc n) zero (x ∷ xs) e = absurd (omega (arith, e))
drop-drop m (suc n) (suc k) (x ∷ xs) e = drop-drop m n k xs (omega (arith, e))

pub drop-all {ℓ} : {A : Type ℓ} (n : ℕ) (xs : List A) → length xs ≤ n → drop n xs ≡ []
drop-all zero [] h = refl
drop-all zero (x ∷ xs) h = absurd (omega (arith, h))
drop-all (suc n) [] h = refl
drop-all (suc n) (x ∷ xs) h = drop-all n xs (omega (arith, h))
