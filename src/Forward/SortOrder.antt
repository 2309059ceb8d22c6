-- ===== src/Forward/SortOrder.antt =====
-- proxyd/backend.go: where `sortBatchRPCResponse` panics, and that it restores the order of the
-- requests.
use mathlib.Core.Path.{subst}
use mathlib.Core.Logic.Or
use mathlib.Core.List.{Mem, Perm, mem-cons, not-mem-nil}
use mathlib.Core.List.Perm
use native.Mathlib.Bridge.{le_prop}
use infra.Base.Perms.{All-Mem}
use infra.Base.{
  ℕ, ◌+◌, ◌≤◌, ◌<◌, ◌≡◌, ◌≢◌, ◌↔◌, inl, inr, refl, sym, ◌∙◌, true, none, some, List, [], ◌∷◌, leb,
  All, All-map, All-both, Bool-cases, Option-cases, arith,
}
use infra.Base.Call.{done, panicked}
use infra.Rpc.{RpcReq, RpcRes, Bytes, req_ids, res_ids}
use infra.Forward.Send.{ForwardErr}
use infra.Forward.Sorting.{
  bytes_eq, Positions, find, positions, position, insert_by, sort_by, sort_batch_rpc_response,
}

pub bytes_eq→eq : (a b : Bytes) → bytes_eq a b ≡ true → a ≡ b
unfolding bytes_eq
bytes_eq→eq [] [] e = refl
bytes_eq→eq [] (b ∷ bs) e = cc
bytes_eq→eq (a ∷ as') [] e = cc
bytes_eq→eq (a ∷ as') (b ∷ bs) e = ground (arith, bytes_eq→eq as' bs)

pub bytes_eq_refl : (a : Bytes) → bytes_eq a a ≡ true
unfolding bytes_eq
bytes_eq_refl [] = refl
bytes_eq_refl (a ∷ as') = ground (arith, bytes_eq_refl as')

-- No ID stands twice.
abbrev pub Distinct : List Bytes → Type 0
Distinct [] = Unit
Distinct (k ∷ ks) = All (λ j. k ≢ j) ks × Distinct ks

-- The map that the first loop starts from does not know the key.
Unknown : Positions → Bytes → Type 0
Unknown pos k = find k pos ≡ none

find_here : (k : Bytes) (i : ℕ) (pos : Positions) → find k ((k, i) ∷ pos) ≡ some i
unfolding find
find_here k i pos = rw (bytes_eq_refl k) refl

find_there : (k j : Bytes) (i : ℕ) (pos : Positions) → k ≢ j → find j ((k, i) ∷ pos) ≡ find j pos
unfolding find
find_there k j i pos h = elim (Bool-cases (bytes_eq k j)) [
  | inl y ↦ absurd (h (bytes_eq→eq k j y))
  | inr n ↦ rw n refl
]

-- A key that is found stays where it is.
positions-keeps :
    (i : ℕ) (reqs : List RpcReq) (acc : Positions) {pos : Positions} (k : Bytes) {n : ℕ}
    → positions i reqs acc ≡ some pos
    → find k acc ≡ some n
    → find k pos ≡ some n
unfolding positions
positions-keeps i [] acc {pos} k {n} e h = let same : acc ≡ pos = cc e in rw (← same) h
positions-keeps i (r ∷ reqs) acc {pos} k {n} e h = elim (Option-cases (find r.id acc)) [
  | inr (m, q) ↦ cc (rw (q, positions) at e)
  | inl q ↦ elim (Bool-cases (bytes_eq r.id k)) [
    | inl y ↦
        let same : find r.id acc ≡ some n =
          subst (λ x. find x acc ≡ some n) (sym (bytes_eq→eq r.id k y)) h in
        cc
    | inr d ↦
        let kept : find k ((r.id, i) ∷ acc) ≡ some n = unfold find in rw d h in
        positions-keeps (i + 1) reqs ((r.id, i) ∷ acc) k (rw (q, positions) at e) kept
  ]
]

positions_total :
    (i : ℕ) (reqs : List RpcReq) (acc : Positions)
    → Distinct (req_ids reqs)
    → All (Unknown acc) (req_ids reqs)
    → (pos : Positions) × (positions i reqs acc ≡ some pos)
unfolding positions Unknown
positions_total i [] acc d u = (acc, refl)
positions_total i (r ∷ reqs) acc d u =
    let still : All (Unknown ((r.id, i) ∷ acc)) (req_ids reqs) =
      All-both (Unknown acc) (λ k. r.id ≢ k) (Unknown ((r.id, i) ∷ acc)) (req_ids reqs)
        (λ k known other. find_there r.id k i acc other ∙ known) u.1 d.0 in
    let (pos, e) = positions_total (i + 1) reqs ((r.id, i) ∷ acc) d.1 still in
    (pos, rw (u.0, positions) e)

Unknown-before :
    (id : Bytes) (i : ℕ) (acc : Positions) (k : Bytes)
    → Unknown ((id, i) ∷ acc) k
    → (id ≢ k) × Unknown acc k
unfolding Unknown
Unknown-before id i acc k u =
    let other : id ≢ k =
      λ e. cc (sym (subst (λ x. find x ((id, i) ∷ acc) ≡ some i) e (find_here id i acc)) ∙ u) in
    (other, sym (find_there id k i acc other) ∙ u)

positions-Distinct :
    (i : ℕ) (reqs : List RpcReq) (acc : Positions) {pos : Positions}
    → positions i reqs acc ≡ some pos
    → All (Unknown acc) (req_ids reqs) × Distinct (req_ids reqs)
unfolding positions
positions-Distinct i [] acc e = (tt, tt)
positions-Distinct i (r ∷ reqs) acc e = elim (Option-cases (find r.id acc)) [
  | inr (m, q) ↦ cc (rw (q, positions) at e)
  | inl q ↦
      let (u, d) = positions-Distinct (i + 1) reqs ((r.id, i) ∷ acc) (rw (q, positions) at e) in
      (
        (
          unfold Unknown in q,
          All-map _ (Unknown acc) (req_ids reqs) (λ k h. (Unknown-before r.id i acc k h).1) u,
        ),
        (All-map _ (λ k. r.id ≢ k) (req_ids reqs) (λ k h. (Unknown-before r.id i acc k h).0) u, d),
      )
]

position_found : (pos : Positions) (k : Bytes) (i : ℕ) → find k pos ≡ some i → position pos k ≡ i
unfolding position
position_found pos k i e = rw (e, position) refl

-- The keys grow along the list.
Ascending : (Bytes → ℕ) → List Bytes → Type 0
Ascending key [] = Unit
Ascending key (k ∷ ks) = All (λ j. key k < key j) ks × Ascending key ks

positions-Ascending :
    (i : ℕ) (reqs : List RpcReq) (acc : Positions) {pos : Positions}
    → positions i reqs acc ≡ some pos
    → All (λ k. i ≤ position pos k) (req_ids reqs) × Ascending (position pos) (req_ids reqs)
unfolding positions Ascending
positions-Ascending i [] acc e = (tt, tt)
positions-Ascending i (r ∷ reqs) acc {pos} e = elim (Option-cases (find r.id acc)) [
  | inr (m, q) ↦ cc (rw (q, positions) at e)
  | inl q ↦
      let next : positions (i + 1) reqs ((r.id, i) ∷ acc) ≡ some pos = rw (q, positions) at e in
      let (above, ascending) = positions-Ascending (i + 1) reqs ((r.id, i) ∷ acc) next in
      let at_i : position pos r.id ≡ i =
        let found : find r.id pos ≡ some i =
          positions-keeps (i + 1) reqs ((r.id, i) ∷ acc) r.id next (find_here r.id i acc) in
        position_found pos r.id i found in
      (
        (
          omega arith,
          All-map _ (λ k. i ≤ position pos k) (req_ids reqs) (λ k h. omega arith) above,
        ),
        (
          All-map _ (λ k. position pos r.id < position pos k) (req_ids reqs) (λ k h. omega arith)
              above,
          ascending,
        ),
      )
]

-- The keys do not fall along the list.
IsSorted : (Bytes → ℕ) → List Bytes → Type 0
IsSorted key [] = Unit
IsSorted key (k ∷ ks) = All (λ j. key k ≤ key j) ks × IsSorted key ks

Bytes-set : IsSet Bytes
Bytes-set = hlevel

-- A list with keys that do not fall, of the items of one with keys that grow, is that list.
sorted_unique :
    (key : Bytes → ℕ) (xs ys : List Bytes)
    → Perm xs ys
    → IsSorted key xs
    → Ascending key ys
    → xs ≡ ys
unfolding IsSorted Ascending
sorted_unique key xs [] p s a = Perm.eq-nil p
sorted_unique key [] (y ∷ ys) p s a =
    absurd (not-mem-nil ((Perm.mem_iff p).1 (mem-cons.1 (Or.inl refl))))
sorted_unique key (x ∷ xs) (y ∷ ys) p s a =
    let x_in : Mem x (y ∷ ys) = (Perm.mem_iff p).0 (mem-cons.1 (Or.inl refl)) in
    let y_in : Mem y (x ∷ xs) = (Perm.mem_iff p).1 (mem-cons.1 (Or.inl refl)) in
    let same : x ≡ y =
      Or.elim (Bytes-set x y) (mem-cons.0 x_in) (λ e. e)
        (λ later.
          Or.elim (Bytes-set x y) (mem-cons.0 y_in) (λ e. sym e)
            (λ earlier.
              let above : key y < key x =
                All-Mem (λ j. key y < key j) (λ j. le_prop) ys a.0 later in
              let below : key x ≤ key y =
                All-Mem (λ j. key x ≤ key j) (λ j. le_prop) xs s.0 earlier in
              absurd (omega arith))) in
    let rest : Perm xs ys = Perm.cons_inv (subst (λ z. Perm (z ∷ xs) (y ∷ ys)) same p) in
    rw (same, sorted_unique key xs ys rest s.1 a.1) refl

module _ (key : Bytes → ℕ) where
  abbrev by_id : RpcRes → ℕ
  by_id r = key r.id

  insert_by-perm : (r : RpcRes) (rs : List RpcRes) → Perm (insert_by by_id r rs) (r ∷ rs)
  unfolding insert_by
  insert_by-perm r [] = Perm.refl (r ∷ [])
  insert_by-perm r (x ∷ xs) = elim (Bool-cases (leb (key r.id) (key x.id))) [
    | inl y ↦ rw y (Perm.refl (r ∷ x ∷ xs))
    | inr n ↦ rw n (Perm.trans (Perm.cons x (insert_by-perm r xs)) (Perm.swap r x xs))
  ]

  pub sort_by-perm : (rs : List RpcRes) → Perm (sort_by by_id rs) rs
  unfolding sort_by
  sort_by-perm [] = Perm.refl []
  sort_by-perm (r ∷ rs) =
      Perm.trans (insert_by-perm r (sort_by by_id rs)) (Perm.cons r (sort_by-perm rs))

  -- A bound below the key of `r` and those of `rs`.
  insert_by-above :
      (n : ℕ) (r : RpcRes) (rs : List RpcRes)
      → n ≤ key r.id
      → All (λ k. n ≤ key k) (res_ids rs)
      → All (λ k. n ≤ key k) (res_ids (insert_by by_id r rs))
  unfolding insert_by
  insert_by-above n r [] h a = (h, tt)
  insert_by-above n r (x ∷ xs) h a = elim (Bool-cases (leb (key r.id) (key x.id))) [
    | inl y ↦ rw y (h, a)
    | inr m ↦ rw m (a.0, insert_by-above n r xs h a.1)
  ]

  insert_by-IsSorted :
      (r : RpcRes) (rs : List RpcRes)
      → IsSorted key (res_ids rs)
      → IsSorted key (res_ids (insert_by by_id r rs))
  unfolding insert_by IsSorted
  insert_by-IsSorted r [] s = (tt, tt)
  insert_by-IsSorted r (x ∷ xs) s = elim (Bool-cases (leb (key r.id) (key x.id))) [
    | inl y ↦
        let le : key r.id ≤ key x.id = ground arith in
        rw y ((le, All-map _ (λ k. key r.id ≤ key k) (res_ids xs) (λ k h. omega arith) s.0), s)
    | inr m ↦
        let le : key x.id ≤ key r.id = ground arith in
        rw m (insert_by-above (key x.id) r xs le s.0, insert_by-IsSorted r xs s.1)
  ]

  sort_by-IsSorted : (rs : List RpcRes) → IsSorted key (res_ids (sort_by by_id rs))
  unfolding sort_by
  sort_by-IsSorted [] = unfold IsSorted in tt
  sort_by-IsSorted (r ∷ rs) = insert_by-IsSorted r (sort_by by_id rs) (sort_by-IsSorted rs)

Unknown-all : (ks : List Bytes) → All (Unknown []) ks
unfolding Unknown find
Unknown-all [] = tt
Unknown-all (k ∷ ks) = (refl, Unknown-all ks)

-- `sortBatchRPCResponse` panics exactly where two requests have the same ID.
pub sort_batch-panics_iff :
    (reqs : List RpcReq) (rs : List RpcRes)
    → (sort_batch_rpc_response {E = ForwardErr} reqs rs ≡ panicked) ↔ (¬ Distinct (req_ids reqs))
unfolding sort_batch_rpc_response
sort_batch-panics_iff reqs rs = (
  λ e d.
      let (pos, q) = positions_total 0 reqs [] d (Unknown-all (req_ids reqs)) in
      cc (rw (q, sort_batch_rpc_response) at e),
  λ nd. elim (Option-cases (positions 0 reqs [])) [
    | inl n ↦ rw (n, sort_batch_rpc_response) refl
    | inr (pos, q) ↦ absurd (nd (positions-Distinct 0 reqs [] q).1)
  ],
)

-- Where the requests have distinct IDs and the backend answers with the same IDs in any order,
-- `sortBatchRPCResponse` rearranges the responses so that their IDs are in the order of the
-- requests.
pub sort_batch-restores :
    (reqs : List RpcReq) (rs : List RpcRes)
    → Distinct (req_ids reqs)
    → Perm (res_ids rs) (req_ids reqs)
    → (sorted : List RpcRes) × (sort_batch_rpc_response {E = ForwardErr} reqs rs ≡ done sorted)
      × Perm sorted rs
      × (res_ids sorted ≡ req_ids reqs)
unfolding sort_batch_rpc_response
sort_batch-restores reqs rs d p =
    let (pos, q) = positions_total 0 reqs [] d (Unknown-all (req_ids reqs)) in
    let key : Bytes → ℕ = position pos in
    let shuffled : Perm (sort_by (λ r. key r.id) rs) rs = sort_by-perm key rs in
    (
      sort_by (λ r. key r.id) rs,
      rw (q, sort_batch_rpc_response) refl,
      shuffled,
      sorted_unique key _ (req_ids reqs) (Perm.trans (Perm.map (λ (r : RpcRes). r.id) shuffled) p)
          (sort_by-IsSorted key rs) (positions-Ascending 0 reqs [] q).1,
    )
