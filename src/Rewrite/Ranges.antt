-- ===== src/Rewrite/Ranges.antt =====
-- proxyd/rewriter.go: `rewriteRange` on the filters of `eth_getLogs` and `eth_newFilter`.
use infra.Base.{
  ◌||◌, str_eq, sub64, add64, ◌&&◌, ltb, ℕ, ◌+◌, ◌≤◌, ◌<◌, ◌≡◌, ◌↔◌, inl, inr, refl, subst, Bool,
  true, Option, some, String, List, [], ◌∷◌, arith, Option-cases, Bool-cases, u64, ◌≢◌,
}
use infra.Base.Call.{done-ne-panicked, done, panicked, ◌>>=◌, >>=-eq-done, >>=-ne-panicked}
use infra.Hex.{Hex}
use infra.Json.{as_text, Json, Fields, lookup}
use infra.EthRpc.{EthRpc}
use infra.Rewrite.{
  rewritten, rewrite_tag_entry, RewriteContext, rewrite_tag_map, block_number, check_range,
  default_range, rewrite_filter, rewrite_range, unmarshal_maps, fields_of, is_some,
}
use infra.Rewrite.Bounds.{rewrite_tag-ne-panicked}

module _ (hex : Hex) (rpc : EthRpc hex) (rctx : RewriteContext) where
  block_number-ne-panicked :
      (m : Fields) (key : String) → block_number hex rpc rctx m key ≢ panicked
  unfolding block_number
  block_number-ne-panicked m key e = ground arith

  check_range-ne-panicked : (b : Bool) (m : Fields) → check_range hex rpc rctx b m ≢ panicked
  unfolding check_range
  check_range-ne-panicked b m = elim (Bool-cases (ltb 0 rctx.max_block_range && b)) [
    | inl on ↦ rw on (
        >>=-ne-panicked _ _ (block_number-ne-panicked m "fromBlock") λ from.
          >>=-ne-panicked _ _ (block_number-ne-panicked m "toBlock") λ to. λ e. ground arith)
    | inr off ↦ rw off (λ e. cc)
  ]

  rewrite_tag_map-ne-panicked :
      (m : Fields) (key : String) → rewrite_tag_map hex rpc rctx m key ≢ panicked
  unfolding rewrite_tag_map
  rewrite_tag_map-ne-panicked m key = elim (Option-cases (lookup key m)) [
    | inl q ↦ rw (q, rewrite_tag_map) (λ e. cc)
    | inr (v, q) ↦ rw (q, rewrite_tag_map) (on_value v)
  ]
    where
      on_value : (v : Json) → rewrite_tag_entry hex rpc rctx m key v ≢ panicked
      on_value (Json.text current) = elim (Bool-cases (str_eq current "")) [
        | inl e ↦ rw e (λ q. cc)
        | inr e ↦
            rw e (>>=-ne-panicked _ _ (rewrite_tag-ne-panicked hex rpc rctx current) (λ a q. cc))
      ]
      on_value Json.null = λ e. cc
      on_value _ = λ e. cc

  rewrite_filter-ne-panicked : (m : Fields) → rewrite_filter hex rpc rctx m ≢ panicked
  unfolding rewrite_filter
  rewrite_filter-ne-panicked m =
      let has_from = is_some (lookup "fromBlock" m) in
      let has_to = is_some (lookup "toBlock" m) in
      >>=-ne-panicked _ _
        (rewrite_tag_map-ne-panicked (default_range hex rpc rctx has_from has_to m) "fromBlock")
        λ a. >>=-ne-panicked _ _ (rewrite_tag_map-ne-panicked a.0 "toBlock") λ b.
          >>=-ne-panicked _ _ (check_range-ne-panicked (has_from || has_to) b.0)
            (λ c. done-ne-panicked (b.0, a.1 || b.1))

  -- `rewriteRange` panics exactly on a list of filters that is empty (or `null`).
  pub rewrite_range_panics_iff :
      (params : Option Json)
      → (rewrite_range hex rpc rctx params 0 ≡ panicked) ↔ (unmarshal_maps params ≡ some [])
  unfolding rewrite_range
  rewrite_range_panics_iff params = (to, λ e. rw (e, rewrite_range) refl)
    where
      filtered :
          (m : Option Fields) (ms : List (Option Fields))
          → (rewrite_filter hex rpc rctx (fields_of m) >>= rewritten (m ∷ ms) 0) ≢ panicked
      filtered m ms =
          >>=-ne-panicked _ _ (rewrite_filter-ne-panicked (fields_of m)) (λ a. done-ne-panicked _)

      on_list :
          (p : List (Option Fields))
          → unmarshal_maps params ≡ some p
          → rewrite_range hex rpc rctx params 0 ≡ panicked
          → unmarshal_maps params ≡ some []
      on_list [] e h = e
      on_list (m ∷ ms) e h = absurd (filtered m ms (rw (e, rewrite_range) at h))

      to : rewrite_range hex rpc rctx params 0 ≡ panicked → unmarshal_maps params ≡ some []
      to h = elim (Option-cases (unmarshal_maps params)) [
        | inl q ↦ cc (rw (q, rewrite_range) at h)
        | inr (p, q) ↦ on_list p q h
      ]

  block_number_bound :
      (m : Fields) (key : String) {n : ℕ} → block_number hex rpc rctx m key ≡ done n → n < u64
  unfolding block_number add64
  block_number_bound m key {n} e = elim (Option-cases (as_text (lookup key m))) [
    | inl q ↦ cc (rw (q, block_number) at e)
    | inr (s, q) ↦ ground (arith, hex.decode_bound s n)
  ]

  range_bounds :
      (from to : ℕ)
      → from < u64
      → to < u64
      → sub64 to from ≤ rctx.max_block_range
      → (from ≤ to → to ≤ from + rctx.max_block_range)
        × (to < from → to + u64 ≤ from + rctx.max_block_range)
  unfolding sub64
  range_bounds from to hf ht h = omega arith

  check_range_bounds :
      (m : Fields)
      → 0 < rctx.max_block_range
      → check_range hex rpc rctx true m ≡ done tt
      → (from : ℕ) × (to : ℕ) × (block_number hex rpc rctx m "fromBlock" ≡ done from)
        × (block_number hex rpc rctx m "toBlock" ≡ done to)
        × (from ≤ to → to ≤ from + rctx.max_block_range)
        × (to < from → to + u64 ≤ from + rctx.max_block_range)
  unfolding check_range
  check_range_bounds m pos e =
      let on : (ltb 0 rctx.max_block_range && true) ≡ true = ground arith in
      let (from, ef, e₁) =
        >>=-eq-done (block_number hex rpc rctx m "fromBlock") _ (rw (on, check_range) at e) in
      let (to, et, e₂) = >>=-eq-done (block_number hex rpc rctx m "toBlock") _ e₁ in
      let (a, b) =
        range_bounds from to (block_number_bound m "fromBlock" ef)
          (block_number_bound m "toBlock" et) (ground arith) in
      (from, to, ef, et, a, b)

  checked_as :
      (has_one : Bool) (m m' : Fields) {c : Unit {0}}
      → has_one ≡ true
      → m ≡ m'
      → check_range hex rpc rctx has_one m ≡ done c
      → check_range hex rpc rctx true m' ≡ done tt
  checked_as has_one m m' has same e =
      subst (λ k. check_range hex rpc rctx true k ≡ done tt) same
        (subst (λ b. check_range hex rpc rctx b m ≡ done tt) has e)

  -- With a maximum for ranges, a filter that has one of the two bounds, and that `rewriteRange`
  -- passes on, has two bounds after it that are read as numbers, and spans no more than the maximum:
  -- its end is not further behind its start, and its start is behind its end only by a distance for
  -- which the `uint64` wraps back into the maximum.
  pub rewrite_filter_bounds :
      (m m' : Fields) (modified : Bool)
      → 0 < rctx.max_block_range
      → (is_some (lookup "fromBlock" m) || is_some (lookup "toBlock" m)) ≡ true
      → rewrite_filter hex rpc rctx m ≡ done (m', modified)
      → (from : ℕ) × (to : ℕ) × (block_number hex rpc rctx m' "fromBlock" ≡ done from)
        × (block_number hex rpc rctx m' "toBlock" ≡ done to)
        × (from ≤ to → to ≤ from + rctx.max_block_range)
        × (to < from → to + u64 ≤ from + rctx.max_block_range)
  unfolding rewrite_filter
  rewrite_filter_bounds m m' modified positive has e =
      let has_from = is_some (lookup "fromBlock" m) in
      let has_to = is_some (lookup "toBlock" m) in
      let (a, ea, e₁) =
        >>=-eq-done
          (rewrite_tag_map hex rpc rctx (default_range hex rpc rctx has_from has_to m) "fromBlock")
          _ e in
      let (b, eb, e₂) = >>=-eq-done (rewrite_tag_map hex rpc rctx a.0 "toBlock") _ e₁ in
      let (c, ec, e₃) = >>=-eq-done (check_range hex rpc rctx (has_from || has_to) b.0) _ e₂ in
      check_range_bounds m' positive (checked_as (has_from || has_to) b.0 m' {c = c} has (cc e₃) ec)
