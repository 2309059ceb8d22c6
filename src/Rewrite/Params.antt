-- ===== src/Rewrite/Params.antt =====
-- proxyd/rewriter.go: what `rewriteParam` forwards of the parameters of a request.
use mathlib.Core.Path.{subst}
use infra.Base.{
  ◌∙◌, sym, not, get_elem?-set-some, get_elem?-append_left, ◌&&◌, if◌then◌else◌, ◌==◌, ◌++◌, ℕ, ◌≤◌,
  ◌≡◌, inl, inr, refl, Bool, true, false, Option, some, String, List, [], ◌∷◌, length, get_elem?,
  set, arith, Option-cases, Bool-cases,
}
use infra.Base.Call.{Call, done, failed, panicked, ◌>>=◌}
use infra.Hex.{Hex}
use infra.Json.{Json, as_text, of_list}
use infra.EthRpc.{
  EthRpc, BlockNumberOrHash, number, hash, neither, at, pending, earliest, finalized, safe, latest,
}
use infra.Rewrite.{
  override_response, override_error, RewriteContext, RewriteErr, RewriteResult, rewrite_none,
  override_request, exceeds, rewrite_tag, rewrite_tag_block_number_or_hash, rewrite_value,
  rewrite_at, rewrite_param, unmarshal_items,
}
use infra.Rewrite.Bounds.{
  rewrite_tag-ne-panicked, IsSane, IsWithin, rewrite_tag-IsWithin, rewrite_tag_kept,
  marshal-IsWithin,
}

exceeds-le : (n top : ℕ) → exceeds n top ≡ false → n ≤ top
unfolding exceeds
exceeds-le n top h = ground arith

module _ (hex : Hex) (rpc : EthRpc hex) (rctx : RewriteContext) where
  -- What is forwarded in place of `v`, if anything is, is served.
  abbrev Settled : Json → Call RewriteErr (Json × Bool) → Type 0
  Settled v (done (v', true)) = IsWithin hex rpc rctx v'
  Settled v (done (v', false)) = IsWithin hex rpc rctx v
  Settled v (failed e) = Unit
  Settled v panicked = ⊥

  number-Settled :
      (v : Json) (t : BlockNumberOrHash)
      → IsSane rctx
      → rpc.parse v ≡ some t
      → Settled v (
          rewrite_tag_block_number_or_hash hex rpc rctx t >>= λ (val, b). done (rpc.marshal val, b))
  unfolding rewrite_tag_block_number_or_hash
  number-Settled v (hash h) sane p = (hash h, p, tt)
  number-Settled v neither sane p = (neither, p, tt)
  number-Settled v (number pending) sane p = (number pending, p, tt)
  number-Settled v (number earliest) sane p = (number earliest, p, tt)
  number-Settled v (number finalized) sane p =
      marshal-IsWithin hex rpc rctx rctx.finalized sane sane.finalized_le
  number-Settled v (number safe) sane p = marshal-IsWithin hex rpc rctx rctx.safe sane sane.safe_le
  number-Settled v (number latest) sane p =
      marshal-IsWithin hex rpc rctx rctx.latest sane (omega arith)
  number-Settled v (number (at n)) sane p = elim (Bool-cases (exceeds n rctx.latest)) [
    | inl far ↦ rw far tt
    | inr near ↦ rw near (number (at n), p, exceeds-le n rctx.latest near)
  ]

  text-Settled :
      (s : String)
      → IsSane rctx
      → Settled (Json.text s) (rewrite_tag hex rpc rctx s >>= λ (val, b). done (Json.text val, b))
  text-Settled s sane = go (rewrite_tag hex rpc rctx s) refl
    where
      go :
          (c : Call RewriteErr (String × Bool))
          → rewrite_tag hex rpc rctx s ≡ c
          → Settled (Json.text s) (c >>= λ (val, b). done (Json.text val, b))
      go (done (s', true)) e = rewrite_tag-IsWithin hex rpc rctx s sane e
      go (done (s', false)) e =
          subst (λ x. IsWithin hex rpc rctx (Json.text x)) (rewrite_tag_kept hex rpc rctx s e)
            (rewrite_tag-IsWithin hex rpc rctx s sane e)
      go (failed x) e = tt
      go panicked e = rewrite_tag-ne-panicked hex rpc rctx s e

  plain-Settled : (v : Json) → IsSane rctx → Settled v (rewrite_value hex rpc rctx false v)
  unfolding rewrite_value as_text
  plain-Settled (Json.text s) sane = text-Settled s sane
  plain-Settled _ sane = tt

  rewrite_value-Settled :
      (flag : Bool) (v : Json) → IsSane rctx → Settled v (rewrite_value hex rpc rctx flag v)
  unfolding rewrite_value
  rewrite_value-Settled false v sane = plain-Settled v sane
  rewrite_value-Settled true v sane = elim (Option-cases (rpc.parse v)) [
    | inl q ↦ rw (q, rewrite_value) (plain-Settled v sane)
    | inr (t, q) ↦ rw (q, rewrite_value) (number-Settled v t sane q)
  ]

  -- What `rewriteParam` forwards of the parameters `p`: as they are, if the one at `pos` is served
  -- or missing, or with a served one in its place.
  abbrev pub Forwards : List Json → ℕ → Call RewriteErr RewriteResult → Type 0
  Forwards p pos (done rewrite_none) =
      (v : Json) → get_elem? p pos ≡ some v → IsWithin hex rpc rctx v
  Forwards p pos (done (override_request q)) =
      (p' : List Json) × (v : Json) × (q ≡ Json.arr (of_list p'))
      × (get_elem? p' pos ≡ some v)
      × IsWithin hex rpc rctx v
  Forwards p pos (done _) = ⊥
  Forwards p pos (failed e) = Unit
  Forwards p pos panicked = ⊥

  rewrite_at-Forwards :
      (p : List Json) (pos : ℕ) (flag : Bool)
      → IsSane rctx
      → Forwards p pos (rewrite_at hex rpc rctx p pos flag)
  unfolding rewrite_at
  rewrite_at-Forwards p pos flag sane = elim (Option-cases (get_elem? p pos)) [
    | inl q ↦ rw (q, rewrite_at) (λ v e. cc (sym q ∙ e))
    | inr (v, q) ↦
        rw (q, rewrite_at)
          (go v q (rewrite_value hex rpc rctx flag v) (rewrite_value-Settled flag v sane))
  ]
    where
      go :
          (v : Json)
          → get_elem? p pos ≡ some v
          → (c : Call RewriteErr (Json × Bool)) → Settled v c
          → Forwards p pos (
              c >>= λ (val, b).
              done
                (if b then override_request (Json.arr (of_list (set p pos val))) else rewrite_none))
      go v q (done (v', true)) s = (set p pos v', v', refl, get_elem?-set-some p pos v' q, s)
      go v q (done (v', false)) s =
          λ w e. let same : v ≡ w = cc (sym q ∙ e) in subst (IsWithin hex rpc rctx) same s
      go v q (failed e) s = tt
      go v q panicked s = s

  Forwards-prefix :
      (p rest : List Json) (pos : ℕ) (c : Call RewriteErr RewriteResult)
      → Forwards (p ++ rest) pos c
      → Forwards p pos c
  Forwards-prefix p rest pos (done rewrite_none) f = λ v e. f v (get_elem?-append_left p rest pos e)
  Forwards-prefix p rest pos (done (override_request q)) f = f
  Forwards-prefix p rest pos (done (override_error e)) f = f
  Forwards-prefix p rest pos (done (override_response v)) f = f
  Forwards-prefix p rest pos (failed e) f = f
  Forwards-prefix p rest pos panicked f = f

  -- With the safe and the finalized block at or below the latest, which fits an `int64`:
  -- `rewriteParam` does not panic, and of the parameter at its position it forwards no number above
  -- the latest block and none of the tags `latest`, `safe` and `finalized`. If it leaves the
  -- parameters as they are, that one is missing, or is read as the tag `pending` or `earliest`, as a
  -- number up to the latest block, as a hash, or as neither number nor hash; if it rewrites them, the
  -- one at the position is read as one of these.
  pub rewrite_param-Forwards :
      (params : Option Json) (p : List Json) (pos : ℕ) (required flag : Bool)
      → IsSane rctx
      → unmarshal_items params ≡ some p
      → Forwards p pos (rewrite_param hex rpc rctx params pos required flag)
  unfolding rewrite_param
  rewrite_param-Forwards params p pos required flag sane e =
      rw (e, rewrite_param)
        (elim (Bool-cases (length p == pos && not required)) [
          | inl pad ↦ rw pad (
              Forwards-prefix p _ pos _
                (rewrite_at-Forwards (p ++ Json.text "latest" ∷ []) pos flag sane))
          | inr full ↦ rw full (rewrite_at-Forwards p pos flag sane)
        ])
