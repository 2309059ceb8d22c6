-- ===== src/Rewrite/Bounds.antt =====
-- proxyd/rewriter.go: what a block parameter that is forwarded is read as.
use mathlib.Core.Path.{subst}
use infra.Base.{
  ◌≢◌, Bool-cases, Option-cases, ℕ, ◌^◌, ◌≤◌, ◌<◌, ◌≡◌, inl, inr, refl, Bool, false, some, String,
  arith,
}
use infra.Base.Call.{Call, done, panicked}
use infra.Hex.{Hex}
use infra.Json.{Json}
use infra.EthRpc.{
  EthRpc, BlockNumberOrHash, number, hash, neither, at, pending, earliest, finalized, safe, latest,
  Names,
}
use infra.Rewrite.{exceeds, resolve_tag, RewriteContext, RewriteErr, rewrite_tag}

-- The consensus has its blocks in order, and they fit an `int64`.
pub record IsSane (rctx : RewriteContext) : Type 0 where
  pub safe_le : rctx.safe ≤ rctx.latest
  pub finalized_le : rctx.finalized ≤ rctx.latest
  pub fits : rctx.latest < 2 ^ 63

-- What a block parameter may be read as: no tag that the consensus resolves, and no number above its
-- latest block. The tags `pending` and `earliest`, a hash, and no block at all are passed on.
abbrev pub IsServed : RewriteContext → BlockNumberOrHash → Type 0
IsServed rctx (hash h) = Unit
IsServed rctx neither = Unit
IsServed rctx (number pending) = Unit
IsServed rctx (number earliest) = Unit
IsServed rctx (number (at n)) = n ≤ rctx.latest
IsServed rctx (number _) = ⊥

module _ (hex : Hex) (rpc : EthRpc hex) (rctx : RewriteContext) where
  -- A parameter that is read as such a block.
  abbrev pub IsWithin : Json → Type 0
  IsWithin v = (b : BlockNumberOrHash) × (rpc.parse v ≡ some b) × IsServed rctx b

  pub named-IsWithin : (n : ℕ) (v : Json) → n ≤ rctx.latest → Names n (rpc.parse v) → IsWithin v
  named-IsWithin n v h (inl e) = (number (at n), e, h)
  named-IsWithin n v h (inr (z, e)) = (number earliest, e, tt)

  encode-IsWithin : (n : ℕ) → IsSane rctx → n ≤ rctx.latest → IsWithin (Json.text (hex.encode n))
  encode-IsWithin n s h = named-IsWithin n _ h (rpc.parse_encode n (omega arith))

  pub marshal-IsWithin :
      (n : ℕ) → IsSane rctx → n ≤ rctx.latest → IsWithin (rpc.marshal (number (at n)))
  marshal-IsWithin n s h = named-IsWithin n _ h (rpc.parse_marshal n (omega arith))

  IsWithin-of :
      {s s' : String} {b b' : Bool}
      → IsWithin (Json.text s)
      → ◌≡◌ {A = Call RewriteErr (String × Bool)} (done (s, b)) (done (s', b'))
      → IsWithin (Json.text s')
  IsWithin-of {s} {s'} w e = let q : s ≡ s' = cc e in subst (λ x. IsWithin (Json.text x)) q w

  -- What `rewriteTag` leaves is served; and text that is served is left as it is.
  resolve_tag-IsWithin :
      (s : String) (t : BlockNumberOrHash) {s' : String} {b : Bool}
      → IsSane rctx
      → rpc.parse (Json.text s) ≡ some t
      → resolve_tag hex rpc rctx s t ≡ done (s', b)
      → IsWithin (Json.text s')
  unfolding resolve_tag exceeds
  resolve_tag-IsWithin s (hash h) sane p e = IsWithin-of (hash h, p, tt) e
  resolve_tag-IsWithin s neither sane p e = IsWithin-of (neither, p, tt) e
  resolve_tag-IsWithin s (number pending) sane p e = IsWithin-of (number pending, p, tt) e
  resolve_tag-IsWithin s (number earliest) sane p e = IsWithin-of (number earliest, p, tt) e
  resolve_tag-IsWithin s (number finalized) sane p e =
      IsWithin-of (encode-IsWithin rctx.finalized sane sane.finalized_le) e
  resolve_tag-IsWithin s (number safe) sane p e =
      IsWithin-of (encode-IsWithin rctx.safe sane sane.safe_le) e
  resolve_tag-IsWithin s (number latest) sane p e =
      IsWithin-of (encode-IsWithin rctx.latest sane (omega arith)) e
  resolve_tag-IsWithin s (number (at n)) sane p e = elim (Bool-cases (exceeds n rctx.latest)) [
    | inl far ↦ cc (rw far at e)
    | inr near ↦ IsWithin-of (number (at n), p, ground arith) (rw near at e)
  ]

  resolve_tag_served :
      (s : String) (t : BlockNumberOrHash)
      → IsSane rctx
      → IsServed rctx t
      → resolve_tag hex rpc rctx s t ≡ done (s, false)
  unfolding resolve_tag exceeds
  resolve_tag_served s (hash h) sane p = refl
  resolve_tag_served s neither sane p = refl
  resolve_tag_served s (number pending) sane p = refl
  resolve_tag_served s (number earliest) sane p = refl
  resolve_tag_served s (number finalized) sane p = absurd p
  resolve_tag_served s (number safe) sane p = absurd p
  resolve_tag_served s (number latest) sane p = absurd p
  resolve_tag_served s (number (at n)) sane p = ground arith

  pub rewrite_tag-IsWithin :
      (s : String) {s' : String} {b : Bool}
      → IsSane rctx
      → rewrite_tag hex rpc rctx s ≡ done (s', b)
      → IsWithin (Json.text s')
  unfolding rewrite_tag
  rewrite_tag-IsWithin s sane e = elim (Option-cases (rpc.parse (Json.text s))) [
    | inl q ↦ cc (rw (q, rewrite_tag) at e)
    | inr (t, q) ↦ resolve_tag-IsWithin s t sane q (rw (q, rewrite_tag) at e)
  ]

  resolve_tag_kept :
      (s : String) (t : BlockNumberOrHash) {s' : String}
      → resolve_tag hex rpc rctx s t ≡ done (s', false)
      → s' ≡ s
  unfolding resolve_tag
  resolve_tag_kept s (hash h) e = cc
  resolve_tag_kept s neither e = cc
  resolve_tag_kept s (number pending) e = cc
  resolve_tag_kept s (number earliest) e = cc
  resolve_tag_kept s (number finalized) e = cc
  resolve_tag_kept s (number safe) e = cc
  resolve_tag_kept s (number latest) e = cc
  resolve_tag_kept s (number (at n)) e = elim (Bool-cases (exceeds n rctx.latest)) [
    | inl far ↦ cc (rw far at e)
    | inr near ↦ cc (rw near at e)
  ]

  pub rewrite_tag_kept :
      (s : String) {s' : String} → rewrite_tag hex rpc rctx s ≡ done (s', false) → s' ≡ s
  unfolding rewrite_tag
  rewrite_tag_kept s e = elim (Option-cases (rpc.parse (Json.text s))) [
    | inl q ↦ cc (rw (q, rewrite_tag) at e)
    | inr (t, q) ↦ resolve_tag_kept s t (rw (q, rewrite_tag) at e)
  ]

  resolve_tag-ne-panicked :
      (s : String) (t : BlockNumberOrHash) → resolve_tag hex rpc rctx s t ≢ panicked
  unfolding resolve_tag
  resolve_tag-ne-panicked s (hash h) e = cc
  resolve_tag-ne-panicked s neither e = cc
  resolve_tag-ne-panicked s (number pending) e = cc
  resolve_tag-ne-panicked s (number (at n)) e = ground arith
  resolve_tag-ne-panicked s (number _) e = cc

  pub rewrite_tag-ne-panicked : (s : String) → rewrite_tag hex rpc rctx s ≢ panicked
  unfolding rewrite_tag
  rewrite_tag-ne-panicked s e = elim (Option-cases (rpc.parse (Json.text s))) [
    | inl q ↦ cc (rw (q, rewrite_tag) at e)
    | inr (t, q) ↦ resolve_tag-ne-panicked s t (rw (q, rewrite_tag) at e)
  ]

  pub rewrite_tag_served :
      (s : String)
      → IsSane rctx
      → IsWithin (Json.text s)
      → rewrite_tag hex rpc rctx s ≡ done (s, false)
  unfolding rewrite_tag
  rewrite_tag_served s sane (t, q, served) =
      rw (q, rewrite_tag) (resolve_tag_served s t sane served)
