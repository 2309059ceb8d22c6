-- ===== src/Hex.antt =====
-- The hexadecimal codec of github.com/ethereum/go-ethereum/common/hexutil, which the proxy
-- imports: an interface with the laws that the proxy relies on, and a codec that has them.
use infra.Base.{
  ℕ, zero, suc, ◌<◌, u64, ◌≡◌, refl, Option, none, some, String, arith, ltb, lt→ltb, if◌then◌else◌,
}

pub record Hex : Type 0 where
  -- `hexutil.DecodeUint64`; `MustDecodeUint64` panics where this is `none`.
  pub decode : String → Option ℕ
  -- `hexutil.Uint64.String`
  pub encode : ℕ → String
  pub decode_encode : (n : ℕ) → n < u64 → decode (encode n) ≡ some n
  pub decode_bound : (s : String) (n : ℕ) → decode s ≡ some n → n < u64

-- A codec that has the laws: a number in strokes.
abbrev strokes : ℕ → String
strokes zero = ""
strokes (suc n) = String.◌∷◌ "|" (strokes n)

abbrev stroke_count : String → ℕ
stroke_count String.[] = zero
stroke_count (String.◌∷◌ c s) = suc (stroke_count s)

stroke_count-strokes : (n : ℕ) → stroke_count (strokes n) ≡ n
stroke_count-strokes zero = refl
stroke_count-strokes (suc n) = rw (stroke_count-strokes n)

abbrev decode_strokes : String → Option ℕ
decode_strokes s = let n = stroke_count s in if ltb n u64 then some n else none

pub decode_strokes-strokes : (n : ℕ) → n < u64 → decode_strokes (strokes n) ≡ some n
decode_strokes-strokes n h = rw stroke_count-strokes (rw (lt→ltb n u64 h))

pub decode_strokes_bound : (s : String) (n : ℕ) → decode_strokes s ≡ some n → n < u64
decode_strokes_bound s n h = ground arith

abbrev pub tally : Hex
tally = record {
  decode = decode_strokes;
  encode = strokes;
  decode_encode = decode_strokes-strokes;
  decode_bound = decode_strokes_bound;
}
