-- ===== src/EthRpc/Strokes.antt =====
-- A reader of block parameters over the codec in strokes, which has the laws that the proxy relies
-- on, and texts for them.
use mathlib.Core.Path.{subst}
use infra.Base.{
  ℕ, ◌<◌, ◌^◌, ◌≡◌, inl, inr, refl, ap, sym, ◌∙◌, false, Option, none, some, String, str_eq, eq_iff,
  arith, u64, if◌then◌else◌, Bool-cases,
}
use infra.Hex.{tally}
use infra.Json.{Json, field, end}
use infra.EthRpc.{
  EthRpc, BlockText, BlockNumber, BlockNumberOrHash, number, hash, neither, at, safe, latest,
}

-- A reader of texts over the codec in strokes.
abbrev read_text : String → Option BlockNumberOrHash
read_text s =
    if str_eq s "latest"
    then some (number latest)
    else if str_eq s "safe"
    then some (number safe)
    else elim (tally.decode s) [ none ↦ none | some n ↦ some (number (at n)) ]

abbrev read : Json → Option BlockNumberOrHash
read (Json.text s) = read_text s
read (Json.obj (field k (Json.text h) end)) = some (hash h)
read Json.null = some neither
read (Json.obj end) = some neither
read _ = none

abbrev write : BlockNumberOrHash → Json
write (number (at n)) = Json.text (tally.encode n)
write (hash h) = Json.obj (field "blockHash" (Json.text h) end)
write neither = Json.obj end
write (number _) = Json.null

-- A number in strokes is not a text that is read as another number of strokes.
encode-ne :
    (n k : ℕ) (s : String)
    → n < u64
    → tally.decode s ≡ some k
    → str_eq (tally.encode k) s ≡ false
    → str_eq (tally.encode n) s ≡ false
encode-ne n k s bound d other = elim (Bool-cases (str_eq (tally.encode n) s)) [
  | inr e ↦ e
  | inl e ↦
      let same : tally.encode n ≡ s = (eq_iff _ _).0 e in
      let count : some n ≡ some k = sym (tally.decode_encode n bound) ∙ ap tally.decode same ∙ d in
      let q : n ≡ k = cc count in subst (λ m. str_eq (tally.encode m) s ≡ false) (sym q) other
]

pub read-encode : (n : ℕ) → n < 2 ^ 63 → read_text (tally.encode n) ≡ some (number (at n))
read-encode n h = rw (encode-ne n 6 "latest" (omega arith) refl refl) (
    rw (encode-ne n 4 "safe" (omega arith) refl refl)
      (rw (tally.decode_encode n (omega arith)) refl))

abbrev pub geth : EthRpc tally
geth = record {
  parse = read;
  marshal = write;
  parse_encode = λ n h. inl (read-encode n h);
  parse_marshal = λ n h. inl (read-encode n h);
  parse_latest = refl;
}

abbrev number_text : BlockNumber → String
number_text (at n) = tally.encode n
number_text _ = "latest"

abbrev pub plain_texts : BlockText
plain_texts = record {
  string = number_text;
  hex = λ h. h;
  number_json = λ n. Json.text (number_text n);
  hash_json = λ h. Json.text h;
}
