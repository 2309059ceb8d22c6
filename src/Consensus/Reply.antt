-- ===== src/Consensus/Reply.antt =====
-- proxyd/consensus_poller.go: what the poller makes of a backend's replies (`fetchBlock`,
-- `getPeerCount`, `isInSync`).
use infra.Base.{
  ℕ, ◌<◌, ◌≡◌, u64, Bool, true, false, not, ◌||◌, Option, none, some, String, str_eq, if◌then◌else◌,
  arith,
}
use infra.Base.Call.{Call, done, failed, panicked, ◌>>=◌, >>=-eq-done}
use infra.Hex.{Hex}
use infra.Json.{Json, lookup, as_text}

-- What `ForwardRPC` leaves: the result of the RPC response, or an error.
pub data Reply : Type 0 where
  result : Json → Reply
  error : Reply

-- `strconv.ParseBool`
parse_bool : String → Option Bool
parse_bool s =
    if str_eq s "1"
      || str_eq s "t"
      || str_eq s "T"
      || str_eq s "TRUE"
      || str_eq s "true"
      || str_eq s "True"
    then some true
    else if str_eq s "0"
        || str_eq s "f"
        || str_eq s "F"
        || str_eq s "FALSE"
        || str_eq s "false"
        || str_eq s "False"
    then some false
    else none

-- `isInSync`
unfoldable pub is_in_sync : Reply → Call (Unit {0}) Bool
unfolding parse_bool
is_in_sync error = failed tt
is_in_sync (result (Json.bool syncing)) = done (not syncing)
is_in_sync (result (Json.text typed)) = elim (parse_bool typed) [
  | none ↦ failed tt
  | some syncing ↦ done (not syncing)
]
is_in_sync (result _) = done false

module _ (hex : Hex) where
  -- `hexutil.MustDecodeUint64`
  abbrev must_decode_uint64 : String → Call (Unit {0}) ℕ
  must_decode_uint64 s = elim (hex.decode s) [ none ↦ panicked | some n ↦ done n ]

  -- `x.(string)` without a second result panics on any other type.
  abbrev must_text : Option Json → Call (Unit {0}) String
  must_text v = elim (as_text v) [ none ↦ panicked | some s ↦ done s ]

  -- `getPeerCount`
  unfoldable pub get_peer_count : Reply → Call (Unit {0}) ℕ
  get_peer_count (result (Json.text count)) = must_decode_uint64 count
  get_peer_count _ = failed tt

  -- `fetchBlock`
  unfoldable pub fetch_block : Reply → Call (Unit {0}) (ℕ × String)
  unfolding lookup as_text
  fetch_block (result (Json.obj json_map)) = do
    number ← must_text (lookup "number" json_map)
    n ← must_decode_uint64 number
    hash ← must_text (lookup "hash" json_map)
    done (n, hash)
  fetch_block _ = failed tt

  must_decode_uint64_bound : (s : String) (n : ℕ) → must_decode_uint64 s ≡ done n → n < u64
  must_decode_uint64_bound s n e = ground (arith, hex.decode_bound s n)

  pub fetch_block_bound : (r : Reply) {n : ℕ} {h : String} → fetch_block r ≡ done (n, h) → n < u64
  unfolding fetch_block
  fetch_block_bound (result (Json.obj m)) {n} e =
      let (number, _, e₁) = >>=-eq-done (must_text (lookup "number" m)) _ e in
      let (k, decoded, e₂) = >>=-eq-done (must_decode_uint64 number) _ e₁ in
      let (hash, _, e₃) = >>=-eq-done (must_text (lookup "hash" m)) _ e₂ in
      let same : k ≡ n = cc e₃ in omega (arith, same, must_decode_uint64_bound number k decoded)
  fetch_block_bound _ e = cc
