-- ===== src/EthRpc.antt =====
-- The block parameters of github.com/ethereum/go-ethereum/rpc, which the proxy imports
-- (`BlockNumber`, `BlockNumberOrHash`): an interface with the laws that the proxy relies on.
pub mod Strokes
use infra.Base.{ℕ, ◌<◌, ◌^◌, ◌≡◌, ◌⊎◌, Option, some, String}
use infra.Json.{Json}
use infra.Hex.{Hex}

-- A `rpc.BlockNumber`: one of its named constants, or a number. (In go-ethereum the named ones
-- are distinct constants outside the numbers, but that `earliest` may be the number 0.)
pub data BlockNumber : Type 0 where
  pending earliest finalized safe latest : BlockNumber
  at : ℕ → BlockNumber

-- A `rpc.BlockNumberOrHash` by its pointer that is not nil; both are nil in what `null` and `{}`, and
-- any other object without those fields, are read as.
pub data BlockNumberOrHash : Type 0 where
  number : BlockNumber → BlockNumberOrHash
  hash : String → BlockNumberOrHash
  neither : BlockNumberOrHash

-- The parameter stands for block `n`.
abbrev pub Names : ℕ → Option BlockNumberOrHash → Type 0
Names n b = (b ≡ some (number (at n))) ⊎ ((n ≡ 0) × (b ≡ some (number earliest)))

pub record EthRpc (hex : Hex) : Type 0 where
  -- `BlockNumberOrHash.UnmarshalJSON`
  pub parse : Json → Option BlockNumberOrHash
  -- `json.Marshal` of a `BlockNumberOrHash`
  pub marshal : BlockNumberOrHash → Json
  -- A hexadecimal number in the range of `int64` is read as that block.
  pub parse_encode : (n : ℕ) → n < 2 ^ 63 → Names n (parse (Json.text (hex.encode n)))
  pub parse_marshal : (n : ℕ) → n < 2 ^ 63 → Names n (parse (marshal (number (at n))))
  pub parse_latest : parse (Json.text "latest") ≡ some (number latest)

-- The texts of a block number and of a hash, which the proxy puts in requests: `BlockNumber.String`
-- and `Hash.Hex`, and what `json.Marshal` makes of each.
pub record BlockText : Type 0 where
  pub string : BlockNumber → String
  pub hex : String → String
  pub number_json : BlockNumber → Json
  pub hash_json : String → Json
