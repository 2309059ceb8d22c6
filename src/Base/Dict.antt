-- ===== src/Base/Dict.antt =====
-- Go's maps with text keys, as lists of entries.
use Prim.Native.String.{String}
use mathlib.Core.Path.{◌≡◌, refl}
use mathlib.Core.Bool.{Bool, true, false, ◌||◌}
use mathlib.Core.List.{List, [], ◌∷◌, map}
use mathlib.Core.Option.{Option, none, some}
use native.Mathlib.Omega.{arith}
use text.Mathlib.Text.{◌==◌ as str_eq}
use text.Mathlib.TextEquality.{eq_iff}
use mathlib.Core.Logic.{inl, inr}
use infra.Base.Tests.{if◌then◌else◌, Bool-cases}

abbrev pub Dict : Type 0 → Type 0
Dict V = List (String × V)

abbrev pub keys_of : {V : Type 0} → Dict V → List String
keys_of m = map (λ e. e.0) m

-- An entry with another key is not found under `other`.
apart_entry :
    (key other name : String)
    → str_eq name key ≡ true
    → str_eq key other ≡ false
    → str_eq name other ≡ false
apart_entry key other name e n =
    ground (arith, eq_iff name key, eq_iff key other, eq_iff name other)

module _ {V : Type 0} where
  -- `m[key]`, with its second result.
  unfoldable pub lookup : String → Dict V → Option V
  lookup key [] = none
  lookup key (entry ∷ others) = if str_eq entry.0 key then some entry.1 else lookup key others

  -- `delete(m, key)`
  unfoldable pub erase : String → Dict V → Dict V
  erase key [] = []
  erase key (entry ∷ others) =
      let rest = erase key others in if str_eq entry.0 key then rest else entry ∷ rest

  -- `m[key] = value`
  unfoldable pub insert : String → V → Dict V → Dict V
  insert key value [] = (key, value) ∷ []
  insert key value (entry ∷ others) =
      let rest = insert key value others in
      if str_eq entry.0 key then (key, value) ∷ others else entry ∷ rest

  pub lookup-insert :
      (key other : String) (value : V) (dict : Dict V)
      → lookup other (insert key value dict)
        ≡ (if str_eq key other then some value else lookup other dict)
  unfolding lookup insert
  lookup-insert key other value [] = refl
  lookup-insert key other value ((name, w) ∷ others) = elim (Bool-cases (str_eq name key)) [
    | inl e ↦ elim (Bool-cases (str_eq key other)) [
      | inl y ↦ rw (insert, e, y) refl
      | inr n ↦ rw (insert, e, n, lookup, apart_entry key other name e n) refl
    ]
    | inr e ↦
        rw (insert, e)
          (ground (
            arith,
            e,
            eq_iff name key,
            eq_iff key other,
            eq_iff name other,
            lookup-insert key other value others,
          ))
  ]

  pub lookup-erase :
      (key other : String) (dict : Dict V)
      → lookup other (erase key dict) ≡ (if str_eq key other then none else lookup other dict)
  unfolding lookup erase
  lookup-erase key other [] = ground arith
  lookup-erase key other (entry ∷ others) = ground (
    arith,
    eq_iff key other,
    eq_iff entry.0 key,
    eq_iff entry.0 other,
    lookup-erase key other others,
  )

-- Entries keep their keys when their values are mapped.
pub lookup-map :
    {V W : Type 0} (f : V → W) (k : String) (m : Dict V) {v : V}
    → lookup k m ≡ some v
    → lookup k (map (λ (e : String × V). (e.0, f e.1)) m) ≡ some (f v)
unfolding lookup
lookup-map f k [] e = cc
lookup-map f k ((j, w) ∷ m) {v} e = elim (Bool-cases (str_eq j k)) [
  | inl y ↦ let h : some w ≡ some v = rw y at e in rw y (cc h)
  | inr n ↦ rw n (lookup-map f k m (rw n at e))
]

-- Is the text one of the list?
unfoldable pub elem : String → List String → Bool
elem x [] = false
elem x (y ∷ ys) = str_eq y x || elem x ys
