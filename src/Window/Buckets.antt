-- ===== src/Window/Buckets.antt =====
-- The map of github.com/emirpasic/gods/maps/linkedhashmap, which the sliding window imports: an
-- interface with its documented behaviour (keys in the order of insertion; a key that is put again
-- keeps its place), and a list of entries that has it.
use infra.Base.{ℕ, ◌≡◌, refl, Option, none, some, List, [], ◌∷◌, length, map, ◌==◌, if◌then◌else◌}

module _ {V : Type 0} where
  abbrev pub lookup : ℕ → List (ℕ × V) → Option V
  lookup k [] = none
  lookup k ((j, v) ∷ es) = if j == k then some v else lookup k es

  abbrev pub insert : ℕ → V → List (ℕ × V) → List (ℕ × V)
  insert k v [] = (k, v) ∷ []
  insert k v ((j, w) ∷ es) = if j == k then (k, v) ∷ es else (j, w) ∷ insert k v es

  abbrev pub erase : ℕ → List (ℕ × V) → List (ℕ × V)
  erase k [] = []
  erase k ((j, v) ∷ es) = if j == k then es else (j, v) ∷ erase k es

abbrev pub keys_of : {V : Type 0} → List (ℕ × V) → List ℕ
keys_of es = map (λ e. e.0) es

pub record LinkedMap (V : Type 0) : Type 1 where
  pub Map : Type 0
  pub new : Map
  pub get : Map → ℕ → Option V
  pub put : Map → ℕ → V → Map
  pub remove : Map → ℕ → Map
  pub keys : Map → List ℕ
  pub size : Map → ℕ
  -- The entries in the order of the keys.
  pub entries : Map → List (ℕ × V)
  pub entries_new : entries new ≡ []
  pub get_entries : (m : Map) (k : ℕ) → get m k ≡ lookup k (entries m)
  pub entries_put : (m : Map) (k : ℕ) (v : V) → entries (put m k v) ≡ insert k v (entries m)
  pub entries_remove : (m : Map) (k : ℕ) → entries (remove m k) ≡ erase k (entries m)
  pub keys_entries : (m : Map) → keys m ≡ keys_of (entries m)
  pub size_entries : (m : Map) → size m ≡ length (entries m)

abbrev pub entry_list : {V : Type 0} → LinkedMap V
entry_list {V} = record {
  Map = List (ℕ × V);
  new = [];
  get = λ m k. lookup k m;
  put = λ m k v. insert k v m;
  remove = λ m k. erase k m;
  keys = λ m. keys_of m;
  size = λ m. length m;
  entries = λ m. m;
  entries_new = refl;
  get_entries = λ m k. refl;
  entries_put = λ m k v. refl;
  entries_remove = λ m k. refl;
  keys_entries = λ m. refl;
  size_entries = λ m. refl;
}
