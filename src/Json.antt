-- ===== src/Json.antt =====
-- The JSON values that the proxy handles (`interface{}` after `json.Unmarshal`), and the lookups
-- that it makes in them. A value stands for its text: `json.RawMessage` fields are modelled by
-- the value that they parse to, `none` for a text that is no JSON.
use infra.Base.{
  ℕ, ◌≡◌, refl, Bool, Option, none, some, String, str_eq, if◌then◌else◌, List, [], ◌∷◌,
}

mutual
  pub data Json : Type 0 where
    null : Json
    bool : Bool → Json
    num : ℕ → Json
    text : String → Json
    arr : Items → Json
    obj : Fields → Json

  pub data Items : Type 0 where
    nil : Items
    cons : Json → Items → Items

  pub data Fields : Type 0 where
    end : Fields
    field : String → Json → Fields → Fields

-- `m[key]` on a `map[string]interface{}`, with its second result.
unfoldable pub lookup : String → Fields → Option Json
lookup k end = none
lookup k (field j v fs) = if str_eq j k then some v else lookup k fs

-- `m[key] = v`
unfoldable pub insert : String → Json → Fields → Fields
insert k v end = field k v end
insert k v (field j w fs) = if str_eq j k then field k v fs else field j w (insert k v fs)

-- `v.(string)`, with its second result.
unfoldable pub as_text : Option Json → Option String
as_text (some (text s)) = some s
as_text _ = none

-- The items of a JSON array as a list, and back.
unfoldable pub to_list : Items → List Json
to_list nil = []
to_list (cons x xs) = x ∷ to_list xs

unfoldable pub of_list : List Json → Items
of_list [] = nil
of_list (x ∷ xs) = cons x (of_list xs)

pub to_list-of_list : (xs : List Json) → to_list (of_list xs) ≡ xs
unfolding to_list of_list
to_list-of_list [] = refl
to_list-of_list (x ∷ xs) = rw (to_list-of_list xs)
