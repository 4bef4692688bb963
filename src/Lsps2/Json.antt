-- ===== src/Lsps2/Json.antt =====
-- Parsed JSON, as `JSON.parse` returns it, and `deserializeJsonRpcResponse` of src/ldk/lsps2/types.ts.
-- A text is represented by what `JSON.parse` makes of it: `none` where it throws.
use browser_wallet.Prelude.{String, Bool, Option, none, some, str_eq, if◌then◌else◌}
use browser_wallet.Prelude.BigInt.{ℤ}

mutual
  pub data Json : Type 0 where
    null : Json
    bool : Bool → Json
    num : ℤ → Json
    str : String → Json
    arr : Items → Json
    obj : Fields → Json

  pub data Items : Type 0 where
    nil : Items
    cons : Json → Items → Items

  -- The fields of an object have different names.
  pub data Fields : Type 0 where
    end : Fields
    field : String → Json → Fields → Fields

unfoldable pub find : String → Fields → Option Json
find name end = none
find name (field key value rest) = if str_eq key name then some value else find name rest

-- `value.name`; `none` is `undefined`. Reading a field of `null` throws, as the caller says.
unfoldable pub get_field : String → Json → Option Json
unfolding find
get_field name (obj fields) = find name fields
get_field name _ = none

abbrev pub as_text : Option Json → Option String
as_text (some (str s)) = some s
as_text _ = none

-- The id of a valid response, or `none` where the function throws. On `null` the first test throws,
-- and so here it fails.
unfoldable pub deserialize_response : Option Json → Option (String × Json)
unfolding get_field
deserialize_response none = none
deserialize_response (some parsed) = elim (as_text (get_field "jsonrpc" parsed)) [
  | none ↦ none
  | some version ↦ elim (as_text (get_field "id" parsed)) [
    | none ↦ none
    | some id ↦ if str_eq version "2.0" then some (id, parsed) else none
  ]
]
