-- ===== src/SocketIo/Json.antt =====
-- `serde_json::Value` as the engine uses it: a type with the operations it calls.
use rpress.Common.{Bool, Option, some, List, [], ◌∷◌, Str, is_some, ◌≡◌}

pub record Json (V : Type 0) : Type 0 where
  pub from_str : Str → Option V
  pub to_string : V → Str
  pub null : V
  pub string : Str → V
  pub array : List V → V
  pub object : List (Str × V) → V
  pub as_array : V → Option (List V)
  pub as_str : V → Option Str
  pub get : Str → V → Option V

unfoldable pub is_array : {V : Type 0} → Json V → V → Bool
is_array json v = is_some (json.as_array v)

-- What is documented of the accessors on values that were built.
pub record IsJson {V : Type 0} (json : Json V) : Type 0 where
  pub as_array-array : (vs : List V) → json.as_array (json.array vs) ≡ some vs
  pub as_str-string : (s : Str) → json.as_str (json.string s) ≡ some s

-- What is documented of an object with one field.
pub record HasFields {V : Type 0} (json : Json V) : Type 0 where
  pub get-object : (key : Str) (v : V) → json.get key (json.object ((key, v) ∷ [])) ≡ some v
