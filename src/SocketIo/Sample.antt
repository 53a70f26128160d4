-- ===== src/SocketIo/Sample.antt =====
-- A small JSON library, for the tests.
use rpress.Common.{Option, none, some, List, [], ◌∷◌, ◌++◌, Str, codes, ◌≡◌, refl, ap}
use rpress.SocketIo.Json.{Json, IsJson}

-- Values that are texts, strings or lists of values.
mutual
  pub data Value : Type 0 where
    raw : Str → Value
    quoted : Str → Value
    items : Values → Value

  pub data Values : Type 0 where
    nil : Values
    cons : Value → Values → Values

abbrev pub to_values : List Value → Values
to_values [] = nil
to_values (v ∷ vs) = cons v (to_values vs)

abbrev pub from_values : Values → List Value
from_values nil = []
from_values (cons v vs) = v ∷ from_values vs

from_values-to_values : (vs : List Value) → from_values (to_values vs) ≡ vs
from_values-to_values [] = refl
from_values-to_values (v ∷ vs) = ap (λ t. v ∷ t) (from_values-to_values vs)

abbrev pub text_of : Value → Str
text_of (raw s) = s
text_of (quoted s) = codes "\"" ++ (s ++ codes "\"")
text_of (items vs) = codes "[]"

abbrev pub items_of : Value → Option (List Value)
items_of (items vs) = some (from_values vs)
items_of _ = none

abbrev pub quoted_of : Value → Option Str
quoted_of (quoted s) = some s
quoted_of _ = none

abbrev pub json : Json Value
json = record {
  from_str = λ s. some (raw s);
  to_string = text_of;
  null = raw (codes "null");
  string = quoted;
  array = λ vs. items (to_values vs);
  object = λ fields. raw (codes "{}");
  as_array = items_of;
  as_str = quoted_of;
  get = λ key v. none;
}

pub json-IsJson : IsJson json
json-IsJson = record {
  as_array-array = λ vs. ap some (from_values-to_values vs);
  as_str-string = λ s. refl;
}
