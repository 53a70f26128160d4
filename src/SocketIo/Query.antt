-- ===== src/SocketIo/Query.antt =====
-- engine/src/core/socketio/transport.rs: the query of an Engine.IO request.
use rpress.Common.{
  ℕ, Bool, false, Option, none, some, List, [], ◌∷◌, Str, codes, split, split_once, ◌==◌, nat_eq,
  list_eq, if◌then◌else◌,
}
use rpress.Common.Decimal.{parse_unsigned}

pub record EioQueryParams : Type 0 where
  pub eio : Option ℕ
  pub transport : Option Str
  pub sid : Option Str
  pub t : Option Str

abbrev pub no_params : EioQueryParams
no_params = record { eio = none; transport = none; sid = none; t = none }

-- `u8`
abbrev u8_limit : ℕ
u8_limit = 256

unfoldable pub set_param : Str → Str → EioQueryParams → EioQueryParams
set_param key value params =
    if key == codes "EIO"
    then record params { eio = parse_unsigned u8_limit value }
    else if key == codes "transport"
    then record params { transport = some value }
    else if key == codes "sid"
    then record params { sid = some value }
    else if key == codes "t"
    then record params { t = some value }
    else params

unfoldable pub set_pairs : List Str → EioQueryParams → EioQueryParams
unfolding set_param
set_pairs [] params = params
set_pairs (pair ∷ pairs) params = elim (split_once (codes "=") pair) [
  | none ↦ set_pairs pairs params
  | some (key, value) ↦ set_pairs pairs (set_param key value params)
]

unfoldable pub parse : Str → EioQueryParams
unfolding set_pairs
parse query = set_pairs (split b'&' query) no_params

unfoldable pub is_transport : Str → Option Str → Bool
is_transport name none = false
is_transport name (some transport) = transport == name

unfoldable pub is_polling : EioQueryParams → Bool
unfolding is_transport
is_polling params = is_transport (codes "polling") params.transport

unfoldable pub is_websocket : EioQueryParams → Bool
unfolding is_transport
is_websocket params = is_transport (codes "websocket") params.transport
