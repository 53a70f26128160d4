-- ===== src/Request/Access.antt =====
-- engine/src/core/request.rs: what handlers and middleware read and change of a request.
use rpress.Common.{
  Option, none, some, List, [], ◌∷◌, ◌++◌, Str, HashMap, lookup, insert, list_eq, nat_eq, split,
  split_once, codes, is_empty, if◌then◌else◌,
}
use rpress.Common.Trim.{trim}
use rpress.Request.Outcome.{RequestMetadata, RequestPayload}
use rpress.Request.Uri.{from_utf8}

unfoldable pub set_params : HashMap Str Str → RequestPayload → RequestPayload
set_params params r = record r { params = params }

unfoldable pub get_param : Str → RequestPayload → Option Str
get_param key r = lookup key r.params

unfoldable pub set_extension : Str → Str → RequestPayload → RequestPayload
set_extension key value r = record r { extensions = insert key value r.extensions }

unfoldable pub get_extension : Str → RequestPayload → Option Str
get_extension key r = lookup key r.extensions

unfoldable pub get_query : Str → RequestPayload → Option Str
get_query key r = lookup key r.query

field_or_empty : (RequestMetadata → Str) → Option RequestMetadata → Str
field_or_empty f none = []
field_or_empty f (some m) = f m

unfoldable pub uri : RequestPayload → Str
unfolding field_or_empty
uri r = field_or_empty (λ m. m.uri) r.request_metadata

unfoldable pub method : RequestPayload → Str
unfolding field_or_empty
method r = field_or_empty (λ m. m.method) r.request_metadata

unfoldable pub header : Str → RequestPayload → Option Str
header key r = elim (r.request_metadata) [ none ↦ none | some m ↦ lookup key m.headers ]

unfoldable pub body_str : RequestPayload → Option Str
body_str r = from_utf8 r.payload

unfoldable pub add_cookies : HashMap Str Str → List Str → HashMap Str Str
add_cookies cookies [] = cookies
add_cookies cookies (pair ∷ pairs) = elim (split_once (codes "=") (trim pair)) [
  | none ↦ add_cookies cookies pairs
  | some (name, value) ↦ add_cookies (insert (trim name) (trim value) cookies) pairs
]

unfoldable pub cookies : RequestPayload → HashMap Str Str
unfolding add_cookies header
cookies r = elim (header (codes "cookie") r) [
  | none ↦ []
  | some cookie_header ↦ add_cookies [] (split b';' cookie_header)
]

unfoldable pub collected : List Str → Str
collected [] = []
collected (chunk ∷ chunks) = chunk ++ collected chunks

take_stream : RequestPayload → Option (List Str) → Str × RequestPayload
unfolding collected
take_stream r none = ([], r)
take_stream r (some chunks) = (collected chunks, record r { body_receiver = none })

-- The body, and the request that is left.
unfoldable pub collect_body : RequestPayload → Str × RequestPayload
unfolding take_stream
collect_body r =
    if is_empty r.payload
    then take_stream r r.body_receiver
    else (r.payload, record r { payload = [] })

unfoldable pub body_stream : RequestPayload → Option (List Str) × RequestPayload
body_stream r = (r.body_receiver, record r { body_receiver = none })
