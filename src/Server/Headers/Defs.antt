-- ===== src/Server/Headers/Defs.antt =====
-- `apply_cors_headers` and `apply_security_headers`.
use rpress.Common.{
  ℕ, Bool, false, not, ◌&&◌, ◌||◌, ◌++◌, Option, none, some, List, [], ◌∷◌, Str, codes, any, retain,
  join, starts_with, is_empty, unwrap_or, eq_ignore_ascii_case, ◌==◌, nat_eq, list_eq,
  if◌then◌else◌,
}
use rpress.Common.Decimal.{decimal}
use rpress.Cors.{RpressCors, wildcard}
use rpress.Security.{RpressSecurityHeaders}
use rpress.Payload.{ResponsePayload}

unfoldable pub handler_header : Str × Str → Bool
handler_header (key, value) =
    not (starts_with (codes "Access-Control-") key) && not (key == codes "Vary")

abbrev is_origin : Option Str → Str → Bool
is_origin none o = false
is_origin (some origin) o = o == origin

unfoldable pub origin_allowed : RpressCors → Option Str → Bool
origin_allowed c origin = any (λ o. o == codes "*" || is_origin origin o) c.allowed_origins

unfoldable pub origin_value : RpressCors → Option Str → Str
origin_value c origin =
    if c.allow_credentials
    then unwrap_or origin []
    else if wildcard c
    then codes "*"
    else unwrap_or origin []

unfoldable pub credentials_header : RpressCors → List (Str × Str)
credentials_header c =
    if c.allow_credentials
    then (codes "Access-Control-Allow-Credentials", codes "true") ∷ []
    else []

unfoldable pub max_age_header : Option ℕ → List (Str × Str)
max_age_header none = []
max_age_header (some seconds) = (codes "Access-Control-Max-Age", decimal seconds) ∷ []

unfoldable pub expose_header : List Str → List (Str × Str)
expose_header exposed =
    if is_empty exposed
    then []
    else (codes "Access-Control-Expose-Headers", join (codes ", ") exposed) ∷ []

-- What is pushed for an origin that is allowed, in order.
unfoldable pub grant_headers : RpressCors → Option Str → List (Str × Str)
unfolding origin_value credentials_header max_age_header expose_header
grant_headers c origin =
    (codes "Access-Control-Allow-Origin", origin_value c origin)
    ∷ (codes "Access-Control-Allow-Methods", join (codes ", ") c.allowed_methods)
    ∷ (codes "Access-Control-Allow-Headers", join (codes ", ") c.allowed_headers)
    ∷ (credentials_header c ++ (max_age_header c.max_age ++ expose_header c.expose_headers))

unfoldable pub cors_headers : RpressCors → Option Str → List (Str × Str) → List (Str × Str)
unfolding handler_header origin_allowed grant_headers
cors_headers c origin headers =
    let kept = retain handler_header headers in
    kept
    ++ ((codes "Vary", codes "Origin")
        ∷ (if origin_allowed c origin then grant_headers c origin else []))

unfoldable pub apply_cors_headers :
    Option RpressCors → Option Str → ResponsePayload → ResponsePayload
unfolding cors_headers
apply_cors_headers none origin p = p
apply_cors_headers (some c) origin p = record p { headers = cors_headers c origin p.headers }

-- `already_set`
abbrev pub has_header : Str → List (Str × Str) → Bool
has_header key = any (λ h. eq_ignore_ascii_case h.0 key)

unfoldable pub push_missing : List (Str × Str) → List (Str × Str) → List (Str × Str)
push_missing [] headers = headers
push_missing ((key, value) ∷ sec) headers =
    push_missing sec (if has_header key headers then headers else headers ++ (key, value) ∷ [])

unfoldable pub apply_security_headers :
    Option RpressSecurityHeaders → ResponsePayload → ResponsePayload
unfolding push_missing
apply_security_headers none p = p
apply_security_headers (some sec) p = record p { headers = push_missing sec.headers p.headers }
