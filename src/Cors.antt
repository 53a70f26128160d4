-- ===== src/Cors.antt =====
-- engine/src/core/cors.rs: the CORS configuration and its check.
use rpress.Common.{
  ℕ, Bool, false, not, ◌&&◌, Option, some, List, [], ◌∷◌, Str, codes, any, ◌==◌, nat_eq, list_eq,
}

pub record RpressCors : Type 0 where
  pub allowed_origins : List Str
  pub allowed_methods : List Str
  pub allowed_headers : List Str
  pub expose_headers : List Str
  pub max_age : Option ℕ
  pub allow_credentials : Bool

unfoldable pub new : RpressCors
new = record {
  allowed_origins = codes "*" ∷ [];
  allowed_methods =
      codes "GET"
      ∷ codes "POST"
      ∷ codes "PUT"
      ∷ codes "PATCH"
      ∷ codes "DELETE"
      ∷ codes "HEAD"
      ∷ codes "OPTIONS"
      ∷ [];
  allowed_headers = codes "Content-Type" ∷ codes "Authorization" ∷ [];
  expose_headers = [];
  max_age = some 86400;
  allow_credentials = false;
}

unfoldable pub set_origins : List Str → RpressCors → RpressCors
set_origins origins c = record c { allowed_origins = origins }

unfoldable pub set_methods : List Str → RpressCors → RpressCors
set_methods methods c = record c { allowed_methods = methods }

unfoldable pub set_headers : List Str → RpressCors → RpressCors
set_headers headers c = record c { allowed_headers = headers }

unfoldable pub set_expose_headers : List Str → RpressCors → RpressCors
set_expose_headers headers c = record c { expose_headers = headers }

unfoldable pub set_max_age : ℕ → RpressCors → RpressCors
set_max_age seconds c = record c { max_age = some seconds }

unfoldable pub set_credentials : Bool → RpressCors → RpressCors
set_credentials allow c = record c { allow_credentials = allow }

abbrev pub wildcard : RpressCors → Bool
wildcard c = any (λ o. o == codes "*") c.allowed_origins

-- `false` is the panic.
unfoldable pub validate : RpressCors → Bool
validate c = not (c.allow_credentials && wildcard c)
