-- ===== src/Server/Headers/Tests.antt =====
-- Headers of a response to a request from another origin.
use rpress.Common.{
  eq_ignore_ascii_case, true, ◌&&◌, none, some, List, [], ◌∷◌, ◌++◌, Str, codes, runs, is_some, All,
  if◌then◌else◌, ◌≡◌, refl,
}
use rpress.Types.Status.{ok}
use rpress.Cors.{RpressCors, validate}
use rpress.Security.{RpressSecurityHeaders}
use rpress.Payload.{ResponsePayload}
use rpress.Server.Headers.Defs.{apply_cors_headers, apply_security_headers, has_header}
use rpress.Server.Headers.Cors.{granted, values, misspelled, to_list, apply_cors_headers_lem}
use rpress.Server.Headers.Security.{IsAdded, apply_security_headers_lem}

abbrev origin : Str
origin = codes "https://a.example"

abbrev configuration : RpressCors
configuration = record {
  allowed_origins = origin ∷ [];
  allowed_methods = codes "GET" ∷ [];
  allowed_headers = [];
  expose_headers = [];
  max_age = none;
  allow_credentials = true;
}

abbrev answer : ResponsePayload
answer = record {
  status = ok;
  body = codes "hi";
  content_type = codes "text/plain";
  headers =
      (codes "Access-Control-Allow-Origin", codes "*")
      ∷ (codes "x-frame-options", codes "DENY")
      ∷ [];
}

abbrev security : RpressSecurityHeaders
security = record {
  headers =
      (codes "X-Frame-Options", codes "SAMEORIGIN") ∷ (codes "X-XSS-Protection", codes "0") ∷ [];
}

validate-configuration : validate configuration ≡ true
unfolding runs validate
validate-configuration = refl

-- The name is compared whatever its case, so the handler's value stays.
security-answer :
    (apply_security_headers (some security) answer).headers
    ≡ answer.headers ++ (codes "X-XSS-Protection", codes "0") ∷ []
unfolding runs apply_security_headers
security-answer = refl

apply_cors_headers_lem_example :
    (values
        (codes "Access-Control-Allow-Origin")
        (apply_cors_headers (some configuration) (some origin) answer).headers
      ≡ to_list (granted configuration (some origin)))
    × (values
          (codes "Access-Control-Allow-Credentials")
          (apply_cors_headers (some configuration) (some origin) answer).headers
        ≡ (if is_some (granted configuration (some origin)) && configuration.allow_credentials
            then codes "true" ∷ []
            else []))
unfolding runs misspelled eq_ignore_ascii_case
apply_cors_headers_lem_example =
    apply_cors_headers_lem configuration (some origin) answer validate-configuration refl refl

-- A header in small letters stays beside the server's own.
two_origins :
    values
      (codes "Access-Control-Allow-Origin")
      (apply_cors_headers
        (some configuration)
        (some origin)
        (record answer { headers = (codes "access-control-allow-origin", codes "*") ∷ [] })).headers
    ≡ codes "*" ∷ origin ∷ []
unfolding runs values eq_ignore_ascii_case apply_cors_headers
two_origins = refl

apply_security_headers_lem_example :
    (added : List (Str × Str)) × ((apply_security_headers (some security) answer).headers
      ≡ answer.headers ++ added)
    × All (IsAdded security.headers answer.headers) added
    × All
        (λ h. has_header h.0 (apply_security_headers (some security) answer).headers ≡ true)
        security.headers
apply_security_headers_lem_example = apply_security_headers_lem security answer
