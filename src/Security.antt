-- ===== src/Security.antt =====
-- engine/src/core/security.rs: the configured security headers.
use rpress.Common.{List, [], ◌∷◌, ◌++◌, Str, codes}

pub record RpressSecurityHeaders : Type 0 where
  pub headers : List (Str × Str)

unfoldable pub new : RpressSecurityHeaders
new = record { headers = [] }

unfoldable pub custom : Str → Str → RpressSecurityHeaders → RpressSecurityHeaders
custom key value s = record { headers = s.headers ++ (key, value) ∷ [] }

unfoldable pub content_security_policy : Str → RpressSecurityHeaders → RpressSecurityHeaders
content_security_policy value s = record {
  headers = s.headers ++ (codes "Content-Security-Policy", value) ∷ [];
}

unfoldable pub x_frame_options : Str → RpressSecurityHeaders → RpressSecurityHeaders
x_frame_options value s = record { headers = s.headers ++ (codes "X-Frame-Options", value) ∷ [] }

unfoldable pub x_xss_protection : Str → RpressSecurityHeaders → RpressSecurityHeaders
x_xss_protection value s = record { headers = s.headers ++ (codes "X-XSS-Protection", value) ∷ [] }
