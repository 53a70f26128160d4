-- ===== src/Payload/Cookies.antt =====
-- `CookieBuilder` and `set_cookie`.
use rpress.Common.{
  Bool, true, false, ◌++◌, Option, none, some, List, [], ◌∷◌, Str, codes, join, if◌then◌else◌,
}
use rpress.Common.Int.{ℤ, signed_decimal}
use rpress.Payload.{ResponsePayload}

pub record CookieBuilder : Type 0 where
  pub name : Str
  pub value : Str
  pub path : Option Str
  pub domain : Option Str
  pub max_age : Option ℤ
  pub same_site : Option Str
  pub http_only : Bool
  pub secure : Bool

unfoldable pub new_cookie : Str → Str → CookieBuilder
new_cookie name value = record {
  name = name;
  value = value;
  path = some (codes "/");
  domain = none;
  max_age = none;
  same_site = some (codes "Lax");
  http_only = true;
  secure = false;
}

unfoldable pub cookie_path : Str → CookieBuilder → CookieBuilder
cookie_path path c = record c { path = some path }

unfoldable pub cookie_domain : Str → CookieBuilder → CookieBuilder
cookie_domain domain c = record c { domain = some domain }

unfoldable pub cookie_max_age : ℤ → CookieBuilder → CookieBuilder
cookie_max_age seconds c = record c { max_age = some seconds }

unfoldable pub cookie_same_site : Str → CookieBuilder → CookieBuilder
cookie_same_site same_site c = record c { same_site = some same_site }

unfoldable pub cookie_http_only : Bool → CookieBuilder → CookieBuilder
cookie_http_only http_only c = record c { http_only = http_only }

unfoldable pub cookie_secure : Bool → CookieBuilder → CookieBuilder
cookie_secure secure c = record c { secure = secure }

-- An attribute that has a value.
unfoldable pub attribute : Str → Option Str → List Str
attribute key none = []
attribute key (some value) = (key ++ value) ∷ []

unfoldable pub flag : Str → Bool → List Str
flag key b = if b then key ∷ [] else []

unfoldable pub cookie_parts : CookieBuilder → List Str
unfolding attribute flag
cookie_parts c =
    ((c.name ++ (codes "=" ++ c.value)) ∷ [])
    ++ (attribute (codes "Path=") c.path
        ++ (attribute (codes "Max-Age=")
              (elim c.max_age [ none ↦ none | some seconds ↦ some (signed_decimal seconds) ])
            ++ (attribute (codes "SameSite=") c.same_site
                ++ (flag (codes "HttpOnly") c.http_only
                    ++ (flag (codes "Secure") c.secure ++ attribute (codes "Domain=") c.domain)))))

unfoldable pub set_cookie : CookieBuilder → ResponsePayload → ResponsePayload
unfolding cookie_parts
set_cookie c p = record p {
  headers = p.headers ++ (codes "Set-Cookie", join (codes "; ") (cookie_parts c)) ∷ [];
}
