-- ===== src/Server/Headers/Cors.antt =====
-- Which origin a response grants access to.
use rpress.Common.{
  ℕ, Bool, true, false, not, eq_ignore_ascii_case, ◌&&◌, ◌||◌, ◌++◌, Option, none, some, List, [],
  ◌∷◌, Str, codes, any, retain, runs, is_some, eq-none_of_is_some, if◌then◌else◌, ◌==◌, eq_iff,
  list_eq, nat_eq, ◌≡◌, refl, append-nil, ◌∙◌, ap, arith, Bool-cases, inl, inr,
}
use rpress.Cors.{RpressCors, wildcard, validate}
use rpress.Payload.{ResponsePayload}
use rpress.Server.Headers.Defs.{
  handler_header, origin_allowed, origin_value, credentials_header, max_age_header, expose_header,
  grant_headers, cors_headers, apply_cors_headers,
}

-- The values of all headers of a name, whatever the case of its letters.
unfoldable pub values : Str → List (Str × Str) → List Str
values name [] = []
values name ((key, value) ∷ hs) =
    let rest = values name hs in if eq_ignore_ascii_case key name then value ∷ rest else rest

-- A header of a name, but in letters of other cases.
unfoldable pub misspelled : Str → List (Str × Str) → Bool
misspelled name hs = any (λ h. eq_ignore_ascii_case h.0 name && not (h.0 == name)) hs

-- The origin that a configuration grants access to, for the origin of a request.
pub granted : RpressCors → Option Str → Option Str
granted c none = if wildcard c then some (codes "*") else none
granted c (some origin) =
    if wildcard c
    then some (codes "*")
    else if any (λ o. o == origin) c.allowed_origins
    then some origin
    else none

abbrev pub to_list : Option Str → List Str
to_list none = []
to_list (some s) = s ∷ []

values-append :
    (name : Str) (hs ks : List (Str × Str))
    → values name (hs ++ ks) ≡ values name hs ++ values name ks
unfolding values
values-append name [] ks = refl
values-append name ((key, value) ∷ hs) ks = ground (arith, values-append name hs ks)

-- What the handler set under a name that is dropped is gone.
values-retain :
    (name : Str) (hs : List (Str × Str))
    → ((value : Str) → handler_header (name, value) ≡ false)
    → misspelled name hs ≡ false
    → values name (retain handler_header hs) ≡ []
unfolding values misspelled
values-retain name [] dropped spelled = refl
values-retain name ((key, value) ∷ hs) dropped spelled =
    let later = values-retain name hs dropped (ground (arith, spelled)) in
    elim (Bool-cases (handler_header (key, value))) [
      | inl kept ↦ rw kept (elim (Bool-cases (eq_ignore_ascii_case key name)) [
        | inl same ↦
            let exact : (key == name) ≡ true = ground (arith, spelled, same) in
            let is_dropped : handler_header (key, value) ≡ false =
              ap (λ k. handler_header (k, value)) ((eq_iff key name).0 exact) ∙ dropped value in
            absurd (cc (kept, is_dropped))
        | inr other ↦ rw other later
      ])
      | inr gone ↦ rw gone later
    ]

any-or : (p q : Str → Bool) (l : List Str) → any (λ o. p o || q o) l ≡ (any p l || any q l)
any-or p q [] = refl
any-or p q (x ∷ l) = ground (arith, any-or p q l)

any-false : (l : List Str) → any (λ o. false) l ≡ false
any-false [] = refl
any-false (x ∷ l) = any-false l

origin_allowed-eq-granted :
    (c : RpressCors) (origin : Option Str) → origin_allowed c origin ≡ is_some (granted c origin)
unfolding origin_allowed granted
origin_allowed-eq-granted c none =
    rw (any-or (λ o. o == codes "*") (λ o. false) c.allowed_origins, any-false c.allowed_origins)
      (ground arith)
origin_allowed-eq-granted c (some origin) =
    rw (any-or (λ o. o == codes "*") (λ o. o == origin) c.allowed_origins) (ground arith)

abbrev pub allow_origin : Str
allow_origin = codes "Access-Control-Allow-Origin"

abbrev pub credentials : Str
credentials = codes "Access-Control-Allow-Credentials"

values-max_age :
    (m : Option ℕ)
    → (values allow_origin (max_age_header m) ≡ []) × (values credentials (max_age_header m) ≡ [])
unfolding values runs eq_ignore_ascii_case max_age_header
values-max_age none = (refl, refl)
values-max_age (some seconds) = (refl, refl)

values-expose :
    (exposed : List Str)
    → (values allow_origin (expose_header exposed) ≡ [])
      × (values credentials (expose_header exposed) ≡ [])
unfolding values runs eq_ignore_ascii_case expose_header
values-expose [] = (refl, refl)
values-expose (e ∷ exposed) = (refl, refl)

values-credentials :
    (c : RpressCors)
    → (values allow_origin (credentials_header c) ≡ [])
      × (values credentials (credentials_header c)
          ≡ (if c.allow_credentials then codes "true" ∷ [] else []))
unfolding values runs eq_ignore_ascii_case credentials_header
values-credentials c = elim (Bool-cases c.allow_credentials) [
  | inl yes_allowed ↦ (rw yes_allowed, rw yes_allowed)
  | inr not_allowed ↦ (rw not_allowed, rw not_allowed)
]

values_of_options :
    (name : Str) (c : RpressCors)
    → values name (max_age_header c.max_age) ≡ []
    → values name (expose_header c.expose_headers) ≡ []
    → values name
        (credentials_header c ++ (max_age_header c.max_age ++ expose_header c.expose_headers))
      ≡ values name (credentials_header c)
values_of_options name c m e =
    rw
      (
        values-append name (credentials_header c)
            (max_age_header c.max_age ++ expose_header c.expose_headers),
        values-append name (max_age_header c.max_age) (expose_header c.expose_headers),
        m,
        e,
      )
      (append-nil (values name (credentials_header c)))

-- The headers pushed for a granted origin, under the two names of interest.
values-grant_headers :
    (c : RpressCors) (origin : Option Str)
    → (values allow_origin (grant_headers c origin) ≡ origin_value c origin ∷ [])
      × (values credentials (grant_headers c origin)
          ≡ (if c.allow_credentials then codes "true" ∷ [] else []))
unfolding values runs eq_ignore_ascii_case grant_headers
values-grant_headers c origin =
    let (m, m') = values-max_age c.max_age in
    let (e, e') = values-expose c.expose_headers in
    let (o, o') = values-credentials c in
    (
      ap (λ vs. origin_value c origin ∷ vs) (values_of_options allow_origin c m e ∙ o),
      values_of_options credentials c m' e' ∙ o',
    )

values-cors_headers :
    (name : Str) (c : RpressCors) (origin : Option Str) (hs : List (Str × Str))
    → ((value : Str) → handler_header (name, value) ≡ false)
    → misspelled name hs ≡ false
    → eq_ignore_ascii_case (codes "Vary") name ≡ false
    → values name (cors_headers c origin hs)
      ≡ (if origin_allowed c origin then values name (grant_headers c origin) else [])
unfolding cors_headers
values-cors_headers name c origin hs dropped spelled other =
    values-append name (retain handler_header hs) _
    ∙ rw (values-retain name hs dropped spelled) (
        unfold values in
        rw other (elim (Bool-cases (origin_allowed c origin)) [
          | inl allowed ↦ rw allowed
          | inr denied ↦ rw denied
        ]))

origin_value-eq-granted :
    (c : RpressCors) (origin : Option Str)
    → validate c ≡ true
    → is_some (granted c origin) ≡ true
    → granted c origin ≡ some (origin_value c origin)
unfolding validate granted origin_value
origin_value-eq-granted c none v g = ground arith
origin_value-eq-granted c (some origin) v g = ground arith

-- With a configuration that passes its check, a response carries `Access-Control-Allow-Origin`
-- exactly when the configuration grants the request's origin, once and with the granted origin; and
-- credentials are allowed exactly where they are configured too. Names are compared whatever their
-- case. This holds whatever the handler set, if it spells the two names with their capitals.
pub apply_cors_headers_lem :
    (c : RpressCors) (origin : Option Str) (p : ResponsePayload)
    → validate c ≡ true
    → misspelled (codes "Access-Control-Allow-Origin") p.headers ≡ false
    → misspelled (codes "Access-Control-Allow-Credentials") p.headers ≡ false
    → (values (codes "Access-Control-Allow-Origin") (apply_cors_headers (some c) origin p).headers
        ≡ to_list (granted c origin))
      × (values
            (codes "Access-Control-Allow-Credentials")
            (apply_cors_headers (some c) origin p).headers
          ≡ (if is_some (granted c origin) && c.allow_credentials then codes "true" ∷ [] else []))
unfolding apply_cors_headers handler_header runs eq_ignore_ascii_case
apply_cors_headers_lem c origin p v spelled spelled' =
    let same = origin_allowed-eq-granted c origin in
    let one = values-cors_headers allow_origin c origin p.headers (λ value. refl) spelled refl in
    let two = values-cors_headers credentials c origin p.headers (λ value. refl) spelled' refl in
    let (origins, creds) = values-grant_headers c origin in
    elim (Bool-cases (is_some (granted c origin))) [
      | inl given ↦
          let value = origin_value-eq-granted c origin v given in
          (one ∙ rw (same, given, value) origins, two ∙ rw (same, given) creds)
      | inr refused ↦
          let nothing = eq-none_of_is_some (granted c origin) refused in
          (one ∙ rw (same, refused, nothing), two ∙ rw (same, refused))
    ]
