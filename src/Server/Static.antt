-- ===== src/Server/Static.antt =====
-- engine/src/lib.rs: `try_serve_static` and `guess_content_type`. The file system is a parameter.
use rpress.Common.{
  Bool, not, ◌||◌, Option, none, some, List, [], ◌∷◌, Str, codes, strip_prefix, split, contains,
  is_empty, if◌then◌else◌, ◌==◌, nat_eq, list_eq, lookup,
}
use rpress.Payload.{ResponsePayload, bytes}

-- `canonicalize`, `Path::join`, `Path::starts_with` with the base first, `read` and
-- `to_string_lossy`, at one moment.
pub record FileSystem (P : Type 0) : Type 0 where
  pub canonicalize : P → Option P
  pub new_path : Str → P
  pub join : P → Str → P
  pub starts_with : P → P → Bool
  pub read : P → Option Str
  pub to_string_lossy : P → Str

last_part : Str → List Str → Str
last_part d [] = d
last_part d (p ∷ ps) = last_part p ps

abbrev content_types : List (Str × Str)
content_types =
    (codes "html", codes "text/html; charset=utf-8")
    ∷ (codes "htm", codes "text/html; charset=utf-8")
    ∷ (codes "css", codes "text/css; charset=utf-8")
    ∷ (codes "js", codes "application/javascript; charset=utf-8")
    ∷ (codes "mjs", codes "application/javascript; charset=utf-8")
    ∷ (codes "json", codes "application/json; charset=utf-8")
    ∷ (codes "png", codes "image/png")
    ∷ (codes "jpg", codes "image/jpeg")
    ∷ (codes "jpeg", codes "image/jpeg")
    ∷ (codes "gif", codes "image/gif")
    ∷ (codes "svg", codes "image/svg+xml")
    ∷ (codes "ico", codes "image/x-icon")
    ∷ (codes "woff", codes "font/woff")
    ∷ (codes "woff2", codes "font/woff2")
    ∷ (codes "ttf", codes "font/ttf")
    ∷ (codes "pdf", codes "application/pdf")
    ∷ (codes "xml", codes "application/xml")
    ∷ (codes "txt", codes "text/plain; charset=utf-8")
    ∷ (codes "webp", codes "image/webp")
    ∷ (codes "mp4", codes "video/mp4")
    ∷ (codes "webm", codes "video/webm")
    ∷ []

unfoldable pub guess_content_type : Str → Str
unfolding last_part
guess_content_type path = elim (lookup (last_part [] (split b'.' path)) content_types) [
  | some content_type ↦ content_type
  | none ↦ codes "application/octet-stream"
]

-- `trim_start_matches('/')`
unfoldable pub trim_slashes : Str → Str
trim_slashes [] = []
trim_slashes (c ∷ s) = let rest = trim_slashes s in if c == b'/' then rest else c ∷ s

module _ {P : Type 0} (fs : FileSystem P) where
  -- One directory, for the path below it, which holds no `..`; `next` is the rest of the loop.
  unfoldable pub serve_below : Str → Str → Option ResponsePayload → Option ResponsePayload
  unfolding guess_content_type
  serve_below dir relative next = elim (fs.canonicalize (fs.new_path dir)) [
    | none ↦ none
    | some base ↦ elim (fs.canonicalize (fs.join base relative)) [
      | none ↦ next
      | some canonical ↦
          if not (fs.starts_with base canonical) then next else elim (fs.read canonical) [
            | none ↦ next
            | some contents ↦
                some (bytes contents (guess_content_type (fs.to_string_lossy canonical)))
          ]
    ]
  ]

  unfoldable pub try_serve_static : List (Str × Str) → Str → Option ResponsePayload
  unfolding serve_below trim_slashes
  try_serve_static [] uri = none
  try_serve_static ((prefix, dir) ∷ dirs) uri =
      let next = try_serve_static dirs uri in
      elim (strip_prefix prefix uri) [
        | none ↦ next
        | some rest ↦
            if is_empty (trim_slashes rest) || contains (codes "..") (trim_slashes rest)
            then next
            else serve_below dir (trim_slashes rest) next
      ]
