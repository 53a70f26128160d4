-- ===== src/Server/Inside.antt =====
-- Which files the server gives away.
use rpress.Common.{
  true, false, ◌&&◌, ◌||◌, refl, Option, some, List, [], ◌∷◌, Str, codes, strip_prefix, contains,
  is_empty, ◌==◌, nat_eq, list_eq, any, ◌≡◌, ◌⊎◌, arith, inl, inr, Bool-cases, Option-cases,
  eq_refl,
}
use rpress.Payload.{ResponsePayload, bytes}
use rpress.Server.Static.{
  FileSystem, guess_content_type, trim_slashes, serve_below, try_serve_static,
}

module _ {P : Type 0} (fs : FileSystem P) where
  -- The response is the file that a path below the directory stands for, read by its canonical
  -- path, which lies in the directory's.
  abbrev pub IsBelow : Str → Str → ResponsePayload → Type 0
  IsBelow dir relative p =
      (base : P) × (canonical : P) × (contents : Str) × (fs.canonicalize (fs.new_path dir)
        ≡ some base)
      × (fs.canonicalize (fs.join base relative) ≡ some canonical)
      × (fs.starts_with base canonical ≡ true)
      × (fs.read canonical ≡ some contents)
      × (p ≡ bytes contents (guess_content_type (fs.to_string_lossy canonical)))

  serve_below-IsBelow :
      (dir relative : Str) (next : Option ResponsePayload) (p : ResponsePayload)
      → serve_below fs dir relative next ≡ some p
      → IsBelow dir relative p ⊎ (next ≡ some p)
  unfolding serve_below
  serve_below-IsBelow dir relative next p served =
      elim (Option-cases (fs.canonicalize (fs.new_path dir))) [
        | inl lost ↦ absurd (ground (arith, lost, served))
        | inr (base, at) ↦ elim (Option-cases (fs.canonicalize (fs.join base relative))) [
          | inl missing ↦ inr (ground (arith, at, missing, served))
          | inr (canonical, there) ↦ elim (Bool-cases (fs.starts_with base canonical)) [
            | inr outside ↦ inr (ground (arith, at, there, outside, served))
            | inl inside ↦ elim (Option-cases (fs.read canonical)) [
              | inl unread ↦ inr (ground (arith, at, there, inside, unread, served))
              | inr (contents, readable) ↦ inl (
                base,
                canonical,
                contents,
                at,
                there,
                inside,
                readable,
                ground (arith, at, there, inside, readable, served),
              )
            ]
          ]
        ]
      ]

  -- What is left of the path behind the prefix and the slashes, without a `..`.
  abbrev pub IsRelative : Str → Str → Str → Type 0
  IsRelative prefix uri relative =
      (rest : Str) × (strip_prefix prefix uri ≡ some rest)
      × (relative ≡ trim_slashes rest)
      × (contains (codes "..") relative ≡ false)

  -- A file that is served lies in one of the configured directories, by its canonical path, which
  -- is that of what the path asks for below the directory's prefix, whatever path the client sends
  -- and whichever links it runs through.
  pub try_serve_static-IsBelow :
      (dirs : List (Str × Str)) (uri : Str) (p : ResponsePayload)
      → try_serve_static fs dirs uri ≡ some p
      → (prefix : Str) × (dir : Str) × (relative : Str) × (any
            (λ d. (d.0 == prefix) && (d.1 == dir))
            dirs
          ≡ true)
        × IsRelative prefix uri relative
        × IsBelow dir relative p
  unfolding try_serve_static
  try_serve_static-IsBelow [] uri p served = cc
  try_serve_static-IsBelow ((prefix, dir) ∷ dirs) uri p served =
      let later : try_serve_static fs dirs uri ≡ some p
          → (f : Str) × (d : Str) × (relative : Str) × (any (λ e. (e.0 == f) && (e.1 == d))
                ((prefix, dir) ∷ dirs)
              ≡ true)
            × IsRelative f uri relative
            × IsBelow d relative p =
        λ next.
          let (f, d, relative, known, is, below) = try_serve_static-IsBelow dirs uri p next in
          (f, d, relative, ground (arith, known), is, below) in
      elim (Option-cases (strip_prefix prefix uri)) [
        | inl other ↦ later (ground (arith, other, served))
        | inr (rest, mine) ↦
            elim (Bool-cases
              (is_empty (trim_slashes rest) || contains (codes "..") (trim_slashes rest))) [
                | inl skipped ↦ later (ground (arith, mine, skipped, served))
                | inr plain ↦
                    elim (serve_below-IsBelow dir (trim_slashes rest) (try_serve_static fs dirs uri)
                      p (ground (arith, mine, plain, served))) [
                        | inl below ↦ (
                          prefix,
                          dir,
                          trim_slashes rest,
                          ground (arith, eq_refl prefix, eq_refl dir),
                          (rest, mine, refl, ground (arith, plain)),
                          below,
                        )
                        | inr next ↦ later next
                      ]
              ]
      ]
