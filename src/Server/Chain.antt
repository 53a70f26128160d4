-- ===== src/Server/Chain.antt =====
-- The order in which middleware runs, and the responses of registered routes.
use rpress.Common.{
  ℕ, ◌≤◌, false, ◌&&◌, Option, some, List, [], ◌∷◌, ◌++◌, map, Str, codes, length, is_some,
  is_empty, ltb, if◌then◌else◌, unwrap_or, ◌==◌, nat_eq, list_eq, ◌≡◌, refl, ap, ◌∙◌, arith,
}
use mathlib.Core.List.{reverse, reverse-cons}
use rpress.Request.Outcome.{RequestPayload, RequestMetadata}
use rpress.Request.Access.{set_params}
use rpress.Routes.{Route, found, find, insert_route, segments_of}
use rpress.Routes.Pattern.{pattern_of, literal}
use rpress.Routes.Lookup.{find-insert_route}
use rpress.Server.Static.{FileSystem}
use rpress.Server.App.{Handler, Middleware, Rpress}
use rpress.Server.Dispatch.{
  wrap, fold, chain, payload_of, run_route, match_route, lookup_method_of, resolve_meta,
  resolve_payload, resolve_route,
}

module _ {W : Type 0} where
  -- The first middleware is the outermost: it gets the request first, and the others as its `next`.
  unfoldable pub nested : List (Middleware W) → Handler W → Handler W
  nested [] handler = handler
  nested (mw ∷ mws) handler = λ req w. mw req (nested mws handler) w

  fold-append :
      (next : Handler W) (xs ys : List (Middleware W))
      → fold next (xs ++ ys) ≡ fold (fold next xs) ys
  unfolding fold
  fold-append next [] ys = refl
  fold-append next (x ∷ xs) ys = fold-append (wrap next x) xs ys

  -- Middleware runs in the order in which it was added, around the handler.
  pub chain-eq-nested :
      (mws : List (Middleware W)) (handler : Handler W) → chain mws handler ≡ nested mws handler
  unfolding chain nested fold wrap
  chain-eq-nested [] handler = refl
  chain-eq-nested (mw ∷ mws) handler =
      ap (fold handler) (reverse-cons mw mws)
      ∙ (fold-append handler (reverse mws) (mw ∷ [])
          ∙ ap (λ next. wrap next mw) (chain-eq-nested mws handler))

  nested-eq-run :
      (mws : List (Middleware W)) (handler : Handler W)
      → (if is_empty mws then handler else chain mws handler) ≡ nested mws handler
  unfolding nested
  nested-eq-run [] handler = refl
  nested-eq-run (mw ∷ mws) handler = chain-eq-nested (mw ∷ mws) handler

  -- A request that is answered by a route is not the preflight of a cross-origin request, and its
  -- body is within the route's limit, or else the server's.
  pub record IsServed (app : Rpress W) (path method : Str) (limit : Option ℕ) (req : RequestPayload)
      (meta : RequestMetadata) : Type 0 where
    pub has_metadata : req.request_metadata ≡ some meta
    pub for_path : meta.uri ≡ path
    pub for_method : lookup_method_of meta.method ≡ method
    pub no_preflight : meta.method == codes "OPTIONS" && is_some app.cors ≡ false
    pub fits : length req.payload ≤ unwrap_or limit app.max_body_size

module _ {W P : Type 0} (fs : FileSystem P) where
  resolve_meta-insert_route :
      (app : Rpress W) (path method : Str) (handler : Handler W) (limit : Option ℕ)
      (tree : Route (Handler W)) (req : RequestPayload) (meta : RequestMetadata) (w : W)
      → pattern_of path ≡ map literal (segments_of path)
      → insert_route path method handler limit tree ≡ some app.routes_tree
      → IsServed app path method limit req meta
      → resolve_meta fs app req meta w ≡ (
        (
          payload_of (nested app.middlewares handler (set_params [] req) w).0,
          meta.method == codes "HEAD",
        ),
        (nested app.middlewares handler (set_params [] req) w).1,
      )
  unfolding resolve_meta match_route run_route
  resolve_meta-insert_route app path method handler limit tree req meta w plain added served =
      let size : ltb (unwrap_or limit app.max_body_size) (length req.payload) ≡ false =
        ground (arith, served.fits) in
      let answer : find meta.uri (lookup_method_of meta.method) app.routes_tree
          ≡ found handler [] limit =
        rw (served.for_path, served.for_method)
          (find-insert_route path method handler limit tree app.routes_tree plain added) in
      rw (served.no_preflight, answer, size, nested-eq-run app.middlewares handler) refl

  -- Once a route of plain segments is registered, a request for its path and method, or a HEAD
  -- request where the method is GET, is answered by its handler, with the middleware around it in
  -- the order in which it was added, whatever other routes there are, if the request is not the
  -- preflight of a cross-origin request and its body is within the limit. The answer is marked as
  -- one to a HEAD request exactly if the request is one.
  pub resolve_route-insert_route :
      (app : Rpress W) (path method request_id : Str) (handler : Handler W) (limit : Option ℕ)
      (tree : Route (Handler W)) (req : RequestPayload) (meta : RequestMetadata) (w : W)
      → pattern_of path ≡ map literal (segments_of path)
      → insert_route path method handler limit tree ≡ some app.routes_tree
      → IsServed app path method limit req meta
      → ((resolve_route fs app request_id req w).0.payload
          ≡ payload_of (nested app.middlewares handler (set_params [] req) w).0)
        × ((resolve_route fs app request_id req w).1
            ≡ (nested app.middlewares handler (set_params [] req) w).1)
        × ((resolve_route fs app request_id req w).0.is_head ≡ (meta.method == codes "HEAD"))
  unfolding resolve_route resolve_payload
  resolve_route-insert_route app path method request_id handler limit tree req meta w plain added
        served =
      let answered =
        ap (λ m. resolve_payload fs app req m w) served.has_metadata
        ∙ resolve_meta-insert_route app path method handler limit tree req meta w plain added
            served in
      (ap (λ t. t.0.0) answered, ap (λ t. t.1) answered, ap (λ t. t.0.1) answered)
