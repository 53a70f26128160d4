-- ===== src/Server/Dispatch.antt =====
-- engine/src/lib.rs: middleware chains, `initialize_routes` and `resolve_route`. Handlers and
-- middleware are the application's code: functions of a request and of the rest of the world `W`,
-- which they may change.
use rpress.Common.{
  ℕ, Bool, false, not, ◌&&◌, Option, none, some, List, [], ◌∷◌, Str, codes, HashMap, lookup, length,
  ltb, is_empty, is_some, if◌then◌else◌, ◌==◌, nat_eq, list_eq, unwrap_or,
}
use mathlib.Core.List.{reverse}
use rpress.Types.Status
use rpress.Types.Status.{StatusCode}
use rpress.Types.Names.{try_from_str, verb_name}
use rpress.Payload.{
  ResponsePayload, empty, text, with_status, RpressError, RpressResult, into_rpress_error,
}
use rpress.Payload
use rpress.Request.Outcome.{RequestPayload, RequestMetadata}
use rpress.Request.Access.{set_params}
use rpress.Server.Static.{FileSystem, try_serve_static}
use rpress.Server.App.{Handler, Middleware, RouteGroup, Rpress}
use rpress.Routes.{Route, RouteMatch, found, wrong_method, not_found, find, insert_route}

pub record ResolvedResponse : Type 0 where
  pub payload : ResponsePayload
  pub request_id : Str
  pub is_head : Bool
  pub accept_encoding : Option Str
  pub req_origin : Option Str

unfoldable pub req_origin_of : RequestPayload → Option Str
req_origin_of req = elim (req.request_metadata) [
  | none ↦ none
  | some m ↦ lookup (codes "origin") m.headers
]

unfoldable pub payload_of : RpressResult → ResponsePayload
payload_of (Payload.done payload) = payload
payload_of (Payload.failed error) =
    let (status, message) = into_rpress_error error in with_status status (text message)

unfoldable pub lookup_method_of : Str → Str
lookup_method_of method = if method == codes "HEAD" then codes "GET" else method

module _ {W : Type 0} where
  -- One step of the fold over the middleware.
  unfoldable pub wrap : Handler W → Middleware W → Handler W
  wrap next mw = λ req w. mw req next w

  unfoldable pub fold : Handler W → List (Middleware W) → Handler W
  unfolding wrap
  fold next [] = next
  fold next (mw ∷ mws) = fold (wrap next mw) mws

  -- `middlewares.iter().rev().fold(final_next, …)`
  unfoldable pub chain : List (Middleware W) → Handler W → Handler W
  unfolding fold
  chain middlewares final_next = fold final_next (reverse middlewares)

  unfoldable pub wrap_handler_with_middlewares : Handler W → List (Middleware W) → Handler W
  unfolding chain
  wrap_handler_with_middlewares handler middlewares = chain middlewares handler

  unfoldable pub resolve_accept_encoding : Rpress W → RequestPayload → Option Str
  resolve_accept_encoding app req =
      if not app.compression_enabled then none else elim (req.request_metadata) [
        | none ↦ none
        | some m ↦ lookup (codes "accept-encoding") m.headers
      ]

  -- The response of a route that was found. A payload that is too large is answered at once.
  unfoldable pub run_route :
      Rpress W → RequestPayload → Handler W → HashMap Str Str → Option ℕ → W → ResponsePayload × W
  unfolding chain payload_of
  run_route app req handler params route_body_limit w =
      if ltb (unwrap_or route_body_limit app.max_body_size) (length req.payload)
      then (with_status Status.payload_too_large empty, w)
      else (let (result, w') =
            (if is_empty app.middlewares then handler else chain app.middlewares handler)
              (set_params params req) w in
          (payload_of result, w'))

module _ {W P : Type 0} (fs : FileSystem P) where
  -- The response by what the table of routes answers.
  unfoldable pub match_route :
      Rpress W → RequestPayload → Str → Str → RouteMatch (Handler W) → W → ResponsePayload × W
  unfolding run_route
  match_route app req uri lookup_method (found handler params limit) w =
      run_route app req handler params limit w
  match_route app req uri lookup_method wrong_method w =
      (with_status Status.method_not_allowed empty, w)
  match_route app req uri lookup_method not_found w =
      if lookup_method == codes "GET"
      then (elim (try_serve_static fs app.static_dirs uri) [
        | some payload ↦ (payload, w)
        | none ↦ (with_status Status.not_found empty, w)
      ])
      else (with_status Status.not_found empty, w)

  -- `resolve_route`; the identifier of the request is fresh.
  unfoldable pub resolve_meta :
      Rpress W → RequestPayload → RequestMetadata → W → (ResponsePayload × Bool) × W
  unfolding match_route lookup_method_of
  resolve_meta app req meta w =
      if meta.method == codes "OPTIONS" && is_some app.cors
      then ((with_status Status.no_content empty, false), w)
      else (let (payload, w') =
            match_route app req meta.uri (lookup_method_of meta.method)
              (find meta.uri (lookup_method_of meta.method) app.routes_tree) w in
          ((payload, meta.method == codes "HEAD"), w'))

  unfoldable pub resolve_payload :
      Rpress W → RequestPayload → Option RequestMetadata → W → (ResponsePayload × Bool) × W
  unfolding resolve_meta
  resolve_payload app req none w = ((with_status Status.bad_request empty, false), w)
  resolve_payload app req (some meta) w = resolve_meta app req meta w

  unfoldable pub resolve_route : Rpress W → Str → RequestPayload → W → ResolvedResponse × W
  unfolding resolve_payload resolve_accept_encoding req_origin_of
  resolve_route app request_id req w =
      let ((payload, is_head), w') = resolve_payload app req req.request_metadata w in
      (
        record {
          payload = payload;
          request_id = request_id;
          is_head = is_head;
          accept_encoding = resolve_accept_encoding app req;
          req_origin = req_origin_of req;
        },
        w',
      )

module _ {W : Type 0} where
  -- `captures` splits a route's name into its method and its path, `lower` is `to_lowercase`.
  module _ (captures : Str → Option (Str × Str)) (lower : Str → Str) where
    -- One route of a group; a panic of the insertion has no result.
    unfoldable pub register_route :
        RouteGroup W → Str → Handler W → Route (Handler W) → Option (Route (Handler W))
    unfolding wrap_handler_with_middlewares
    register_route group route handler tree = elim (captures route) [
      | none ↦ some tree
      | some (method, path) ↦ elim (try_from_str (lower method)) [
        | none ↦ some tree
        | some verb ↦
            insert_route path (verb_name verb)
              (if is_empty group.middlewares
                then handler
                else wrap_handler_with_middlewares handler group.middlewares)
              group.max_body_size tree
      ]
    ]

    unfoldable pub register_routes :
        RouteGroup W → HashMap Str (Handler W) → Route (Handler W) → Option (Route (Handler W))
    unfolding register_route
    register_routes group [] tree = some tree
    register_routes group ((route, handler) ∷ routes) tree =
        elim (register_route group route handler tree) [
          | none ↦ none
          | some tree' ↦ register_routes group routes tree'
        ]

    -- The tree and the largest body that the parser must take.
    unfoldable pub initialize_routes :
        List (RouteGroup W) → Route (Handler W) × ℕ → Option (Route (Handler W) × ℕ)
    unfolding register_routes
    initialize_routes [] (tree, max_seen) = some (tree, max_seen)
    initialize_routes (group ∷ groups) (tree, max_seen) =
        let limit = unwrap_or group.max_body_size 0 in
        elim (register_routes group group.routes tree) [
          | none ↦ none
          | some tree' ↦
              initialize_routes groups (tree', if ltb max_seen limit then limit else max_seen)
        ]

    -- The routes of the groups move into the tree.
    unfoldable pub prepare_server : Rpress W → Option (Rpress W)
    unfolding initialize_routes
    prepare_server app =
        elim (initialize_routes app.routes_group (app.routes_tree, app.max_body_size)) [
          | none ↦ none
          | some (tree, max_seen) ↦ some (record app {
            routes_tree = tree;
            routes_group = [];
            max_parser_body_size = max_seen;
          })
        ]
