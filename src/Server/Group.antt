-- ===== src/Server/Group.antt =====
-- engine/src/core/routes.rs: `RpressRoutes`, a group of routes that is not yet in the tree.
use rpress.Common.{none, some, [], ◌∷◌, ◌++◌, Str, ℕ, insert, list_eq, nat_eq}
use rpress.Payload.{RpressResult}
use rpress.Request.Outcome.{RequestPayload}
use rpress.Server.App.{Middleware, RouteGroup}

module _ {W : Type 0} where
  unfoldable pub new_group : RouteGroup W
  new_group = record { routes = []; middlewares = []; max_body_size = none }

  unfoldable pub group_max_body_size : ℕ → RouteGroup W → RouteGroup W
  group_max_body_size bytes g = record g { max_body_size = some bytes }

  unfoldable pub group_use_middleware : Middleware W → RouteGroup W → RouteGroup W
  group_use_middleware middleware g = record g { middlewares = g.middlewares ++ middleware ∷ [] }

  -- The result of the handler, of any type `R`, goes through its `into_result`.
  unfoldable pub group_add :
      {R : Type 0}
      → (R → RpressResult)
      → Str
      → (RequestPayload → W → R × W)
      → RouteGroup W
      → RouteGroup W
  group_add into_result name handler g = record g {
    routes = insert name (λ req w. let (r, w') = handler req w in (into_result r, w')) g.routes;
  }
