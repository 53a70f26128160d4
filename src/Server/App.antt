-- ===== src/Server/App.antt =====
-- engine/src/lib.rs: the server's record `Rpress` and the methods that configure it. `W` is the
-- world that the application's code acts on, times are numbers of one unit.
use rpress.Common.{
  ℕ, ◌*◌, Bool, true, false, Option, none, some, List, [], ◌∷◌, ◌++◌, Str, HashMap, if◌then◌else◌,
  ◌==◌, nat_eq, is_some,
}
use mathlib.Core.List.{reverse}
use rpress.Cors.{RpressCors, validate}
use rpress.Security.{RpressSecurityHeaders}
use rpress.RateLimiter.{InMemoryRateLimiter, check}
use rpress.Payload.{ResponsePayload, RpressResult}
use rpress.Request.Outcome.{RequestPayload}
use rpress.Routes
use rpress.Routes.{Route}

abbrev pub Handler : Type 0 → Type 0
Handler W = RequestPayload → W → RpressResult × W

abbrev pub Middleware : Type 0 → Type 0
Middleware W = RequestPayload → Handler W → W → RpressResult × W

-- `RpressRoutes`
pub record RouteGroup (W : Type 0) : Type 0 where
  pub routes : HashMap Str (Handler W)
  pub middlewares : List (Middleware W)
  pub max_body_size : Option ℕ

-- `Arc<dyn RateLimiter>`: the in-memory limiter, or one of the application.
pub data Limiter (W : Type 0) : Type 0 where
  in_memory : InMemoryRateLimiter → Limiter W
  custom : (Str → ℕ → ℕ → W → Bool × W) → Limiter W

-- The answer of the Socket.IO server to an HTTP request.
pub data SioHttpResult : Type 0 where
  response : ResponsePayload → SioHttpResult
  websocket_upgrade : Str → SioHttpResult

-- What the HTTP server uses of the Socket.IO server: its path, and `handle_sio_request` from the
-- method, the URI, the query, the body and whether an upgrade is asked for.
pub record SocketServer (W : Type 0) : Type 0 where
  pub path : Str
  pub handle_sio_request : Str → Str → Str → Str → Bool → W → SioHttpResult × W

pub record Rpress (W : Type 0) : Type 0 where
  pub routes_tree : Route (Handler W)
  pub routes_group : List (RouteGroup W)
  pub max_buffer_capacity : ℕ
  pub max_body_size : ℕ
  pub max_parser_body_size : ℕ
  pub middlewares : List (Middleware W)
  pub cors : Option RpressCors
  pub read_timeout : ℕ
  pub idle_timeout : ℕ
  pub max_connections : ℕ
  pub static_dirs : List (Str × Str)
  pub rate_limit : Option (ℕ × ℕ)
  pub rate_limiter : Option (Limiter W)
  pub compression_enabled : Bool
  pub stream_threshold : ℕ
  pub security_headers : Option RpressSecurityHeaders
  pub socketio : Option (SocketServer W)

-- `DEFAULT_MAX_BODY_SIZE` of engine/src/core/request.rs
abbrev pub default_max_body_size : ℕ
default_max_body_size = 10 * 1024 * 1024

passes : Option RpressCors → Bool
passes none = true
passes (some c) = validate c

trim_start_slashes : Str → Str
trim_start_slashes [] = []
trim_start_slashes (c ∷ s) = let rest = trim_start_slashes s in if c == b'/' then rest else c ∷ s

-- `trim_end_matches('/')`
unfoldable pub trim_end_slashes : Str → Str
unfolding trim_start_slashes
trim_end_slashes s = reverse (trim_start_slashes (reverse s))

module _ {W : Type 0} where
  -- No result where the configuration does not pass its check. `second` is the length of one.
  unfoldable pub new : ℕ → Option RpressCors → Option (Rpress W)
  unfolding passes
  new second cors =
      if passes cors
      then some (record {
        routes_tree = Routes.new;
        routes_group = [];
        max_buffer_capacity = 40096;
        max_body_size = default_max_body_size;
        max_parser_body_size = default_max_body_size;
        middlewares = [];
        cors = cors;
        read_timeout = 30 * second;
        idle_timeout = 60 * second;
        max_connections = 1024;
        static_dirs = [];
        rate_limit = none;
        rate_limiter = none;
        compression_enabled = false;
        stream_threshold = 64 * 1024;
        security_headers = none;
        socketio = none;
      })
      else none

  unfoldable pub set_buffer_capacity : ℕ → Rpress W → Rpress W
  set_buffer_capacity capacity app = record app { max_buffer_capacity = capacity }

  unfoldable pub set_read_timeout : ℕ → Rpress W → Rpress W
  set_read_timeout duration app = record app { read_timeout = duration }

  unfoldable pub set_idle_timeout : ℕ → Rpress W → Rpress W
  set_idle_timeout duration app = record app { idle_timeout = duration }

  unfoldable pub set_max_connections : ℕ → Rpress W → Rpress W
  set_max_connections max app = record app { max_connections = max }

  unfoldable pub use_middleware : Middleware W → Rpress W → Rpress W
  use_middleware middleware app = record app { middlewares = app.middlewares ++ middleware ∷ [] }

  unfoldable pub add_route_group : RouteGroup W → Rpress W → Rpress W
  add_route_group group app = record app { routes_group = app.routes_group ++ group ∷ [] }

  unfoldable pub serve_static : Str → Str → Rpress W → Rpress W
  unfolding trim_end_slashes
  serve_static url_prefix dir app = record app {
    static_dirs = app.static_dirs ++ (trim_end_slashes url_prefix, dir) ∷ [];
  }

  unfoldable pub set_rate_limit : ℕ → ℕ → Rpress W → Rpress W
  set_rate_limit max_requests window_secs app = record app {
    rate_limit = some (max_requests, window_secs);
    rate_limiter =
        if is_some app.rate_limiter
        then app.rate_limiter
        else some (in_memory (record { store = [] }));
  }

  unfoldable pub set_rate_limiter : Limiter W → Rpress W → Rpress W
  set_rate_limiter limiter app = record app { rate_limiter = some limiter }

  unfoldable pub enable_compression : Bool → Rpress W → Rpress W
  enable_compression enabled app = record app { compression_enabled = enabled }

  unfoldable pub set_max_body_size : ℕ → Rpress W → Rpress W
  set_max_body_size bytes app = record app { max_body_size = bytes }

  unfoldable pub set_stream_threshold : ℕ → Rpress W → Rpress W
  set_stream_threshold bytes app = record app { stream_threshold = bytes }

  unfoldable pub set_security_headers : RpressSecurityHeaders → Rpress W → Rpress W
  set_security_headers headers app = record app { security_headers = some headers }

  unfoldable pub attach_socketio : SocketServer W → Rpress W → Rpress W
  attach_socketio io app = record app { socketio = some io }

  -- `limiter.check`; the window is given in seconds.
  unfoldable pub limiter_check : ℕ → Str → ℕ → ℕ → ℕ → Limiter W → W → Limiter W × (Bool × W)
  limiter_check second ip max_requests window_secs now (in_memory l) w =
      let (l', allowed) = check ip max_requests (window_secs * second) now l in
      (in_memory l', (allowed, w))
  limiter_check second ip max_requests window_secs now (custom f) w =
      (custom f, f ip max_requests window_secs w)

  -- Whether a connection of the address is let in, at the time `now`.
  unfoldable pub check_limits :
      ℕ → Str → ℕ → Rpress W → Option (ℕ × ℕ) → Option (Limiter W) → W → Rpress W × (Bool × W)
  unfolding limiter_check
  check_limits second ip now app none limiter w = (app, (true, w))
  check_limits second ip now app (some limit) none w = (app, (true, w))
  check_limits second ip now app (some (max_requests, window_secs)) (some limiter) w =
      let (limiter', allowed) = limiter_check second ip max_requests window_secs now limiter w in
      (record app { rate_limiter = some limiter' }, allowed)

  unfoldable pub check_rate_limit : ℕ → Str → ℕ → Rpress W → W → Rpress W × (Bool × W)
  unfolding check_limits
  check_rate_limit second ip now app w =
      check_limits second ip now app app.rate_limit app.rate_limiter w
