-- ===== src/Server/Tests.antt =====
-- Requests to a small server. Its world is a log of what ran.
use rpress.Common.{
  ℕ, true, false, ◌&&◌, Option, none, some, List, [], ◌∷◌, ◌++◌, map, Str, codes, runs, is_some,
  any, strip_prefix, if◌then◌else◌, ◌==◌, nat_eq, list_eq, ◌≡◌, refl, arith,
}
use rpress.Payload.{ResponsePayload, text, done}
use rpress.Request.Outcome.{RequestPayload, RequestMetadata}
use rpress.Request.Access.{set_params}
use rpress.Routes.{Route, new, insert_route, segments_of}
use rpress.Routes.Pattern.{pattern_of, literal, edge}
use rpress.Server.Static.{FileSystem, try_serve_static}
use rpress.Server.Inside.{IsRelative, IsBelow, try_serve_static-IsBelow}
use rpress.Server.App.{Handler, Middleware, Rpress}
use rpress.Server.Dispatch.{payload_of, lookup_method_of, resolve_route}
use rpress.Server.Chain.{nested, IsServed, resolve_route-insert_route}

abbrev pub Log : Type 0
Log = List ℕ

abbrev pub hello : Handler Log
hello req log = (done (text (codes "hello")), log ++ 0 ∷ [])

abbrev logging : ℕ → Middleware Log
logging n req next log = next req (log ++ n ∷ [])

abbrev tree_with : Option (Route (Handler Log)) → Route (Handler Log)
tree_with none = new
tree_with (some tree) = tree

-- Two files, one of them outside of the directory that is served.
abbrev pub files : FileSystem Str
files = record {
  canonicalize =
      λ p. if p == codes "public/link" then some (codes "/secret") else some (codes "/srv/" ++ p);
  new_path = λ s. s;
  join = λ p s. codes "public/" ++ s;
  starts_with = λ p q. is_some (strip_prefix p q);
  read = λ p. some (codes "text");
  to_string_lossy = λ p. p;
}

abbrev dirs : List (Str × Str)
dirs = (codes "/assets", codes "public") ∷ []

served : (p : ResponsePayload) × (try_serve_static files dirs (codes "/assets/a.css") ≡ some p)
unfolding runs try_serve_static
served = (_, refl)

abbrev pub app : Rpress Log
app = record {
  routes_tree = tree_with (insert_route (codes "/hello") (codes "GET") hello none new);
  cors = none;
  middlewares = logging 1 ∷ logging 2 ∷ [];
  max_body_size = 8;
  compression_enabled = false;
  static_dirs = dirs;
  routes_group = [];
  max_buffer_capacity = 4096;
  max_parser_body_size = 8;
  read_timeout = 30;
  idle_timeout = 60;
  max_connections = 4;
  rate_limit = none;
  rate_limiter = none;
  stream_threshold = 0;
  security_headers = none;
  socketio = none;
}

abbrev pub head_metadata : RequestMetadata
head_metadata = record {
  method = codes "HEAD";
  uri = codes "/hello";
  query_path = [];
  http_method = codes "HTTP/1.1";
  headers = [];
}

abbrev head_request : RequestPayload
head_request = record {
  request_metadata = some head_metadata;
  payload = [];
  params = [];
  query = [];
  extensions = [];
  body_receiver = none;
}

order : (nested app.middlewares hello head_request []).1 ≡ 1 ∷ 2 ∷ 0 ∷ []
unfolding nested
order = refl

head_request-IsServed : IsServed app (codes "/hello") (codes "GET") none head_request head_metadata
unfolding runs lookup_method_of
head_request-IsServed = record {
  has_metadata = refl;
  for_path = refl;
  for_method = refl;
  no_preflight = refl;
  fits = omega arith;
}

pub hello_pattern : pattern_of (codes "/hello") ≡ map literal (segments_of (codes "/hello"))
unfolding runs segments_of edge pattern_of
hello_pattern = refl

pub hello_added : insert_route (codes "/hello") (codes "GET") hello none new ≡ some app.routes_tree
unfolding runs insert_route
hello_added = refl

resolve_route-insert_route_example :
    ((resolve_route files app (codes "id") head_request []).0.payload
      ≡ payload_of (nested app.middlewares hello (set_params [] head_request) []).0)
    × ((resolve_route files app (codes "id") head_request []).1
        ≡ (nested app.middlewares hello (set_params [] head_request) []).1)
    × ((resolve_route files app (codes "id") head_request []).0.is_head
        ≡ (head_metadata.method == codes "HEAD"))
resolve_route-insert_route_example =
    resolve_route-insert_route files app (codes "/hello") (codes "GET") (codes "id") hello none new
      head_request head_metadata [] hello_pattern hello_added head_request-IsServed

-- The link leads outside, and a path with `..` is not looked up.
not_served :
    (try_serve_static files dirs (codes "/assets/link") ≡ none)
    × (try_serve_static files dirs (codes "/assets/../secret") ≡ none)
unfolding runs try_serve_static
not_served = (refl, refl)

try_serve_static-IsBelow_example :
    (prefix : Str) × (dir : Str) × (relative : Str) × (any
        (λ d. (d.0 == prefix) && (d.1 == dir))
        dirs
      ≡ true)
    × IsRelative files prefix (codes "/assets/a.css") relative
    × IsBelow files dir relative served.0
try_serve_static-IsBelow_example =
    try_serve_static-IsBelow files dirs (codes "/assets/a.css") served.0 served.1
