-- ===== src/Server/Listener/Tests.antt =====
-- Sockets that come in at the small server.
use Prim.Native.Nat.{min}
use rpress.Common.{
  Str, Option, none, if◌then◌else◌, ◌==◌, nat_eq, list_eq, ◌+◌, ◌≤◌, true, false, some, List, [],
  ◌∷◌, codes, length, runs, ◌≡◌, refl, arith,
}
use rpress.RateLimiter.{check}
use rpress.RateLimiter.Budget.{requests}
use rpress.Server.App.{Rpress, in_memory, check_rate_limit}
use rpress.Server.Tests.{app, hello, Log}
use rpress.Server.Connection.{collecting, received}
use rpress.Server.Connection.Tests.{platform}
use rpress.Server.H2.Tests.{http}
use rpress.Server.Listener.{
  h1, h2, serving, stopping, stopped, Happening, accepted, socket_event, shutdown, Server, task_of,
  start, step, run,
}
use rpress.Types.Names.{try_from_str}
use rpress.Routes.{insert_route}
use rpress.Server.Dispatch.{prepare_server}
use rpress.Server.Listener.Launch.{
  TlsLibrary, loaded, refused, key_file, no_key, both_protocols, from_pem, Launched, launched,
  launch,
}
use rpress.Server.Listener.Permits.{run-total}
use rpress.Server.Listener.Shutdown.{IsWaiting, notices, run-shutdown}
use rpress.Server.Listener.Admission.{admissions, checked, checks, admissions_budget}

abbrev happenings : List Happening
happenings =
    accepted (codes "a") 1
    ∷ accepted (codes "b") 2
    ∷ socket_event 0 (received (codes "GET"))
    ∷ accepted (codes "a") 3
    ∷ shutdown
    ∷ []

run-total_example :
    (let s = (run platform http false 1 happenings (start app [])).1 in
      (s.permits + length s.tasks ≡ app.max_connections) × (length s.tasks ≤ app.max_connections))
run-total_example = run-total platform http false 1 app [] happenings

-- Two connections, each of which waits for a request.
abbrev two_waiting : Server Log
two_waiting = record {
  app = app;
  phase = serving;
  permits = 2;
  tasks = (1, h1 (collecting [] true)) ∷ (0, h1 (collecting (codes "GET") false)) ∷ [];
  next_id = 2;
  world = [];
}

run-shutdown_example :
    (run platform http false 1 (shutdown ∷ notices two_waiting.tasks) two_waiting).1.phase ≡ stopped
unfolding IsWaiting
run-shutdown_example =
    run-shutdown platform http false 1 two_waiting refl
      (([], true, refl), ((codes "GET", false, refl), tt))

-- A connection of HTTP/2 does not notice the shutdown.
h2_waits :
    (run platform http true 1
      (shutdown ∷ notices ((0, h2) ∷ []))
      (record two_waiting { tasks = (0, h2) ∷ [] })).1.phase
    ≡ stopping
unfolding runs run notices task_of
h2_waits = refl

abbrev limited : Server Log
limited = record two_waiting {
  app = record app {
    rate_limit = some (1, 10);
    rate_limiter = some (in_memory (record { store = [] }));
  };
  permits = 4;
  tasks = [];
}

abbrev others : List Happening
others =
    accepted (codes "b") 2
    ∷ socket_event 0 (received (codes "GET"))
    ∷ accepted (codes "a") 3
    ∷ shutdown
    ∷ []

abbrev after_first : Server Log
after_first = (step platform http false 1 (accepted (codes "a") 1) serving limited).1

checks_made : checks platform http false 1 others after_first ≡ (codes "b", 2) ∷ (codes "a", 3) ∷ []
unfolding runs checks checked step check check_rate_limit task_of
checks_made = refl

-- The second socket of the address is refused.
admissions_budget_example :
    admissions platform http false 1 (codes "a") (accepted (codes "a") 1 ∷ others) limited
    ≡ min 1 (requests (codes "a") (checks platform http false 1 others after_first) + 1)
unfolding runs requests
admissions_budget_example =
    admissions_budget platform http false 1 1 10 (codes "a") 1 3 others limited
      (record { store = [] }) refl refl (record { limit_eq = refl; limiter_eq = refl }) refl
      (rw checks_made (omega arith, (omega arith, tt))) (rw checks_made (omega arith))

-- The small server with a group that takes larger bodies.
abbrev grouped : Rpress Log
grouped = record app {
  routes_group =
      record { routes = (codes ":get/x", hello) ∷ []; middlewares = []; max_body_size = some 16 }
      ∷ [];
}

abbrev captures : Str → Option (Str × Str)
captures s = some (codes "get", codes "/x")

up : (l : Launched Log) × (launch captures (λ s. s) true false true grouped [] ≡ launched l)
unfolding runs launch prepare_server try_from_str insert_route
up = (_, refl)

abbrev library : TlsLibrary Str
library = record {
  open_file = λ path. if path == codes "none" then none else some path;
  certs = λ text. some (text ∷ []);
  private_key = λ text. if text == codes "empty" then some none else some (some text);
  with_single_cert = λ chain key. some key;
}

-- A configuration that is loaded offers both protocols; a file that is missing or that holds no key
-- is named.
tls :
    (from_pem library (codes "cert") (codes "key")
      ≡ loaded (record { config = codes "key"; alpn_protocols = both_protocols }))
    × (from_pem library (codes "cert") (codes "none") ≡ refused key_file)
    × (from_pem library (codes "cert") (codes "empty") ≡ refused no_key)
unfolding runs from_pem
tls = (refl, refl, refl)
