-- ===== src/Server/Listener.antt =====
-- engine/src/lib.rs: `run_server` and the tasks of its connections, as steps that may come in any
-- order. Permits are counted; a task that ends, also by a panic, gives its permit back. An address
-- is its text, and a time is a number.
pub mod Tasks
pub mod Permits
pub mod Admission
pub mod Launch
pub mod Shutdown
mod Tests
use rpress.Common.{
  ℕ, zero, suc, ◌+◌, Bool, true, false, Option, none, some, List, [], ◌∷◌, Str, codes, is_empty,
  if◌then◌else◌, ◌==◌, nat_eq, list_eq,
}
use rpress.Types.Status
use rpress.Server.App.{Rpress, check_rate_limit}
use rpress.Server.Send.{send_error_status}
use rpress.Server.Connection
use rpress.Server.Connection.{Connection, Event, Platform, collecting, upgraded, crashed, cancelled}
use rpress.Server.H2.{Http, StreamEnd, Accepted, stream, accept_error, handle_h2_stream}

-- A connection's task: the TLS handshake, and then one of the protocols.
pub data Task : Type 0 where
  shaking_hands : Task
  h1 : Connection → Task
  h2 : Task

pub data Phase : Type 0 where
  serving : Phase
  stopping : Phase
  stopped : Phase
  io_error : Phase

-- What happens: a socket comes in from an address at a time, or the listener fails; a handshake
-- ends, with the protocol that it settled on, or fails; a socket gives something to its task; an
-- HTTP/2 connection gives a stream or is over; a WebSocket is over; the signal to shut down comes.
pub data Happening : Type 0 where
  accepted : Str → ℕ → Happening
  accept_failed : Happening
  handshaken : ℕ → Option Str → Happening
  handshake_failed : ℕ → Happening
  socket_event : ℕ → Event → Happening
  h2_event : ℕ → Option Accepted → Happening
  websocket_over : ℕ → Happening
  shutdown : Happening

-- What goes out: a socket that is closed at once, an answer to one that is refused, the bytes of a
-- connection, and the answer on a stream.
pub data Sent : Type 0 where
  closed_at_once : Sent
  refused : Str → Sent
  written : ℕ → Str → Sent
  stream_sent : ℕ → StreamEnd → Sent

pub record Server (W : Type 0) : Type 0 where
  pub app : Rpress W
  pub phase : Phase
  pub permits : ℕ
  pub tasks : List (ℕ × Task)
  pub next_id : ℕ
  pub world : W

unfoldable pub task_of : ℕ → List (ℕ × Task) → Option Task
task_of id [] = none
task_of id ((at, task) ∷ tasks) = if at == id then some task else task_of id tasks

-- A task goes on, or ends and gives one permit back.
unfoldable pub put_task : ℕ → Option Task → List (ℕ × Task) → List (ℕ × Task) × ℕ
put_task id next [] = ([], 0)
put_task id none ((at, task) ∷ tasks) =
    let (rest, released) = put_task id none tasks in
    if at == id then (tasks, 1) else ((at, task) ∷ rest, released)
put_task id (some task') ((at, task) ∷ tasks) =
    let (rest, released) = put_task id (some task') tasks in
    if at == id then ((at, task') ∷ tasks, 0) else ((at, task) ∷ rest, released)

-- The task of a connection of HTTP/1.1 behind a step.
unfoldable pub next_h1 : Connection → Option Task
next_h1 Connection.ended = none
next_h1 crashed = none
next_h1 connection = some (h1 connection)

is_h2 : Option Str → Bool
is_h2 none = false
is_h2 (some p) = p == codes "h2"

-- The task behind a handshake, by the protocol that it settled on.
unfoldable pub next_task : Option Str → Task
unfolding is_h2
next_task protocol = if is_h2 protocol then h2 else h1 (collecting [] true)

unfoldable pub is_upgraded : Option Task → Bool
is_upgraded (some (h1 (upgraded sid))) = true
is_upgraded _ = false

unfoldable pub first_task : Bool → Task
first_task true = shaking_hands
first_task false = h1 (collecting [] true)

-- A connection's token is cancelled once the server is stopping; a failure of the listener does not
-- cancel it.
unfoldable pub is_due : Phase → Event → Bool
is_due stopping event = true
is_due phase cancelled = false
is_due phase event = true

-- The server returns when the last task is done.
unfoldable pub wait_for_tasks : Phase → List (ℕ × Task) → Phase
wait_for_tasks stopping tasks = if is_empty tasks then stopped else stopping
wait_for_tasks phase tasks = phase

module _ {W : Type 0} where
  -- A listener with all its permits, before the first connection.
  unfoldable pub start : Rpress W → W → Server W
  start app w = record {
    app = app;
    phase = serving;
    permits = app.max_connections;
    tasks = [];
    next_id = 0;
    world = w;
  }

  unfoldable pub set_task : ℕ → Option Task → W → Server W → Server W
  unfolding put_task wait_for_tasks
  set_task id next w s =
      let (tasks, released) = put_task id next s.tasks in
      record s {
        tasks = tasks;
        permits = s.permits + released;
        phase = wait_for_tasks s.phase tasks;
        world = w;
      }

  unfoldable pub spawn : Task → Server W → Server W
  spawn task s = record s { tasks = (s.next_id, task) ∷ s.tasks; next_id = s.next_id + 1 }

  -- The permit is taken before the address is checked.
  unfoldable pub admit : Bool → Str → ℕ → Bool → Server W → List Sent × Server W
  unfolding spawn first_task
  admit tls answer permits true s = ([], spawn (first_task tls) (record s { permits = permits }))
  admit tls answer permits false s = (refused answer ∷ [], s)

module _ {W P : Type 0} (platform : Platform P) (http : Http) (tls : Bool) (second : ℕ) where
  -- The rest of `accept` with the permits that are left.
  unfoldable pub on_accept : Str → ℕ → ℕ → Server W → List Sent × Server W
  unfolding admit
  on_accept ip now zero s = (closed_at_once ∷ [], s)
  on_accept ip now (suc permits) s =
      let (app, (allowed, w)) = check_rate_limit second ip now s.app s.world in
      admit tls
        (send_error_status platform.compressors platform.now app Status.too_many_requests none
          (platform.request_ids 0))
        permits allowed (record s { app = app; world = w })

  unfoldable pub on_socket : ℕ → Event → Option Task → Server W → List Sent × Server W
  unfolding set_task next_h1
  on_socket id event (some (h1 connection)) s =
      let (connection', (bytes, w)) = Connection.step platform s.app event connection s.world in
      (written id bytes ∷ [], set_task id (next_h1 connection') w s)
  on_socket id event _ s = ([], s)

  unfoldable pub on_stream : ℕ → Option Accepted → Server W → List Sent × Server W
  unfolding set_task
  on_stream id (some (stream parts frames)) s =
      let (end, w) =
        handle_h2_stream http platform.files s.app s.app.max_parser_body_size
          (platform.request_ids 0) parts frames s.world in
      (stream_sent id end ∷ [], record s { world = w })
  on_stream id (some accept_error) s = ([], set_task id none s.world s)
  on_stream id none s = ([], set_task id none s.world s)

  unfoldable pub on_h2 : ℕ → Option Accepted → Option Task → Server W → List Sent × Server W
  unfolding on_stream
  on_h2 id accept (some h2) s = on_stream id accept s
  on_h2 id accept _ s = ([], s)

  unfoldable pub on_handshake : ℕ → Option Task → Option Task → Server W → Server W
  unfolding set_task
  on_handshake id next (some shaking_hands) s = set_task id next s.world s
  on_handshake id next _ s = s

  unfoldable pub on_websocket : ℕ → Option Task → Server W → Server W
  unfolding set_task is_upgraded
  on_websocket id task s = if is_upgraded task then set_task id none s.world s else s

  -- What happens to the tasks, in whichever phase.
  unfoldable pub on_task : Happening → Server W → List Sent × Server W
  unfolding on_socket on_h2 on_handshake on_websocket next_task is_due
  on_task (handshaken id protocol) s =
      ([], on_handshake id (some (next_task protocol)) (task_of id s.tasks) s)
  on_task (handshake_failed id) s = ([], on_handshake id none (task_of id s.tasks) s)
  on_task (socket_event id event) s =
      if is_due s.phase event then on_socket id event (task_of id s.tasks) s else ([], s)
  on_task (h2_event id accept) s = on_h2 id accept (task_of id s.tasks) s
  on_task (websocket_over id) s = ([], on_websocket id (task_of id s.tasks) s)
  on_task _ s = ([], s)

  -- The loop accepts while it serves; a failure of the listener ends it without a wait.
  unfoldable pub step : Happening → Phase → Server W → List Sent × Server W
  unfolding on_accept on_task wait_for_tasks
  step (accepted ip now) serving s = on_accept ip now s.permits s
  step accept_failed serving s = ([], record s { phase = io_error })
  step shutdown serving s = ([], record s { phase = wait_for_tasks stopping s.tasks })
  step happening stopped s = ([], s)
  step happening phase s = on_task happening s

  unfoldable pub run : List Happening → Server W → List (List Sent) × Server W
  unfolding step
  run [] s = ([], s)
  run (happening ∷ happenings) s =
      let (sent, s') = step happening s.phase s in
      let (later, s'') = run happenings s' in (sent ∷ later, s'')
