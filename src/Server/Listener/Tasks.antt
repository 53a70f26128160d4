-- ===== src/Server/Listener/Tasks.antt =====
-- engine/src/lib.rs: what happens to a task leaves the rest of the server alone.
use rpress.Common.{
  ℕ, ◌+◌, Bool, Option, none, some, List, [], ◌∷◌, length, ◌==◌, nat_eq, ◌≡◌, refl, arith, inl, inr,
  Bool-cases,
}
use rpress.Server.Connection
use rpress.Server.Connection.{Connection, Event, Platform, upgraded}
use rpress.Server.H2.{Http, Accepted, stream, accept_error}
use rpress.Server.Listener.{
  Task, shaking_hands, h1, h2, Happening, accepted, accept_failed, handshaken, handshake_failed,
  socket_event, h2_event, websocket_over, shutdown, Server, task_of, put_task, next_h1, next_task,
  is_upgraded, is_due, set_task, on_socket, on_stream, on_h2, on_handshake, on_websocket, on_task,
}

-- A task that ends gives back what it holds.
length-put_task :
    (id : ℕ) (next : Option Task) (tasks : List (ℕ × Task))
    → (let (tasks', released) = put_task id next tasks in length tasks' + released ≡ length tasks)
unfolding put_task
length-put_task id next [] = omega arith
length-put_task id none ((at, task) ∷ tasks) = elim (Bool-cases (at == id)) [
  | inl same ↦ rw same (omega arith)
  | inr other ↦ rw other (omega (arith, length-put_task id none tasks))
]
length-put_task id (some task') ((at, task) ∷ tasks) = elim (Bool-cases (at == id)) [
  | inl same ↦ rw same (omega arith)
  | inr other ↦ rw other (omega (arith, length-put_task id (some task') tasks))
]

module _ {W : Type 0} where
  -- The permits that are left and those that tasks hold.
  abbrev pub total : Server W → ℕ
  total s = s.permits + length s.tasks

  -- What only concerns a task leaves the configuration, the limiter and the numbering alone.
  pub record Keeps (s s' : Server W) : Type 0 where
    pub total_eq : total s' ≡ total s
    pub app_eq : s'.app ≡ s.app
    pub next_id_eq : s'.next_id ≡ s.next_id

  Keeps-refl : (s : Server W) → Keeps s s
  Keeps-refl s = record { total_eq = refl; app_eq = refl; next_id_eq = refl }

  set_task-Keeps :
      (id : ℕ) (next : Option Task) (w : W) (s : Server W) → Keeps s (set_task id next w s)
  unfolding set_task
  set_task-Keeps id next w s = record {
    total_eq = omega (arith, length-put_task id next s.tasks);
    app_eq = refl;
    next_id_eq = refl;
  }

module _ {W P : Type 0} (platform : Platform P) (http : Http) (tls : Bool) (second : ℕ) where
  on_socket-Keeps :
      (id : ℕ) (event : Event) (task : Option Task) (s : Server W)
      → Keeps s (on_socket platform http tls second id event task s).1
  unfolding on_socket
  on_socket-Keeps id event (some (h1 connection)) s =
      let (connection', (bytes, w)) = Connection.step platform s.app event connection s.world in
      set_task-Keeps id (next_h1 connection') w s
  on_socket-Keeps id event none s = Keeps-refl s
  on_socket-Keeps id event (some shaking_hands) s = Keeps-refl s
  on_socket-Keeps id event (some h2) s = Keeps-refl s

  on_stream-Keeps :
      (id : ℕ) (accept : Option Accepted) (s : Server W)
      → Keeps s (on_stream platform http tls second id accept s).1
  unfolding on_stream
  on_stream-Keeps id (some (stream parts frames)) s = record {
    total_eq = refl;
    app_eq = refl;
    next_id_eq = refl;
  }
  on_stream-Keeps id (some accept_error) s = set_task-Keeps id none s.world s
  on_stream-Keeps id none s = set_task-Keeps id none s.world s

  on_h2-Keeps :
      (id : ℕ) (accept : Option Accepted) (task : Option Task) (s : Server W)
      → Keeps s (on_h2 platform http tls second id accept task s).1
  unfolding on_h2
  on_h2-Keeps id accept (some h2) s = on_stream-Keeps id accept s
  on_h2-Keeps id accept none s = Keeps-refl s
  on_h2-Keeps id accept (some shaking_hands) s = Keeps-refl s
  on_h2-Keeps id accept (some (h1 connection)) s = Keeps-refl s

  on_handshake-Keeps :
      (id : ℕ) (next task : Option Task) (s : Server W)
      → Keeps s (on_handshake platform http tls second id next task s)
  unfolding on_handshake
  on_handshake-Keeps id next (some shaking_hands) s = set_task-Keeps id next s.world s
  on_handshake-Keeps id next none s = Keeps-refl s
  on_handshake-Keeps id next (some h2) s = Keeps-refl s
  on_handshake-Keeps id next (some (h1 connection)) s = Keeps-refl s

  on_websocket-Keeps :
      (id : ℕ) (task : Option Task) (s : Server W)
      → Keeps s (on_websocket platform http tls second id task s)
  unfolding on_websocket
  on_websocket-Keeps id task s = elim (Bool-cases (is_upgraded task)) [
    | inl over ↦ rw over (set_task-Keeps id none s.world s)
    | inr other ↦ rw other (Keeps-refl s)
  ]

  pub on_task-Keeps :
      (happening : Happening) (s : Server W)
      → Keeps s (on_task platform http tls second happening s).1
  unfolding on_task
  on_task-Keeps (accepted ip now) s = Keeps-refl s
  on_task-Keeps accept_failed s = Keeps-refl s
  on_task-Keeps shutdown s = Keeps-refl s
  on_task-Keeps (handshaken id protocol) s =
      on_handshake-Keeps id (some (next_task protocol)) (task_of id s.tasks) s
  on_task-Keeps (handshake_failed id) s = on_handshake-Keeps id none (task_of id s.tasks) s
  on_task-Keeps (h2_event id accept) s = on_h2-Keeps id accept (task_of id s.tasks) s
  on_task-Keeps (websocket_over id) s = on_websocket-Keeps id (task_of id s.tasks) s
  on_task-Keeps (socket_event id event) s = elim (Bool-cases (is_due s.phase event)) [
    | inl due ↦ rw due (on_socket-Keeps id event (task_of id s.tasks) s)
    | inr not_due ↦ rw not_due (Keeps-refl s)
  ]
