-- ===== src/Server/Listener/Shutdown.antt =====
-- engine/src/lib.rs: how the server comes to its end.
use rpress.Common.{
  ℕ, ◌+◌, Bool, none, List, [], ◌∷◌, map, All, Str, eq_refl, nat_eq, ◌≡◌, refl, ap, ◌∙◌,
}
use rpress.Server.App.{Rpress}
use rpress.Server.Connection
use rpress.Server.Connection.{Platform, Connection, collecting, cancelled}
use rpress.Server.H2.{Http}
use rpress.Server.Listener.{
  Task, h1, serving, stopping, stopped, Happening, socket_event, shutdown, Server, task_of,
  put_task, next_h1, is_due, wait_for_tasks, set_task, on_socket, on_task, step, run,
}

-- A connection of HTTP/1.1 that waits for a request.
unfoldable pub IsWaiting : ℕ × Task → Type 0
IsWaiting (id, task) = (buffer : Str) × (idle : Bool) × (task ≡ h1 (collecting buffer idle))

-- Each connection notices that its token is cancelled.
unfoldable pub notices : List (ℕ × Task) → List Happening
notices = map (λ e. socket_event e.0 cancelled)

put_task-ends :
    (id : ℕ) (task : Task) (tasks : List (ℕ × Task))
    → put_task id none ((id, task) ∷ tasks) ≡ (tasks, 1)
unfolding put_task
put_task-ends id task tasks = rw (eq_refl id) refl

module _ {W : Type 0} where
  -- A server that stops, or has stopped, with the tasks that are left.
  abbrev closing : Rpress W → ℕ → ℕ → W → List (ℕ × Task) → Server W
  closing app permits next_id w tasks = record {
    app = app;
    phase = wait_for_tasks stopping tasks;
    permits = permits;
    tasks = tasks;
    next_id = next_id;
    world = w;
  }

  -- The same with permits that come back.
  abbrev with_tasks : Rpress W → ℕ → ℕ → W → List (ℕ × Task) × ℕ → Server W
  with_tasks app permits next_id w (tasks, released) =
      closing app (permits + released) next_id w tasks

  set_task-closing :
      (app : Rpress W) (permits next_id id : ℕ) (w : W) (task : Task) (tasks : List (ℕ × Task))
      → set_task id none w (closing app permits next_id w ((id, task) ∷ tasks))
        ≡ closing app (permits + 1) next_id w tasks
  unfolding set_task wait_for_tasks
  set_task-closing app permits next_id id w task tasks =
      ap (λ r. with_tasks app permits next_id w r) (put_task-ends id task tasks)

module _ {W P : Type 0} (platform : Platform P) (http : Http) (tls : Bool) (second : ℕ) where
  step-closing :
      (app : Rpress W) (permits next_id id : ℕ) (w : W) (buffer : Str) (idle : Bool)
      (tasks : List (ℕ × Task))
      → (step platform http tls second
          (socket_event id cancelled)
          stopping
          (closing app permits next_id w ((id, h1 (collecting buffer idle)) ∷ tasks))).1
        ≡ closing app (permits + 1) next_id w tasks
  unfolding step on_task on_socket task_of next_h1 is_due Connection.step
  step-closing app permits next_id id w buffer idle tasks =
      rw (eq_refl id)
        (set_task-closing app permits next_id id w (h1 (collecting buffer idle)) tasks)

  run-closing :
      (app : Rpress W) (permits next_id : ℕ) (w : W) (tasks : List (ℕ × Task))
      → All IsWaiting tasks
      → (run platform http tls second (notices tasks) (closing app permits next_id w tasks)).1.phase
        ≡ stopped
  unfolding run notices wait_for_tasks IsWaiting
  run-closing app permits next_id w [] h = refl
  run-closing app permits next_id w ((id, task) ∷ tasks) ((buffer, idle, waits), h) = rw waits (
      ap (λ s. (run platform http tls second (notices tasks) s).1.phase)
        (step-closing app permits next_id id w buffer idle tasks)
      ∙ run-closing app (permits + 1) next_id w tasks h)

  -- The server comes to its end: once the signal to shut down has come, and each connection, of
  -- which all wait for a request, notices it, the server has stopped.
  pub run-shutdown :
      (s : Server W)
      → s.phase ≡ serving
      → All IsWaiting s.tasks
      → (run platform http tls second (shutdown ∷ notices s.tasks) s).1.phase ≡ stopped
  unfolding run step
  run-shutdown s h waits = rw h (run-closing s.app s.permits s.next_id s.world s.tasks waits)
