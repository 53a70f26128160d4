-- ===== src/Server/Listener/Permits.antt =====
-- engine/src/lib.rs: how many connections run at a time.
use rpress.Common.{
  ℕ, zero, suc, ◌+◌, ◌≤◌, Bool, true, false, List, [], ◌∷◌, Str, length, nat_eq, ◌≡◌, refl, ◌∙◌,
  arith,
}
use rpress.Server.App.{Rpress, check_rate_limit}
use rpress.Server.Connection.{Platform}
use rpress.Server.H2.{Http}
use rpress.Server.Listener.{
  Phase, serving, stopped, Happening, accepted, accept_failed, shutdown, Server, start, spawn,
  admit, on_accept, step, run,
}
use rpress.Server.Listener.Tasks.{total, on_task-Keeps}

module _ {W : Type 0} where
  total-admit :
      (tls : Bool) (answer : Str) (permits : ℕ) (allowed : Bool) (s : Server W)
      → s.permits ≡ suc permits
      → total (admit tls answer permits allowed s).1 ≡ total s
  unfolding admit spawn
  total-admit tls answer permits true s h = omega arith
  total-admit tls answer permits false s h = refl

module _ {W P : Type 0} (platform : Platform P) (http : Http) (tls : Bool) (second : ℕ) where
  total-on_accept :
      (ip : Str) (now permits : ℕ) (s : Server W)
      → s.permits ≡ permits
      → total (on_accept platform http tls second ip now permits s).1 ≡ total s
  unfolding on_accept
  total-on_accept ip now zero s h = refl
  total-on_accept ip now (suc permits) s h =
      let (app, (allowed, w)) = check_rate_limit second ip now s.app s.world in
      total-admit tls _ permits allowed (record s { app = app; world = w }) h

  total-step :
      (happening : Happening) (phase : Phase) (s : Server W)
      → total (step platform http tls second happening phase s).1 ≡ total s
  unfolding step
  total-step (accepted ip now) serving s = total-on_accept ip now s.permits s refl
  total-step accept_failed serving s = refl
  total-step shutdown serving s = refl
  total-step happening stopped s = refl
  total-step happening phase s = (on_task-Keeps platform http tls second happening s).total_eq

  total-run :
      (happenings : List Happening) (s : Server W)
      → total (run platform http tls second happenings s).1 ≡ total s
  unfolding run
  total-run [] s = refl
  total-run (happening ∷ happenings) s =
      total-run happenings (step platform http tls second happening s.phase s).1
      ∙ total-step happening s.phase s

  -- Whatever happens, in whichever order, the permits that are left and the connections that run
  -- are together as many as the configured limit: no more connections than that run at a time, and
  -- none of the permits is lost, whether a connection ends, panics, fails its handshake, or is
  -- refused.
  pub run-total :
      (app : Rpress W) (w : W) (happenings : List Happening)
      → (let s = (run platform http tls second happenings (start app w)).1 in
          (s.permits + length s.tasks ≡ app.max_connections)
          × (length s.tasks ≤ app.max_connections))
  unfolding start
  run-total app w happenings =
      let kept = total-run happenings (start app w) in (ground (arith, kept), ground (arith, kept))
