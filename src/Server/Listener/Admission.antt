-- ===== src/Server/Listener/Admission.antt =====
-- engine/src/lib.rs and engine/src/core/rate_limiter.rs: how many connections of an address are
-- let in, with the limiter in memory.
use Prim.Native.Nat.{min}
use rpress.Common.{
  ℕ, zero, suc, ◌+◌, ◌*◌, ◌<◌, ◌^◌, Bool, true, false, ◌&&◌, none, some, List, [], ◌∷◌, Str, ltb,
  lookup, if◌then◌else◌, ◌==◌, nat_eq, list_eq, ◌≡◌, refl, ap, ◌∙◌, inl, arith,
}
use rpress.RateLimiter.{InMemoryRateLimiter, check}
use rpress.RateLimiter.Budget
use rpress.RateLimiter.Budget.{requests, run_budget, InWindow}
use rpress.Server.App.{Rpress, in_memory, check_limits, limiter_check, check_rate_limit}
use rpress.Server.Connection.{Platform}
use rpress.Server.H2.{Http}
use rpress.Server.Listener.{
  Phase, serving, stopped, Happening, accepted, accept_failed, shutdown, Server, spawn, admit,
  on_accept, step,
}
use rpress.Server.Listener.Tasks.{on_task-Keeps}

-- Whether a socket comes in from the address.
unfoldable pub is_from : Str → Happening → Bool
is_from ip (accepted from now) = from == ip
is_from ip _ = false

-- The checks that the limiter makes: a socket without a permit is not checked.
unfoldable pub checked : Happening → Phase → ℕ → List (Str × ℕ) → List (Str × ℕ)
checked (accepted ip now) serving (suc permits) rest = (ip, now) ∷ rest
checked happening phase permits rest = rest

module _ {W : Type 0} (max_requests window_secs : ℕ) where
  -- A server whose limiter is in memory, with its budget.
  pub record IsLimited (s : Server W) (l : InMemoryRateLimiter) : Type 0 where
    pub limit_eq : s.app.rate_limit ≡ some (max_requests, window_secs)
    pub limiter_eq : s.app.rate_limiter ≡ some (in_memory l)

module _ {W P : Type 0} (platform : Platform P) (http : Http) (tls : Bool) (second : ℕ) where
  -- The sockets of an address that become connections.
  pub admissions : Str → List Happening → Server W → ℕ
  admissions ip [] s = 0
  admissions ip (happening ∷ happenings) s =
      let s' = (step platform http tls second happening s.phase s).1 in
      let later = admissions ip happenings s' in
      if is_from ip happening && ltb s.next_id s'.next_id then later + 1 else later

  unfoldable pub checks : List Happening → Server W → List (Str × ℕ)
  checks [] s = []
  checks (happening ∷ happenings) s =
      checked happening s.phase s.permits
        (checks happenings (step platform http tls second happening s.phase s).1)

counted :
    (from : Bool) (n later : ℕ)
    → (if from && ltb n (n + 1) then later + 1 else later)
      ≡ (if from && true then later + 1 else later)
counted true n later = ground arith
counted false n later = refl

uncounted :
    (from : Bool) (n later : ℕ)
    → (if from && ltb n n then later + 1 else later) ≡ (if from && false then later + 1 else later)
uncounted true n later = ground arith
uncounted false n later = refl

not_counted :
    (from : Bool) (n m later : ℕ) → m ≡ n → (if from && ltb n m then later + 1 else later) ≡ later
not_counted true n m later h = ground arith
not_counted false n m later h = refl

module _ {W P : Type 0} (platform : Platform P) (http : Http) (tls : Bool) (second : ℕ)
    (max_requests window_secs : ℕ) where
  check_rate_limit-eq :
      (ip : Str) (now : ℕ) (s : Server W) (l : InMemoryRateLimiter)
      → IsLimited max_requests window_secs s l
      → (let (l', allowed) = check ip max_requests (window_secs * second) now l in
          check_rate_limit second ip now s.app s.world
          ≡ (record s.app { rate_limiter = some (in_memory l') }, (allowed, s.world)))
  unfolding check_rate_limit check_limits limiter_check
  check_rate_limit-eq ip now s l limited =
      ap (λ o. check_limits second ip now s.app o s.app.rate_limiter s.world) limited.limit_eq
      ∙ ap (λ o. check_limits second ip now s.app (some (max_requests, window_secs)) o s.world)
          limited.limiter_eq

  -- What one step means to the limiter, and to the count of the address.
  Counts : Str → Happening → Phase → ℕ → Server W → Server W → InMemoryRateLimiter → Type 0
  Counts k happening phase permits s s' l =
      (l' : InMemoryRateLimiter) × IsLimited max_requests window_secs s' l'
      × ((later : ℕ) (rest : List (Str × ℕ))
          → later ≡ Budget.run max_requests (window_secs * second) k l' rest
          → (if is_from k happening && ltb s.next_id s'.next_id then later + 1 else later)
            ≡ Budget.run max_requests (window_secs * second) k l
                (checked happening phase permits rest))

  Keeps-Counts :
      (k : Str) (happening : Happening) (phase : Phase) (permits : ℕ) (s s' : Server W)
      (l : InMemoryRateLimiter)
      → IsLimited max_requests window_secs s l
      → s'.app ≡ s.app
      → s'.next_id ≡ s.next_id
      → ((rest : List (Str × ℕ)) → checked happening phase permits rest ≡ rest)
      → Counts k happening phase permits s s' l
  unfolding Counts
  Keeps-Counts k happening phase permits s s' l limited same_app same_id unchecked = (
    l,
    record {
      limit_eq = ap (λ (a : Rpress W). a.rate_limit) same_app ∙ limited.limit_eq;
      limiter_eq = ap (λ (a : Rpress W). a.rate_limiter) same_app ∙ limited.limiter_eq;
    },
    λ later rest h.
        rw (unchecked rest)
          (not_counted (is_from k happening) s.next_id s'.next_id later same_id ∙ h),
  )

  admit-Counts :
      (k ip : Str) (now permits : ℕ) (answer : Str) (w : W) (allowed : Bool) (s : Server W)
      (l l' : InMemoryRateLimiter)
      → IsLimited max_requests window_secs s l
      → check ip max_requests (window_secs * second) now l ≡ (l', allowed)
      → Counts k
          (accepted ip now)
          serving
          (suc permits)
          s
          (admit tls answer permits allowed
            (record s { app = record s.app { rate_limiter = some (in_memory l') }; world = w })).1
          l
  unfolding Counts admit spawn checked is_from Budget.run
  admit-Counts k ip now permits answer w true s l l' limited step_eq = (
    l',
    record { limit_eq = limited.limit_eq; limiter_eq = refl },
    λ later rest h. rw (step_eq, h) (counted (ip == k) s.next_id _),
  )
  admit-Counts k ip now permits answer w false s l l' limited step_eq = (
    l',
    record { limit_eq = limited.limit_eq; limiter_eq = refl },
    λ later rest h. rw (step_eq, h) (uncounted (ip == k) s.next_id _),
  )

  on_accept-Counts :
      (k ip : Str) (now permits : ℕ) (s : Server W) (l : InMemoryRateLimiter)
      → IsLimited max_requests window_secs s l
      → Counts k
          (accepted ip now)
          serving
          permits
          s
          (on_accept platform http tls second ip now permits s).1
          l
  unfolding on_accept checked
  on_accept-Counts k ip now zero s l limited =
      Keeps-Counts k (accepted ip now) serving zero s s l limited refl refl (λ rest. refl)
  on_accept-Counts k ip now (suc permits) s l limited =
      let (l', allowed) = check ip max_requests (window_secs * second) now l in
      rw (check_rate_limit-eq ip now s l limited)
        (admit-Counts k ip now permits _ s.world allowed s l l' limited refl)

  step-Counts :
      (k : Str) (happening : Happening) (phase : Phase) (s : Server W) (l : InMemoryRateLimiter)
      → IsLimited max_requests window_secs s l
      → Counts k happening phase s.permits s (step platform http tls second happening phase s).1 l
  unfolding step checked
  step-Counts k (accepted ip now) serving s l limited =
      on_accept-Counts k ip now s.permits s l limited
  step-Counts k accept_failed serving s l limited =
      Keeps-Counts k accept_failed serving s.permits s _ l limited refl refl (λ rest. refl)
  step-Counts k shutdown serving s l limited =
      Keeps-Counts k shutdown serving s.permits s _ l limited refl refl (λ rest. refl)
  step-Counts k happening stopped s l limited =
      Keeps-Counts k happening stopped s.permits s s l limited refl refl (λ rest. refl)
  step-Counts k happening phase s l limited =
      let kept = on_task-Keeps platform http tls second happening s in
      Keeps-Counts k happening phase s.permits s _ l limited kept.app_eq kept.next_id_eq
        (λ rest. refl)

  admissions-eq-run :
      (k : Str) (happenings : List Happening) (s : Server W) (l : InMemoryRateLimiter)
      → IsLimited max_requests window_secs s l
      → admissions platform http tls second k happenings s
        ≡ Budget.run max_requests
            (window_secs * second)
            k
            l
            (checks platform http tls second happenings s)
  unfolding admissions checks Budget.run Counts
  admissions-eq-run k [] s l limited = refl
  admissions-eq-run k (happening ∷ happenings) s l limited =
      let (l', limited', count) = step-Counts k happening s.phase s l limited in
      let s' = (step platform http tls second happening s.phase s).1 in
      count _ _ (admissions-eq-run k happenings s' l' limited')

  -- From the first socket of an address on, as many of its sockets become connections as the budget
  -- of the limiter says, of those that get a permit, whatever other sockets come in, and whatever
  -- the connections do, if those sockets come in within the window, and the limiter is the one in
  -- memory, holds no entry of the address, and its counter does not wrap.
  pub admissions_budget :
      (k : Str) (now permits : ℕ) (happenings : List Happening) (s : Server W)
      (l : InMemoryRateLimiter)
      → s.phase ≡ serving
      → s.permits ≡ suc permits
      → IsLimited max_requests window_secs s l
      → lookup k l.store ≡ none
      → InWindow max_requests (window_secs * second) now (
          checks platform http tls second happenings
            (step platform http tls second (accepted k now) serving s).1)
      → requests k (
            checks platform http tls second happenings
              (step platform http tls second (accepted k now) serving s).1)
          + 1
        < 2 ^ 32
      → admissions platform http tls second k (accepted k now ∷ happenings) s
        ≡ min max_requests (
            requests k (
              checks platform http tls second happenings
                (step platform http tls second (accepted k now) serving s).1)
            + 1)
  unfolding checks checked
  admissions_budget k now permits happenings s l serves left limited missing near small =
      let rest =
        checks platform http tls second happenings
          (step platform http tls second (accepted k now) serving s).1 in
      let first : checks platform http tls second (accepted k now ∷ happenings) s
          ≡ (k, now) ∷ rest =
        rw (serves, left) refl in
      admissions-eq-run k (accepted k now ∷ happenings) s l limited
      ∙ (ap (Budget.run max_requests (window_secs * second) k l) first
          ∙ run_budget max_requests (window_secs * second) k now l rest (inl missing) near small)
