-- ===== src/RateLimiter.antt =====
-- engine/src/core/rate_limiter.rs: the in-memory limiter. Instants and durations are numbers of
-- one unit; a duration since a later instant is zero, as `Instant::duration_since` gives it. The
-- counter is a `u32` that wraps, as in a release build.
pub mod Budget
mod Tests
use rpress.Common.{
  ℕ, ◌+◌, ◌-◌, ◌%◌, ◌^◌, Bool, true, Option, none, some, List, Str, HashMap, lookup, insert, retain,
  length, ltb, leb, if◌then◌else◌, list_eq, nat_eq,
}

pub record InMemoryRateLimiter : Type 0 where
  pub store : HashMap Str (ℕ × ℕ)

abbrev pub max_entries : ℕ
max_entries = 10000

-- `entry(key).or_insert((0, now))`
unfoldable pub entry : Str → ℕ → HashMap Str (ℕ × ℕ) → ℕ × ℕ
entry key now m = elim (lookup key m) [ none ↦ (0, now) | some e ↦ e ]

-- The entries that are too old are dropped from a map that grew too large.
unfoldable pub prune : ℕ → ℕ → HashMap Str (ℕ × ℕ) → HashMap Str (ℕ × ℕ)
prune window now m =
    if ltb max_entries (length m) then retain (λ e. leb (now - e.1.1) window) m else m

unfoldable pub check_entry :
    Str → ℕ → ℕ → ℕ → HashMap Str (ℕ × ℕ) → ℕ × ℕ → InMemoryRateLimiter × Bool
unfolding prune
check_entry key max_requests window now m (count, since) =
    if ltb window (now - since) then (record { store = insert key (1, now) m }, true) else (
      record { store = prune window now (insert key ((count + 1) % 2 ^ 32, since) m) },
      leb ((count + 1) % 2 ^ 32) max_requests,
    )

unfoldable pub check : Str → ℕ → ℕ → ℕ → InMemoryRateLimiter → InMemoryRateLimiter × Bool
unfolding check_entry entry
check key max_requests window now l =
    check_entry key max_requests window now l.store (entry key now l.store)
