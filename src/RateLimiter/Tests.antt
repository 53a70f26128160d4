-- ===== src/RateLimiter/Tests.antt =====
-- Runs of the rate limiter.
use rpress.Common.{
  ℕ, true, List, [], ◌∷◌, Str, codes, runs, inl, inr, nat_eq, list_eq, ◌≡◌, refl, arith,
}
use rpress.RateLimiter.{InMemoryRateLimiter, check}
use rpress.RateLimiter.Budget.{run, requests, run_budget}

abbrev fresh : InMemoryRateLimiter
fresh = record { store = [] }

abbrev events : List (Str × ℕ)
events = (codes "b", 101) ∷ (codes "a", 103) ∷ (codes "a", 104) ∷ (codes "a", 110) ∷ []

-- A window of the key is over when the run begins.
abbrev reopened : InMemoryRateLimiter
reopened = record { store = (codes "a", (9, 80)) ∷ [] }

run_budget_example : run 2 10 (codes "a") reopened ((codes "a", 100) ∷ events) ≡ 2
unfolding runs requests
run_budget_example =
    run_budget 2 10 (codes "a") 100 reopened events (inr (9, 80, refl, omega arith, omega arith))
      (omega arith) (omega arith)

first_window : run 2 10 (codes "a") fresh ((codes "a", 100) ∷ events) ≡ 2
unfolding runs requests
first_window = run_budget 2 10 (codes "a") 100 fresh events (inl refl) (omega arith) (omega arith)

-- Once its window is over, a key is let through even if the budget is zero.
zero_budget : (check (codes "a") 0 10 111 (record { store = (codes "a", (1, 100)) ∷ [] })).1 ≡ true
unfolding runs check
zero_budget = refl
