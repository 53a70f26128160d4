-- ===== src/RateLimiter/Budget.antt =====
-- The checks of one key within one window.
use Prim.Native.Nat.{min}
use rpress.Common.{
  ℕ, ◌+◌, ◌-◌, ◌%◌, ◌^◌, ◌<◌, ◌≤◌, Bool, true, false, none, some, List, [], ◌∷◌, Str, HashMap,
  lookup, insert, lookup-insert, retain, length, ltb, leb, if◌then◌else◌, ◌==◌, eq_iff, eq_refl,
  list_eq, nat_eq, ◌≡◌, refl, ◌∙◌, ◌&&◌, arith, Bool-cases, ◌⊎◌, inl, inr, All,
}
use rpress.RateLimiter.{InMemoryRateLimiter, entry, prune, check_entry, check, max_entries}

-- An entry that passes the filter stays where it is found.
lookup-retain :
    (k : Str) (p : Str × (ℕ × ℕ) → Bool) (m : HashMap Str (ℕ × ℕ)) (e : ℕ × ℕ)
    → lookup k m ≡ some e
    → p (k, e) ≡ true
    → lookup k (retain p m) ≡ some e
unfolding lookup
lookup-retain k p [] e there kept = absurd (ground arith)
lookup-retain k p ((j, f) ∷ m) e there kept = ground (arith, lookup-retain k p m e, eq_iff j k)

lookup-prune :
    (k : Str) (window now : ℕ) (m : HashMap Str (ℕ × ℕ)) (count since : ℕ)
    → lookup k m ≡ some (count, since)
    → now - since ≤ window
    → lookup k (prune window now m) ≡ some (count, since)
unfolding prune
lookup-prune k window now m count since there young =
    elim (Bool-cases (ltb max_entries (length m))) [
      | inl large ↦ rw large (lookup-retain k _ m (count, since) there (ground arith))
      | inr small ↦ rw small there
    ]

unfoldable pub requests : Str → List (Str × ℕ) → ℕ
requests k [] = 0
requests k ((j, now) ∷ events) =
    let later = requests k events in if j == k then later + 1 else later

module _ (max_requests window : ℕ) where
  check_entry_young :
      (key : Str) (now count since : ℕ) (m : HashMap Str (ℕ × ℕ))
      → now - since ≤ window
      → count + 1 < 2 ^ 32
      → check_entry key max_requests window now m (count, since) ≡ (
        record { store = prune window now (insert key (count + 1, since) m) },
        leb (count + 1) max_requests,
      )
  unfolding check_entry
  check_entry_young key now count since m young small =
      let in_window : ltb window (now - since) ≡ false = ground arith in
      let no_wrap : (count + 1) % 2 ^ 32 ≡ count + 1 = omega arith in rw (in_window, no_wrap)

  entry-eq :
      (k : Str) (now count since : ℕ) (m : HashMap Str (ℕ × ℕ))
      → lookup k m ≡ some (count, since)
      → entry k now m ≡ (count, since)
  unfolding entry
  entry-eq k now count since m there = rw (there, entry)

  -- A check of the key itself, within its window.
  check_self :
      (k : Str) (now count since : ℕ) (l : InMemoryRateLimiter)
      → lookup k l.store ≡ some (count, since)
      → now - since ≤ window
      → count + 1 < 2 ^ 32
      → ((check k max_requests window now l).1 ≡ leb (count + 1) max_requests)
        × (lookup k (check k max_requests window now l).0.store ≡ some (count + 1, since))
  unfolding check
  check_self k now count since l there young small =
      rw
        (
          entry-eq k now count since l.store there,
          check_entry_young k now count since l.store young small,
        )
        (
          refl,
          lookup-prune k window now _ (count + 1) since
              (lookup-insert k k (count + 1, since) l.store ∙ rw (eq_refl k)) young,
        )

  check_entry_other :
      (k j : Str) (now count since : ℕ) (m : HashMap Str (ℕ × ℕ)) (e : ℕ × ℕ)
      → (j == k) ≡ false
      → lookup k m ≡ some (count, since)
      → now - since ≤ window
      → lookup k (check_entry j max_requests window now m e).0.store ≡ some (count, since)
  unfolding check_entry
  check_entry_other k j now count since m (c, t) other there young =
      elim (Bool-cases (ltb window (now - t))) [
        | inl old ↦ rw old (lookup-insert j k (1, now) m ∙ rw other there)
        | inr recent ↦ rw recent (
            lookup-prune k window now _ count since
              (lookup-insert j k ((c + 1) % 2 ^ 32, t) m ∙ rw other there) young)
      ]

  -- A check of another key.
  check_other :
      (k j : Str) (now count since : ℕ) (l : InMemoryRateLimiter)
      → (j == k) ≡ false
      → lookup k l.store ≡ some (count, since)
      → now - since ≤ window
      → lookup k (check j max_requests window now l).0.store ≡ some (count, since)
  unfolding check
  check_other k j now count since l other there young =
      check_entry_other k j now count since l.store _ other there young

  -- The first check of a key opens its window.
  check_first :
      (k : Str) (now : ℕ) (l : InMemoryRateLimiter)
      → lookup k l.store ≡ none
      → ((check k max_requests window now l).1 ≡ leb 1 max_requests)
        × (lookup k (check k max_requests window now l).0.store ≡ some (1, now))
  unfolding check entry
  check_first k now l missing =
      let zero_age : now - now ≤ window = omega arith in
      rw (missing, entry, check_entry_young k now 0 now l.store zero_age (omega arith))
        (
          ground arith,
          lookup-prune k window now _ 1 now (lookup-insert k k (1, now) l.store ∙ rw (eq_refl k))
              zero_age,
        )

  -- A run of checks of any keys, each with its instant, and how many of those of `k` are allowed.
  unfoldable pub run : Str → InMemoryRateLimiter → List (Str × ℕ) → ℕ
  run k l [] = 0
  run k l ((j, now) ∷ events) =
      let (l', allowed) = check j max_requests window now l in
      let later = run k l' events in if (j == k) && allowed then later + 1 else later

  abbrev pub InWindow : ℕ → List (Str × ℕ) → Type 0
  InWindow since = All (λ e. e.1 - since ≤ window)

  run-eq-min :
      (k : Str) (count since : ℕ) (l : InMemoryRateLimiter) (events : List (Str × ℕ))
      → lookup k l.store ≡ some (count, since)
      → InWindow since events
      → count + requests k events < 2 ^ 32
      → run k l events ≡ min (max_requests - count) (requests k events)
  unfolding run requests
  run-eq-min k count since l [] there window_ok small = omega arith
  run-eq-min k count since l ((j, now) ∷ events) there (young, window_ok) small =
      elim (Bool-cases (j == k)) [
        | inl same ↦
            let j-eq-k = (eq_iff j k).0 same in
            let (allowed, kept) = check_self k now count since l there young (ground arith) in
            let ih =
              run-eq-min k (count + 1) since (check k max_requests window now l).0 events kept
                window_ok (ground arith) in
            rw (same, j-eq-k, allowed) (ground (arith, ih))
        | inr other ↦
            let kept = check_other k j now count since l other there young in
            let ih =
              run-eq-min k count since (check j max_requests window now l).0 events kept window_ok
                (ground arith) in
            rw other ih
      ]

  -- A check of a key at an instant opens a window: the key has no entry, or the window of its entry
  -- is over and the limit is not zero.
  abbrev pub Opens : Str → ℕ → InMemoryRateLimiter → Type 0
  Opens k now l =
      (lookup k l.store ≡ none)
      ⊎ ((count : ℕ) × (since : ℕ) × (lookup k l.store ≡ some (count, since))
          × (window < now - since)
          × (0 < max_requests))

  check_opening :
      (k : Str) (now : ℕ) (l : InMemoryRateLimiter)
      → Opens k now l
      → ((check k max_requests window now l).1 ≡ leb 1 max_requests)
        × (lookup k (check k max_requests window now l).0.store ≡ some (1, now))
  unfolding check check_entry
  check_opening k now l (inl missing) = check_first k now l missing
  check_opening k now l (inr (count, since, there, over, positive)) =
      let old : ltb window (now - since) ≡ true = ground arith in
      rw (entry-eq k now count since l.store there, old)
        (ground arith, lookup-insert k k (1, now) l.store ∙ rw (eq_refl k) refl)

  -- From a check that opens a window of a key on, the first check of the key or one behind the end
  -- of its last window where the limit is not zero, the checks of the key that fall into that
  -- window are allowed exactly as often as the budget says, the first one included, whatever the
  -- checks of other keys among them; provided that the counter does not wrap.
  pub run_budget :
      (k : Str) (now : ℕ) (l : InMemoryRateLimiter) (events : List (Str × ℕ))
      → Opens k now l
      → InWindow now events
      → requests k events + 1 < 2 ^ 32
      → run k l ((k, now) ∷ events) ≡ min max_requests (requests k events + 1)
  unfolding run
  run_budget k now l events opens window_ok small =
      let (allowed, opened) = check_opening k now l opens in
      let ih =
        run-eq-min k 1 now (check k max_requests window now l).0 events opened window_ok
          (omega arith) in
      rw (eq_refl k, allowed) (ground (arith, ih))
