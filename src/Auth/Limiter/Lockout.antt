-- ===== src/Auth/Limiter/Lockout.antt =====
-- auth.go: when a client is locked out.
use awg_proxy_go.Prelude.{
  ℕ, suc, ◌+◌, ◌≤◌, ◌<◌, ◌≡◌, ◌↔◌, refl, true, String, List, [], ◌∷◌, none, some, arith, length,
  ◌∙◌, ap,
}
use awg_proxy_go.Prelude.Eq.{string_eq}
use awg_proxy_go.Prelude.Dict.{lookup, lookup-insert_self}
use awg_proxy_go.Auth.Limiter.{
  Limits, Attempt, max_fails, fail_window, lockout_time, allowed, current_attempt, counted, fail,
}

-- The failures of one client, at the times of the list.
abbrev pub fail_at : Limits → String → List ℕ → Limits
fail_at l key [] = l
fail_at l key (now ∷ times) = fail_at (fail l key now) key times

-- The times do not fall, and lie within a window from `first`.
abbrev pub InWindow : ℕ → ℕ → List ℕ → Type 0
InWindow first last [] = Unit
InWindow first last (now ∷ times) =
    (last ≤ now) × (now ≤ first + fail_window) × InWindow first now times

lookup-fail :
    (l : Limits) (key : String) (now : ℕ)
    → lookup key (fail l key now) ≡ some (counted (current_attempt (lookup key l) now) now)
unfolding fail
lookup-fail l key now = lookup-insert_self key _ l

abbrev pub open_attempt : ℕ → ℕ → Attempt
open_attempt n first = record { fails = n; first = first; lock_until = 0 }

counted-open :
    (n first now : ℕ)
    → now ≤ first + fail_window
    → suc n < max_fails
    → counted (current_attempt (some (open_attempt n first)) now) now ≡ open_attempt (suc n) first
unfolding current_attempt
counted-open n first now w h = ground arith

-- Failures in one window are counted.
fail_at-counts :
    (l : Limits) (key : String) (times : List ℕ) (n first last : ℕ)
    → lookup key l ≡ some (open_attempt n first)
    → InWindow first last times
    → n + length times < max_fails
    → lookup key (fail_at l key times) ≡ some (open_attempt (n + length times) first)
fail_at-counts l key [] n first last e w h = e ∙ ap (λ k. some (open_attempt k first)) (omega arith)
fail_at-counts l key (now ∷ times) n first last e w h =
    fail_at-counts (fail l key now) key times (suc n) first now
      (lookup-fail l key now
        ∙ ap (λ o. some (counted (current_attempt o now) now)) e
        ∙ ap some (counted-open n first now w.1 (omega arith)))
      w.2 (omega arith)
    ∙ ap (λ k. some (open_attempt k first)) (omega arith)

-- The failures of a client that has no entry, the first of them at `first`.
first_fails :
    (l : Limits) (key : String) (times : List ℕ) (first : ℕ)
    → lookup key l ≡ none
    → InWindow first first times
    → length times < 4
    → lookup key (fail_at l key (first ∷ times)) ≡ some (open_attempt (suc (length times)) first)
first_fails l key times first e w h =
    fail_at-counts (fail l key first) key times 1 first first
      (lookup-fail l key first ∙ unfold current_attempt in rw e refl) w (omega arith)
    ∙ ap (λ k. some (open_attempt k first)) (omega arith)

allowed_at :
    (l : Limits) (key : String) (now : ℕ) (a : Attempt)
    → lookup key l ≡ some a
    → ((allowed l key now).0 ≡ true) ↔ (a.lock_until ≤ now)
unfolding allowed
allowed_at l key now a e = ground (arith, e)

-- A client without an entry may try on after one to four failures that lie in five minutes, counted
-- from the first.
pub allowed_below :
    (l : Limits) (key : String) (times : List ℕ) (first now : ℕ)
    → lookup key l ≡ none
    → InWindow first first times
    → length times < 4
    → (allowed (fail_at l key (first ∷ times)) key now).0 ≡ true
allowed_below l key times first now e w h =
    (allowed_at _ key now _ (first_fails l key times first e w h)).1 (omega arith)

-- After five failures that lie in five minutes, counted from the first, a client that had no entry
-- is locked out: it may try again exactly from five minutes after the fifth failure on.
pub lockout :
    (l : Limits) (key : String) (times : List ℕ) (first fifth now : ℕ)
    → lookup key l ≡ none
    → InWindow first first times
    → length times ≡ 3
    → fifth ≤ first + fail_window
    → ((allowed (fail (fail_at l key (first ∷ times)) key fifth) key now).0 ≡ true)
      ↔ (fifth + lockout_time ≤ now)
lockout l key times first fifth now e w h late =
    allowed_at _ key now (record { fails = 0; first = fifth; lock_until = fifth + lockout_time })
      (lookup-fail (fail_at l key (first ∷ times)) key fifth
        ∙ ap (λ o. some (counted (current_attempt o fifth) fifth))
            (first_fails l key times first e w (omega arith))
        ∙ ap some (fifth_counted (length times) h))
  where
    fifth_counted :
        (k : ℕ)
        → k ≡ 3
        → counted (current_attempt (some (open_attempt (suc k) first)) fifth) fifth
          ≡ record { fails = 0; first = fifth; lock_until = fifth + lockout_time }
    fifth_counted k three = unfold current_attempt in ground arith
