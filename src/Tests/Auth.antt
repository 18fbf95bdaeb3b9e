-- ===== src/Tests/Auth.antt =====
-- internal/api/auth.go: one token and one client.
use awg_proxy_go.Prelude.{◌+◌, ◌≤◌, ◌≡◌, ◌≢◌, ◌↔◌, refl, true, String, [], ◌∷◌, none, arith}
use awg_proxy_go.Prelude.Eq.{equals-ne, string_eq}
use awg_proxy_go.Prelude.Dict.{lookup}
use awg_proxy_go.Auth.Limiter.{lockout_time, new_limiter, allowed, fail}
use awg_proxy_go.Auth.Limiter.Lockout.{InWindow, fail_at, lockout}

named : ◌≢◌ {A = String} "c0ffee" ""
named = equals-ne {A = String} "c0ffee" "" refl

window : InWindow 10 10 (20 ∷ 30 ∷ 40 ∷ [])
window = omega arith

no_entry : lookup "10.0.0.9" new_limiter ≡ none
unfolding lookup
no_entry = refl

lockout_example :
    ((allowed
        (fail (fail_at new_limiter "10.0.0.9" (10 ∷ 20 ∷ 30 ∷ 40 ∷ [])) "10.0.0.9" 50)
        "10.0.0.9"
        51).0
      ≡ true)
    ↔ (50 + lockout_time ≤ 51)
lockout_example =
    lockout new_limiter "10.0.0.9" (20 ∷ 30 ∷ 40 ∷ []) 10 50 51 no_entry window refl (omega arith)
