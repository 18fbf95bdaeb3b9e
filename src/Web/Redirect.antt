-- ===== src/Web/Redirect.antt =====
-- internal/api/server.go: safeNext.

use awg_proxy_go.Prelude.{◌≡◌, refl, true, false, String, not, ◌&&◌, Bool-cases, inl, inr, arith}
use awg_proxy_go.Prelude.Strings.{has_prefix, cut_prefix}
use awg_proxy_go.Web.{safe_next}

-- The target of the redirect behind a login starts with a slash and not with two, whatever the
-- request asks for; and a text that does so already is kept.
pub safe_next_local :
    (s : String)
    → (has_prefix (safe_next s) "/" ≡ true)
      × (has_prefix (safe_next s) "//" ≡ false)
      × (has_prefix s "/" ≡ true → has_prefix s "//" ≡ false → safe_next s ≡ s)
unfolding safe_next has_prefix cut_prefix
safe_next_local s = elim (Bool-cases (has_prefix s "/" && not (has_prefix s "//"))) [
  | inl good ↦ rw (safe_next, good) (ground (arith, good), ground (arith, good), (λ h k. refl))
  | inr bad ↦ rw (safe_next, bad) (refl, refl, (λ h k. absurd (ground (arith, bad, h, k))))
]
