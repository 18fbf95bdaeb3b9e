-- ===== src/Auth/Sessions.antt =====
-- internal/api/auth.go: the tokens of web sessions.
pub mod Lifetime
use Prim.Native.Nat.{◌*◌}
use awg_proxy_go.Prelude.{
  ℕ, ◌+◌, Bool, true, false, String, [], Option, none, some, ltb, if◌then◌else◌,
}
use awg_proxy_go.Prelude.Eq.{◌==◌, string_eq}
use awg_proxy_go.Prelude.Dict.{Dict, lookup, insert, delete}

abbrev pub session_ttl : ℕ
session_ttl = 12 * 3600 * 1000000000

-- From a token to the time at which it expires.
abbrev pub WebSessions : Type 0
WebSessions = Dict String ℕ

abbrev pub new_sessions : WebSessions
new_sessions = []

-- The token is the text of 32 bytes of crypto/rand; `none` where that fails.
unfoldable pub create : WebSessions → Option String → ℕ → WebSessions × Option String
unfolding insert
create m none now = (m, none)
create m (some tok) now = (insert tok (now + session_ttl) m, some tok)

check_expiry : WebSessions → String → ℕ → Option ℕ → WebSessions × Bool
unfolding delete
check_expiry m tok now none = (m, false)
check_expiry m tok now (some exp) = if ltb exp now then (delete tok m, false) else (m, true)

unfoldable pub valid : WebSessions → String → ℕ → WebSessions × Bool
unfolding lookup check_expiry
valid m tok now = if tok == "" then (m, false) else check_expiry m tok now (lookup tok m)

unfoldable pub drop : WebSessions → String → WebSessions
unfolding delete
drop m tok = delete tok m
