-- ===== src/Auth/Sessions/Lifetime.antt =====
-- auth.go: how long a token is valid.
use awg_proxy_go.Prelude.{ℕ, ◌+◌, ◌≤◌, ◌≡◌, ◌≢◌, ◌↔◌, true, false, String, none, some, arith}
use awg_proxy_go.Prelude.Eq.{string_eq}
use awg_proxy_go.Prelude.Dict.{lookup, lookup-insert_self, lookup-delete_self}
use awg_proxy_go.Auth.Sessions.{WebSessions, session_ttl, create, check_expiry, valid, drop}

pub valid_at :
    (m : WebSessions) (tok : String) (now exp : ℕ)
    → tok ≢ ""
    → lookup tok m ≡ some exp
    → ((valid m tok now).1 ≡ true) ↔ (now ≤ exp)
unfolding valid check_expiry
valid_at m tok now exp named e = ground (arith, e, string_eq.equals_iff tok "")

pub invalid_at :
    (m : WebSessions) (tok : String) (now : ℕ) → lookup tok m ≡ none → (valid m tok now).1 ≡ false
unfolding valid check_expiry
invalid_at m tok now e = ground (arith, e)

-- A token that create gave, not an empty one, is valid up to twelve hours later, that time included,
-- and not after; and it is not valid once it was dropped.
pub create-valid :
    (m : WebSessions) (tok : String) (made now : ℕ)
    → tok ≢ ""
    → (((valid (create m (some tok) made).0 tok now).1 ≡ true) ↔ (now ≤ made + session_ttl))
      × ((valid (drop (create m (some tok) made).0 tok) tok now).1 ≡ false)
unfolding create drop
create-valid m tok made now named = (
  valid_at _ tok now (made + session_ttl) named (lookup-insert_self tok (made + session_ttl) m),
  invalid_at _ tok now (lookup-delete_self tok _),
)
