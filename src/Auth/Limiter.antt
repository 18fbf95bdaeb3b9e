-- ===== src/Auth/Limiter.antt =====
-- internal/api/auth.go: the limiter of failed logins, by the client's address.
pub mod Lockout
use Prim.Native.Nat.{◌*◌}
use awg_proxy_go.Prelude.{
  ℕ, suc, ◌+◌, ◌-◌, Bool, true, false, not, String, [], Option, none, some, ltb, leb, if◌then◌else◌,
}
use awg_proxy_go.Prelude.Eq.{string_eq}
use awg_proxy_go.Prelude.Dict.{Dict, lookup, insert, delete}

abbrev pub max_fails : ℕ
max_fails = 5

abbrev pub fail_window : ℕ
fail_window = 300 * 1000000000

abbrev pub lockout_time : ℕ
lockout_time = 300 * 1000000000

pub record Attempt : Type 0 where
  pub fails : ℕ
  pub first : ℕ
  pub lock_until : ℕ

abbrev pub Limits : Type 0
Limits = Dict String Attempt

abbrev pub new_limiter : Limits
new_limiter = []

-- time.Until(t) is negative for a time in the past, which counts as no wait.
unfoldable pub allowed : Limits → String → ℕ → Bool × ℕ
unfolding lookup
allowed l key now = elim (lookup key l) [
  | none ↦ (true, 0)
  | some a ↦ if ltb now a.lock_until then (false, a.lock_until - now) else (true, 0)
]

abbrev pub fresh : ℕ → Attempt
fresh now = record { fails = 0; first = now; lock_until = 0 }

current_attempt : Option Attempt → ℕ → Attempt
current_attempt none now = fresh now
current_attempt (some a) now = if ltb fail_window (now - a.first) then fresh now else a

abbrev pub counted : Attempt → ℕ → Attempt
counted a now =
    if leb max_fails (suc a.fails)
    then record { fails = 0; first = now; lock_until = now + lockout_time }
    else record a { fails = suc a.fails }

unfoldable pub fail : Limits → String → ℕ → Limits
unfolding lookup insert current_attempt
fail l key now = insert key (counted (current_attempt (lookup key l) now) now) l

unfoldable pub reset : Limits → String → Limits
unfolding delete
reset l key = delete key l
