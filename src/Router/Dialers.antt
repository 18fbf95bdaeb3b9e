-- ===== src/Router/Dialers.antt =====
-- internal/router/api.go: the dialers, one for the credentials of a router, and the calls that go
-- through them. What is dialled depends on the credentials.
pub mod Pool
use awg_proxy_go.Prelude.{
  ◌≡◌, ◌↔◌, refl, Bool, true, false, ◌&&◌, String, List, Option, none, some, if◌then◌else◌, arith,
}
use awg_proxy_go.Prelude.Eq.{Comparable, ◌==◌, string_eq}
use awg_proxy_go.Prelude.Int.{ℤ, int_eq}
use awg_proxy_go.Prelude.Text.{codes}
use awg_proxy_go.Prelude.Dict.{Dict, lookup, insert}
use awg_proxy_go.Prelude.Results.{Result, ok, err}
use awg_proxy_go.Router.Binapi.Conn.{Bytes, Words}
use awg_proxy_go.Router.Binapi.Dialer.{Net, CallError, Dialer, print, add, set, remove}
use awg_proxy_go.Router.Nat.{same_bool}
use awg_proxy_go.Router.Settings.{RouterConfig}

pub record DialerKey : Type 0 where
  pub addr : String
  pub port : ℤ
  pub tls : Bool
  pub user : String
  pub pass : String

abbrev pub key_beq : DialerKey → DialerKey → Bool
key_beq j k =
    j.addr == k.addr
    && j.port == k.port
    && same_bool j.tls k.tls
    && j.user == k.user
    && j.pass == k.pass

same_bool_iff : (a b : Bool) → (same_bool a b ≡ true) ↔ (a ≡ b)
same_bool_iff true true = ((λ h. refl), (λ h. refl))
same_bool_iff true false = ((λ h. cc), (λ h. cc))
same_bool_iff false true = ((λ h. cc), (λ h. cc))
same_bool_iff false false = ((λ h. refl), (λ h. refl))

pub key_beq_iff : (j k : DialerKey) → (key_beq j k ≡ true) ↔ (j ≡ k)
key_beq_iff j k = ground (
  arith,
  string_eq.equals_iff j.addr k.addr,
  int_eq.equals_iff j.port k.port,
  same_bool_iff j.tls k.tls,
  string_eq.equals_iff j.user k.user,
  string_eq.equals_iff j.pass k.pass,
)

instance abbrev pub key_eq : Comparable DialerKey
key_eq = record { equals = key_beq; equals_iff = key_beq_iff }

abbrev pub dialer_key : RouterConfig → DialerKey
dialer_key c = record {
  addr = c.address;
  port = c.api_port;
  tls = c.api_tls;
  user = c.user;
  pass = c.password;
}

-- The network, and the dialers that were made.
pub record Dialers (W C : Type 0) : Type 0 where
  pub world : W
  pub dialers : Dict DialerKey (Dialer C)

pub data ApiError : Type 0 where
  no_credentials : ApiError
  from_call : CallError → ApiError

abbrev pub new_dialer : {C : Type 0} → RouterConfig → Dialer C
new_dialer c = record { user = codes c.user; password = codes c.password; conn = none }

-- Dialer: the dialer of the credentials, a new one if there is none.
unfoldable pub dialer_of : {C : Type 0} → RouterConfig → Dict DialerKey (Dialer C) → Dialer C
unfolding lookup
dialer_of c dialers = elim (lookup (dialer_key c) dialers) [ some d ↦ d | none ↦ new_dialer c ]

abbrev pub from_result : {A : Type 0} → Result CallError A → Result ApiError A
from_result (ok a) = ok a
from_result (err e) = err (from_call e)

module _ {W C : Type 0} where
  -- A call changes the dialer that the map points to.
  unfoldable pub kept :
      {A : Type 0}
      → Dialers W C
      → DialerKey
      → W × Dialer C × Result CallError A
      → Dialers W C × Result ApiError A
  unfolding insert
  kept s k (w, d, got) = (record { world = w; dialers = insert k d s.dialers }, from_result got)

module _ {W C : Type 0} (net : DialerKey → Net W C) where
  unfoldable pub call_print :
      Dialers W C → RouterConfig → String → List Bytes → Dialers W C × Result ApiError (List Words)
  unfolding dialer_of kept print
  call_print s c path args =
      if c.address == ""
      then (s, err no_credentials)
      else kept s (dialer_key c)
          (print (net (dialer_key c)) s.world (dialer_of c s.dialers) (codes path) args)

  unfoldable pub call_add :
      Dialers W C → RouterConfig → String → Words → Dialers W C × Result ApiError Bytes
  unfolding dialer_of kept add
  call_add s c path kv =
      if c.address == ""
      then (s, err no_credentials)
      else kept s (dialer_key c)
          (add (net (dialer_key c)) s.world (dialer_of c s.dialers) (codes path) kv)

  unfoldable pub call_set :
      Dialers W C
      → RouterConfig
      → String
      → Bytes
      → Words
      → Dialers W C × Result ApiError (List Words)
  unfolding dialer_of kept set
  call_set s c path id kv =
      if c.address == ""
      then (s, err no_credentials)
      else kept s (dialer_key c)
          (set (net (dialer_key c)) s.world (dialer_of c s.dialers) (codes path) id kv)

  unfoldable pub call_remove :
      Dialers W C → RouterConfig → String → Bytes → Dialers W C × Result ApiError (List Words)
  unfolding dialer_of kept remove
  call_remove s c path id =
      if c.address == ""
      then (s, err no_credentials)
      else kept s (dialer_key c)
          (remove (net (dialer_key c)) s.world (dialer_of c s.dialers) (codes path) id)
