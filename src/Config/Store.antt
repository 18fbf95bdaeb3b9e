-- ===== src/Config/Store.antt =====
-- internal/config/config.go: readRaw, Load, Read and Write. encoding/json is a parameter, as are
-- netip.ParseAddr and what the file system does with a write.
pub mod RoundTrip
use awg_proxy_go.Prelude.{
  ℕ, Bool, true, false, String, List, [], ◌∷◌, ◌&&◌, ◌||◌, Option, none, some, if◌then◌else◌,
}
use awg_proxy_go.Prelude.Eq.{◌==◌, string_eq, nat_eq}
use awg_proxy_go.Prelude.Text.{codes}
use awg_proxy_go.Prelude.Results.{Result, ok, err, ◌>>=◌}
use awg_proxy_go.Prelude.Netip.{Addr}
use awg_proxy_go.Config.Settings.{Settings, Config}
use awg_proxy_go.Config.Defaults.{with_defaults}
use awg_proxy_go.Config.Convert.{to_config}
use awg_proxy_go.Config.Check.{
  ConfigError, no_file, no_json, cannot_store, validate_router, validate_service, validate,
}

pub data File : Type 0 where
  missing unreadable : File
  content : String → File

-- encoding/json, the check of addresses, and os.WriteFile: what stands there then, and whether it
-- succeeded.
pub record System : Type 0 where
  pub marshal : Settings → String
  pub unmarshal : String → Option Settings
  pub parse_addr : String → Option Addr
  pub write_file : String → File → File × Bool

-- len(bytes.TrimSpace(data)) == 0, in ASCII
unfoldable pub is_blank : List ℕ → Bool
is_blank [] = true
is_blank (c ∷ s) = (c == 32 || c == 9 || c == 10 || c == 11 || c == 12 || c == 13) && is_blank s

module _ (y : System) where
  parse : String → Result ConfigError (Settings × Bool)
  parse data_ = elim (y.unmarshal data_) [ some s ↦ ok (s, true) | none ↦ err no_json ]

  -- The settings and whether there are any: `zero` is Go's zero value.
  read_raw : Settings → File → Result ConfigError (Settings × Bool)
  unfolding is_blank parse
  read_raw zero missing = ok (zero, false)
  read_raw zero unreadable = err no_file
  read_raw zero (content text) = if is_blank (codes text) then ok (zero, false) else parse text

  unfoldable pub load : Settings → File → Result ConfigError Config
  unfolding read_raw to_config
  load zero f = do (s, _) ← read_raw zero f; ok (to_config s)

  unfoldable pub read : Settings → File → Result ConfigError Settings
  unfolding read_raw with_defaults
  read zero f = do (s, _) ← read_raw zero f; ok (with_defaults s)

  unfoldable pub check_section : String → Config → Option ConfigError
  unfolding validate_router validate_service validate
  check_section section c =
      if section == "router"
      then validate_router c
      else if section == "service"
      then validate_service y.parse_addr c
      else validate y.parse_addr c

  stored : Settings → File → File × Option ConfigError
  unfolding with_defaults
  stored s f =
      let (f', done) = y.write_file (y.marshal (with_defaults s)) f in
      (f', if done then none else some cannot_store)

  -- The file after Write, and the error.
  unfoldable pub write : File → Settings → String → File × Option ConfigError
  unfolding to_config check_section stored
  write f s section = elim (check_section section (to_config s)) [
    | some e ↦ (f, some e)
    | none ↦ stored s f
  ]
