-- ===== src/Config/Check.antt =====
-- internal/config/config.go: validateRouter, validateService and validate. `parse_addr` is
-- netip.ParseAddr.
pub mod Sections
use awg_proxy_go.Prelude.{
  Bool, true, false, not, ◌&&◌, ◌||◌, String, Option, none, some, if◌then◌else◌,
}
use awg_proxy_go.Prelude.Eq.{◌==◌, string_eq}
use awg_proxy_go.Prelude.Int.{ltb_ℤ}
use awg_proxy_go.Prelude.Netip.{Addr, is6, is4_in6}
use awg_proxy_go.Config.Settings.{Config, mode_server, mode_client}

pub data ConfigError : Type 0 where
  no_router_address no_router_password no_wg_iface no_remote no_container_addr : ConfigError
  unsupported_mode jmin_over_jmax bad_container_addr6 : ConfigError
  no_file no_json cannot_store : ConfigError

-- The first error, where there is one: `if err := a; err != nil { return err }; return b`.
abbrev pub or_else : Option ConfigError → Option ConfigError → Option ConfigError
or_else (some e) later = some e
or_else none later = later

unfoldable pub validate_router : Config → Option ConfigError
validate_router c =
    if c.router.address == ""
    then some no_router_address
    else if c.router.password == ""
    then some no_router_password
    else none

-- `switch c.Mode`
check_mode : Config → Option ConfigError
check_mode c =
    if c.mode == mode_server
    then (if c.remote == ""
        then some no_remote
        else if c.divert && c.container_addr == ""
        then some no_container_addr
        else none)
    else if c.mode == mode_client
    then (if c.container_addr == "" then some no_container_addr else none)
    else some unsupported_mode

abbrev pub is_plain_v6 : Option Addr → Bool
is_plain_v6 none = false
is_plain_v6 (some a) = is6 a && not (is4_in6 a)

module _ (parse_addr : String → Option Addr) where
  check_rest : Config → Option ConfigError
  check_rest c =
      if ltb_ℤ c.jmax c.jmin
      then some jmin_over_jmax
      else if not (c.container_addr6 == "") && not (is_plain_v6 (parse_addr c.container_addr6))
      then some bad_container_addr6
      else none

  unfoldable pub validate_service : Config → Option ConfigError
  unfolding check_mode check_rest
  validate_service c =
      if c.router.wg_iface == "" then some no_wg_iface else or_else (check_mode c) (check_rest c)

  unfoldable pub validate : Config → Option ConfigError
  unfolding validate_router validate_service
  validate c = or_else (validate_router c) (validate_service c)
