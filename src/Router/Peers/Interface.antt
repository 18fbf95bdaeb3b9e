-- ===== src/Router/Peers/Interface.antt =====
-- internal/router/iface.go: normalizeIfaceAddress and SetInterface.

use awg_proxy_go.Prelude.{true, ◌||◌, String, List, [], ◌∷◌, Option, none, some, if◌then◌else◌}
use awg_proxy_go.Prelude.Eq.{◌==◌, string_eq}
use awg_proxy_go.Prelude.Strings.{trim_space, contains, cut_at}
use awg_proxy_go.Config.Convert.{◌+s◌}
use awg_proxy_go.Router.Api.{Row, Api, value}

-- From the parts in front of the first slash and behind it.
with_mask : String → Option (String × String) → String
with_mask addr none = addr +s "/24"
with_mask addr (some (host, mask)) = if mask == "32" then host +s "/24" else addr

unfoldable pub normalize_iface_address : String → String
unfolding trim_space cut_at with_mask
normalize_iface_address text =
    let addr = trim_space text in
    if addr == "" || contains b':' addr then addr else with_mask addr (cut_at b'/' addr)

pub data SetError : Type 0 where
  not_listed not_found key_not_set no_addresses not_added not_updated : SetError

-- The id of the first interface of the name, empty where there is none.
unfoldable pub interface_id : String → List Row → String
unfolding value
interface_id iface [] = ""
interface_id iface (it ∷ rows) =
    let rest = interface_id iface rows in if value "name" it == iface then value ".id" it else rest

-- The ids of the addresses of the interface.
unfoldable pub address_ids : String → List Row → List String
unfolding value
address_ids iface [] = []
address_ids iface (r ∷ rows) =
    let rest = address_ids iface rows in
    if value "interface" r == iface then value ".id" r ∷ rest else rest

module _ {R : Type 0} (api : Api R) (iface : String) where
  put_address : R → String → List String → R × Option SetError
  put_address r address [] =
      let (r', id) = api.add r "/ip/address" (("interface", iface) ∷ ("address", address) ∷ []) in
      (r', elim id [ none ↦ some not_added | some _ ↦ none ])
  put_address r address (id ∷ more) =
      let (r', done) = api.set r "/ip/address" id (("address", address) ∷ []) in
      (r', if done then none else some not_updated)

  addresses_listed : String → R × Option (List Row) → R × Option SetError
  unfolding put_address address_ids
  addresses_listed address (r, none) = (r, some no_addresses)
  addresses_listed address (r, some rows) = put_address r address (address_ids iface rows)

  set_address : R → String → R × Option SetError
  unfolding addresses_listed
  set_address r address =
      if address == "" then (r, none) else addresses_listed address (api.print r "/ip/address")

  set_key : R → String → String → String → R × Option SetError
  unfolding set_address
  set_key r id private_key address =
      let (r', done) =
        (if private_key == ""
          then (r, true)
          else api.set r "/interface/wireguard" id (("private-key", private_key) ∷ [])) in
      if done then set_address r' address else (r', some key_not_set)

  interfaces_read : String → String → R × Option (List Row) → R × Option SetError
  unfolding interface_id set_key
  interfaces_read private_key address (r, none) = (r, some not_listed)
  interfaces_read private_key address (r, some rows) =
      if interface_id iface rows == ""
      then (r, some not_found)
      else set_key r (interface_id iface rows) private_key address

  unfoldable pub set_interface : R → String → String → R × Option SetError
  unfolding normalize_iface_address interfaces_read
  set_interface r private_key address =
      interfaces_read private_key (normalize_iface_address address)
        (api.print r "/interface/wireguard")
