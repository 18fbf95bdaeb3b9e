-- ===== src/Router/Api.antt =====
-- internal/router/api.go: callPrint, callAdd, callSet and callRemove as their callers see them. Their
-- code goes through a dialer of the credentials (Router.Dialers); here the router is a parameter with
-- a state `R`.
use awg_proxy_go.Prelude.{Bool, String, List, Option, none, some}
use awg_proxy_go.Prelude.Eq.{string_eq}
use awg_proxy_go.Prelude.Dict.{Dict, lookup}

abbrev pub Row : Type 0
Row = Dict String String

-- m[k], which is empty for a missing key.
unfoldable pub value : String → Row → String
unfolding lookup
value k row = elim (lookup k row) [ some v ↦ v | none ↦ "" ]

-- `none` and `false` are errors. `add` gives the id of the new record.
pub record Api (R : Type 0) : Type 0 where
  pub print : R → String → R × Option (List Row)
  pub add : R → String → Row → R × Option String
  pub set : R → String → String → Row → R × Bool
  pub remove : R → String → String → R × Bool
