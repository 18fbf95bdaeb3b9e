-- ===== src/Web/Saved.antt =====
-- internal/api/server.go: putConfig, then getConfig and routerClient.
use awg_proxy_go.Prelude.{◌≡◌, ap, ◌∙◌, suc, true, false, none, some}
use awg_proxy_go.Prelude.Text.{codes}
use awg_proxy_go.Config.Settings.{Settings}
use awg_proxy_go.Config.Defaults.{with_defaults}
use awg_proxy_go.Config.Convert.{to_config}
use awg_proxy_go.Config.Convert.Stable.{to_config-with_defaults}
use awg_proxy_go.Config.Store.{content, is_blank, check_section, write}
use awg_proxy_go.Config.Store.RoundTrip.{load-write, write_refused}
use awg_proxy_go.Config.Check.{ConfigError}
use awg_proxy_go.Router.Api.{Api}
use awg_proxy_go.Router.Settings.{RouterConfig}
use awg_proxy_go.Web.{Server, World, Request, settings, write_json, fail_with}
use awg_proxy_go.Web.Handlers.{
  answer_config, client_of, get_config, saved, put_config, client_from, router_client,
}

module _ (w : World) (q : Request) (st : Settings) (s : Server) where
  -- Where the checks of the section accept the settings, the disk takes the text, and JSON decodes
  -- what it encoded into a text that is not blank, PUT /api/config signals one reload; after it, GET
  -- /api/config shows the settings with their defaults, and the router's handlers use the
  -- credentials of the configuration that was checked.
  pub get_config-put_config :
      {R : Type 0} (connect : RouterConfig → Api R)
      → check_section w.system q.section (to_config st) ≡ none
      → w.system.write_file (w.system.marshal (with_defaults st)) s.file
        ≡ (content (w.system.marshal (with_defaults st)), true)
      → w.system.unmarshal (w.system.marshal (with_defaults st)) ≡ some (with_defaults st)
      → is_blank (codes (w.system.marshal (with_defaults st))) ≡ false
      → ((put_config w s q (some st)).0.signals ≡ suc s.signals)
        × (get_config w (put_config w s q (some st)).0
            ≡ write_json 200 (settings (with_defaults st)))
        × (router_client w connect (put_config w s q (some st)).0 ≡ some (client_of (to_config st)))
  unfolding put_config saved get_config router_client client_from
  get_config-put_config connect accepted disk json full =
      let (fine, _, reads) =
        load-write w.system st w.zero_settings s.file q.section accepted disk json full in
      let pair : write w.system s.file st q.section
          ≡ ((write w.system s.file st q.section).0, none) =
        ap (λ e. ((write w.system s.file st q.section).0, e)) fine in
      (
        ap (λ o. (saved w s o).0.signals) pair,
        ap (λ o. get_config w (saved w s o).0) pair ∙ ap answer_config reads,
        ap (λ o. router_client w connect (saved w s o).0) pair
            ∙ ap (client_from w connect) reads
            ∙ ap (λ c. some (client_of c)) (to_config-with_defaults st),
      )

  -- Where they refuse the settings, PUT /api/config answers 400, changes nothing and signals nothing.
  pub put_config_refused :
      (e : ConfigError)
      → check_section w.system q.section (to_config st) ≡ some e
      → ((put_config w s q (some st)).1 ≡ fail_with 400)
        × ((put_config w s q (some st)).0.file ≡ s.file)
        × ((put_config w s q (some st)).0.signals ≡ s.signals)
  unfolding put_config saved
  put_config_refused e refused =
      let same = write_refused w.system st s.file q.section e refused in
      (
        ap (λ o. (saved w s o).1) same,
        ap (λ o. (saved w s o).0.file) same,
        ap (λ o. (saved w s o).0.signals) same,
      )
