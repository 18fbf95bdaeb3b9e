-- ===== src/Config/Store/RoundTrip.antt =====
-- config.go: what Write stores, Load and Read find.
use awg_proxy_go.Prelude.{◌≡◌, refl, ap, ◌∙◌, true, false, String, none, some}
use awg_proxy_go.Prelude.Eq.{string_eq}
use awg_proxy_go.Prelude.Text.{codes}
use awg_proxy_go.Prelude.Results.{ok}
use awg_proxy_go.Config.Settings.{Settings}
use awg_proxy_go.Config.Defaults.{with_defaults}
use awg_proxy_go.Config.Defaults.Idempotent.{with_defaults_idem}
use awg_proxy_go.Config.Convert.{to_config}
use awg_proxy_go.Config.Convert.Stable.{to_config-with_defaults}
use awg_proxy_go.Config.Check.{ConfigError}
use awg_proxy_go.Config.Store.{
  File, content, System, is_blank, parse, read_raw, load, read, check_section, stored, write,
}

module _ (y : System) where
  read_raw-content :
      (zero s : Settings) (text : String)
      → is_blank (codes text) ≡ false
      → y.unmarshal text ≡ some s
      → read_raw y zero (content text) ≡ ok (s, true)
  unfolding read_raw parse
  read_raw-content zero s text full json = rw (full, parse, json) refl

  stored-content :
      (s : Settings) (f g : File)
      → y.write_file (y.marshal (with_defaults s)) f ≡ (g, true)
      → stored y s f ≡ (g, none)
  unfolding stored
  stored-content s f g disk = rw (stored, disk) refl

  write-accepted :
      (s : Settings) (f : File) (section : String)
      → check_section y section (to_config s) ≡ none
      → write y f s section ≡ stored y s f
  unfolding write
  write-accepted s f section accepted = rw (write, accepted) refl

  -- Where the checks of the section accept the settings, the disk takes the text, and JSON decodes
  -- what it encoded into a text that is not blank, Write succeeds, Load then gives the configuration
  -- that was checked, and Read shows the settings with their defaults.
  pub load-write :
      (s zero : Settings) (f : File) (section : String)
      → check_section y section (to_config s) ≡ none
      → y.write_file (y.marshal (with_defaults s)) f ≡ (content (y.marshal (with_defaults s)), true)
      → y.unmarshal (y.marshal (with_defaults s)) ≡ some (with_defaults s)
      → is_blank (codes (y.marshal (with_defaults s))) ≡ false
      → ((write y f s section).1 ≡ none)
        × (load y zero (write y f s section).0 ≡ ok (to_config s))
        × (read y zero (write y f s section).0 ≡ ok (with_defaults s))
  unfolding load read
  load-write s zero f section accepted disk json text = (
    ap (λ o. o.1) written,
    ap (λ o. load y zero o.0) written ∙ loads,
    ap (λ o. read y zero o.0) written ∙ reads,
  )
    where
      file_text : String
      file_text = y.marshal (with_defaults s)

      found : read_raw y zero (content file_text) ≡ ok (with_defaults s, true)
      found = read_raw-content zero (with_defaults s) file_text text json

      written : write y f s section ≡ (content file_text, none)
      written = write-accepted s f section accepted ∙ stored-content s f (content file_text) disk

      loads : load y zero (content file_text) ≡ ok (to_config s)
      loads = rw (load, found) (ap ok (to_config-with_defaults s))

      reads : read y zero (content file_text) ≡ ok (with_defaults s)
      reads = rw (read, found) (ap ok (with_defaults_idem s))

  -- Where the checks of the section refuse the settings, Write returns their error and the file is
  -- untouched.
  pub write_refused :
      (s : Settings) (f : File) (section : String) (e : ConfigError)
      → check_section y section (to_config s) ≡ some e
      → write y f s section ≡ (f, some e)
  unfolding write
  write_refused s f section e refused = rw (write, refused) refl
