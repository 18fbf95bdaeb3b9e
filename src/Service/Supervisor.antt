-- ===== src/Service/Supervisor.antt =====
-- cmd/awgproxy/main.go: supervise with its reload channel, and triggerReload. The web interface
-- writes the file and then calls triggerReload; both interleave with the supervisor's steps.
pub mod Progress
use awg_proxy_go.Prelude.{
  ℕ, suc, ◌≡◌, ◌≢◌, ◌⊎◌, inl, inr, refl, Bool, true, false, Option, none, some, Option-cases, ◌∙◌,
  sym, ap, arith,
}
use awg_proxy_go.Config.Settings.{Config}
use awg_proxy_go.Router.Settings.{RouterConfig}
use awg_proxy_go.Service.{build_router_config, stale_config}

-- Where the supervisor stands: it reads the file, waits behind an error, has a stack that runs, has
-- one that has stopped by itself, or has returned.
pub data Phase : Type 0 where
  loading waiting running stopped ended : Phase

-- `pending` is the reload channel, which holds one signal. `version` counts the writes of the file,
-- `loaded` is the version that was read last, and `unsignalled` counts the writes whose call of
-- triggerReload is still to come.
pub record Supervisor : Type 0 where
  pub phase : Phase
  pub pending : Bool
  pub version : ℕ
  pub loaded : ℕ
  pub unsignalled : ℕ
  pub prev : Option RouterConfig
  pub cleaned : Option RouterConfig

abbrev pub start : Supervisor
start = record {
  phase = loading;
  pending = false;
  version = 0;
  loaded = 0;
  unsignalled = 0;
  prev = none;
  cleaned = none;
}

abbrev pub reload : Supervisor → Supervisor
reload s = record s { phase = loading; pending = false }

-- A stack of the configuration starts. `cleaned` is what cleanupStaleRules removes before.
abbrev pub stack_started : Supervisor → Config → Supervisor
stack_started s cfg = record s {
  phase = running;
  loaded = s.version;
  prev = some (build_router_config cfg);
  cleaned = stale_config s.prev (build_router_config cfg);
}

-- The supervisor's own steps; `load` is config.Load on a version of the file.
pub data Own (load : ℕ → Option Config) : Supervisor → Supervisor → Type 0 where
  loads :
      (s : Supervisor) (cfg : Config)
      → s.phase ≡ loading
      → load s.version ≡ some cfg
      → Own load s (stack_started s cfg)
  cannot_load :
      (s : Supervisor)
      → s.phase ≡ loading
      → load s.version ≡ none
      → Own load s (record s { phase = waiting; loaded = s.version })
  ends_wait : (s : Supervisor) → s.phase ≡ waiting → s.pending ≡ true → Own load s (reload s)
  restarts : (s : Supervisor) → s.phase ≡ running → s.pending ≡ true → Own load s (reload s)
  restarts_stopped : (s : Supervisor) → s.phase ≡ stopped → s.pending ≡ true → Own load s (reload s)

-- All steps: those of the supervisor, of the web interface and of its stack, and the shutdown.
pub data Step (load : ℕ → Option Config) : Supervisor → Supervisor → Type 0 where
  own : {s t : Supervisor} → Own load s t → Step load s t
  writes :
      (s : Supervisor)
      → Step load s (record s { version = suc s.version; unsignalled = suc s.unsignalled })
  signals :
      (s : Supervisor) (n : ℕ)
      → s.unsignalled ≡ suc n
      → Step load s (record s { pending = true; unsignalled = n })
  stops : (s : Supervisor) → s.phase ≡ running → Step load s (record s { phase = stopped })
  shuts_down : (s : Supervisor) → s.phase ≢ loading → Step load s (record s { phase = ended })

pub data Reach (load : ℕ → Option Config) (s : Supervisor) : Supervisor → Type 0 where
  here : Reach load s s
  next : {t u : Supervisor} → Reach load s t → Step load t u → Reach load s u

-- The last version is loaded, or its reload is still to come.
abbrev pub IsCurrent : Supervisor → Type 0
IsCurrent s =
    (s.loaded ≡ s.version)
    ⊎ ((s.phase ≡ loading) ⊎ ((s.pending ≡ true) ⊎ ((n : ℕ) × (s.unsignalled ≡ suc n))))

Own-IsCurrent : (load : ℕ → Option Config) {s t : Supervisor} → Own load s t → IsCurrent t
Own-IsCurrent load (loads s cfg h e) = inl refl
Own-IsCurrent load (cannot_load s h e) = inl refl
Own-IsCurrent load (ends_wait s h p) = inr (inl refl)
Own-IsCurrent load (restarts s h p) = inr (inl refl)
Own-IsCurrent load (restarts_stopped s h p) = inr (inl refl)

moved :
    (s : Supervisor) (phase : Phase)
    → s.phase ≢ loading
    → IsCurrent s
    → IsCurrent (record s { phase = phase })
moved s phase h (inl e) = inl e
moved s phase h (inr (inl e)) = absurd (h e)
moved s phase h (inr (inr p)) = inr (inr p)

Step-IsCurrent :
    (load : ℕ → Option Config) {s t : Supervisor} → Step load s t → IsCurrent s → IsCurrent t
Step-IsCurrent load (own o) h = Own-IsCurrent load o
Step-IsCurrent load (writes s) h = inr (inr (inr (s.unsignalled, refl)))
Step-IsCurrent load (signals s n e) h = inr (inr (inl refl))
Step-IsCurrent load (stops s e) h = moved s stopped (λ f. cc (e, f)) h
Step-IsCurrent load (shuts_down s e) h = moved s ended e h

-- No save is lost: in every state that the service reaches, the version of the file that was read
-- last is the last one written, or the supervisor is about to read the file, or a signal is in the
-- channel, or a writer has still to send one.
pub Reach-IsCurrent : (load : ℕ → Option Config) (s : Supervisor) → Reach load start s → IsCurrent s
Reach-IsCurrent load s here = inl refl
Reach-IsCurrent load s (next r st) = Step-IsCurrent load st (Reach-IsCurrent load _ r)
