-- ===== src/Service/Supervisor/Progress.antt =====
-- cmd/awgproxy/main.go: supervise answers a reload.
use awg_proxy_go.Prelude.{
  ℕ, ◌≡◌, ◌≢◌, ◌⊎◌, inl, inr, refl, true, Option, some, some_inj, Option-cases, ◌∙◌, sym, ap,
}
use awg_proxy_go.Config.Settings.{Config}
use awg_proxy_go.Service.{build_router_config}
use awg_proxy_go.Service.Supervisor.{
  Phase, loading, waiting, running, stopped, ended, Supervisor, stack_started, reload, Own, loads,
  cannot_load, ends_wait, restarts, restarts_stopped,
}

-- Steps of the supervisor alone.
pub data OwnReach (load : ℕ → Option Config) (s : Supervisor) : Supervisor → Type 0 where
  stays : OwnReach load s s
  goes : {t u : Supervisor} → OwnReach load s t → Own load t u → OwnReach load s u

-- The version is read, and if it is a configuration, a stack runs with it.
abbrev pub HasLoaded : (ℕ → Option Config) → ℕ → Supervisor → Type 0
HasLoaded load v t =
    (t.loaded ≡ v)
    × ((cfg : Config)
        → load v ≡ some cfg
        → (t.phase ≡ running) × (t.prev ≡ some (build_router_config cfg)))

module _ (load : ℕ → Option Config) where
  from_loading :
      (s : Supervisor)
      → s.phase ≡ loading
      → (t : Supervisor) × Own load s t × HasLoaded load s.version t
  from_loading s h = elim (Option-cases (load s.version)) [
    | inl e ↦ (
      record s { phase = waiting; loaded = s.version },
      cannot_load s h e,
      (refl, (λ cfg f. cc (e, f))),
    )
    | inr (cfg, e) ↦ (
      stack_started s cfg,
      loads s cfg h e,
      (refl, (λ cfg' f. (refl, ap (λ c. some (build_router_config c)) (some_inj (sym e ∙ f))))),
    )
  ]

  Phase-cases :
      (p : Phase) → p ≢ loading → p ≢ ended → (p ≡ waiting) ⊎ ((p ≡ running) ⊎ (p ≡ stopped))
  Phase-cases loading h k = absurd (h refl)
  Phase-cases waiting h k = inl refl
  Phase-cases running h k = inr (inl refl)
  Phase-cases stopped h k = inr (inr refl)
  Phase-cases ended h k = absurd (k refl)

  reloads :
      (s : Supervisor)
      → s.phase ≢ loading
      → s.phase ≢ ended
      → s.pending ≡ true
      → Own load s (reload s)
  reloads s h k p = elim (Phase-cases s.phase h k) [
    | inl e ↦ ends_wait s e p
    | inr (inl e) ↦ restarts s e p
    | inr (inr e) ↦ restarts_stopped s e p
  ]

  -- A supervisor that waits, has a running stack or has one that stopped, and has a signal in its
  -- channel, reaches by steps of its own a state in which it has read the version of the file that
  -- stands there; if that version is a configuration, a stack with it runs then.
  pub pending-HasLoaded :
      (s : Supervisor)
      → s.phase ≢ loading
      → s.phase ≢ ended
      → s.pending ≡ true
      → (t : Supervisor) × OwnReach load s t × HasLoaded load s.version t
  pending-HasLoaded s h k p =
      let (t, step, done) = from_loading (reload s) refl in
      (t, goes (goes stays (reloads s h k p)) step, done)
