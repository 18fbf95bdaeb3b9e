-- ===== src/Web/Attempts.antt =====
-- internal/api/server.go: who gets a session by login, and what it is good for.
use awg_proxy_go.Prelude.{
  ℕ, ◌≡◌, ◌≢◌, ◌≤◌, ◌+◌, refl, sym, subst, ap, ◌∙◌, true, false, String, Option, none, some, Bool,
  Bool-cases, inl, inr,
}
use awg_proxy_go.Prelude.Results.{Result, ok, err}
use awg_proxy_go.Config.Settings.{Settings}
use awg_proxy_go.Config.Convert.{active_router}
use awg_proxy_go.Config.Check.{ConfigError}
use awg_proxy_go.Config.Store.{read}
use awg_proxy_go.Prelude.Dict.{insert}
use awg_proxy_go.Prelude.Eq.{string_eq}
use awg_proxy_go.Auth.Sessions.{session_ttl, create, valid, drop}
use awg_proxy_go.Auth.Sessions.Lifetime.{create-valid}
use awg_proxy_go.Auth.Limiter.{allowed, reset}
use awg_proxy_go.Web.{
  Server, World, Request, Response, set_cookie, client_ip, auth_required, with_cookie, authed,
  passes, accepted, write_json,
}
use awg_proxy_go.Web.Login.{
  login_config, with_token, verified, check_login, try_login, login, logged_out, logout,
}
use awg_proxy_go.Web.Access.{auth_required-IsProbed}

-- A session for a token.
abbrev pub HasSession : Server × Response → String → Type 0
HasSession o tok = o.1.cookie ≡ set_cookie tok

module _ (w : World) (q : Request) (user password tok : String) where
  -- The answer to a login has the token that was made for it.
  abbrev pub IsGranted : Server → Server × Response → Type 0
  IsGranted s o =
      (w.token ≡ some tok) × (o.0.auth ≡ (create s.auth (some tok) w.now).0) × (o.0.file ≡ s.file)

  with_token-granted :
      (s : Server) (o : Option String)
      → HasSession (with_token w s (create s.auth o w.now)) tok
      → (o ≡ some tok)
        × ((with_token w s (create s.auth o w.now)).0.auth ≡ (create s.auth (some tok) w.now).0)
        × ((with_token w s (create s.auth o w.now)).0.file ≡ s.file)
  unfolding with_token create
  with_token-granted s none h = cc
  with_token-granted s (some t) h =
      let e : t ≡ tok = cc h in (ap some e, ap (λ x. insert x (w.now + session_ttl) s.auth) e, refl)

  verified-IsGranted :
      (s : Server) (b : Bool)
      → HasSession (verified w s q b) tok
      → (b ≡ true) × IsGranted s (verified w s q b)
  unfolding verified
  verified-IsGranted s false h = cc
  verified-IsGranted s true h =
      (refl, with_token-granted (record s { limit = reset s.limit (client_ip q) }) w.token h)

  -- The router of the settings took the credentials.
  abbrev pub IsVerified : Result ConfigError Settings → Type 0
  IsVerified o =
      (st : Settings) × (o ≡ ok st)
      × (w.verify (login_config (active_router st) user password) ≡ true)

  check_login-IsGranted :
      (s : Server) (o : Result ConfigError Settings)
      → HasSession (check_login w s q user password o) tok
      → IsVerified o × IsGranted s (check_login w s q user password o)
  unfolding check_login
  check_login-IsGranted s (err e) h = cc
  check_login-IsGranted s (ok st) h =
      let (taken, granted) =
        verified-IsGranted s (w.verify (login_config (active_router st) user password)) h in
      ((st, refl, taken), granted)

  try_login-IsGranted :
      (s : Server) (o : Bool × ℕ)
      → HasSession (try_login w s q user password o) tok
      → (o.0 ≡ true)
        × IsVerified (read w.system w.zero_settings s.file)
        × IsGranted s (try_login w s q user password o)
  unfolding try_login
  try_login-IsGranted s (false, wait) h = cc
  try_login-IsGranted s (true, wait) h =
      let (taken, granted) = check_login-IsGranted s (read w.system w.zero_settings s.file) h in
      (refl, taken, granted)

  login_open :
      (s : Server)
      → (auth_required w s).1 ≡ false
      → login w s q (some (user, password))
        ≡ ((auth_required w s).0, write_json 200 (accepted "ok"))
  unfolding login
  login_open s e = rw (login, e) refl

  login-required :
      (s : Server)
      → HasSession (login w s q (some (user, password))) tok
      → login w s q (some (user, password))
        ≡ try_login w
            (auth_required w s).0
            q
            user
            password
            (allowed (auth_required w s).0.limit (client_ip q) w.now)
  unfolding login
  login-required s h = elim (Bool-cases (auth_required w s).1) [
    | inl e ↦ rw (login, e) refl
    | inr e ↦ absurd (cc (h, ap (λ o. o.1.cookie) (login_open s e)))
  ]

  -- A login is answered with a session only where the router of the stored settings took the
  -- credentials that were sent, the client was not locked out, and crypto/rand gave the token; the
  -- token is then valid for twelve hours, and the file is as it was.
  pub login-IsVerified :
      (s : Server)
      → HasSession (login w s q (some (user, password))) tok
      → IsVerified (read w.system w.zero_settings s.file)
        × ((allowed s.limit (client_ip q) w.now).0 ≡ true)
        × IsGranted s (login w s q (some (user, password)))
  login-IsVerified s h =
      let s' = (auth_required w s).0 in
      let (file, _, limit, auth) = auth_required-IsProbed w s in
      let same = login-required s h in
      let (free, taken, granted) =
        try_login-IsGranted s' (allowed s'.limit (client_ip q) w.now)
          (ap (λ o. o.1.cookie) (sym same) ∙ h) in
      let (token, made, kept) = granted in
      (
        subst (λ f. IsVerified (read w.system w.zero_settings f)) file taken,
        ap (λ l. (allowed l (client_ip q) w.now).0) (sym limit) ∙ free,
        (
          token,
          ap (λ o. o.0.auth) same ∙ made ∙ ap (λ m. (create m (some tok) w.now).0) auth,
          ap (λ o. o.0.file) same ∙ kept ∙ file,
        ),
      )

valid_passes :
    (w : World) (s : Server) (q : Request) (tok : String)
    → q.cookie ≡ some tok
    → (valid s.auth tok w.now).1 ≡ true
    → (authed w s q).1 ≡ true
unfolding authed with_cookie
valid_passes w s q tok c v = ap (λ o. (with_cookie w s o).1) c ∙ v

valid_dropped :
    (w : World) (s : Server) (q : Request) (tok : String)
    → q.cookie ≡ some tok
    → (valid s.auth tok w.now).1 ≡ false
    → (authed w s q).1 ≡ false
unfolding authed with_cookie
valid_dropped w s q tok c v = ap (λ o. (with_cookie w s o).1) c ∙ v

passes_good :
    (w : World) (s : Server) (q : Request)
    → (authed w (auth_required w s).0 q).1 ≡ true
    → (passes w s q).1 ≡ true
unfolding passes
passes_good w s q good = elim (Bool-cases (auth_required w s).1) [
  | inl e ↦ rw (passes, e, good) refl
  | inr e ↦ rw (passes, e) refl
]

-- Behind a login that was answered with a token, not an empty one, a request with that token as its
-- cookie passes protect up to twelve hours later; behind a logout with it, it has no session.
pub login-passes :
    (w w' : World) (q q' : Request) (user password tok : String) (s : Server)
    → HasSession (login w s q (some (user, password))) tok
    → tok ≢ ""
    → q'.cookie ≡ some tok
    → w'.now ≤ w.now + session_ttl
    → ((passes w' (login w s q (some (user, password))).0 q').1 ≡ true)
      × ((authed w' (logout w' (login w s q (some (user, password))).0 q').0 q').1 ≡ false)
unfolding logout logged_out
login-passes w w' q q' user password tok s h named c soon =
    let after = (login w s q (some (user, password))).0 in
    let (_, _, granted) = login-IsVerified w q user password tok s h in
    let (_, made, _) = granted in
    let (live, dead) = create-valid s.auth tok w.now w'.now named in
    let probed = auth_required-IsProbed w' after in
    (
      passes_good w' after q' (
          valid_passes w' (auth_required w' after).0 q' tok c
            (ap (λ m. (valid m tok w'.now).1) (probed.3 ∙ made) ∙ live.1 soon)),
      valid_dropped w' (logged_out w' after q'.cookie) q' tok c (
          ap (λ o. (valid (logged_out w' after o).auth tok w'.now).1) c
          ∙ ap (λ m. (valid (drop m tok) tok w'.now).1) made
          ∙ dead),
    )
