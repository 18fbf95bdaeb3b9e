-- ===== src/Web/Access.antt =====
-- internal/api/server.go: what protect lets through.
use awg_proxy_go.Prelude.{◌≡◌, refl, true, false, String, Option, Bool, if◌then◌else◌, ◌||◌}
use awg_proxy_go.Prelude.Eq.{◌==◌, string_eq}
use awg_proxy_go.Prelude.Results.{Result, ok, err}
use awg_proxy_go.Config.Settings.{Settings, RouterSettings}
use awg_proxy_go.Config.Convert.{active_router}
use awg_proxy_go.Config.Check.{ConfigError}
use awg_proxy_go.Config.Store.{read}
use awg_proxy_go.Router.Api.{Api}
use awg_proxy_go.Router.Settings.{RouterConfig}
use awg_proxy_go.Web.{
  Server, World, Request, Response, redirect, fail_with, router_reachable, required_by,
  auth_required,
}
use awg_proxy_go.Web.Login.{login_target}
use awg_proxy_go.Web.Routes.{
  Route, auth_route, logout_route, version_route, login_route, static_route, post_login, Machine,
  serve,
}

-- Only the cache of routerReachable may differ.
abbrev pub IsProbed : Server → Server → Type 0
IsProbed s t = (t.file ≡ s.file) × (t.signals ≡ s.signals) × (t.limit ≡ s.limit) × (t.auth ≡ s.auth)

-- Sessions that have expired may be gone besides.
abbrev pub IsChecked : Server → Server → Type 0
IsChecked s t = (t.file ≡ s.file) × (t.signals ≡ s.signals) × (t.limit ≡ s.limit)

-- The routes that a request reaches without a session.
pub data IsPublic : Route → Type 0 where
  is_auth : IsPublic auth_route
  is_login : {body : Option (String × String)} → IsPublic (post_login body)
  is_logout : IsPublic logout_route
  is_version : IsPublic version_route
  is_login_page : IsPublic login_route

abbrev pub refusal : World → Request → Route → Response
refusal w q static_route = redirect (login_target w q.path)
refusal w q _ = fail_with 401

-- The answer, with no call of the router and no change of the server but in its caches.
abbrev pub IsRefused :
    (w : World) (m : Machine) {R : Type 0} (connect : RouterConfig → Api R) (q : Request) (r : R)
    (s : Server) (a : Response) (route : Route)
    → Type 0
IsRefused w m connect q r s a route =
    ((serve w m connect route q r s).0 ≡ r)
    × ((serve w m connect route q r s).2 ≡ a)
    × IsChecked s (serve w m connect route q r s).1

either-IsProbed :
    (s : Server) (b : Bool) (p q : Server × Bool)
    → IsProbed s p.0
    → IsProbed s q.0
    → IsProbed s (if b then p else q).0
either-IsProbed s true p q h k = h
either-IsProbed s false p q h k = k

module _ (w : World) where
  reachable-IsProbed : (s : Server) (rt : RouterSettings) → IsProbed s (router_reachable w s rt).0
  unfolding router_reachable
  reachable-IsProbed s rt =
      either-IsProbed s _ _ _ (refl, refl, refl, refl) (refl, refl, refl, refl)

  required_by-IsProbed :
      (s : Server) (o : Result ConfigError Settings) → IsProbed s (required_by w s o).0
  unfolding required_by
  required_by-IsProbed s (err e) = (refl, refl, refl, refl)
  required_by-IsProbed s (ok st) =
      either-IsProbed s _ _ _ (refl, refl, refl, refl) (reachable-IsProbed s (active_router st))

  pub auth_required-IsProbed : (s : Server) → IsProbed s (auth_required w s).0
  unfolding auth_required
  auth_required-IsProbed s =
      let settings = read w.system w.zero_settings s.file in
      either-IsProbed s (w.no_auth == "1" || w.no_auth == "true") (s, false)
        (required_by w s settings) (refl, refl, refl, refl) (required_by-IsProbed s settings)
