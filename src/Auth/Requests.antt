-- ===== src/Auth/Requests.antt =====
-- The requests that reach the auth service, in the order of their arrival, and the passing of time.
use cuddly_lamp.Prelude.{ℕ, ◌+◌, List, [], ◌∷◌}
use cuddly_lamp.Text.{Text}
use cuddly_lamp.Env.{Env}
use cuddly_lamp.Storage.Action.{World}
use cuddly_lamp.Auth.Tokens.{AuthService}
use cuddly_lamp.Auth.Session.{
  refresh_tokens, validate_token, revoke_access_token, revoke_refresh_token_family,
}
use cuddly_lamp.Auth.Login.{login_with_email, select_organization}
use cuddly_lamp.Auth.Registration.{register_with_email}
use cuddly_lamp.Auth.Keeps.{TokenInvariant, HoldsIn}
use cuddly_lamp.Auth.Keeps.Calls.{Keeps-refresh_tokens}
use cuddly_lamp.Auth.Keeps.Handlers.{
  Keeps-validate_token, Keeps-revoke_access_token, Keeps-revoke_refresh_token_family,
  Keeps-login_with_email, Keeps-select_organization, Keeps-register_with_email,
}

pub data Request : Type 0 where
  login : Text → Text → Text → Request
  select : Text → Text → Request
  register : Text → Text → Text → Text → Text → Text → Request
  refresh_pair : Text → Request
  validate : Text → Request
  revoke : Text → Request
  logout : Text → Request
  wait : ℕ → Request

module _ (env : Env) (s : AuthService) where
  -- What a request leaves behind, whatever its reply.
  unfoldable pub serve : Request → World → World
  serve (login email password slug) w = (login_with_email env s email password slug w).1
  serve (select ticket org_id) w = (select_organization env s ticket org_id w).1
  serve (register email full_name password name slug token) w =
      (register_with_email env s email full_name password name slug token w).1
  serve (refresh_pair raw) w = (refresh_tokens env s raw w).1
  serve (validate token) w = (validate_token env s token w).1
  serve (revoke token) w = (revoke_access_token env s token w).1
  serve (logout raw) w = (revoke_refresh_token_family env s raw w).1
  serve (wait n) w = record w { clock = w.clock + n }

  unfoldable pub serve_all : List Request → World → World
  serve_all [] w = w
  serve_all (r ∷ rest) w = serve_all rest (serve r w)

module _ {env : Env} {s : AuthService} (inv : TokenInvariant env s) where
  serve-Keeps : (r : Request) (w : World) → HoldsIn inv w → HoldsIn inv (serve env s r w)
  unfolding serve
  serve-Keeps (login email password slug) w h =
      (Keeps-login_with_email inv email password slug).at w h
  serve-Keeps (select ticket org_id) w h = (Keeps-select_organization inv ticket org_id).at w h
  serve-Keeps (register email full_name password name slug token) w h =
      (Keeps-register_with_email inv email full_name password name slug token).at w h
  serve-Keeps (refresh_pair raw) w h = (Keeps-refresh_tokens inv raw).at w h
  serve-Keeps (validate token) w h = (Keeps-validate_token inv token).at w h
  serve-Keeps (revoke token) w h = (Keeps-revoke_access_token inv token).at w h
  serve-Keeps (logout raw) w h = (Keeps-revoke_refresh_token_family inv raw).at w h
  serve-Keeps (wait n) w h = h

  pub serve_all-Keeps :
      (rs : List Request) (w : World) → HoldsIn inv w → HoldsIn inv (serve_all env s rs w)
  unfolding serve_all
  serve_all-Keeps [] w h = h
  serve_all-Keeps (r ∷ rs) w h = serve_all-Keeps rs (serve env s r w) (serve-Keeps r w h)
