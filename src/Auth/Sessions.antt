-- ===== src/Auth/Sessions.antt =====
-- What the auth service promises about sessions, over every later sequence of requests.
use cuddly_lamp.Prelude.{
  ℕ, ◌≤◌, ◌≡◌, ◌≢◌, true, Option, some, List, arith, find_first, inl, inr, Option-cases,
}
use cuddly_lamp.Text.{Text, text_eq}
use cuddly_lamp.Model.Identity.{Token, TokenClaims, TokenResponse, rotated}
use cuddly_lamp.Env.{Env}
use cuddly_lamp.Storage.Action.{World, ok}
use cuddly_lamp.Storage.Accounts.{get_user, get_organization}
use cuddly_lamp.Storage.Members.{get_organization_member}
use cuddly_lamp.Storage.Tokens.{get_token_by_jti, get_token_by_hash, revoke_token}
use cuddly_lamp.Auth.Tokens.{AuthService}
use cuddly_lamp.Auth.Session.{rotate, refresh_tokens, validate_token}
use cuddly_lamp.Auth.Families.{live_refresh}
use cuddly_lamp.Auth.Invariants.{IsSingle, single}
use cuddly_lamp.Auth.Revoked.{
  by_jti, by_hash, is_revoked_in, revoked, revoked-found, revoked-pair_with_family,
}
use cuddly_lamp.Auth.Requests.{Request, serve_all, serve_all-Keeps}

-- The record that `GetTokenByHash` and `GetTokenByJTI` read.
abbrev pub by_raw : Env → Text → World → Option Token
by_raw env raw w = find_first (λ t. text_eq t.token_hash (env.sha256 raw)) w.db.tokens

abbrev pub by_id : Text → World → Option Token
by_id jti w = find_first (λ t. text_eq t.jti jti) w.db.tokens

-- If `uuid.New()` never repeats itself, and in a world each family has one live refresh token at
-- most and none carries an id that is yet to be drawn, then after any requests, whatever calls of
-- the repository fail, each family has one live refresh token at most.
pub one_live_refresh :
    (env : Env) (s : AuthService)
    (uuids_differ : (m n : ℕ) → text_eq (env.uuid m) (env.uuid n) ≡ true → m ≡ n) (w : World)
    (rs : List Request) (family : Text)
    → IsSingle env s uuids_differ w.db.tokens w.draws
    → live_refresh family (serve_all env s rs w).db.tokens ≤ 1
one_live_refresh env s differ w rs family h =
    (serve_all-Keeps (single env s differ) rs w h).at_most_one family

module _ (env : Env) (s : AuthService) where
  pub refresh-needs_live :
      (raw : Text) (w : World)
      → is_revoked_in by_hash (env.sha256 raw) w.db.tokens ≡ true
      → (r : TokenResponse) → (refresh_tokens env s raw w).0 ≢ ok r
  unfolding refresh_tokens get_token_by_hash
  refresh-needs_live raw w h r = ground arith

  pub validate-needs_live :
      (token : Text) (claims : TokenClaims) (w : World)
      → env.parse_claims s.jwt_secret w.clock token ≡ some claims
      → is_revoked_in by_jti claims.jti w.db.tokens ≡ true
      → (c : TokenClaims) → (validate_token env s token w).0 ≢ ok c
  unfolding validate_token get_token_by_jti
  validate-needs_live token claims w p h c = ground arith

  rotate-revokes :
      (hash : Text) (t : Token) (w : World) (r : TokenResponse)
      → find_first (λ x. text_eq x.token_hash hash) w.db.tokens ≡ some t
      → (rotate env s t w).0 ≡ ok r
      → is_revoked_in by_hash hash (rotate env s t w).1.db.tokens ≡ true
  unfolding rotate revoke_token get_user get_organization get_organization_member
  rotate-revokes hash t w r e h = grind (
    arith,
    revoked-pair_with_family env s by_hash hash,
    revoked-found hash rotated w.clock w.db.tokens t e,
  )

  -- A successful refresh leaves the presented token revoked.
  refresh-revokes :
      (raw : Text) (w : World) (r : TokenResponse)
      → (refresh_tokens env s raw w).0 ≡ ok r
      → is_revoked_in by_hash (env.sha256 raw) (refresh_tokens env s raw w).1.db.tokens ≡ true
  unfolding refresh_tokens get_token_by_hash
  refresh-revokes raw w r h =
      elim (Option-cases (find_first (λ x. text_eq x.token_hash (env.sha256 raw)) w.db.tokens)) [
        | inl gone ↦ ground arith
        | inr (t, e) ↦ grind (arith, rotate-revokes (env.sha256 raw) t)
      ]

  -- A refresh token is good for one refresh: after a successful one, and after any later requests,
  -- whatever calls of the repository fail, no refresh with the same token succeeds.
  pub no_double_refresh :
      (raw : Text) (w : World) (r r' : TokenResponse) (rs : List Request)
      → (refresh_tokens env s raw w).0 ≡ ok r
      → (refresh_tokens env s raw (serve_all env s rs (refresh_tokens env s raw w).1)).0 ≢ ok r'
  no_double_refresh raw w r r' rs h =
      refresh-needs_live raw (serve_all env s rs (refresh_tokens env s raw w).1)
        (serve_all-Keeps (revoked env s by_hash (env.sha256 raw)) rs (refresh_tokens env s raw w).1
          (refresh-revokes raw w r h))
        r'
