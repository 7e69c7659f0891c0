-- ===== src/Auth/Logout.antt =====
-- What ends a session for good: a logout, the reuse of a refresh token, and a revocation.
use cuddly_lamp.Prelude.{ℕ, suc, ◌≤◌, ◌≡◌, ◌≢◌, true, false, some, List, arith, count_if-found}
use cuddly_lamp.Text.{Text, text_eq}
use cuddly_lamp.Model.Identity.{
  Token, TokenClaims, TokenResponse, logged_out, reuse_detected, revoked_by_user,
}
use cuddly_lamp.Env.{Env}
use cuddly_lamp.Storage.Action.{World, ok, err, token_revoked}
use cuddly_lamp.Storage.Tokens.{in_family, get_token_by_hash, revoke_token, revoke_token_family}
use cuddly_lamp.Auth.Tokens.{AuthService}
use cuddly_lamp.Auth.Session.{
  is_refresh, refresh_tokens, validate_token, revoke_access_token, revoke_refresh_token_family,
}
use cuddly_lamp.Auth.Families.{is_live, live, live-revoke_own}
use cuddly_lamp.Auth.Invariants.{IsDead, dead}
use cuddly_lamp.Auth.Revoked.{by_jti, is_revoked_in, revoked, revoked-named}
use cuddly_lamp.Auth.Rotation.{draws-refresh_tokens}
use cuddly_lamp.Auth.Requests.{Request, serve_all, serve_all-Keeps}
use cuddly_lamp.Auth.Sessions.{by_raw, by_id, refresh-needs_live, validate-needs_live}

-- The world after a logout, or a revocation, and the later requests.
abbrev pub after_logout : Env → AuthService → Text → List Request → World → World
after_logout env s raw rs w = serve_all env s rs (revoke_refresh_token_family env s raw w).1

abbrev pub after_revoke : Env → AuthService → Text → List Request → World → World
after_revoke env s token rs w = serve_all env s rs (revoke_access_token env s token w).1

module _ (env : Env) (s : AuthService) (f : Text) where
  refresh-needs_family :
      (raw : Text) (w : World) (t : Token)
      → live f w.db.tokens ≡ 0
      → by_raw env raw w ≡ some t
      → in_family f t ≡ true
      → (r : TokenResponse) → (refresh_tokens env s raw w).0 ≢ ok r
  refresh-needs_family raw w t none_live e own r =
      refresh-needs_live env s raw w
        (ground (
          arith,
          count_if-found (λ x. text_eq x.token_hash (env.sha256 raw)) (is_live f) w.db.tokens t e,
        ))
        r

  validate-needs_family :
      (token : Text) (claims : TokenClaims) (w : World) (t : Token)
      → live f w.db.tokens ≡ 0
      → env.parse_claims s.jwt_secret w.clock token ≡ some claims
      → by_id claims.jti w ≡ some t
      → in_family f t ≡ true
      → (c : TokenClaims) → (validate_token env s token w).0 ≢ ok c
  validate-needs_family token claims w t none_live p e own c =
      validate-needs_live env s token claims w p
        (ground (arith, count_if-found (λ x. text_eq x.jti claims.jti) (is_live f) w.db.tokens t e))
        c

  logout-IsDead :
      (raw : Text) (w : World) (t : Token)
      → by_raw env raw w ≡ some t
      → t.family_id ≡ some f
      → env.faults w.calls ≡ false
      → env.faults (suc w.calls) ≡ false
      → ((k : ℕ) → w.draws ≤ k → text_eq (env.uuid k) f ≡ false)
      → (let w' = (revoke_refresh_token_family env s raw w).1 in
          IsDead env s f w'.db.tokens w'.draws)
  unfolding revoke_refresh_token_family get_token_by_hash revoke_token_family
  logout-IsDead raw w t e own q c old = record {
    none_live = ground (arith, live-revoke_own f logged_out w.clock w.db.tokens);
    is_old = λ k le. old k (ground arith);
  }

  reuse-IsDead :
      (raw : Text) (w : World) (t : Token)
      → by_raw env raw w ≡ some t
      → is_refresh t.type ≡ true
      → t.is_revoked ≡ true
      → t.family_id ≡ some f
      → env.faults w.calls ≡ false
      → env.faults (suc w.calls) ≡ false
      → ((k : ℕ) → w.draws ≤ k → text_eq (env.uuid k) f ≡ false)
      → (let w' = (refresh_tokens env s raw w).1 in IsDead env s f w'.db.tokens w'.draws)
  unfolding refresh_tokens get_token_by_hash revoke_token_family
  reuse-IsDead raw w t e r v own q c old = record {
    none_live = ground (arith, live-revoke_own f reuse_detected w.clock w.db.tokens);
    is_old = λ k le. old k (omega (arith, draws-refresh_tokens env s raw w));
  }

  logout-ends :
      (raw : Text) (w : World) (t : Token)
      → by_raw env raw w ≡ some t
      → t.family_id ≡ some f
      → env.faults w.calls ≡ false
      → env.faults (suc w.calls) ≡ false
      → ((k : ℕ) → w.draws ≤ k → text_eq (env.uuid k) f ≡ false)
      → (rs : List Request) → live f (after_logout env s raw rs w).db.tokens ≡ 0
  logout-ends raw w t e own q c old rs =
      (serve_all-Keeps (dead env s f) rs (revoke_refresh_token_family env s raw w).1
        (logout-IsDead raw w t e own q c old)).none_live

  -- After `RevokeRefreshTokenFamily` on a token of a family that is not yet to be drawn, if neither
  -- of its calls fails, and after any later requests, whatever their calls do, no refresh succeeds
  -- with a token whose record is in that family.
  pub logout_ends_refresh :
      (raw : Text) (w : World) (t : Token)
      → by_raw env raw w ≡ some t
      → t.family_id ≡ some f
      → env.faults w.calls ≡ false
      → env.faults (suc w.calls) ≡ false
      → ((k : ℕ) → w.draws ≤ k → text_eq (env.uuid k) f ≡ false)
      → (rs : List Request) (token : Text) (u : Token)
      → by_raw env token (after_logout env s raw rs w) ≡ some u
      → in_family f u ≡ true
      → (r : TokenResponse) → (refresh_tokens env s token (after_logout env s raw rs w)).0 ≢ ok r
  logout_ends_refresh raw w t e own q c old rs token u found mine =
      refresh-needs_family token (after_logout env s raw rs w) u
        (logout-ends raw w t e own q c old rs) found mine

  -- After `RevokeRefreshTokenFamily` on a token of a family that is not yet to be drawn, if neither
  -- of its calls fails, and after any later requests, whatever their calls do, `ValidateToken` accepts
  -- no access token whose record is in that family.
  pub logout_ends_access :
      (raw : Text) (w : World) (t : Token)
      → by_raw env raw w ≡ some t
      → t.family_id ≡ some f
      → env.faults w.calls ≡ false
      → env.faults (suc w.calls) ≡ false
      → ((k : ℕ) → w.draws ≤ k → text_eq (env.uuid k) f ≡ false)
      → (rs : List Request) (token : Text) (claims : TokenClaims) (u : Token)
      → env.parse_claims s.jwt_secret (after_logout env s raw rs w).clock token ≡ some claims
      → by_id claims.jti (after_logout env s raw rs w) ≡ some u
      → in_family f u ≡ true
      → (c : TokenClaims) → (validate_token env s token (after_logout env s raw rs w)).0 ≢ ok c
  logout_ends_access raw w t e own q c old rs token claims u p found mine =
      validate-needs_family token claims (after_logout env s raw rs w) u
        (logout-ends raw w t e own q c old rs) p found mine

  -- A refresh with a revoked refresh token of a family that is not yet to be drawn is refused as
  -- revoked, and if neither of its calls fails, then after any later requests, whatever their calls
  -- do, no token of the family is live.
  pub reuse_ends_family :
      (raw : Text) (w : World) (t : Token)
      → by_raw env raw w ≡ some t
      → is_refresh t.type ≡ true
      → t.is_revoked ≡ true
      → t.family_id ≡ some f
      → env.faults w.calls ≡ false
      → env.faults (suc w.calls) ≡ false
      → ((k : ℕ) → w.draws ≤ k → text_eq (env.uuid k) f ≡ false)
      → (rs : List Request)
      → (refresh_tokens env s raw w).0 ≡ err token_revoked
        × live f (serve_all env s rs (refresh_tokens env s raw w).1).db.tokens ≡ 0
  unfolding refresh_tokens get_token_by_hash
  reuse_ends_family raw w t e r v own q c old rs = (
    ground arith,
    (serve_all-Keeps (dead env s f) rs (refresh_tokens env s raw w).1
        (reuse-IsDead raw w t e r v own q c old)).none_live,
  )

module _ (env : Env) (s : AuthService) where
  revoke-named :
      (token : Text) (claims : TokenClaims) (w : World) (t : Token)
      → env.parse_claims s.jwt_secret w.clock token ≡ some claims
      → by_id claims.jti w ≡ some t
      → (revoke_access_token env s token w).0 ≡ ok tt
      → is_revoked_in by_jti claims.jti (revoke_access_token env s token w).1.db.tokens ≡ true
  unfolding revoke_access_token revoke_token
  revoke-named token claims w t p e h =
      ground (arith, revoked-named claims.jti revoked_by_user w.clock w.db.tokens t e)

  -- After `RevokeToken` succeeded on an access token that has a record, and after any later
  -- requests, whatever calls of the repository fail, `ValidateToken` accepts no token with that jti.
  pub revoke_final :
      (token : Text) (claims : TokenClaims) (w : World) (t : Token)
      → env.parse_claims s.jwt_secret w.clock token ≡ some claims
      → by_id claims.jti w ≡ some t
      → (revoke_access_token env s token w).0 ≡ ok tt
      → (rs : List Request) (other : Text) (its : TokenClaims)
      → env.parse_claims s.jwt_secret (after_revoke env s token rs w).clock other ≡ some its
      → its.jti ≡ claims.jti
      → (c : TokenClaims) → (validate_token env s other (after_revoke env s token rs w)).0 ≢ ok c
  revoke_final token claims w t p e h rs other its p' same c =
      validate-needs_live env s other its (after_revoke env s token rs w) p'
        (rw same (
          serve_all-Keeps (revoked env s by_jti claims.jti) rs (revoke_access_token env s token w).1
            (revoke-named token claims w t p e h)))
        c
