-- ===== src/Auth/Session.antt =====
-- `RefreshTokens`, `ValidateToken`, `RevokeToken` and `RevokeRefreshTokenFamily` of auth_service.go.
use cuddly_lamp.Prelude.{ℕ, Bool, true, false, not, ◌||◌, Option, none, some, ltb, if◌then◌else◌}
use cuddly_lamp.Text.{Text}
use cuddly_lamp.Model.Identity.{
  Token, TokenType, access, refresh, TokenClaims, TokenResponse, rotated, reuse_detected,
  revoked_by_user, logged_out,
}
use cuddly_lamp.Env.{Env}
use cuddly_lamp.Storage.Action.{
  Action, pure, raise, ◌>>=◌, ◌>>◌, or_error, or_none, ignore, check, require, now, draw,
  invalid_token, token_expired, token_revoked, token_type_not_allowed, token_not_active,
  user_missing, organization_missing, membership_missing,
}
use cuddly_lamp.Storage.Accounts.{get_user, get_organization}
use cuddly_lamp.Storage.Members.{get_organization_member}
use cuddly_lamp.Storage.Tokens.{
  get_token_by_jti, get_token_by_hash, revoke_token_family, revoke_token, update_token_last_used,
}
use cuddly_lamp.Auth.Tokens.{AuthService, hash_token, generate_token_pair_with_family}

abbrev pub is_refresh : TokenType → Bool
is_refresh refresh = true
is_refresh access = false

-- `now.After(t.ExpiresAt)`
abbrev pub is_expired : Token → ℕ → Bool
is_expired t time = ltb t.expires_at time

module _ (env : Env) (s : AuthService) where
  -- A revoked token was presented again: its whole family is revoked, as far as that call succeeds.
  on_reuse : Option Text → Action (Unit {0})
  on_reuse none = pure tt
  on_reuse (some family) = ignore (revoke_token_family env family reuse_detected)

  family_or_new : Option Text → Action Text
  family_or_new none = draw env.uuid
  family_or_new (some family) = pure family

  -- From the rotation to the new pair.
  unfoldable pub rotate : Token → Action TokenResponse
  unfolding family_or_new
  rotate t = do
    revoke_token env t.jti rotated
    found ← or_error (get_user env t.user_id) user_missing
    user ← require found user_missing
    family ← family_or_new t.family_id
    found_org ← or_error (get_organization env t.organization_id) organization_missing
    org ← require found_org organization_missing
    found_member ← or_error (get_organization_member env org.id user.id) membership_missing
    member ← require found_member membership_missing
    generate_token_pair_with_family env s user org member.role family (some t.jti)

  unfoldable pub refresh_tokens : Text → Action TokenResponse
  unfolding on_reuse hash_token
  refresh_tokens raw = do
    found ← get_token_by_hash env (hash_token env raw)
    t ← require found invalid_token
    check (is_refresh t.type) invalid_token
    if t.is_revoked
        then (do on_reuse t.family_id; raise token_revoked)
        else do time ← now; check (not (is_expired t time)) token_expired; rotate t

  -- The checks on a stored record; a token without a record passes.
  unfoldable pub check_record : Text → Option Token → Action (Unit {0})
  check_record jti none = pure tt
  check_record jti (some t) = do
    check (not (is_refresh t.type)) token_type_not_allowed
    time ← now
    check (not (t.is_revoked || is_expired t time)) token_not_active
    ignore (update_token_last_used env jti)

  unfoldable pub validate_token : Text → Action TokenClaims
  unfolding check_record
  validate_token token = do
    time ← now
    claims ← require (env.parse_claims s.jwt_secret time token) invalid_token
    found ← get_token_by_jti env claims.jti
    check_record claims.jti found
    pure claims

  unfoldable pub revoke_access_token : Text → Action (Unit {0})
  revoke_access_token token = do
    time ← now
    claims ← require (env.parse_claims s.jwt_secret time token) invalid_token
    revoke_token env claims.jti revoked_by_user

  unfoldable pub revoke_by_family : Text → Option Text → Action (Unit {0})
  revoke_by_family jti none = revoke_token env jti logged_out
  revoke_by_family jti (some family) = revoke_token_family env family logged_out

  -- `if err != nil || tokenRecord == nil { return nil }`
  unfoldable pub revoke_family_of : Option Token → Action (Unit {0})
  unfolding revoke_by_family
  revoke_family_of none = pure tt
  revoke_family_of (some t) = revoke_by_family t.jti t.family_id

  unfoldable pub revoke_refresh_token_family : Text → Action (Unit {0})
  unfolding revoke_family_of hash_token
  revoke_refresh_token_family raw = do
    found ← or_none (get_token_by_hash env (hash_token env raw))
    revoke_family_of found
