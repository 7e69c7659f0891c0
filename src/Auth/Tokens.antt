-- ===== src/Auth/Tokens.antt =====
-- `generateTokenPair` and what it calls in auth_service.go.
use cuddly_lamp.Prelude.{ℕ, ◌+◌, false, Option, none, some}
use cuddly_lamp.Text.{Text}
use cuddly_lamp.Model.Identity.{
  UserRole, User, Organization, Token, TokenType, access, refresh, TokenClaims, TokenResponse,
}
use cuddly_lamp.Env.{Env}
use cuddly_lamp.Storage.Action.{Action, pure, ◌>>=◌, ◌>>◌, now, draw}
use cuddly_lamp.Storage.Tokens.{create_token}

pub record AuthService : Type 0 where
  pub jwt_secret : Text
  pub jwt_issuer : Text
  pub jwt_audience : Text
  pub access_ttl : ℕ
  pub refresh_ttl : ℕ

-- `hashToken`
unfoldable pub hash_token : Env → Text → Text
hash_token env token = env.sha256 token

abbrev pub access_claims : AuthService → User → Organization → UserRole → Text → ℕ → TokenClaims
access_claims s user org role jti time = record {
  user_id = user.id;
  email = user.email;
  full_name = user.full_name;
  role = role;
  organization_id = org.id;
  organization_slug = org.slug;
  organization_role = role;
  jti = jti;
  issuer = s.jwt_issuer;
  audience = s.jwt_audience;
  expires_at = time + s.access_ttl;
  issued_at = time;
  not_before = time;
}

-- The row of a new token.
abbrev pub new_token : Text → Text → Text → Text → TokenType → Text → Option Text → ℕ → ℕ → Token
new_token user_id org_id jti hash type family parent time ttl = record {
  user_id = user_id;
  organization_id = org_id;
  jti = jti;
  token_hash = hash;
  type = type;
  family_id = some family;
  parent_jti = parent;
  is_revoked = false;
  created_at = time;
  expires_at = time + ttl;
  revoked_at = none;
  last_used_at = none;
  revoke_reason = none;
}

module _ (env : Env) (s : AuthService) where
  unfoldable pub generate_access_token : User → Organization → UserRole → Text → Action Text
  unfolding hash_token
  generate_access_token user org role family = do
    jti ← draw env.uuid
    time ← now
    let signed = env.sign_claims s.jwt_secret (access_claims s user org role jti time)
    create_token env
        (new_token user.id org.id jti (hash_token env signed) access family none time s.access_ttl)
    pure signed

  unfoldable pub generate_refresh_token : Text → Text → Text → Option Text → Action Text
  unfolding hash_token
  generate_refresh_token user_id org_id family parent = do
    raw ← draw env.random_token
    time ← now
    jti ← draw env.uuid
    create_token env
        (new_token user_id org_id jti (hash_token env raw) refresh family parent time s.refresh_ttl)
    pure raw

  abbrev pub token_response : User → Organization → UserRole → Text → Text → TokenResponse
  token_response user org role signed raw = record {
    access_token = signed;
    expires_in = s.access_ttl;
    refresh_token = raw;
    refresh_expires_in = s.refresh_ttl;
    user = record {
      id = user.id;
      email = user.email;
      full_name = user.full_name;
      role = role;
      organization = record { id = org.id; name = org.name; slug = org.slug; role = role };
    };
    organization = record { id = org.id; name = org.name; slug = org.slug; role = role };
  }

  unfoldable pub generate_token_pair_with_family :
      User → Organization → UserRole → Text → Option Text → Action TokenResponse
  unfolding generate_access_token generate_refresh_token
  generate_token_pair_with_family user org role family parent = do
    signed ← generate_access_token user org role family
    raw ← generate_refresh_token user.id org.id family parent
    pure (token_response user org role signed raw)

  unfoldable pub generate_token_pair : User → Organization → UserRole → Action TokenResponse
  generate_token_pair user org role = do
    family ← draw env.uuid
    generate_token_pair_with_family user org role family none
