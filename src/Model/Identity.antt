-- ===== src/Model/Identity.antt =====
-- internal/models/user.go, organization.go, organization_invite.go and the tokens of auth.go. Columns
-- that no modelled code reads (avatar, description, created_at, updated_at) are left out.
use cuddly_lamp.Prelude.{
  ℕ, Bool, true, false, not, ◌&&◌, ◌||◌, Option, leb, ltb, ◌==◌, is_some, if◌then◌else◌,
}
use cuddly_lamp.Text.{Text, Unicode, text, text_eq, is_empty, trim_space, equal_fold}

-- `UserRole` is a string in the source: `other` holds the strings that name no role.
pub data UserRole : Type 0 where
  admin maintainer developer viewer : UserRole
  other : Text → UserRole

unfoldable pub role_eq : UserRole → UserRole → Bool
role_eq admin admin = true
role_eq maintainer maintainer = true
role_eq developer developer = true
role_eq viewer viewer = true
role_eq (other s) (other t) = text_eq s t
role_eq _ _ = false

-- `roleHierarchy[role]`: a missing key is 0.
unfoldable pub role_level : UserRole → ℕ
role_level admin = 4
role_level maintainer = 3
role_level developer = 2
role_level viewer = 1
role_level (other _) = 0

unfoldable pub has_permission : UserRole → UserRole → Bool
unfolding role_level
has_permission user_role required_role = leb (role_level required_role) (role_level user_role)

pub record User : Type 0 where
  pub id : Text
  pub email : Text
  pub full_name : Text
  pub role : UserRole
  pub password_hash : Text
  pub is_active : Bool

abbrev is_blank_role : UserRole → Bool
is_blank_role (other s) = is_empty s
is_blank_role _ = false

unfoldable pub user_is_valid : User → Bool
user_is_valid u = not (is_empty u.email) && not (is_empty u.full_name) && not (is_blank_role u.role)

pub record Organization : Type 0 where
  pub id : Text
  pub name : Text
  pub slug : Text
  pub is_active : Bool

unfoldable pub organization_is_valid : Organization → Bool
organization_is_valid o = not (is_empty o.name) && not (is_empty o.slug)

-- The columns of `OrganizationConfig` that have defaults.
pub record OrganizationConfig : Type 0 where
  pub organization_id : Text
  pub anthropic_tokens_per_hour : ℕ
  pub output_language : Text

unfoldable pub apply_defaults : OrganizationConfig → OrganizationConfig
apply_defaults c = record c {
  anthropic_tokens_per_hour =
      if c.anthropic_tokens_per_hour == 0 then 20000 else c.anthropic_tokens_per_hour;
  output_language = if is_empty c.output_language then text "en" else c.output_language;
}

pub record OrganizationMember : Type 0 where
  pub organization_id : Text
  pub user_id : Text
  pub role : UserRole
  pub is_active : Bool

pub record OrganizationInvite : Type 0 where
  pub id : Text
  pub organization_id : Text
  pub email : Text
  pub role : UserRole
  pub token_hash : Text
  pub onboarding_flow_id : Option Text
  pub created_by_user_id : Option Text
  pub accepted_at : Option ℕ
  pub accepted_by_user_id : Option Text
  pub revoked_at : Option ℕ
  pub expires_at : ℕ

-- `a.After(b)` is `ltb b a`.
unfoldable pub is_redeemable : OrganizationInvite → ℕ → Bool
is_redeemable i now =
    if is_some i.accepted_at || is_some i.revoked_at then false else ltb now i.expires_at

unfoldable pub matches_email : Unicode → OrganizationInvite → Text → Bool
matches_email u i email = equal_fold u (trim_space i.email) (trim_space email)

pub data InviteStatus : Type 0 where
  pending accepted revoked expired : InviteStatus

unfoldable pub invite_status : OrganizationInvite → ℕ → InviteStatus
invite_status i now =
    if is_some i.accepted_at
    then accepted
    else if is_some i.revoked_at
    then revoked
    else if not (ltb now i.expires_at)
    then expired
    else pending

pub data TokenType : Type 0 where
  access refresh : TokenType

-- The reasons that the source passes as strings.
pub data RevokeReason : Type 0 where
  rotated reuse_detected revoked_by_user logged_out : RevokeReason

pub record Token : Type 0 where
  pub user_id : Text
  pub organization_id : Text
  pub jti : Text
  pub token_hash : Text
  pub type : TokenType
  pub family_id : Option Text
  pub parent_jti : Option Text
  pub is_revoked : Bool
  pub created_at : ℕ
  pub expires_at : ℕ
  pub revoked_at : Option ℕ
  pub last_used_at : Option ℕ
  pub revoke_reason : Option RevokeReason

pub record TokenClaims : Type 0 where
  pub user_id : Text
  pub email : Text
  pub full_name : Text
  pub role : UserRole
  pub organization_id : Text
  pub organization_slug : Text
  pub organization_role : UserRole
  pub jti : Text
  pub issuer : Text
  pub audience : Text
  pub expires_at : ℕ
  pub issued_at : ℕ
  pub not_before : ℕ

pub record OrganizationInfo : Type 0 where
  pub id : Text
  pub name : Text
  pub slug : Text
  pub role : UserRole

pub record UserInfo : Type 0 where
  pub id : Text
  pub email : Text
  pub full_name : Text
  pub role : UserRole
  pub organization : OrganizationInfo

pub record TokenResponse : Type 0 where
  pub access_token : Text
  pub expires_in : ℕ
  pub refresh_token : Text
  pub refresh_expires_in : ℕ
  pub user : UserInfo
  pub organization : OrganizationInfo
