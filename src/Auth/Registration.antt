-- ===== src/Auth/Registration.antt =====
-- `RegisterWithEmail`, the admission to an organization and `admitOAuth` of auth_service.go.
pub mod Members
pub mod Admission
pub mod Redemption
pub mod Password
use cuddly_lamp.Prelude.{true, not, Option, none, some, leb, is_some, if◌then◌else◌}
use cuddly_lamp.Text.{Text, text, text_eq, is_empty, trim_space}
use cuddly_lamp.Model.Identity.{
  UserRole, admin, developer, User, Organization, OrganizationMember, OrganizationInvite,
  TokenResponse,
}
use cuddly_lamp.Env.{Env}
use cuddly_lamp.Storage.Action.{
  Action, Error, pure, ◌>>=◌, ◌>>◌, or_error, or_none, map_error, ignore, check, require, draw,
  weak_password, slug_required, requires_invite, invite_rejected,
}
use cuddly_lamp.Storage.Accounts.{
  get_user_by_email, create_user, get_organization, get_organization_by_slug, create_organization,
  upsert_organization_config, revoke_organization_invite, accept_organization_invite,
}
use cuddly_lamp.Storage.Members.{
  get_organization_member, create_organization_member, count_organization_members,
}
use cuddly_lamp.Membership.{resolve_invite}
use cuddly_lamp.Onboarding.Assign.{assign_from_invite}
use cuddly_lamp.Auth.Password.{hash_password, validate_password_strength}
use cuddly_lamp.Auth.Slug.{normalize_or_derive_slug}
use cuddly_lamp.Auth.Tokens.{AuthService, generate_token_pair}

pub record OrganizationAdmission : Type 0 where
  pub org : Organization
  pub role : UserRole
  pub invite : Option OrganizationInvite

-- `errors.Is(err, ErrInviteNotFound)` becomes `ErrInviteRejected`.
abbrev pub hide_not_found : Error → Error
hide_not_found Error.invite_not_found = invite_rejected
hide_not_found e = e

module _ (env : Env) where
  unfoldable pub new_organization : Text → Text → Action Organization
  new_organization name slug = do
    id ← draw env.uuid
    let org : Organization = record { id = id; name = name; slug = slug; is_active = true }
    create_organization env org
    ignore (
        upsert_organization_config env (record {
          organization_id = id;
          anthropic_tokens_per_hour = 0;
          output_language = text "";
        }))
    pure org

  unfoldable pub existing_or_new : Text → Text → Option Organization → Action Organization
  unfolding new_organization
  existing_or_new name slug (some org) = pure org
  existing_or_new name slug none = new_organization name slug

  unfoldable pub get_or_create_organization : Text → Text → Action Organization
  unfolding existing_or_new
  get_or_create_organization name slug = do
    normalized ← require (normalize_or_derive_slug env.unicode name slug) slug_required
    found ← get_organization_by_slug env normalized
    let org_name = trim_space name
    existing_or_new (if is_empty org_name then normalized else org_name) normalized found

  unfoldable pub admission_by_invite : Text → Text → Action OrganizationAdmission
  admission_by_invite email invite_token = do
    invite ← map_error hide_not_found (resolve_invite env invite_token email)
    found ← get_organization env invite.organization_id
    org ← require found invite_rejected
    pure (record { org = org; role = invite.role; invite = some invite })

  unfoldable pub admission_by_creation : Text → Text → Action OrganizationAdmission
  admission_by_creation name slug = do
    normalized ← require (normalize_or_derive_slug env.unicode name slug) slug_required
    existing ← get_organization_by_slug env normalized
    check (not (is_some existing)) requires_invite
    org ← get_or_create_organization name slug
    pure (record { org = org; role = admin; invite = none })

  unfoldable pub resolve_organization_for_registration :
      Text → Text → Text → Text → Action OrganizationAdmission
  unfolding admission_by_invite admission_by_creation
  resolve_organization_for_registration name slug email invite_token =
      if is_empty (trim_space invite_token)
      then admission_by_creation name slug
      else admission_by_invite email invite_token

  abbrev pub new_member : Text → Text → UserRole → OrganizationMember
  new_member org_id user_id role = record {
    organization_id = org_id;
    user_id = user_id;
    role = role;
    is_active = true;
  }

  unfoldable pub first_member : Text → Text → Option OrganizationMember → Action OrganizationMember
  first_member org_id user_id (some existing) = pure existing
  first_member org_id user_id none = do
    count ← count_organization_members env org_id
    check (leb count 0) requires_invite
    let member = new_member org_id user_id admin
    create_organization_member env member
    pure member

  unfoldable pub ensure_organization_member : Text → Text → Action OrganizationMember
  unfolding first_member
  ensure_organization_member org_id user_id = do
    existing ← get_organization_member env org_id user_id
    first_member org_id user_id existing

  unfoldable pub redeem :
      Organization
      → UserRole
      → OrganizationInvite
      → Text
      → Option OrganizationMember
      → Action OrganizationMember
  redeem org role invite user_id (some existing) = do
    ignore (revoke_organization_invite env invite.id)
    pure existing
  redeem org role invite user_id none = do
    let member = new_member org.id user_id role
    or_error (accept_organization_invite env invite.id member) invite_rejected
    ignore (assign_from_invite env org.id user_id invite)
    pure member

  unfoldable pub admit_with :
      Organization → UserRole → Option OrganizationInvite → Text → Action OrganizationMember
  unfolding redeem
  admit_with org role none user_id = ensure_organization_member org.id user_id
  admit_with org role (some invite) user_id = do
    existing ← get_organization_member env org.id user_id
    redeem org role invite user_id existing

  unfoldable pub admit : OrganizationAdmission → Text → Action OrganizationMember
  unfolding admit_with
  admit adm user_id = admit_with adm.org adm.role adm.invite user_id

  unfoldable pub admit_stranger : Organization → User → Text → Action OrganizationMember
  admit_stranger org user invite_token =
      if is_empty (trim_space invite_token) then ensure_organization_member org.id user.id else do
        invite ← or_error (resolve_invite env invite_token user.email) invite_rejected
        check (text_eq invite.organization_id org.id) invite_rejected
        admit (record { org = org; role = invite.role; invite = some invite }) user.id

  unfoldable pub member_or_admit :
      Organization → User → Text → Option OrganizationMember → Action OrganizationMember
  unfolding admit_stranger
  member_or_admit org user invite_token (some member) = pure member
  member_or_admit org user invite_token none = admit_stranger org user invite_token

  unfoldable pub admit_oauth : Organization → User → Text → Action OrganizationMember
  unfolding member_or_admit
  admit_oauth org user invite_token = do
    existing ← get_organization_member env org.id user.id
    member_or_admit org user invite_token existing

module _ (env : Env) (s : AuthService) where
  unfoldable pub user_or_new : Text → Text → Text → Option User → Action User
  user_or_new email full_name password (some user) = pure user
  user_or_new email full_name password none = do
    id ← draw env.uuid
    let user : User = record {
      id = id;
      email = email;
      full_name = full_name;
      role = developer;
      password_hash = hash_password env password;
      is_active = true;
    }
    create_user env user
    pure user

  -- From the admission on.
  unfoldable pub enter : Text → Text → Text → OrganizationAdmission → Action TokenResponse
  enter email full_name password admission = do
    existing ← or_none (get_user_by_email env email)
    user ← user_or_new email full_name password existing
    member ← admit env admission user.id
    generate_token_pair env s user admission.org member.role

  unfoldable pub register_with_email :
      Text → Text → Text → Text → Text → Text → Action TokenResponse
  register_with_email email full_name password name slug invite_token = do
    check (not (is_some (validate_password_strength password))) weak_password
    admission ← resolve_organization_for_registration env name slug email invite_token
    enter email full_name password admission
