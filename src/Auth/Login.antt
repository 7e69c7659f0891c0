-- ===== src/Auth/Login.antt =====
-- `LoginWithEmail`, `SelectOrganization` and what they call in auth_service.go.
pub mod Checks
use cuddly_lamp.Prelude.{
  ◌+◌, ◌*◌, Bool, true, false, not, ◌&&◌, Option, List, [], ◌∷◌, map, any, if◌then◌else◌,
}
use cuddly_lamp.Text.{Text, text, text_eq, is_empty}
use cuddly_lamp.Model.Identity.{
  User, Organization, OrganizationMember, OrganizationInfo, TokenResponse,
}
use cuddly_lamp.Env.{Env, TicketClaims}
use cuddly_lamp.Storage.Action.{
  Action, pure, raise, ◌>>=◌, ◌>>◌, or_error, check, require, now, draw, invalid_credentials,
  account_inactive, invalid_user, invalid_organization, not_a_member, no_organization,
  organization_unavailable, invalid_ticket,
}
use cuddly_lamp.Storage.Accounts.{
  get_user, get_user_by_email, get_organization, get_organization_by_slug,
}
use cuddly_lamp.Storage.Members.{get_organization_member, list_organization_members_for_user}
use cuddly_lamp.Auth.Password.{verify_password_hash}
use cuddly_lamp.Auth.Slug.{normalize_slug}
use cuddly_lamp.Auth.Tokens.{AuthService, generate_token_pair}

pub record OrganizationSelectionResponse : Type 0 where
  pub login_ticket : Text
  pub organizations : List OrganizationInfo

-- The organization that a login lands in, or the choice that the user has.
pub data LoginOrganization : Type 0 where
  single : Organization → OrganizationMember → LoginOrganization
  choice : OrganizationSelectionResponse → LoginOrganization

pub data LoginResult : Type 0 where
  tokens : TokenResponse → LoginResult
  selection : OrganizationSelectionResponse → LoginResult

abbrev pub ticket_purpose : Text
ticket_purpose = text "organization_selection"

abbrev organization_info : OrganizationMember × Organization → OrganizationInfo
organization_info (m, o) = record { id = o.id; name = o.name; slug = o.slug; role = m.role }

-- `member.Organization.ID == "" || !member.Organization.IsActive` is skipped.
usable : List (OrganizationMember × Organization) → List (OrganizationMember × Organization)
usable [] = []
usable ((m, o) ∷ rest) =
    let others = usable rest in
    if is_empty o.id then others else if o.is_active then (m, o) ∷ others else others

abbrev nil_list {ℓ} : {A : Type ℓ} → List A → Bool
nil_list [] = true
nil_list (_ ∷ _) = false

module _ (env : Env) (s : AuthService) where
  unfoldable pub generate_login_selection_ticket : Text → List Text → Action Text
  generate_login_selection_ticket user_id org_ids = do
    time ← now
    id ← draw env.uuid
    pure (
        env.sign_ticket s.jwt_secret (record {
          user_id = user_id;
          organization_ids = org_ids;
          purpose = ticket_purpose;
          issuer = s.jwt_issuer;
          audience = s.jwt_audience;
          expires_at = time + 5 * 60 * 1000000000;
          issued_at = time;
          not_before = time;
          id = id;
        }))

  unfoldable pub verify_login_selection_ticket : Text → Action TicketClaims
  verify_login_selection_ticket ticket = do
    time ← now
    claims ← require (env.parse_ticket s.jwt_secret time ticket) invalid_ticket
    check
        (text_eq claims.purpose ticket_purpose
          && not (is_empty claims.user_id)
          && not (nil_list claims.organization_ids))
        invalid_ticket
    pure claims

  unfoldable pub build_selection :
      Text → List (OrganizationMember × Organization) → Action OrganizationSelectionResponse
  unfolding usable generate_login_selection_ticket
  build_selection user_id members = do
    check (not (nil_list (usable members))) no_organization
    ticket ← generate_login_selection_ticket user_id (map (λ m. m.1.id) (usable members))
    pure (record { login_ticket = ticket; organizations = map organization_info (usable members) })

  -- The cases of `len(members)`.
  unfoldable pub among_members :
      Text → List (OrganizationMember × Organization) → Action LoginOrganization
  unfolding build_selection
  among_members user_id [] = raise no_organization
  among_members user_id ((m, o) ∷ []) = do
    check (not (is_empty o.id) && o.is_active) invalid_organization
    pure (single o m)
  among_members user_id members = do
    response ← build_selection user_id members
    pure (choice response)

  -- `org == nil || !org.IsActive`
  unfoldable pub active_organization : Option Organization → Action Organization
  active_organization found = do
    org ← require found invalid_organization
    check org.is_active invalid_organization
    pure org

  unfoldable pub resolve_login_organization : Text → Text → Action LoginOrganization
  unfolding among_members active_organization
  resolve_login_organization user_id org_slug =
      let slug = normalize_slug env.unicode org_slug in
      if is_empty slug
      then (do
        members ← list_organization_members_for_user env user_id
        among_members user_id members)
      else do
        found ← or_error (get_organization_by_slug env slug) invalid_organization
        org ← active_organization found
        found_member ← get_organization_member env org.id user_id
        member ← require found_member not_a_member
        pure (single org member)

  unfoldable pub finish_login : User → LoginOrganization → Action LoginResult
  finish_login user (single org member) = do
    response ← generate_token_pair env s user org member.role
    pure (tokens response)
  finish_login user (choice response) = pure (selection response)

  unfoldable pub login_with_email : Text → Text → Text → Action LoginResult
  unfolding finish_login
  login_with_email email password org_slug = do
    found ← or_error (get_user_by_email env email) invalid_credentials
    user ← require found invalid_credentials
    check (verify_password_hash env user.password_hash password) invalid_credentials
    check user.is_active account_inactive
    org ← resolve_login_organization user.id org_slug
    finish_login user org

  unfoldable pub select_organization : Text → Text → Action TokenResponse
  unfolding active_organization
  select_organization ticket organization_id = do
    claims ← verify_login_selection_ticket ticket
    check (any (λ id. text_eq id organization_id) claims.organization_ids) organization_unavailable
    found ← or_error (get_user env claims.user_id) invalid_user
    user ← require found invalid_user
    check user.is_active invalid_user
    found_org ← or_error (get_organization env organization_id) invalid_organization
    org ← active_organization found_org
    found_member ← get_organization_member env org.id user.id
    member ← require found_member not_a_member
    generate_token_pair env s user org member.role
