-- ===== src/Auth/Keeps/Handlers.antt =====
-- Each handler of the auth service keeps an invariant of the tokens.
use cuddly_lamp.Prelude.{Option, none, some, List, [], ◌∷◌}
use cuddly_lamp.Text.{Text}
use cuddly_lamp.Model.Identity.{
  UserRole, User, Organization, OrganizationMember, OrganizationInvite, Token,
}
use cuddly_lamp.Model.Onboarding.{OnboardingFlow, OnboardingAssignment}
use cuddly_lamp.Env.{Env}
use cuddly_lamp.Auth.Tokens.{AuthService}
use cuddly_lamp.Auth.Session.{
  check_record, validate_token, revoke_access_token, revoke_family_of, revoke_by_family,
  revoke_refresh_token_family,
}
use cuddly_lamp.Auth.Login.{
  LoginOrganization, single, choice, verify_login_selection_ticket, build_selection, among_members,
  finish_login, login_with_email, select_organization, resolve_login_organization,
}
use cuddly_lamp.Onboarding.Assign.{
  existing_or_create, assign, resolve_flow_for_invite, assign_flow, assign_from_invite,
}
use cuddly_lamp.Membership.{resolve_invite}
use cuddly_lamp.Auth.Registration.{
  existing_or_new, get_or_create_organization, resolve_organization_for_registration, first_member,
  ensure_organization_member, redeem, admit_with, admit, user_or_new, enter, register_with_email,
}
use cuddly_lamp.Auth.Keeps.{TokenInvariant, Keeps, action_rules}
use cuddly_lamp.Auth.Keeps.Calls.{call_rules}

module _ {env : Env} {s : AuthService} (inv : TokenInvariant env s) where
  check_record-Keeps : (jti : Text) (o : Option Token) → Keeps inv (check_record env s jti o)
  unfolding check_record
  check_record-Keeps jti none = search action_rules
  check_record-Keeps jti (some t) = search (action_rules, call_rules) depth 9

  pub Keeps-validate_token : (token : Text) → Keeps inv (validate_token env s token)
  unfolding validate_token
  Keeps-validate_token token = search (action_rules, call_rules, check_record-Keeps) depth 9

  pub Keeps-revoke_access_token : (token : Text) → Keeps inv (revoke_access_token env s token)
  unfolding revoke_access_token
  Keeps-revoke_access_token token = search (action_rules, call_rules) depth 9

  revoke_by_family-Keeps : (jti : Text) (o : Option Text) → Keeps inv (revoke_by_family env s jti o)
  unfolding revoke_by_family
  revoke_by_family-Keeps jti none = search call_rules
  revoke_by_family-Keeps jti (some family) = search call_rules

  revoke_family_of-Keeps : (o : Option Token) → Keeps inv (revoke_family_of env s o)
  unfolding revoke_family_of
  revoke_family_of-Keeps none = search action_rules
  revoke_family_of-Keeps (some t) = revoke_by_family-Keeps t.jti t.family_id

  pub Keeps-revoke_refresh_token_family :
      (raw : Text) → Keeps inv (revoke_refresh_token_family env s raw)
  unfolding revoke_refresh_token_family
  Keeps-revoke_refresh_token_family raw =
      search (action_rules, call_rules, revoke_family_of-Keeps) depth 9

  build_selection-Keeps :
      (user_id : Text) (ms : List (OrganizationMember × Organization))
      → Keeps inv (build_selection env s user_id ms)
  unfolding build_selection
  build_selection-Keeps user_id ms = search (action_rules, call_rules) depth 9

  among_members-Keeps :
      (user_id : Text) (ms : List (OrganizationMember × Organization))
      → Keeps inv (among_members env s user_id ms)
  unfolding among_members
  among_members-Keeps user_id [] = search action_rules
  among_members-Keeps user_id (m ∷ []) = search action_rules depth 9
  among_members-Keeps user_id (m ∷ n ∷ ms) = search (action_rules, build_selection-Keeps) depth 9

  resolve_login_organization-Keeps :
      (user_id slug : Text) → Keeps inv (resolve_login_organization env s user_id slug)
  unfolding resolve_login_organization
  resolve_login_organization-Keeps user_id slug =
      search (action_rules, call_rules, among_members-Keeps) depth 9

  finish_login-Keeps : (user : User) (o : LoginOrganization) → Keeps inv (finish_login env s user o)
  unfolding finish_login
  finish_login-Keeps user (single org member) = search (action_rules, call_rules) depth 9
  finish_login-Keeps user (choice response) = search action_rules

  pub Keeps-login_with_email :
      (email password slug : Text) → Keeps inv (login_with_email env s email password slug)
  unfolding login_with_email
  Keeps-login_with_email email password slug =
      search (action_rules, call_rules, resolve_login_organization-Keeps, finish_login-Keeps) depth
        12

  pub Keeps-select_organization :
      (ticket org_id : Text) → Keeps inv (select_organization env s ticket org_id)
  unfolding select_organization verify_login_selection_ticket
  Keeps-select_organization ticket org_id = search (action_rules, call_rules) depth 14

  existing_or_create-Keeps :
      (org_id flow_id user_id by : Text) (invite : Option Text) (o : Option OnboardingAssignment)
      → Keeps inv (existing_or_create env org_id flow_id user_id by invite o)
  unfolding existing_or_create
  existing_or_create-Keeps org_id flow_id user_id by invite none =
      search (action_rules, call_rules) depth 9
  existing_or_create-Keeps org_id flow_id user_id by invite (some a) = search action_rules

  resolve_flow-Keeps :
      (org_id : Text) (named : Option Text) → Keeps inv (resolve_flow_for_invite env org_id named)
  unfolding resolve_flow_for_invite
  resolve_flow-Keeps org_id named = search (action_rules, call_rules) depth 9

  assign_flow-Keeps :
      (org_id user_id : Text) (invite : OrganizationInvite) (o : Option OnboardingFlow)
      → Keeps inv (assign_flow env org_id user_id invite o)
  unfolding assign_flow assign
  assign_flow-Keeps org_id user_id invite none = search action_rules
  assign_flow-Keeps org_id user_id invite (some flow) =
      search (action_rules, call_rules, existing_or_create-Keeps) depth 9

  assign_from_invite-Keeps :
      (org_id user_id : Text) (invite : OrganizationInvite)
      → Keeps inv (assign_from_invite env org_id user_id invite)
  unfolding assign_from_invite
  assign_from_invite-Keeps org_id user_id invite =
      search (action_rules, resolve_flow-Keeps, assign_flow-Keeps) depth 9

  resolve_invite-Keeps : (raw email : Text) → Keeps inv (resolve_invite env raw email)
  unfolding resolve_invite
  resolve_invite-Keeps raw email = search (action_rules, call_rules) depth 14

  existing_or_new-Keeps :
      (name slug : Text) (o : Option Organization) → Keeps inv (existing_or_new env name slug o)
  unfolding existing_or_new
  existing_or_new-Keeps name slug (some org) = search action_rules
  existing_or_new-Keeps name slug none = search (action_rules, call_rules) depth 12

  get_or_create-Keeps : (name slug : Text) → Keeps inv (get_or_create_organization env name slug)
  unfolding get_or_create_organization
  get_or_create-Keeps name slug = search (action_rules, call_rules, existing_or_new-Keeps) depth 12

  resolve_organization-Keeps :
      (name slug email token : Text)
      → Keeps inv (resolve_organization_for_registration env name slug email token)
  unfolding resolve_organization_for_registration
  resolve_organization-Keeps name slug email token =
      search (action_rules, call_rules, resolve_invite-Keeps, get_or_create-Keeps) depth 14

  first_member-Keeps :
      (org_id user_id : Text) (o : Option OrganizationMember)
      → Keeps inv (first_member env org_id user_id o)
  unfolding first_member
  first_member-Keeps org_id user_id (some m) = search action_rules
  first_member-Keeps org_id user_id none = search (action_rules, call_rules) depth 12

  redeem-Keeps :
      (org : Organization) (role : UserRole) (invite : OrganizationInvite) (user_id : Text)
      (o : Option OrganizationMember)
      → Keeps inv (redeem env org role invite user_id o)
  unfolding redeem
  redeem-Keeps org role invite user_id (some m) = search (action_rules, call_rules) depth 9
  redeem-Keeps org role invite user_id none =
      search (action_rules, call_rules, assign_from_invite-Keeps) depth 12

  admit_with-Keeps :
      (org : Organization) (role : UserRole) (o : Option OrganizationInvite) (user_id : Text)
      → Keeps inv (admit_with env org role o user_id)
  unfolding admit_with ensure_organization_member
  admit_with-Keeps org role none user_id =
      search (action_rules, call_rules, first_member-Keeps) depth 9
  admit_with-Keeps org role (some invite) user_id =
      search (action_rules, call_rules, redeem-Keeps) depth 9

  user_or_new-Keeps :
      (email full_name password : Text) (o : Option User)
      → Keeps inv (user_or_new env s email full_name password o)
  unfolding user_or_new
  user_or_new-Keeps email full_name password (some u) = search action_rules
  user_or_new-Keeps email full_name password none = search (action_rules, call_rules) depth 12

  pub Keeps-register_with_email :
      (email full_name password name slug token : Text)
      → Keeps inv (register_with_email env s email full_name password name slug token)
  unfolding register_with_email enter admit
  Keeps-register_with_email email full_name password name slug token =
      search
        (action_rules, call_rules, resolve_organization-Keeps, user_or_new-Keeps, admit_with-Keeps)
        depth 14
