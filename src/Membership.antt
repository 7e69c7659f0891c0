-- ===== src/Membership.antt =====
-- internal/services/membership_service.go: invites, roles and removals.
pub mod Admins
pub mod LastAdmin
pub mod Invites
use cuddly_lamp.Prelude.{
  ℕ, ◌+◌, ◌-◌, ◌*◌, ◌%◌, ◌^◌, Bool, true, false, not, Option, none, some, List, ◌++◌, leb, ltb, any,
  if◌then◌else◌,
}
use cuddly_lamp.Text.{Text, text, text_eq, is_empty, trim_space, to_lower, equal_fold}
use cuddly_lamp.Model.Identity.{
  UserRole, admin, developer, other, role_eq, User, OrganizationMember, OrganizationInvite,
  is_redeemable, matches_email,
}
use cuddly_lamp.Env.{Env}
use cuddly_lamp.Storage.Action.{
  Action, pure, raise, ◌>>=◌, ◌>>◌, or_error, check, require, now, draw, invite_invalid_email,
  invite_invalid_role, invite_not_found, invite_already_member, member_not_found, last_admin,
  self_demotion, flow_not_found,
}
use cuddly_lamp.Storage.Accounts.{
  create_organization_invite, get_organization_invite_by_hash, get_organization_invite,
  revoke_organization_invite,
}
use cuddly_lamp.Storage.Members.{
  get_organization_member, list_organization_members, count_organization_admins,
  update_organization_member_role, delete_organization_member,
}
use cuddly_lamp.Storage.Onboarding.{get_onboarding_flow}

-- Durations in nanoseconds.
abbrev pub hour : ℕ
hour = 3600000000000

abbrev pub default_invite_ttl : ℕ
default_invite_ttl = 7 * 24 * hour

abbrev pub max_invite_ttl : ℕ
max_invite_ttl = 30 * 24 * hour

-- `models.CreateInviteRequest`; `ttl_hours` is 0 where the source's is not positive.
pub record CreateInviteRequest : Type 0 where
  pub email : Text
  pub role : UserRole
  pub ttl_hours : ℕ
  pub onboarding_flow_id : Text

unfoldable pub is_assignable_role : UserRole → Bool
is_assignable_role (other _) = false
is_assignable_role _ = true

-- `if role == "" { role = RoleDeveloper }`
unfoldable pub default_role : UserRole → UserRole
default_role (other s) = if is_empty s then developer else other s
default_role role = role

-- `time.Duration(req.TTLHours) * time.Hour` as a word of 64 bits.
unfoldable pub requested_ttl : ℕ → ℕ
requested_ttl ttl_hours = (ttl_hours * hour) % (2 ^ 64)

-- `time.Now().Add(ttl)`: a word from 2 ^ 63 on is a negative duration, and an instant before the epoch
-- reads 0.
unfoldable pub invite_expiry : ℕ → ℕ → ℕ
unfolding requested_ttl
invite_expiry time ttl_hours =
    let requested = requested_ttl ttl_hours in
    if leb ttl_hours 0
    then time + default_invite_ttl
    else if leb (2 ^ 63) requested
    then time - (2 ^ 64 - requested)
    else if ltb max_invite_ttl requested
    then time + max_invite_ttl
    else time + requested

-- `if s != "" { p = &s }`
abbrev pub optional : Text → Option Text
optional s = if is_empty s then none else some s

module _ (env : Env) where
  unfoldable pub hash_invite_token : Text → Text
  hash_invite_token plain = env.sha256 (trim_space plain)

  unfoldable pub generate_invite_token : Action Text
  generate_invite_token = do hex ← draw env.random_hex; pure (text "inv_" ++ hex)

  -- The `for` loop over the members.
  abbrev already_member : Text → List (OrganizationMember × User) → Bool
  already_member email members = any (λ m. equal_fold env.unicode m.1.email email) members

  -- `flowID := strings.TrimSpace(..); flowID != ""`
  unfoldable pub invite_flow : Text → Text → Action (Option Text)
  invite_flow org_id requested =
      let flow_id = trim_space requested in
      if is_empty flow_id then pure none else do
        flow ← get_onboarding_flow env flow_id
        found ← require flow flow_not_found
        check (text_eq found.organization_id org_id) flow_not_found
        pure (some flow_id)

  -- The plain token is returned once; the row keeps its hash.
  unfoldable pub create_invite :
      Text → Text → CreateInviteRequest → Action (OrganizationInvite × Text)
  unfolding generate_invite_token invite_flow
  create_invite org_id created_by req = do
    let email = trim_space (to_lower env.unicode req.email)
    check (env.is_address email) invite_invalid_email
    let role = default_role req.role
    check (is_assignable_role role) invite_invalid_role
    members ← list_organization_members env org_id
    check (not (already_member email members)) invite_already_member
    plain ← generate_invite_token
    id ← draw env.uuid
    time ← now
    flow ← invite_flow org_id req.onboarding_flow_id
    let invite : OrganizationInvite = record {
      id = id;
      organization_id = org_id;
      email = email;
      role = role;
      token_hash = hash_invite_token plain;
      onboarding_flow_id = flow;
      created_by_user_id = optional created_by;
      accepted_at = none;
      accepted_by_user_id = none;
      revoked_at = none;
      expires_at = invite_expiry time req.ttl_hours;
    }
    create_organization_invite env invite
    pure (invite, plain)

  unfoldable pub revoke_invite : Text → Text → Action (Unit {0})
  revoke_invite org_id invite_id = do
    invite ← get_organization_invite env invite_id
    found ← require invite invite_not_found
    check (text_eq found.organization_id org_id) invite_not_found
    or_error (revoke_organization_invite env invite_id) invite_not_found

  unfoldable pub resolve_invite : Text → Text → Action OrganizationInvite
  resolve_invite raw email =
      let token = trim_space raw in
      if is_empty token then raise invite_not_found else do
        invite ← get_organization_invite_by_hash env (hash_invite_token token)
        found ← require invite invite_not_found
        time ← now
        check (is_redeemable found time) invite_not_found
        check (matches_email env.unicode found email) invite_not_found
        pure found

  ensure_not_last_admin : Text → Action (Unit {0})
  ensure_not_last_admin org_id = do
    admins ← count_organization_admins env org_id
    check (not (leb admins 1)) last_admin

  -- `if member.Role == RoleAdmin { .. }`
  guard_admin : Text → UserRole → Action (Unit {0})
  unfolding ensure_not_last_admin
  guard_admin org_id role = if role_eq role admin then ensure_not_last_admin org_id else pure tt

  unfoldable pub update_member_role : Text → Text → Text → UserRole → Action (Unit {0})
  unfolding guard_admin
  update_member_role org_id acting_user target_user role = do
    check (is_assignable_role role) invite_invalid_role
    check (not (text_eq acting_user target_user)) self_demotion
    member ← get_organization_member env org_id target_user
    found ← require member member_not_found
    if role_eq found.role role then pure tt else do
      guard_admin org_id found.role
      update_organization_member_role env org_id target_user role

  unfoldable pub remove_member : Text → Text → Text → Action (Unit {0})
  unfolding guard_admin
  remove_member org_id acting_user target_user = do
    check (not (text_eq acting_user target_user)) self_demotion
    member ← get_organization_member env org_id target_user
    found ← require member member_not_found
    guard_admin org_id found.role
    delete_organization_member env org_id target_user
