-- ===== src/Examples/Logins.antt =====
-- Logins, passwords, slugs, invites and assignments of the small organization.
use cuddly_lamp.Prelude.{
  ℕ, ◌+◌, ◌*◌, ◌≤◌, ◌<◌, ◌≡◌, ◌↔◌, refl, true, ◌&&◌, none, some, [], ◌++◌, arith, find_first, any,
  is_some,
}
use cuddly_lamp.Text.{
  text, text_eq, trim_space, trim_left, is_space, to_lower, lower_rune, equal_fold, fold_rune,
}
use cuddly_lamp.Model.Identity.{
  admin, developer, User, Organization, OrganizationInvite, TokenResponse,
}
use cuddly_lamp.Model.Onboarding.{OnboardingAssignment, is_live, AssignmentStatus}
use cuddly_lamp.Env.{TicketClaims}
use cuddly_lamp.Storage.Action.{World, ok}
use cuddly_lamp.Storage.Accounts.{
  get_user, get_organization, get_user_by_email, create_organization_invite,
  get_organization_by_slug,
}
use cuddly_lamp.Storage.Members.{get_organization_member, list_organization_members, has_key}
use cuddly_lamp.Storage.Onboarding.{
  create_onboarding_assignment, list_onboarding_assignments_for_user,
}
use cuddly_lamp.Storage.Tokens.{create_token}
use cuddly_lamp.Membership.{
  CreateInviteRequest, create_invite, resolve_invite, invite_expiry, requested_ttl,
  hash_invite_token, is_assignable_role, default_role, generate_invite_token, invite_flow, hour,
}
use cuddly_lamp.Membership.Invites.{create-resolves}
use cuddly_lamp.Onboarding.Assign.{assign, existing_or_create}
use cuddly_lamp.Onboarding.Once.{assign-once}
use cuddly_lamp.Auth.Password.{
  byte_length, rune_length, zero_salt, hash_password, verify_password_hash,
}
use cuddly_lamp.Auth.Password.Laws.{verify-hash}
use cuddly_lamp.Auth.Slug.{
  slugify, slug_loop, slug_step, is_separator, trim_hyphens, trim_left_hyphens, normalize_slug,
}
use cuddly_lamp.Auth.Slug.Shape.{IsSlug, slugify-IsSlug}
use cuddly_lamp.Auth.Tokens.{
  token_response, hash_token, generate_token_pair, generate_token_pair_with_family,
  generate_access_token, generate_refresh_token,
}
use cuddly_lamp.Auth.Login.{
  tokens, login_with_email, resolve_login_organization, active_organization, finish_login,
  select_organization, verify_login_selection_ticket, ticket_purpose,
}
use cuddly_lamp.Auth.Login.Checks.{login-is_checked, select-is_checked}
use cuddly_lamp.Auth.Registration.{OrganizationAdmission, enter}
use cuddly_lamp.Auth.Registration.Password.{enter-any_password}
use cuddly_lamp.Examples.{alice, acme, service, env, world}

abbrev now : World
now = world []

-- The family takes the first identifier.
abbrev response : TokenResponse
response = token_response env service alice acme admin (env.uuid 201) (env.random_token 202)

slug_of : slugify env.unicode (text " My  Team_1- ") ≡ text "my-team-1"
unfolding slugify slug_loop slug_step is_separator trim_hyphens trim_left_hyphens trim_space
    trim_left is_space to_lower lower_rune
slug_of = refl

logs_in :
    (login_with_email env service (text "alice@acme.io") (text "Secret123") (text "acme") now).0
    ≡ ok (tokens response)
unfolding login_with_email get_user_by_email verify_password_hash byte_length rune_length
    resolve_login_organization active_organization finish_login generate_token_pair
    generate_token_pair_with_family generate_access_token generate_refresh_token create_token
    get_organization_by_slug get_organization_member normalize_slug trim_space trim_left is_space
    to_lower lower_rune text_eq hash_token
logs_in = refl

login-is_checked_example :
    (u : User) × find_first (λ x. text_eq x.email (text "alice@acme.io")) now.db.users ≡ some u
    × verify_password_hash env u.password_hash (text "Secret123") ≡ true
    × u.is_active ≡ true
login-is_checked_example =
    login-is_checked env service (text "alice@acme.io") (text "Secret123") (text "acme") now
      (tokens response) logs_in

selects : (select_organization env service (text "alice") (text "o") now).0 ≡ ok response
unfolding select_organization verify_login_selection_ticket active_organization get_user
    get_organization get_organization_member generate_token_pair generate_token_pair_with_family
    generate_access_token generate_refresh_token create_token text_eq hash_token
selects = refl

select-is_checked_example :
    (c : TicketClaims) × (u : User) × (o : Organization) × env.parse_ticket service.jwt_secret
        now.clock
        (text "alice")
      ≡ some c
    × text_eq c.purpose ticket_purpose ≡ true
    × any (λ id. text_eq id (text "o")) c.organization_ids ≡ true
    × find_first (λ x. text_eq x.id c.user_id) now.db.users ≡ some u
    × u.is_active ≡ true
    × find_first (λ x. text_eq x.id (text "o")) now.db.organizations ≡ some o
    × o.is_active ≡ true
    × is_some (find_first (λ m. has_key o.id u.id m && m.is_active) now.db.members) ≡ true
select-is_checked_example =
    select-is_checked env service (text "alice") (text "o") now response selects

long_hash : 32 ≤ byte_length (env.argon2 (text "Secret123") zero_salt)
unfolding byte_length rune_length
long_hash = omega arith

verify-hash_example :
    verify_password_hash env (hash_password env (text "Secret123")) (text "other") ≡ true
    ↔ env.argon2 (text "other") zero_salt ≡ env.argon2 (text "Secret123") zero_salt
verify-hash_example = verify-hash env (text "Secret123") (text "other") long_hash

slugify-IsSlug_example : IsSlug (slugify env.unicode (text " My  Team_1- "))
slugify-IsSlug_example = slugify-IsSlug env.unicode (text " My  Team_1- ")

abbrev request : CreateInviteRequest
request = record {
  email = text "dan@acme.io";
  role = developer;
  ttl_hours = 48;
  onboarding_flow_id = text "";
}

abbrev new_invite : OrganizationInvite
new_invite = record {
  id = env.uuid 201;
  organization_id = text "o";
  email = text "dan@acme.io";
  role = developer;
  token_hash = text "inv_ab";
  onboarding_flow_id = none;
  created_by_user_id = some (text "alice");
  accepted_at = none;
  accepted_by_user_id = none;
  revoked_at = none;
  expires_at = 1000 + 48 * hour;
}

hex_is_trim :
    (k : ℕ) → trim_space (text "inv_" ++ env.random_hex k) ≡ text "inv_" ++ env.random_hex k
unfolding trim_space trim_left is_space
hex_is_trim k = refl

creates :
    (create_invite env (text "o") (text "alice") request now).0 ≡ ok (new_invite, text "inv_ab")
unfolding create_invite generate_invite_token invite_flow list_organization_members
    create_organization_invite default_role is_assignable_role invite_expiry requested_ttl
    hash_invite_token trim_space trim_left is_space to_lower lower_rune equal_fold fold_rune text_eq
creates = refl

in_time : 1000 + 60 < invite_expiry 1000 48
unfolding invite_expiry requested_ttl
in_time = omega arith

create-resolves_example :
    (let w' = (create_invite env (text "o") (text "alice") request now).1 in
      (resolve_invite env
        (text "inv_ab")
        (text "dan@acme.io")
        (record w' { clock = w'.clock + 60 })).0
      ≡ ok new_invite)
create-resolves_example =
    create-resolves env (text "o") (text "alice") request now new_invite (text "inv_ab") 60
      hex_is_trim creates in_time refl

abbrev assignment : OnboardingAssignment
assignment = record {
  id = env.uuid 200;
  organization_id = text "o";
  flow_id = text "flow";
  user_id = text "bob";
  assigned_by_user_id = some (text "alice");
  invite_id = none;
  status = AssignmentStatus.pending;
  started_at = none;
  completed_at = none;
  feedback = text "";
  feedback_at = none;
}

assigns :
    (assign env (text "o") (text "flow") (text "bob") (text "alice") none now).0 ≡ ok assignment
unfolding assign existing_or_create list_onboarding_assignments_for_user
    create_onboarding_assignment is_live
assigns = refl

assign-once_example :
    (let w' = (assign env (text "o") (text "flow") (text "bob") (text "alice") none now).1 in
      (assign env (text "o") (text "flow") (text "bob") (text "") (some (text "i")) w').0
        ≡ ok assignment
      × (assign env (text "o") (text "flow") (text "bob") (text "") (some (text "i")) w').1.db
        ≡ w'.db)
assign-once_example =
    assign-once (text "o") (text "flow") (text "bob") env (text "alice") (text "") none
      (some (text "i")) now assignment assigns refl

found_alice : find_first (λ u. text_eq u.email (text "alice@acme.io")) now.db.users ≡ some alice
unfolding text_eq
found_alice = refl

abbrev own_admission : OrganizationAdmission
own_admission = record { org = acme; role = admin; invite = none }

enter-any_password_example :
    enter env service (text "alice@acme.io") (text "Mallory") (text "Guess1234") own_admission now
    ≡ enter env service (text "alice@acme.io") (text "Mallory") (text "Secret123") own_admission now
enter-any_password_example =
    enter-any_password env service (text "alice@acme.io") (text "Mallory") (text "Guess1234")
      (text "Secret123") own_admission now alice refl found_alice
