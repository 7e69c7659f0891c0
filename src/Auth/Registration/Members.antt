-- ===== src/Auth/Registration/Members.antt =====
-- Who registration makes a member of what.
use cuddly_lamp.Prelude.{
  suc, ◌≡◌, refl, true, false, Option, none, some, List, [], ◌∷◌, ◌++◌, arith, select,
}
use cuddly_lamp.Text.{Text, text_eq, is_empty, trim_space}
use cuddly_lamp.Model.Identity.{UserRole, admin, User, Organization, OrganizationMember}
use cuddly_lamp.Env.{Env}
use cuddly_lamp.Storage.Action.{World, ok}
use cuddly_lamp.Storage.Accounts.{
  get_organization_by_slug, create_organization, upsert_organization_config, create_user,
  get_user_by_email,
}
use cuddly_lamp.Storage.Members.{
  in_organization, get_organization_member, create_organization_member, count_organization_members,
}
use cuddly_lamp.Storage.Tokens.{create_token}
use cuddly_lamp.Auth.Tokens.{AuthService, generate_token_pair, generate_token_pair_with_family}
use cuddly_lamp.Auth.Registration.{
  OrganizationAdmission, new_organization, existing_or_new, get_or_create_organization,
  admission_by_creation, ensure_organization_member, first_member, new_member, admit_with, admit,
  user_or_new, enter, register_with_email, resolve_organization_for_registration,
}

unfoldable pub members_of : Text → World → List OrganizationMember
members_of o w = select (in_organization o) w.db.members

module _ (env : Env) (o : Text) where
  count_call : (w : World) → members_of o (record w { calls = suc w.calls }) ≡ members_of o w
  unfolding members_of
  count_call w = refl

  creation-members :
      (name slug : Text) (w : World)
      → members_of o (admission_by_creation env name slug w).1 ≡ members_of o w
  unfolding admission_by_creation get_organization_by_slug get_or_create_organization
      existing_or_new new_organization create_organization upsert_organization_config members_of
  creation-members name slug w = ground arith

  creation-fresh :
      (name slug : Text) (w : World) (adm : OrganizationAdmission)
      → text_eq (env.uuid w.draws) o ≡ false
      → (admission_by_creation env name slug w).0 ≡ ok adm
      → text_eq adm.org.id o ≡ false × adm.invite ≡ none × adm.role ≡ admin
  unfolding admission_by_creation get_organization_by_slug get_or_create_organization
      existing_or_new new_organization create_organization upsert_organization_config
  creation-fresh name slug w adm fresh h = (ground arith, ground arith, ground arith)

  select-other :
      (ms : List OrganizationMember) (m : OrganizationMember)
      → in_organization o m ≡ false
      → select (in_organization o) (ms ++ m ∷ []) ≡ select (in_organization o) ms
  select-other [] m h = ground arith
  select-other (x ∷ ms) m h = ground (arith, select-other ms m)

  ensure-others :
      (org_id user_id : Text) (w : World)
      → text_eq org_id o ≡ false
      → members_of o (ensure_organization_member env org_id user_id w).1 ≡ members_of o w
  unfolding ensure_organization_member first_member get_organization_member
      count_organization_members create_organization_member members_of
  ensure-others org_id user_id w h =
      ground (arith, select-other w.db.members (new_member env org_id user_id admin))

  admit-others :
      (adm : OrganizationAdmission) (user_id : Text) (w : World)
      → text_eq adm.org.id o ≡ false
      → adm.invite ≡ none
      → members_of o (admit env adm user_id w).1 ≡ members_of o w
  unfolding admit admit_with
  admit-others adm user_id w h e = grind (arith, ensure-others)

module _ (env : Env) (s : AuthService) (o : Text) where
  user-members :
      (email full_name password : Text) (found : Option User) (w : World)
      → members_of o (user_or_new env s email full_name password found w).1 ≡ members_of o w
  unfolding user_or_new create_user members_of
  user-members email full_name password none w = ground arith
  user-members email full_name password (some u) w = refl

  pair-members :
      (user : User) (org : Organization) (role : UserRole) (w : World)
      → members_of o (generate_token_pair env s user org role w).1 ≡ members_of o w
  unfolding generate_token_pair generate_token_pair_with_family create_token members_of
  pair-members user org role w = ground arith

  enter-members :
      (email full_name password : Text) (adm : OrganizationAdmission) (w : World)
      → text_eq adm.org.id o ≡ false
      → adm.invite ≡ none
      → members_of o (enter env s email full_name password adm w).1 ≡ members_of o w
  unfolding enter get_user_by_email
  enter-members email full_name password adm w h e =
      grind (arith, admit-others, user-members, pair-members, count_call)

  -- Nobody joins an existing organization by registering without an invite: a registration with a blank
  -- invite token, whether it succeeds or fails, and whatever calls of the repository fail, leaves the
  -- members of each organization as they are, but of the one whose id is drawn next.
  pub register-keeps_members :
      (email full_name password name slug token : Text) (w : World)
      → is_empty (trim_space token) ≡ true
      → text_eq (env.uuid w.draws) o ≡ false
      → members_of o (register_with_email env s email full_name password name slug token w).1
        ≡ members_of o w
  unfolding register_with_email resolve_organization_for_registration
  register-keeps_members email full_name password name slug token w blank fresh =
      grind
        (arith, creation-members env o name slug w, creation-fresh env o name slug w, enter-members)
