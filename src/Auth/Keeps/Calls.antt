-- ===== src/Auth/Keeps/Calls.antt =====
-- Each call of the repository keeps an invariant of the tokens.
use cuddly_lamp.Prelude.{inl, inr, arith, Bool-cases}
use cuddly_lamp.Text.{Text}
use cuddly_lamp.Model.Identity.{
  User, Organization, OrganizationConfig, OrganizationMember, RevokeReason, UserRole,
}
use cuddly_lamp.Model.Onboarding.{OnboardingAssignment}
use cuddly_lamp.Env.{Env}
use cuddly_lamp.Storage.Accounts.{
  get_user, get_user_by_email, create_user, get_organization, get_organization_by_slug,
  create_organization, upsert_organization_config, get_organization_invite_by_hash,
  revoke_organization_invite, accept_organization_invite,
}
use cuddly_lamp.Storage.Members.{
  get_organization_member, list_organization_members_for_user, create_organization_member,
  count_organization_members,
}
use cuddly_lamp.Storage.Tokens.{
  get_token_by_jti, get_token_by_hash, revoke_token_family, revoke_token, update_token_last_used,
}
use cuddly_lamp.Storage.Onboarding.{
  get_onboarding_flow, get_default_onboarding_flow, create_onboarding_assignment,
  list_onboarding_assignments_for_user,
}
use cuddly_lamp.Auth.Tokens.{AuthService, generate_token_pair}
use cuddly_lamp.Auth.Session.{refresh_tokens}
use cuddly_lamp.Auth.Keeps.{
  TokenInvariant, Keeps, Keeps-if, Keeps-raise, Keeps-query, Keeps-write_other,
}

module _ {env : Env} {s : AuthService} (inv : TokenInvariant env s) where
  pub Keeps-revoke_token : (jti : Text) (r : RevokeReason) → Keeps inv (revoke_token env jti r)
  unfolding revoke_token
  Keeps-revoke_token jti r = record {
    at = λ w h. elim (Bool-cases (env.faults w.calls)) [
      | inl e ↦ rw e h
      | inr e ↦ rw e (inv.on_revoke jti r w.clock w.db.tokens w.draws h)
    ];
  }

  pub Keeps-revoke_token_family :
      (family : Text) (r : RevokeReason) → Keeps inv (revoke_token_family env family r)
  unfolding revoke_token_family
  Keeps-revoke_token_family family r = record {
    at = λ w h. elim (Bool-cases (env.faults w.calls)) [
      | inl e ↦ rw e h
      | inr e ↦ rw e (inv.on_revoke_family family r w.clock w.db.tokens w.draws h)
    ];
  }

  pub Keeps-update_token_last_used : (jti : Text) → Keeps inv (update_token_last_used env jti)
  unfolding update_token_last_used
  Keeps-update_token_last_used jti = record {
    at = λ w h. elim (Bool-cases (env.faults w.calls)) [
      | inl e ↦ rw e h
      | inr e ↦ rw e (inv.on_touch jti w.clock w.db.tokens w.draws h)
    ];
  }

  pub Keeps-generate_token_pair :
      (user : User) (org : Organization) (role : UserRole)
      → Keeps inv (generate_token_pair env s user org role)
  Keeps-generate_token_pair user org role = record { at = λ w h. inv.on_pair user org role w h }

  pub Keeps-refresh_tokens : (raw : Text) → Keeps inv (refresh_tokens env s raw)
  Keeps-refresh_tokens raw = record { at = λ w h. inv.on_refresh raw w h }

  pub Keeps-get_token_by_jti : (jti : Text) → Keeps inv (get_token_by_jti env jti)
  unfolding get_token_by_jti
  Keeps-get_token_by_jti jti = Keeps-query inv _

  pub Keeps-get_token_by_hash : (hash : Text) → Keeps inv (get_token_by_hash env hash)
  unfolding get_token_by_hash
  Keeps-get_token_by_hash hash = Keeps-query inv _

  pub Keeps-get_user : (id : Text) → Keeps inv (get_user env id)
  unfolding get_user
  Keeps-get_user id = Keeps-query inv _

  pub Keeps-get_user_by_email : (email : Text) → Keeps inv (get_user_by_email env email)
  unfolding get_user_by_email
  Keeps-get_user_by_email email = Keeps-query inv _

  pub Keeps-get_organization : (id : Text) → Keeps inv (get_organization env id)
  unfolding get_organization
  Keeps-get_organization id = Keeps-query inv _

  pub Keeps-get_organization_by_slug : (slug : Text) → Keeps inv (get_organization_by_slug env slug)
  unfolding get_organization_by_slug
  Keeps-get_organization_by_slug slug = Keeps-query inv _

  pub Keeps-get_organization_invite_by_hash :
      (hash : Text) → Keeps inv (get_organization_invite_by_hash env hash)
  unfolding get_organization_invite_by_hash
  Keeps-get_organization_invite_by_hash hash = Keeps-query inv _

  pub Keeps-list_organization_members_for_user :
      (user_id : Text) → Keeps inv (list_organization_members_for_user env user_id)
  unfolding list_organization_members_for_user
  Keeps-list_organization_members_for_user user_id = Keeps-query inv _

  pub Keeps-count_organization_members :
      (org_id : Text) → Keeps inv (count_organization_members env org_id)
  unfolding count_organization_members
  Keeps-count_organization_members org_id = Keeps-query inv _

  pub Keeps-get_onboarding_flow : (id : Text) → Keeps inv (get_onboarding_flow env id)
  unfolding get_onboarding_flow
  Keeps-get_onboarding_flow id = Keeps-query inv _

  pub Keeps-get_default_onboarding_flow :
      (org_id : Text) → Keeps inv (get_default_onboarding_flow env org_id)
  unfolding get_default_onboarding_flow
  Keeps-get_default_onboarding_flow org_id = Keeps-query inv _

  pub Keeps-get_organization_member :
      (org_id user_id : Text) → Keeps inv (get_organization_member env org_id user_id)
  unfolding get_organization_member
  Keeps-get_organization_member org_id user_id = Keeps-query inv _

  pub Keeps-list_onboarding_assignments_for_user :
      (org_id user_id : Text) → Keeps inv (list_onboarding_assignments_for_user env org_id user_id)
  unfolding list_onboarding_assignments_for_user
  Keeps-list_onboarding_assignments_for_user org_id user_id = Keeps-query inv _

  pub Keeps-upsert_organization_config :
      (cfg : OrganizationConfig) → Keeps inv (upsert_organization_config env cfg)
  unfolding upsert_organization_config
  Keeps-upsert_organization_config cfg = Keeps-write_other inv _ (λ time db db' e. ground arith)

  pub Keeps-revoke_organization_invite : (id : Text) → Keeps inv (revoke_organization_invite env id)
  unfolding revoke_organization_invite
  Keeps-revoke_organization_invite id = Keeps-write_other inv _ (λ time db db' e. ground arith)

  pub Keeps-create_organization_member :
      (m : OrganizationMember) → Keeps inv (create_organization_member env m)
  unfolding create_organization_member
  Keeps-create_organization_member m = Keeps-write_other inv _ (λ time db db' e. ground arith)

  pub Keeps-create_onboarding_assignment :
      (a : OnboardingAssignment) → Keeps inv (create_onboarding_assignment env a)
  unfolding create_onboarding_assignment
  Keeps-create_onboarding_assignment a = Keeps-write_other inv _ (λ time db db' e. ground arith)

  pub Keeps-accept_organization_invite :
      (id : Text) (m : OrganizationMember) → Keeps inv (accept_organization_invite env id m)
  unfolding accept_organization_invite
  Keeps-accept_organization_invite id m = Keeps-write_other inv _ (λ time db db' e. ground arith)

  pub Keeps-create_user : (u : User) → Keeps inv (create_user env u)
  unfolding create_user
  Keeps-create_user u =
      Keeps-if inv _ _ _ (Keeps-write_other inv _ (λ time db db' e. ground arith))
        (Keeps-raise inv _)

  pub Keeps-create_organization : (o : Organization) → Keeps inv (create_organization env o)
  unfolding create_organization
  Keeps-create_organization o =
      Keeps-if inv _ _ _ (Keeps-write_other inv _ (λ time db db' e. ground arith))
        (Keeps-raise inv _)

pub ruleset call_rules = (
  Keeps-revoke_token, Keeps-revoke_token_family, Keeps-update_token_last_used,
  Keeps-generate_token_pair, Keeps-refresh_tokens, Keeps-get_token_by_jti, Keeps-get_token_by_hash,
  Keeps-get_user, Keeps-get_user_by_email, Keeps-get_organization, Keeps-get_organization_by_slug,
  Keeps-get_organization_invite_by_hash, Keeps-list_organization_members_for_user,
  Keeps-count_organization_members, Keeps-get_onboarding_flow, Keeps-get_default_onboarding_flow,
  Keeps-get_organization_member, Keeps-list_onboarding_assignments_for_user,
  Keeps-upsert_organization_config, Keeps-revoke_organization_invite,
  Keeps-create_organization_member, Keeps-create_onboarding_assignment,
  Keeps-accept_organization_invite, Keeps-create_user, Keeps-create_organization,
)
