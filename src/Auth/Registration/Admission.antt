-- ===== src/Auth/Registration/Admission.antt =====
-- Whom an invite admits, and to what.
use cuddly_lamp.Prelude.{
  sym, ap, ◌∙◌, map, ◌<◌, find_first, subst, if◌then◌else◌, ◌≡◌, true, false, none, some, arith,
  inl, inr, Option-cases,
}
use cuddly_lamp.Text.{fold_rune, equal_fold, Text, text_eq, is_empty, trim_space}
use cuddly_lamp.Model.Identity.{OrganizationInvite, is_redeemable, matches_email}
use cuddly_lamp.Text.Laws.{text_eq_iff}
use cuddly_lamp.Env.{Env}
use cuddly_lamp.Storage.Action.{World, ok}
use cuddly_lamp.Storage.Accounts.{get_organization, get_organization_invite_by_hash}
use cuddly_lamp.Membership.{hash_invite_token, resolve_invite}
use cuddly_lamp.Auth.Registration.{
  OrganizationAdmission, admission_by_invite, admission_by_creation,
  resolve_organization_for_registration,
}

-- An address as it is compared: without the white space around it, and of one case.
abbrev pub folded : Env → Text → Text
folded env email = map (fold_rune env.unicode) (trim_space email)

module _ (env : Env) where
  resolve-checked :
      (raw email : Text) (w : World) (i : OrganizationInvite)
      → (resolve_invite env raw email w).0 ≡ ok i
      → find_first
            (λ x. text_eq x.token_hash (env.sha256 (trim_space (trim_space raw))))
            w.db.invites
          ≡ some i
        × (i.accepted_at ≡ none × i.revoked_at ≡ none × w.clock < i.expires_at)
        × text_eq (folded env i.email) (folded env email) ≡ true
        × (resolve_invite env raw email w).1.db ≡ w.db
  unfolding resolve_invite get_organization_invite_by_hash is_redeemable matches_email equal_fold
      hash_invite_token
  resolve-checked raw email w i h =
      (ground arith, (ground arith, ground arith, ground arith), ground arith, ground arith)

  pub invited :
      (email token : Text) (w : World) (adm : OrganizationAdmission)
      → (admission_by_invite env email token w).0 ≡ ok adm
      → (i : OrganizationInvite) × (resolve_invite env token email w).0 ≡ ok i
        × adm.invite ≡ some i
        × find_first
            (λ o. text_eq o.id i.organization_id)
            (resolve_invite env token email w).1.db.organizations
          ≡ some adm.org
        × adm.role ≡ i.role
  unfolding admission_by_invite get_organization
  invited email token w adm k = elim (Option-cases adm.invite) [
    | inl e ↦ absurd (ground arith)
    | inr (i, e) ↦ (i, ground arith, e, ground arith, ground arith)
  ]

  pub by_token :
      (name slug email token : Text) (w : World) (adm : OrganizationAdmission)
      → is_empty (trim_space token) ≡ false
      → (resolve_organization_for_registration env name slug email token w).0 ≡ ok adm
      → (admission_by_invite env email token w).0 ≡ ok adm
  unfolding resolve_organization_for_registration
  by_token name slug email token w adm h k =
      subst
        (λ b.
          ((if b then admission_by_creation env name slug else admission_by_invite env email token)
            w).0
          ≡ ok adm)
        h k

  -- With an invite token that is not blank, registration is admitted only by the invite of the table
  -- that has the hash of the token without the white space around it; this invite is neither accepted
  -- nor revoked, expires later and was sent to the same address, up to case and the white space around
  -- it. The admission is to the invite's organization, a row of the table, and in the invite's role.
  pub admission-is_invited :
      (name slug email token : Text) (w : World) (adm : OrganizationAdmission)
      → is_empty (trim_space token) ≡ false
      → (resolve_organization_for_registration env name slug email token w).0 ≡ ok adm
      → (i : OrganizationInvite) × adm.invite ≡ some i
        × find_first
            (λ x. text_eq x.token_hash (env.sha256 (trim_space (trim_space token))))
            w.db.invites
          ≡ some i
        × (i.accepted_at ≡ none × i.revoked_at ≡ none × w.clock < i.expires_at)
        × folded env i.email ≡ folded env email
        × find_first (λ o. text_eq o.id i.organization_id) w.db.organizations ≡ some adm.org
        × adm.role ≡ i.role
  admission-is_invited name slug email token w adm h k =
      let (i, found, invite, org, role) =
        invited email token w adm (by_token name slug email token w adm h k) in
      let (row, good, address, same) = resolve-checked token email w i found in
      (
        i,
        invite,
        row,
        good,
        (text_eq_iff (folded env i.email) (folded env email)).0 address,
        ap (λ db. find_first (λ o. text_eq o.id i.organization_id) db.organizations) (sym same)
            ∙ org,
        role,
      )

  -- An admission without a token is without an invite.
  pub created :
      (name slug email token : Text) (w : World) (adm : OrganizationAdmission)
      → is_empty (trim_space token) ≡ true
      → (resolve_organization_for_registration env name slug email token w).0 ≡ ok adm
      → adm.invite ≡ none
  unfolding resolve_organization_for_registration admission_by_creation
  created name slug email token w adm h k = ground arith
