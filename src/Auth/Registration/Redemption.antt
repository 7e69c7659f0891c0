-- ===== src/Auth/Registration/Redemption.antt =====
-- What an admission writes: a member, for an invite that is spent.
use cuddly_lamp.Prelude.{
  ap₂, subst, suc, find_first, find_first-test, ℕ, ◌≡◌, refl, ap, ◌∙◌, inl, inr, ◌⊎◌, Bool, true,
  false, not, ◌&&◌, none, some, List, [], ◌∷◌, ◌++◌, any, count_if, update_where, is_some, ltb,
  Bool-cases, Option-cases, arith,
}
use cuddly_lamp.Text.{Text, text_eq, is_empty, trim_space}
use cuddly_lamp.Text.Laws.{text_eq_iff, text_eq_refl}
use cuddly_lamp.Model.Identity.{
  admin, OrganizationInvite, Organization, OrganizationMember, UserRole,
}
use cuddly_lamp.Model.Architecture.{column_is}
use cuddly_lamp.Env.{Env}
use cuddly_lamp.Storage.Action.{World, ok}
use cuddly_lamp.Storage.Accounts.{
  accept_organization_invite, revoke_organization_invite, matches_redeemable,
}
use cuddly_lamp.Storage.Members.{
  has_key, in_organization, get_organization_member, create_organization_member,
  count_organization_members,
}
use cuddly_lamp.Storage.Onboarding.{
  get_onboarding_flow, get_default_onboarding_flow, create_onboarding_assignment,
  list_onboarding_assignments_for_user,
}
use cuddly_lamp.Onboarding.Assign.{
  assign_from_invite, resolve_flow_for_invite, assign_flow, assign, existing_or_create,
}
use cuddly_lamp.Auth.Registration.{
  OrganizationAdmission, resolve_organization_for_registration, ensure_organization_member,
  first_member, new_member, redeem, admit_with, admit,
}
use cuddly_lamp.Architecture.Apply.Runs.{Outcome-cases}
use cuddly_lamp.Auth.Registration.Admission.{invited, by_token, created}

-- A row of an id that is neither accepted nor revoked and expires after a time, and one that a person
-- has accepted.
abbrev pub is_unspent : Text → ℕ → OrganizationInvite → Bool
is_unspent id now r =
    text_eq r.id id
    && (not (is_some r.accepted_at) && not (is_some r.revoked_at))
    && ltb now r.expires_at

abbrev pub is_spent_by : Text → Text → OrganizationInvite → Bool
is_spent_by id user_id r =
    text_eq r.id id && is_some r.accepted_at && column_is r.accepted_by_user_id user_id

-- The invite with an id went from unspent to spent by a person.
abbrev pub IsRedeemed : Text → Text → World → World → Type 0
IsRedeemed id user_id w w' =
    any (is_unspent id w.clock) w.db.invites ≡ true
    × any (is_spent_by id user_id) w'.db.invites ≡ true

spent :
    (id user_id : Text) (now : ℕ) (is : List OrganizationInvite)
    → any (is_unspent id now) is ≡ true
    → any (is_spent_by id user_id) (
        update_where
          (is_unspent id now)
          (λ i. record i { accepted_at = some now; accepted_by_user_id = some user_id })
          is)
      ≡ true
spent id user_id now [] h = h
spent id user_id now (i ∷ is) h = ground (arith, spent id user_id now is, text_eq_refl user_id)

-- The row makes a person an active member of an organization.
abbrev pub is_active_in : Text → Text → OrganizationMember → Bool
is_active_in org_id user_id m = has_key org_id user_id m && m.is_active

find_first-any :
    (p : OrganizationMember → Bool) (ms : List OrganizationMember) (m : OrganizationMember)
    → find_first p ms ≡ some m
    → any p ms ≡ true
find_first-any p [] m e = absurd (ground arith)
find_first-any p (x ∷ ms) m e = ground (arith, find_first-any p ms m)

added-is_active :
    (org_id user_id : Text) (role : UserRole) (ms : List OrganizationMember)
    → any (is_active_in org_id user_id) (
        ms
        ++ (record { organization_id = org_id; user_id = user_id; role = role; is_active = true })
          ∷ [])
      ≡ true
added-is_active org_id user_id role [] = ground (arith, text_eq_refl org_id, text_eq_refl user_id)
added-is_active org_id user_id role (m ∷ ms) =
    ground (arith, added-is_active org_id user_id role ms)

module _ (env : Env) where
  assign-keeps :
      (org_id user_id : Text) (i : OrganizationInvite) (w : World)
      → (assign_from_invite env org_id user_id i w).1.db.members ≡ w.db.members
        × (assign_from_invite env org_id user_id i w).1.db.invites ≡ w.db.invites
  unfolding assign_from_invite resolve_flow_for_invite assign_flow assign existing_or_create
      get_onboarding_flow get_default_onboarding_flow create_onboarding_assignment
      list_onboarding_assignments_for_user
  assign-keeps org_id user_id i w = (ground arith, ground arith)

  -- The transaction, on both branches.
  accept-cases :
      (id : Text) (m : OrganizationMember) (w : World)
      → (let r = accept_organization_invite env id m w in
          r.1.db.members ≡ w.db.members
          ⊎ (r.1.db.members ≡ w.db.members ++ m ∷ [] × IsRedeemed id m.user_id w r.1))
  unfolding accept_organization_invite
  accept-cases id m w = elim (Bool-cases (env.faults w.calls)) [
    | inl fault ↦ inl (ground arith)
    | inr works ↦ elim (Bool-cases (any (matches_redeemable env id w.clock) w.db.invites)) [
      | inr none_open ↦ inl (ground arith)
      | inl there ↦
          elim (Bool-cases (
            any (λ x. text_eq x.organization_id m.organization_id && text_eq x.user_id m.user_id)
              w.db.members)) [
                | inl taken ↦ inl (ground arith)
                | inr free ↦ inr (
                    rw (works, there, free)
                      (refl, (refl, spent id m.user_id w.clock w.db.invites there)))
              ]
    ]
  ]

  redeem-cases :
      (org : Organization) (role : UserRole) (i : OrganizationInvite) (user_id : Text) (w : World)
      → (let r = redeem env org role i user_id none w in
          r.1.db.members ≡ w.db.members
          ⊎ (r.1.db.members ≡ w.db.members ++ new_member env org.id user_id role ∷ []
              × IsRedeemed i.id user_id w r.1))
  unfolding redeem
  redeem-cases org role i user_id w =
      let m = new_member env org.id user_id role in
      let w1 = (accept_organization_invite env i.id m w).1 in
      let (members, invites) = assign-keeps org.id user_id i w1 in
      let P = λ (r : World).
        r.db.members ≡ w.db.members
        ⊎ (r.db.members ≡ w.db.members ++ m ∷ [] × IsRedeemed i.id user_id w r) in
      let before : P w1 = accept-cases i.id m w in
      let after : P (assign_from_invite env org.id user_id i w1).1 = elim before [
        | inl same ↦ inl (members ∙ same)
        | inr (added, redeemed) ↦ inr (
          members ∙ added,
          (redeemed.0, ap (any (is_spent_by i.id user_id)) invites ∙ redeemed.1),
        )
      ] in
      elim (Outcome-cases (accept_organization_invite env i.id m w).0) [
        | inr (error, fails) ↦
            let step : w1 ≡ (redeem env org role i user_id none w).1 = ground arith in
            subst P step before
        | inl (u, done) ↦
            let step : (assign_from_invite env org.id user_id i w1).1
                ≡ (redeem env org role i user_id none w).1 =
              ground arith in
            subst P step after
      ]

  admit-rows :
      (adm : OrganizationAdmission) (user_id : Text) (w : World)
      → (let w' = (admit env adm user_id w).1 in
          w'.db.members ≡ w.db.members
          ⊎ ((i : OrganizationInvite) × (adm.invite ≡ some i
                × IsRedeemed i.id user_id w w'
                × w'.db.members ≡ w.db.members ++ new_member env adm.org.id user_id adm.role ∷ []))
          ⊎ (adm.invite ≡ none
              × count_if (in_organization adm.org.id) w.db.members ≡ 0
              × w'.db.members ≡ w.db.members ++ new_member env adm.org.id user_id admin ∷ []))
  unfolding admit admit_with redeem ensure_organization_member first_member get_organization_member
      create_organization_member count_organization_members revoke_organization_invite
  admit-rows adm user_id w = elim (Option-cases adm.invite) [
    | inl uninvited ↦ grind arith
    | inr (i, invited) ↦ elim (Bool-cases (env.faults w.calls)) [
      | inl fault ↦ inl (rw (invited, fault) refl)
      | inr works ↦
          elim (Option-cases
            (find_first (λ m. has_key adm.org.id user_id m && m.is_active) w.db.members)) [
              | inr (m, found) ↦ inl (ground arith)
              | inl missing ↦
                  elim (redeem-cases adm.org adm.role i user_id
                    (record w { calls = suc w.calls })) [
                      | inl same ↦ inl (rw (invited, works, missing) same)
                      | inr (added, redeemed) ↦
                          inr (inl (rw (invited, works, missing) (i, (refl, redeemed, added))))
                    ]
            ]
    ]
  ]

  -- Who is admitted is an active member.
  admit-member :
      (adm : OrganizationAdmission) (user_id : Text) (w : World) (m : OrganizationMember)
      → (admit env adm user_id w).0 ≡ ok m
      → any (is_active_in adm.org.id user_id) (admit env adm user_id w).1.db.members ≡ true
  unfolding admit admit_with redeem ensure_organization_member first_member get_organization_member
      create_organization_member count_organization_members revoke_organization_invite
      accept_organization_invite
  admit-member adm user_id w m done =
      elim (Option-cases (find_first (is_active_in adm.org.id user_id) w.db.members)) [
        | inr (x, found) ↦
            grind (arith, find_first-any (is_active_in adm.org.id user_id) w.db.members x found)
        | inl missing ↦ elim (Option-cases adm.invite) [
          | inl uninvited ↦ grind (arith, added-is_active adm.org.id user_id admin w.db.members)
          | inr (i, invited) ↦ grind (
            arith,
            added-is_active adm.org.id user_id adm.role w.db.members,
            assign-keeps adm.org.id user_id i,
          )
        ]
      ]

  admit-changes :
      (name slug email token : Text) (w0 : World) (adm : OrganizationAdmission) (user_id : Text)
      (w : World)
      → (resolve_organization_for_registration env name slug email token w0).0 ≡ ok adm
      → (let w' = (admit env adm user_id w).1 in
          w'.db.members ≡ w.db.members
          ⊎ (is_empty (trim_space token) ≡ false
              × ((i : OrganizationInvite) × (adm.invite ≡ some i
                    × IsRedeemed i.id user_id w w'
                    × w'.db.members
                      ≡ w.db.members ++ new_member env i.organization_id user_id i.role ∷ [])))
          ⊎ (is_empty (trim_space token) ≡ true
              × count_if (in_organization adm.org.id) w.db.members ≡ 0
              × w'.db.members ≡ w.db.members ++ new_member env adm.org.id user_id admin ∷ []))
  admit-changes name slug email token w0 adm user_id w k =
      elim (Bool-cases (is_empty (trim_space token))) [
        | inl blank ↦
            let uninvited = created env name slug email token w0 adm blank k in
            elim (admit-rows adm user_id w) [
              | inl same ↦ inl same
              | inr (inl (i, (is_i, redeemed, added))) ↦ absurd (ground arith)
              | inr (inr (no_invite, empty, added)) ↦ inr (inr (blank, empty, added))
            ]
        | inr full ↦
            let (i, found, is_i, org, role) =
              invited env email token w0 adm (by_token env name slug email token w0 adm full k) in
            elim (admit-rows adm user_id w) [
              | inl same ↦ inl same
              | inr (inr (uninvited, empty, added)) ↦ absurd (ground arith)
              | inr (inl (j, (is_j, redeemed, added))) ↦
                  let same : j ≡ i = ground arith in
                  let own : adm.org.id ≡ i.organization_id =
                    (text_eq_iff _ _).0
                      (find_first-test (λ o. text_eq o.id i.organization_id) _ adm.org org) in
                  inr (
                    inl (
                      full,
                      (
                        i,
                        (
                          is_i,
                          subst (λ x. IsRedeemed x.id user_id w (admit env adm user_id w).1) same
                              redeemed,
                          added
                              ∙ ap₂ (λ o r. w.db.members ++ new_member env o user_id r ∷ []) own
                                  role,
                        ),
                      ),
                    ))
            ]
      ]

  -- Of the members, an admission that registration was given changes nothing, or it adds one row of the
  -- given user in the organization of the admission. Either the token was not blank, and the row has the
  -- organization and the role of the admission's invite, which was neither accepted nor revoked nor
  -- expired before and is accepted by that user after; or the token was blank, the organization had no
  -- member, and the row is an administrator's. Where the admission succeeds, the user is an active member
  -- of the organization after it.
  pub admit-adds :
      (name slug email token : Text) (w0 : World) (adm : OrganizationAdmission) (user_id : Text)
      (w : World)
      → (resolve_organization_for_registration env name slug email token w0).0 ≡ ok adm
      → (let w' = (admit env adm user_id w).1 in
          (w'.db.members ≡ w.db.members
            ⊎ (is_empty (trim_space token) ≡ false
                × ((i : OrganizationInvite) × (adm.invite ≡ some i
                      × IsRedeemed i.id user_id w w'
                      × w'.db.members
                        ≡ w.db.members ++ new_member env i.organization_id user_id i.role ∷ [])))
            ⊎ (is_empty (trim_space token) ≡ true
                × count_if (in_organization adm.org.id) w.db.members ≡ 0
                × w'.db.members ≡ w.db.members ++ new_member env adm.org.id user_id admin ∷ []))
          × ((m : OrganizationMember)
              → (admit env adm user_id w).0 ≡ ok m
              → any (is_active_in adm.org.id user_id) w'.db.members ≡ true))
  admit-adds name slug email token w0 adm user_id w k =
      (admit-changes name slug email token w0 adm user_id w k, admit-member adm user_id w)
