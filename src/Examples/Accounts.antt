-- ===== src/Examples/Accounts.antt =====
-- Accounts, invites and members of the small organization.
use cuddly_lamp.Prelude.{
  any, find_first, ◌+◌, ◌≤◌, ◌<◌, ◌≡◌, ◌≢◌, ◌⊎◌, refl, true, false, none, some, [], ◌∷◌, ◌++◌,
  arith, count_if,
}
use cuddly_lamp.Text.{
  text, text_eq, is_empty, trim_space, trim_left, is_space, equal_fold, fold_rune,
}
use cuddly_lamp.Model.Identity.{
  admin, developer, role_eq, OrganizationMember, OrganizationInvite, is_redeemable, matches_email,
}
use cuddly_lamp.Storage.Action.{World, ok}
use cuddly_lamp.Storage.Accounts.{
  get_organization, get_organization_invite_by_hash, accept_organization_invite,
}
use cuddly_lamp.Storage.Members.{in_organization}
use cuddly_lamp.Membership.{
  update_member_role, remove_member, resolve_invite, invite_expiry, requested_ttl,
  hash_invite_token,
}
use cuddly_lamp.Membership.Admins.{HasUniqueKeys, admins_of}
use cuddly_lamp.Membership.LastAdmin.{update_member_role-keeps_admin, remove_member-keeps_admin}
use cuddly_lamp.Membership.Invites.{accept-once, AcceptedIn, accept-all_or_nothing}
use cuddly_lamp.Auth.Registration.{
  OrganizationAdmission, resolve_organization_for_registration, admission_by_invite, admit,
  new_member, register_with_email,
}
use cuddly_lamp.Auth.Registration.Members.{members_of, register-keeps_members}
use cuddly_lamp.Auth.Registration.Admission.{folded, admission-is_invited}
use cuddly_lamp.Auth.Registration.Redemption.{is_active_in, IsRedeemed, admit-adds}
use cuddly_lamp.Examples.{acme, invite, service, env, world}

abbrev now : World
now = world []

keys_differ : HasUniqueKeys now.db.members
unfolding text_eq
keys_differ = (refl, (refl, tt))

has_admin : 1 ≤ admins_of (text "o") now.db.members
unfolding text_eq role_eq
has_admin = omega arith

update_member_role-keeps_admin_example :
    1
    ≤ admins_of
        (text "o")
        (update_member_role env (text "o") (text "alice") (text "bob") developer now).1.db.members
update_member_role-keeps_admin_example =
    update_member_role-keeps_admin env (text "o") (text "alice") (text "bob") developer now
      (text "o") keys_differ has_admin

remove_member-keeps_admin_example :
    1
    ≤ admins_of
        (text "o")
        (remove_member env (text "o") (text "alice") (text "bob") now).1.db.members
remove_member-keeps_admin_example =
    remove_member-keeps_admin env (text "o") (text "alice") (text "bob") now (text "o") keys_differ
      has_admin

blank_token : is_empty (trim_space (text " ")) ≡ true
unfolding trim_space trim_left is_space
blank_token = refl

other_org : text_eq (env.uuid 200) (text "o") ≡ false
unfolding text_eq
other_org = refl

register-keeps_members_example :
    members_of
      (text "o")
      (register_with_email env service
        (text "eve@x.io")
        (text "Eve")
        (text "Secret123")
        (text "Acme")
        (text "acme")
        (text " ")
        now).1
    ≡ members_of (text "o") now
register-keeps_members_example =
    register-keeps_members env service (text "o") (text "eve@x.io") (text "Eve") (text "Secret123")
      (text "Acme") (text "acme") (text " ") now blank_token other_org

abbrev admission : OrganizationAdmission
admission = record { org = acme; role = developer; invite = some invite }

full_token : is_empty (trim_space (text "inv")) ≡ false
unfolding trim_space trim_left is_space
full_token = refl

is_admitted :
    (resolve_organization_for_registration env
      (text "")
      (text "")
      (text "carol@acme.io")
      (text "inv")
      now).0
    ≡ ok admission
unfolding resolve_organization_for_registration admission_by_invite resolve_invite
    get_organization_invite_by_hash get_organization trim_space trim_left is_space hash_invite_token
    text_eq is_redeemable matches_email equal_fold fold_rune
is_admitted = refl

admission-is_invited_example :
    (i : OrganizationInvite) × some invite ≡ some i
    × find_first
        (λ x. text_eq x.token_hash (env.sha256 (trim_space (trim_space (text "inv")))))
        now.db.invites
      ≡ some i
    × (i.accepted_at ≡ none × i.revoked_at ≡ none × 1000 < i.expires_at)
    × folded env i.email ≡ folded env (text "carol@acme.io")
    × find_first (λ o. text_eq o.id i.organization_id) now.db.organizations ≡ some acme
    × developer ≡ i.role
admission-is_invited_example =
    admission-is_invited env (text "") (text "") (text "carol@acme.io") (text "inv") now admission
      full_token is_admitted

admit-adds_example :
    (let w' = (admit env admission (text "carol") now).1 in
      (w'.db.members ≡ now.db.members
        ⊎ (is_empty (trim_space (text "inv")) ≡ false
            × ((i : OrganizationInvite) × (some invite ≡ some i
                  × IsRedeemed i.id (text "carol") now w'
                  × w'.db.members
                    ≡ now.db.members
                      ++ new_member env i.organization_id (text "carol") i.role ∷ [])))
        ⊎ (is_empty (trim_space (text "inv")) ≡ true
            × count_if (in_organization (text "o")) now.db.members ≡ 0
            × w'.db.members
              ≡ now.db.members ++ new_member env (text "o") (text "carol") admin ∷ []))
      × ((m : OrganizationMember)
          → (admit env admission (text "carol") now).0 ≡ ok m
          → any (is_active_in (text "o") (text "carol")) w'.db.members ≡ true))
admit-adds_example =
    admit-adds env (text "") (text "") (text "carol@acme.io") (text "inv") now admission
      (text "carol") now is_admitted

abbrev carol_in_acme : OrganizationMember
carol_in_acme = new_member env (text "o") (text "carol") developer

abbrev spent : World
spent = (accept_organization_invite env (text "i") carol_in_acme now).1

is_spent : (accept_organization_invite env (text "i") carol_in_acme now).0 ≡ ok tt
unfolding accept_organization_invite text_eq
is_spent = refl

accept-once_example :
    (accept_organization_invite env (text "i") carol_in_acme (record spent { clock = 1000 + 60 })).0
      ≢ ok tt
    × (accept_organization_invite env
        (text "i")
        carol_in_acme
        (record spent { clock = 1000 + 60 })).1.db
      ≡ spent.db
accept-once_example = accept-once env (text "i") carol_in_acme carol_in_acme now 60 is_spent

accept-all_or_nothing_example :
    ((accept_organization_invite env (text "i") carol_in_acme now).0 ≡ ok tt
      × AcceptedIn env (text "i") carol_in_acme now spent)
    ⊎ ((accept_organization_invite env (text "i") carol_in_acme now).0 ≢ ok tt × spent.db ≡ now.db)
accept-all_or_nothing_example = accept-all_or_nothing env (text "i") carol_in_acme now

-- From 2562048 hours on the duration wraps around: the invite has expired already.
wrapped_invite : invite_expiry 1000 2562048 ≡ 0
unfolding invite_expiry requested_ttl
wrapped_invite = refl
