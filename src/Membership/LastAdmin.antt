-- ===== src/Membership/LastAdmin.antt =====
-- An organization that has an administrator keeps one through every role change and removal.
use cuddly_lamp.Prelude.{◌≤◌, sym, subst, inl, inr, arith, Bool-cases, Option-cases}
use cuddly_lamp.Text.{Text, text_eq}
use cuddly_lamp.Model.Identity.{UserRole}
use cuddly_lamp.Env.{Env}
use cuddly_lamp.Storage.Action.{World}
use cuddly_lamp.Storage.Members.{
  get_organization_member, count_organization_admins, update_organization_member_role,
  delete_organization_member,
}
use cuddly_lamp.Membership.{update_member_role, remove_member}
use cuddly_lamp.Membership.Admins.{
  HasUniqueKeys, admins_of, active_row, admins_of-update, admins_of-delete, admins_of-update_kept,
  admins_of-delete_kept, admins_of-update_other, admins_of-delete_other,
}
use cuddly_lamp.Text.Laws.{text_eq_iff}

module _ (env : Env) (org_id acting target : Text) (w : World)
    (u : HasUniqueKeys w.db.members) where
  -- For the organization that the request names.
  own_role_change :
      (role : UserRole)
      → 1 ≤ admins_of org_id w.db.members
      → 1 ≤ admins_of org_id (update_member_role env org_id acting target role w).1.db.members
  unfolding update_member_role get_organization_member count_organization_admins
      update_organization_member_role
  own_role_change role h = elim (Option-cases (active_row org_id target w.db.members)) [
    | inl gone ↦ ground arith
    | inr (found, e) ↦ ground (
      arith,
      admins_of-update org_id target org_id role w.db.members u,
      admins_of-update_kept org_id target org_id role w.db.members found u e,
    )
  ]

  own_removal :
      1 ≤ admins_of org_id w.db.members
      → 1 ≤ admins_of org_id (remove_member env org_id acting target w).1.db.members
  unfolding remove_member get_organization_member count_organization_admins
      delete_organization_member
  own_removal h = elim (Option-cases (active_row org_id target w.db.members)) [
    | inl gone ↦ ground arith
    | inr (found, e) ↦ ground (
      arith,
      admins_of-delete org_id target org_id w.db.members u,
      admins_of-delete_kept org_id target org_id w.db.members found u e,
    )
  ]

-- From a table that respects the primary key of members and an organization `o` with an active
-- administrator, `UpdateMemberRole` on any organization, by anyone, for any target and role, whatever
-- calls of the repository fail, leaves `o` with an active administrator.
pub update_member_role-keeps_admin :
    (env : Env) (org_id acting target : Text) (role : UserRole) (w : World) (o : Text)
    → HasUniqueKeys w.db.members
    → 1 ≤ admins_of o w.db.members
    → 1 ≤ admins_of o (update_member_role env org_id acting target role w).1.db.members
unfolding update_member_role get_organization_member count_organization_admins
    update_organization_member_role
update_member_role-keeps_admin env org_id acting target role w o u h =
    elim (Bool-cases (text_eq org_id o)) [
      | inl same ↦
          subst
            (λ t. 1 ≤ admins_of t (update_member_role env org_id acting target role w).1.db.members)
            ((text_eq_iff org_id o).0 same)
            (own_role_change env org_id acting target w u role
              (subst (λ t. 1 ≤ admins_of t w.db.members) (sym ((text_eq_iff org_id o).0 same)) h))
      | inr differs ↦ ground (arith, admins_of-update_other org_id target o role w.db.members)
    ]

-- From a table that respects the primary key of members and an organization `o` with an active
-- administrator, `RemoveMember` on any organization, by anyone, for any target, whatever calls of the
-- repository fail, leaves `o` with an active administrator.
pub remove_member-keeps_admin :
    (env : Env) (org_id acting target : Text) (w : World) (o : Text)
    → HasUniqueKeys w.db.members
    → 1 ≤ admins_of o w.db.members
    → 1 ≤ admins_of o (remove_member env org_id acting target w).1.db.members
unfolding remove_member get_organization_member count_organization_admins delete_organization_member
remove_member-keeps_admin env org_id acting target w o u h = elim (Bool-cases (text_eq org_id o)) [
  | inl same ↦
      subst (λ t. 1 ≤ admins_of t (remove_member env org_id acting target w).1.db.members)
        ((text_eq_iff org_id o).0 same)
        (own_removal env org_id acting target w u
          (subst (λ t. 1 ≤ admins_of t w.db.members) (sym ((text_eq_iff org_id o).0 same)) h))
  | inr differs ↦ ground (arith, admins_of-delete_other org_id target o w.db.members)
]
