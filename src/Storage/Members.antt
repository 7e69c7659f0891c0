-- ===== src/Storage/Members.antt =====
-- Organization members in postgres_repository.go and organization_membership_repository.go.
use mathlib.Core.Option.{get_or}
use cuddly_lamp.Prelude.{
  map, false, ℕ, Bool, not, ◌&&◌, Option, List, [], ◌∷◌, ◌++◌, any, find_first, select,
  update_where, count_if, if◌then◌else◌,
}
use cuddly_lamp.Text.{Text, text_eq}
use cuddly_lamp.Model.Identity.{
  UserRole, admin, other, role_eq, User, Organization, OrganizationMember,
}
use cuddly_lamp.Env.{Env}
use cuddly_lamp.Storage.Action.{Db, Action, ok, err, db_error, record_not_found, query, write}

-- The primary key of `organization_members`.
abbrev pub has_key : Text → Text → OrganizationMember → Bool
has_key org_id user_id m = text_eq m.organization_id org_id && text_eq m.user_id user_id

abbrev pub in_organization : Text → OrganizationMember → Bool
in_organization org_id m = text_eq m.organization_id org_id

-- An active administrator of the organization.
abbrev pub is_admin_of : Text → OrganizationMember → Bool
is_admin_of org_id m = text_eq m.organization_id org_id && role_eq m.role admin && m.is_active

-- The zero value of `User`, where the join finds no row.
abbrev no_user : User
no_user = record {
  id = [];
  email = [];
  full_name = [];
  role = other [];
  password_hash = [];
  is_active = false;
}

preload_user : Db → OrganizationMember → OrganizationMember × User
preload_user db m = (m, get_or (find_first (λ u. text_eq u.id m.user_id) db.users) no_user)

join_organization : Db → OrganizationMember → List (OrganizationMember × Organization)
join_organization db m =
    map (λ o. (m, o)) (select (λ o. text_eq o.id m.organization_id && o.is_active) db.organizations)

join_organizations : Db → List OrganizationMember → List (OrganizationMember × Organization)
unfolding join_organization
join_organizations db [] = []
join_organizations db (m ∷ ms) = join_organization db m ++ join_organizations db ms

module _ (env : Env) where
  unfoldable pub get_organization_member : Text → Text → Action (Option OrganizationMember)
  unfolding query
  get_organization_member org_id user_id =
      query env (λ db. find_first (λ m. has_key org_id user_id m && m.is_active) db.members)

  -- With `Preload("User")`.
  unfoldable pub list_organization_members : Text → Action (List (OrganizationMember × User))
  unfolding query preload_user
  list_organization_members org_id =
      query env (λ db. map (preload_user db) (select (in_organization org_id) db.members))

  -- With the active organization that the row joins.
  unfoldable pub list_organization_members_for_user :
      Text → Action (List (OrganizationMember × Organization))
  unfolding query join_organizations
  list_organization_members_for_user user_id = query env (λ db.
      join_organizations db (select (λ m. text_eq m.user_id user_id && m.is_active) db.members))

  unfoldable pub create_organization_member : OrganizationMember → Action (Unit {0})
  unfolding write
  create_organization_member member = write env (λ _ db.
      if any (has_key member.organization_id member.user_id) db.members
      then err db_error
      else ok (record db { members = db.members ++ member ∷ [] }))

  unfoldable pub count_organization_members : Text → Action ℕ
  unfolding query
  count_organization_members org_id = query env (λ db. count_if (in_organization org_id) db.members)

  unfoldable pub count_organization_admins : Text → Action ℕ
  unfolding query
  count_organization_admins org_id = query env (λ db. count_if (is_admin_of org_id) db.members)

  unfoldable pub update_organization_member_role : Text → Text → UserRole → Action (Unit {0})
  unfolding write
  update_organization_member_role org_id user_id role = write env (λ _ db.
      if any (has_key org_id user_id) db.members
      then ok (record db {
        members = update_where (has_key org_id user_id) (λ m. record m { role = role }) db.members;
      })
      else err record_not_found)

  unfoldable pub delete_organization_member : Text → Text → Action (Unit {0})
  unfolding write
  delete_organization_member org_id user_id = write env (λ _ db.
      if any (has_key org_id user_id) db.members
      then ok (record db { members = select (λ m. not (has_key org_id user_id m)) db.members })
      else err record_not_found)
