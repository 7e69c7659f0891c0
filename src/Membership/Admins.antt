-- ===== src/Membership/Admins.antt =====
-- How a change of one row of `organization_members` changes the count of administrators.
use cuddly_lamp.Prelude.{
  ℕ, ◌+◌, ◌≤◌, ◌≡◌, refl, true, false, not, ◌&&◌, inl, inr, Option, List, [], ◌∷◌, arith, any, some,
  find_first, select, update_where, count_if, Bool-cases,
}
use cuddly_lamp.Text.{Text, text_eq}
use cuddly_lamp.Text.Laws.{text_eq_iff}
use cuddly_lamp.Model.Identity.{UserRole, admin, role_eq, OrganizationMember}
use cuddly_lamp.Storage.Members.{has_key, is_admin_of}

-- The primary key (organization_id, user_id).
abbrev pub HasUniqueKeys : List OrganizationMember → Type 0
HasUniqueKeys [] = Unit
HasUniqueKeys (m ∷ ms) = (any (has_key m.organization_id m.user_id) ms ≡ false) × HasUniqueKeys ms

abbrev pub admins_of : Text → List OrganizationMember → ℕ
admins_of org_id = count_if (is_admin_of org_id)

abbrev pub set_role : UserRole → OrganizationMember → OrganizationMember
set_role role m = record m { role = role }

module _ (org_id user_id : Text) where
  -- The same key, written with another row's fields.
  key_of_row :
      (m : OrganizationMember) (ms : List OrganizationMember)
      → has_key org_id user_id m ≡ true
      → any (has_key m.organization_id m.user_id) ms ≡ false
      → any (has_key org_id user_id) ms ≡ false
  key_of_row m [] k h = refl
  key_of_row m (x ∷ xs) k h = ground (
    arith,
    key_of_row m xs k,
    text_eq_iff m.organization_id org_id,
    text_eq_iff m.user_id user_id,
    text_eq_iff x.organization_id org_id,
    text_eq_iff x.user_id user_id,
    text_eq_iff x.organization_id m.organization_id,
    text_eq_iff x.user_id m.user_id,
  )

  no_row-update :
      (role : UserRole) (ms : List OrganizationMember)
      → any (has_key org_id user_id) ms ≡ false
      → update_where (has_key org_id user_id) (set_role role) ms ≡ ms
  no_row-update role [] h = refl
  no_row-update role (m ∷ ms) h = ground (arith, no_row-update role ms)

  no_row-delete :
      (ms : List OrganizationMember)
      → any (has_key org_id user_id) ms ≡ false
      → select (λ m. not (has_key org_id user_id m)) ms ≡ ms
  no_row-delete [] h = refl
  no_row-delete (m ∷ ms) h = ground (arith, no_row-delete ms)

  -- A change of one key takes away at most one administrator.
  pub admins_of-update :
      (o : Text) (role : UserRole) (ms : List OrganizationMember)
      → HasUniqueKeys ms
      → admins_of o ms ≤ admins_of o (update_where (has_key org_id user_id) (set_role role) ms) + 1
  admins_of-update o role [] u = omega arith
  admins_of-update o role (m ∷ ms) u = elim (Bool-cases (has_key org_id user_id m)) [
    | inl k ↦ rw (k, no_row-update role ms (key_of_row m ms k u.0)) (ground arith)
    | inr k ↦ rw k (omega (arith, admins_of-update o role ms u.1))
  ]

  pub admins_of-delete :
      (o : Text) (ms : List OrganizationMember)
      → HasUniqueKeys ms
      → admins_of o ms ≤ admins_of o (select (λ m. not (has_key org_id user_id m)) ms) + 1
  admins_of-delete o [] u = omega arith
  admins_of-delete o (m ∷ ms) u = elim (Bool-cases (has_key org_id user_id m)) [
    | inl k ↦ rw (k, no_row-delete ms (key_of_row m ms k u.0)) (ground arith)
    | inr k ↦ rw k (ground (arith, admins_of-delete o ms u.1))
  ]

  abbrev pub active_row : List OrganizationMember → Option OrganizationMember
  active_row = find_first (λ m. has_key org_id user_id m && m.is_active)

  -- It takes away none where the active row of the key is no administrator.
  pub admins_of-update_kept :
      (o : Text) (role : UserRole) (ms : List OrganizationMember) (found : OrganizationMember)
      → HasUniqueKeys ms
      → active_row ms ≡ some found
      → role_eq found.role admin ≡ false
      → admins_of o ms ≤ admins_of o (update_where (has_key org_id user_id) (set_role role) ms)
  admins_of-update_kept o role [] found u e r = omega arith
  admins_of-update_kept o role (m ∷ ms) found u e r = elim (Bool-cases (has_key org_id user_id m)) [
    | inl k ↦ rw (k, no_row-update role ms (key_of_row m ms k u.0)) (ground arith)
    | inr k ↦ rw k (ground (arith, admins_of-update_kept o role ms found u.1))
  ]

  pub admins_of-delete_kept :
      (o : Text) (ms : List OrganizationMember) (found : OrganizationMember)
      → HasUniqueKeys ms
      → active_row ms ≡ some found
      → role_eq found.role admin ≡ false
      → admins_of o ms ≤ admins_of o (select (λ m. not (has_key org_id user_id m)) ms)
  admins_of-delete_kept o [] found u e r = omega arith
  admins_of-delete_kept o (m ∷ ms) found u e r = elim (Bool-cases (has_key org_id user_id m)) [
    | inl k ↦ rw (k, no_row-delete ms (key_of_row m ms k u.0)) (ground arith)
    | inr k ↦ rw k (ground (arith, admins_of-delete_kept o ms found u.1))
  ]

  pub admins_of-update_other :
      (o : Text) (role : UserRole) (ms : List OrganizationMember)
      → text_eq org_id o ≡ false
      → admins_of o (update_where (has_key org_id user_id) (set_role role) ms) ≡ admins_of o ms
  admins_of-update_other o role [] h = refl
  admins_of-update_other o role (m ∷ ms) h = ground (
    arith,
    admins_of-update_other o role ms,
    text_eq_iff m.organization_id org_id,
    text_eq_iff m.organization_id o,
    text_eq_iff org_id o,
  )

  pub admins_of-delete_other :
      (o : Text) (ms : List OrganizationMember)
      → text_eq org_id o ≡ false
      → admins_of o (select (λ m. not (has_key org_id user_id m)) ms) ≡ admins_of o ms
  admins_of-delete_other o [] h = refl
  admins_of-delete_other o (m ∷ ms) h = ground (
    arith,
    admins_of-delete_other o ms,
    text_eq_iff m.organization_id org_id,
    text_eq_iff m.organization_id o,
    text_eq_iff org_id o,
  )
