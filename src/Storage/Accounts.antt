-- ===== src/Storage/Accounts.antt =====
-- Users, organizations and invites in postgres_repository.go and organization_membership_repository.go.
use cuddly_lamp.Prelude.{
  ℕ, Bool, not, ◌&&◌, Option, some, [], ◌∷◌, ◌++◌, ltb, any, find_first, update_where, is_some,
  if◌then◌else◌,
}
use cuddly_lamp.Text.{Text, text_eq, to_lower}
use cuddly_lamp.Model.Identity.{
  User, user_is_valid, Organization, organization_is_valid, OrganizationConfig, apply_defaults,
  OrganizationMember, OrganizationInvite,
}
use cuddly_lamp.Env.{Env}
use cuddly_lamp.Storage.Action.{
  Action, ok, err, db_error, record_not_found, invite_not_redeemable, raise, query, write,
}

module _ (env : Env) where
  unfoldable pub get_user : Text → Action (Option User)
  unfolding query
  get_user id = query env (λ db. find_first (λ u. text_eq u.id id) db.users)

  unfoldable pub get_user_by_email : Text → Action (Option User)
  unfolding query
  get_user_by_email email = query env (λ db. find_first (λ u. text_eq u.email email) db.users)

  -- The e-mail column is unique.
  unfoldable pub create_user : User → Action (Unit {0})
  unfolding write user_is_valid
  create_user user =
      if user_is_valid user
      then write env (λ _ db.
        if any (λ u. text_eq u.email user.email) db.users
        then err db_error
        else ok (record db { users = db.users ++ user ∷ [] }))
      else raise db_error

  unfoldable pub get_organization : Text → Action (Option Organization)
  unfolding query
  get_organization id = query env (λ db. find_first (λ o. text_eq o.id id) db.organizations)

  unfoldable pub get_organization_by_slug : Text → Action (Option Organization)
  unfolding query
  get_organization_by_slug slug =
      query env (λ db. find_first (λ o. text_eq o.slug slug) db.organizations)

  -- The slug column is unique.
  unfoldable pub create_organization : Organization → Action (Unit {0})
  unfolding write organization_is_valid
  create_organization org =
      if organization_is_valid org
      then write env (λ _ db.
        if any (λ o. text_eq o.slug org.slug) db.organizations
        then err db_error
        else ok (record db { organizations = db.organizations ++ org ∷ [] }))
      else raise db_error

  -- `INSERT .. ON CONFLICT (organization_id) DO UPDATE`
  unfoldable pub upsert_organization_config : OrganizationConfig → Action (Unit {0})
  unfolding write apply_defaults
  upsert_organization_config cfg = write env (λ _ db.
      let row = apply_defaults cfg in
      if any (λ c. text_eq c.organization_id row.organization_id) db.configs
      then ok (record db {
        configs =
            update_where (λ c. text_eq c.organization_id row.organization_id) (λ _. row) db.configs;
      })
      else ok (record db { configs = db.configs ++ row ∷ [] }))

  abbrev pub is_open : OrganizationInvite → Bool
  is_open i = not (is_some i.accepted_at) && not (is_some i.revoked_at)

  -- The token hash is unique, and so is (organization, lower(email)) among open invites.
  unfoldable pub create_organization_invite : OrganizationInvite → Action (Unit {0})
  unfolding write
  create_organization_invite invite = write env (λ _ db.
      if any (λ i. text_eq i.token_hash invite.token_hash) db.invites
      then err db_error
      else if any
          (λ i.
            is_open i
            && text_eq i.organization_id invite.organization_id
            && text_eq (to_lower env.unicode i.email) (to_lower env.unicode invite.email))
          db.invites
      then err db_error
      else ok (record db { invites = db.invites ++ invite ∷ [] }))

  unfoldable pub get_organization_invite_by_hash : Text → Action (Option OrganizationInvite)
  unfolding query
  get_organization_invite_by_hash hash =
      query env (λ db. find_first (λ i. text_eq i.token_hash hash) db.invites)

  unfoldable pub get_organization_invite : Text → Action (Option OrganizationInvite)
  unfolding query
  get_organization_invite id = query env (λ db. find_first (λ i. text_eq i.id id) db.invites)

  -- `UPDATE .. WHERE id = ? AND accepted_at IS NULL AND revoked_at IS NULL`
  unfoldable pub revoke_organization_invite : Text → Action (Unit {0})
  unfolding write
  revoke_organization_invite id = write env (λ now db.
      if any (λ i. text_eq i.id id && is_open i) db.invites
      then ok (record db {
        invites =
            update_where (λ i. text_eq i.id id && is_open i)
              (λ i. record i { revoked_at = some now }) db.invites;
      })
      else err record_not_found)

  -- `WHERE id = ? AND accepted_at IS NULL AND revoked_at IS NULL AND expires_at > ?`
  abbrev pub matches_redeemable : Text → ℕ → OrganizationInvite → Bool
  matches_redeemable id now i = text_eq i.id id && is_open i && ltb now i.expires_at

  abbrev pub accept_row : Text → ℕ → OrganizationInvite → OrganizationInvite
  accept_row user_id now i = record i { accepted_at = some now; accepted_by_user_id = some user_id }

  -- One transaction: the member row's primary key may refuse it, and then the invite is not spent.
  unfoldable pub accept_organization_invite : Text → OrganizationMember → Action (Unit {0})
  unfolding write
  accept_organization_invite invite_id member = write env (λ now db.
      if any (matches_redeemable invite_id now) db.invites
      then (if any
            (λ m.
              text_eq m.organization_id member.organization_id && text_eq m.user_id member.user_id)
            db.members
          then err db_error
          else ok (record db {
            invites =
                update_where (matches_redeemable invite_id now) (accept_row member.user_id now)
                  db.invites;
            members = db.members ++ member ∷ [];
          }))
      else err invite_not_redeemable)
