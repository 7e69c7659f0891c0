-- ===== src/Auth/Refresh.antt =====
-- What a successful `RefreshTokens` has checked.
use cuddly_lamp.Prelude.{
  suc, ◌≡◌, Bool, true, false, ◌&&◌, Option, some, arith, find_first, find_first-test, inl, inr,
  Option-cases, is_some,
}
use cuddly_lamp.Text.{Text, text_eq}
use cuddly_lamp.Model.Identity.{
  UserRole, User, Organization, OrganizationMember, Token, TokenResponse,
}
use cuddly_lamp.Env.{Env}
use cuddly_lamp.Storage.Action.{World, ok}
use cuddly_lamp.Storage.Accounts.{get_user, get_organization}
use cuddly_lamp.Storage.Members.{get_organization_member, has_key}
use cuddly_lamp.Storage.Tokens.{get_token_by_hash, revoke_token}
use cuddly_lamp.Auth.Tokens.{AuthService, generate_token_pair_with_family}
use cuddly_lamp.Auth.Session.{is_refresh, is_expired, rotate, refresh_tokens}
use cuddly_lamp.Auth.Sessions.{by_raw}

-- The reply names the token's user and organization, of which the user is an active member.
unfoldable pub is_for_member : Token → World → TokenResponse → Bool
is_for_member t w r =
    text_eq r.user.id t.user_id
    && text_eq r.organization.id t.organization_id
    && is_some (find_first (λ m. has_key r.organization.id r.user.id m && m.is_active) w.db.members)

unfoldable is_member_of : Token → User → Organization → World → Bool
is_member_of t user org w =
    text_eq user.id t.user_id
    && text_eq org.id t.organization_id
    && is_some (find_first (λ m. has_key org.id user.id m && m.is_active) w.db.members)

found-member :
    (t : Token) (w : World) (u : User) (o : Organization) (m : OrganizationMember)
    → find_first (λ x. text_eq x.id t.user_id) w.db.users ≡ some u
    → find_first (λ x. text_eq x.id t.organization_id) w.db.organizations ≡ some o
    → find_first (λ x. has_key o.id u.id x && x.is_active) w.db.members ≡ some m
    → is_member_of t u o w ≡ true
unfolding is_member_of
found-member t w u o m e e' e'' = ground (
  arith,
  find_first-test (λ x. text_eq x.id t.user_id) w.db.users u e,
  find_first-test (λ x. text_eq x.id t.organization_id) w.db.organizations o e',
)

module _ (env : Env) (s : AuthService) where
  pair-reply :
      (user : User) (org : Organization) (role : UserRole) (family : Text) (parent : Option Text)
      (w : World) (r : TokenResponse)
      → (generate_token_pair_with_family env s user org role family parent w).0 ≡ ok r
      → r.user.id ≡ user.id × r.organization.id ≡ org.id
  unfolding generate_token_pair_with_family
  pair-reply user org role family parent w r h = (ground arith, ground arith)

  pair-member :
      (t : Token) (user : User) (org : Organization) (role : UserRole) (family : Text)
      (parent : Option Text) (w w' : World) (r : TokenResponse)
      → is_member_of t user org w ≡ true
      → (generate_token_pair_with_family env s user org role family parent w').0 ≡ ok r
      → is_for_member t w r ≡ true
  unfolding is_member_of is_for_member
  pair-member t user org role family parent w w' r h k =
      let same = pair-reply user org role family parent w' r k in rw (same.0, same.1) h

  rotate-member :
      (t : Token) (w : World) (r : TokenResponse)
      → (rotate env s t w).0 ≡ ok r
      → is_for_member t w r ≡ true
  unfolding rotate revoke_token get_user get_organization get_organization_member
  rotate-member t w r h =
      elim (Option-cases (find_first (λ u. text_eq u.id t.user_id) w.db.users)) [
        | inl e ↦ ground arith
        | inr (u, e) ↦
            elim (Option-cases
              (find_first (λ o. text_eq o.id t.organization_id) w.db.organizations)) [
                | inl e' ↦ ground arith
                | inr (o, e') ↦
                    elim (Option-cases
                      (find_first (λ m. has_key o.id u.id m && m.is_active) w.db.members)) [
                        | inl e'' ↦ ground arith
                        | inr (m, e'') ↦ grind (arith, pair-member, found-member t w u o m e e' e'')
                      ]
              ]
      ]

  -- A successful refresh has checked that the token's record is that of a refresh token, unrevoked
  -- and unexpired, and its reply names the user and the organization of the record, of which the
  -- user is an active member.
  pub refresh_is_checked :
      (raw : Text) (w : World) (t : Token) (r : TokenResponse)
      → by_raw env raw w ≡ some t
      → (refresh_tokens env s raw w).0 ≡ ok r
      → is_refresh t.type ≡ true
        × t.is_revoked ≡ false
        × is_expired t w.clock ≡ false
        × is_for_member t w r ≡ true
  unfolding refresh_tokens get_token_by_hash is_for_member
  refresh_is_checked raw w t r e h = (
    ground arith,
    ground arith,
    ground arith,
    ground (arith, rotate-member t (record w { calls = suc w.calls }) r),
  )
