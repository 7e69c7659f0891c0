-- ===== src/Auth/Login/Checks.antt =====
-- What a login and a choice of organization have checked before they issue tokens.
use cuddly_lamp.Prelude.{
  ◌≡◌, true, some, arith, find_first, any, is_some, inl, inr, Option-cases, ◌&&◌,
}
use cuddly_lamp.Text.{Text, text_eq}
use cuddly_lamp.Model.Identity.{User, Organization, TokenResponse}
use cuddly_lamp.Env.{Env, TicketClaims}
use cuddly_lamp.Storage.Action.{World, ok}
use cuddly_lamp.Storage.Accounts.{get_user, get_user_by_email, get_organization}
use cuddly_lamp.Storage.Members.{get_organization_member, has_key}
use cuddly_lamp.Auth.Password.{verify_password_hash}
use cuddly_lamp.Auth.Tokens.{AuthService}
use cuddly_lamp.Auth.Login.{
  LoginResult, login_with_email, select_organization, active_organization,
  verify_login_selection_ticket, ticket_purpose,
}

module _ (env : Env) (s : AuthService) where
  -- A login, with tokens or with a choice of organizations, has found an active user with the address
  -- whose password hash the password fits.
  pub login-is_checked :
      (email password slug : Text) (w : World) (r : LoginResult)
      → (login_with_email env s email password slug w).0 ≡ ok r
      → (u : User) × find_first (λ x. text_eq x.email email) w.db.users ≡ some u
        × verify_password_hash env u.password_hash password ≡ true
        × u.is_active ≡ true
  unfolding login_with_email get_user_by_email
  login-is_checked email password slug w r h =
      elim (Option-cases (find_first (λ x. text_eq x.email email) w.db.users)) [
        | inl e ↦ absurd (ground arith)
        | inr (u, e) ↦ (u, e, ground arith, ground arith)
      ]

  -- A choice of organization has checked a ticket for this purpose that lists the organization, and
  -- found the ticket's user and the organization active, and the user an active member of it.
  pub select-is_checked :
      (ticket organization_id : Text) (w : World) (r : TokenResponse)
      → (select_organization env s ticket organization_id w).0 ≡ ok r
      → (c : TicketClaims) × (u : User) × (o : Organization) × env.parse_ticket s.jwt_secret w.clock
            ticket
          ≡ some c
        × text_eq c.purpose ticket_purpose ≡ true
        × any (λ id. text_eq id organization_id) c.organization_ids ≡ true
        × find_first (λ x. text_eq x.id c.user_id) w.db.users ≡ some u
        × u.is_active ≡ true
        × find_first (λ x. text_eq x.id organization_id) w.db.organizations ≡ some o
        × o.is_active ≡ true
        × is_some (find_first (λ m. has_key o.id u.id m && m.is_active) w.db.members) ≡ true
  unfolding select_organization verify_login_selection_ticket active_organization get_user
      get_organization get_organization_member
  select-is_checked ticket organization_id w r h =
      elim (Option-cases (env.parse_ticket s.jwt_secret w.clock ticket)) [
        | inl e ↦ absurd (ground arith)
        | inr (c, e) ↦ elim (Option-cases (find_first (λ x. text_eq x.id c.user_id) w.db.users)) [
          | inl e' ↦ absurd (ground arith)
          | inr (u, e') ↦
              elim (Option-cases
                (find_first (λ x. text_eq x.id organization_id) w.db.organizations)) [
                  | inl e'' ↦ absurd (ground arith)
                  | inr (o, e'') ↦ (
                    c,
                    u,
                    o,
                    e,
                    ground arith,
                    ground arith,
                    e',
                    ground arith,
                    e'',
                    ground arith,
                    ground arith,
                  )
                ]
        ]
      ]
