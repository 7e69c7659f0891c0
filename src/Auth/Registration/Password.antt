-- ===== src/Auth/Registration/Password.antt =====
-- What registration does with the password of an address that has an account.
use cuddly_lamp.Prelude.{◌≡◌, false, some, arith, find_first}
use cuddly_lamp.Text.{Text, text_eq}
use cuddly_lamp.Model.Identity.{User}
use cuddly_lamp.Env.{Env}
use cuddly_lamp.Storage.Action.{World}
use cuddly_lamp.Storage.Accounts.{get_user_by_email}
use cuddly_lamp.Auth.Tokens.{AuthService}
use cuddly_lamp.Auth.Registration.{OrganizationAdmission, user_or_new, enter}

module _ (env : Env) (s : AuthService) where
  -- Once admitted, an address that has an account enters with any password: where its look-up does not
  -- fail, neither the reply nor what is stored depends on the password.
  pub enter-any_password :
      (email full_name password other : Text) (adm : OrganizationAdmission) (w : World)
      (user : User)
      → env.faults w.calls ≡ false
      → find_first (λ u. text_eq u.email email) w.db.users ≡ some user
      → enter env s email full_name password adm w ≡ enter env s email full_name other adm w
  unfolding enter get_user_by_email user_or_new
  enter-any_password email full_name password other adm w user q e = ground arith
