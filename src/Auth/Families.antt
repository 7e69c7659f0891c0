-- ===== src/Auth/Families.antt =====
-- What an operation does to the live tokens of a family.
use cuddly_lamp.Prelude.{
  ℕ, ◌+◌, ◌≤◌, ◌≡◌, refl, Bool, true, false, not, ◌&&◌, Option, some, List, [], ◌∷◌, arith,
  count_if, find_first, count_if-append, count_if-update_lt, if◌then◌else◌,
}
use cuddly_lamp.Text.{Text, text_eq}
use cuddly_lamp.Text.Laws.{text_eq_refl}
use cuddly_lamp.Model.Identity.{UserRole, User, Organization, Token, RevokeReason, rotated}
use cuddly_lamp.Env.{Env}
use cuddly_lamp.Storage.Action.{World}
use cuddly_lamp.Storage.Tokens.{
  in_family, revoke_row, revoke_family_rows, revoke_rows, create_token,
}
use cuddly_lamp.Auth.Tokens.{AuthService, generate_token_pair_with_family}
use cuddly_lamp.Auth.Session.{is_refresh}

-- An unrevoked token of the family, and an unrevoked refresh token of it.
abbrev pub is_live : Text → Token → Bool
is_live family t = in_family family t && not t.is_revoked

abbrev pub is_live_refresh : Text → Token → Bool
is_live_refresh family t = is_refresh t.type && is_live family t

abbrev pub live : Text → List Token → ℕ
live family = count_if (is_live family)

abbrev pub live_refresh : Text → List Token → ℕ
live_refresh family = count_if (is_live_refresh family)

module _ (f : Text) where
  pub live-revoke :
      (jti : Text) (r : RevokeReason) (now : ℕ) (ts : List Token)
      → live f (revoke_rows jti r now ts) ≤ live f ts
  unfolding revoke_rows in_family
  live-revoke jti r now [] = omega arith
  live-revoke jti r now (t ∷ ts) = ground (arith, live-revoke jti r now ts)

  pub live_refresh-revoke :
      (jti : Text) (r : RevokeReason) (now : ℕ) (ts : List Token)
      → live_refresh f (revoke_rows jti r now ts) ≤ live_refresh f ts
  unfolding revoke_rows in_family
  live_refresh-revoke jti r now [] = omega arith
  live_refresh-revoke jti r now (t ∷ ts) = ground (arith, live_refresh-revoke jti r now ts)

  pub live-revoke_family :
      (g : Text) (r : RevokeReason) (now : ℕ) (ts : List Token)
      → live f (revoke_family_rows g r now ts) ≤ live f ts
  unfolding revoke_family_rows in_family
  live-revoke_family g r now [] = omega arith
  live-revoke_family g r now (t ∷ ts) = ground (arith, live-revoke_family g r now ts)

  pub live_refresh-revoke_family :
      (g : Text) (r : RevokeReason) (now : ℕ) (ts : List Token)
      → live_refresh f (revoke_family_rows g r now ts) ≤ live_refresh f ts
  unfolding revoke_family_rows in_family
  live_refresh-revoke_family g r now [] = omega arith
  live_refresh-revoke_family g r now (t ∷ ts) =
      ground (arith, live_refresh-revoke_family g r now ts)

  -- Nothing of a revoked family is live.
  pub live-revoke_own :
      (r : RevokeReason) (now : ℕ) (ts : List Token) → live f (revoke_family_rows f r now ts) ≡ 0
  unfolding revoke_family_rows in_family
  live-revoke_own r now [] = refl
  live-revoke_own r now (t ∷ ts) = ground (arith, live-revoke_own r now ts)

  -- Revoking the refresh token that a look-up found takes one away.
  pub live_refresh-rotate :
      (hash : Text) (now : ℕ) (ts : List Token) (t : Token)
      → find_first (λ x. text_eq x.token_hash hash) ts ≡ some t
      → is_live_refresh f t ≡ true
      → live_refresh f (revoke_rows t.jti rotated now ts) + 1 ≤ live_refresh f ts
  unfolding revoke_rows
  live_refresh-rotate hash now ts t e l =
      count_if-update_lt (is_live_refresh f) (λ x. text_eq x.jti t.jti)
        (λ x. text_eq x.token_hash hash) (revoke_row rotated now) ts t (λ y h. ground arith) e
        (text_eq_refl t.jti) l

  pub live_refresh-create :
      (env : Env) (t : Token) (w : World)
      → live_refresh f (create_token env t w).1.db.tokens
        ≤ live_refresh f w.db.tokens + (if is_live_refresh f t then 1 else 0)
  unfolding create_token
  live_refresh-create env t w =
      ground (arith, count_if-append (is_live_refresh f) w.db.tokens (t ∷ []))

  pub live-create :
      (env : Env) (t : Token) (w : World)
      → live f (create_token env t w).1.db.tokens
        ≤ live f w.db.tokens + (if is_live f t then 1 else 0)
  unfolding create_token
  live-create env t w = ground (arith, count_if-append (is_live f) w.db.tokens (t ∷ []))

-- A new pair adds a live refresh token to its own family, and no live token to any other.
module _ (env : Env) (s : AuthService) (user : User) (org : Organization) (role : UserRole) where
  pub live_refresh-pair :
      (family : Text) (parent : Option Text) (f : Text) (w : World)
      → live_refresh f
          (generate_token_pair_with_family env s user org role family parent w).1.db.tokens
        ≤ live_refresh f w.db.tokens + (if text_eq family f then 1 else 0)
  unfolding generate_token_pair_with_family in_family
  live_refresh-pair family parent f w = grind (arith, live_refresh-create)

  pub live-pair :
      (family : Text) (parent : Option Text) (f : Text) (w : World)
      → text_eq family f ≡ false
      → live f (generate_token_pair_with_family env s user org role family parent w).1.db.tokens
        ≤ live f w.db.tokens
  unfolding generate_token_pair_with_family in_family
  live-pair family parent f w h = grind (arith, live-create)
