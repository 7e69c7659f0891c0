-- ===== src/Auth/Rotation.antt =====
-- A token family has one live refresh token at most, through every session request.
use cuddly_lamp.Prelude.{
  ◌≤◌, ◌<◌, ◌≡◌, true, false, Option, some, arith, find_first, count_if-found, inl, inr, Bool-cases,
  Option-cases,
}
use cuddly_lamp.Text.{Text, text_eq}
use cuddly_lamp.Model.Identity.{UserRole, User, Organization, Token, rotated}
use cuddly_lamp.Env.{Env}
use cuddly_lamp.Storage.Action.{World}
use cuddly_lamp.Storage.Accounts.{get_user, get_organization}
use cuddly_lamp.Storage.Members.{get_organization_member}
use cuddly_lamp.Storage.Tokens.{
  in_family, get_token_by_hash, revoke_token_family, revoke_token, create_token,
}
use cuddly_lamp.Auth.Tokens.{AuthService, generate_token_pair_with_family}
use cuddly_lamp.Auth.Session.{is_refresh, rotate, refresh_tokens}
use cuddly_lamp.Auth.Families.{
  is_live, is_live_refresh, live, live_refresh, live_refresh-revoke, live_refresh-revoke_family,
  live_refresh-rotate, live_refresh-pair, live-pair, live-revoke, live-revoke_family,
}

module _ (env : Env) (s : AuthService) where
  pub draws-pair :
      (user : User) (org : Organization) (role : UserRole) (family : Text) (parent : Option Text)
      (w : World)
      → w.draws ≤ (generate_token_pair_with_family env s user org role family parent w).1.draws
  unfolding generate_token_pair_with_family create_token
  draws-pair user org role family parent w = ground arith

  draws-rotate : (t : Token) (w : World) → w.draws ≤ (rotate env s t w).1.draws
  unfolding rotate revoke_token get_user get_organization get_organization_member
  draws-rotate t w = grind (arith, draws-pair)

  pub draws-refresh_tokens :
      (raw : Text) (w : World) → w.draws ≤ (refresh_tokens env s raw w).1.draws
  unfolding refresh_tokens get_token_by_hash revoke_token_family
  draws-refresh_tokens raw w = grind (arith, draws-rotate)

module _ (env : Env) (s : AuthService) (f : Text) where
  rotate-single :
      (hash : Text) (t : Token) (w : World)
      → find_first (λ x. text_eq x.token_hash hash) w.db.tokens ≡ some t
      → is_refresh t.type ≡ true
      → t.is_revoked ≡ false
      → live_refresh f w.db.tokens ≤ 1
      → (text_eq (env.uuid w.draws) f ≡ true → live_refresh f w.db.tokens ≡ 0)
      → live_refresh f (rotate env s t w).1.db.tokens ≤ 1
  unfolding rotate revoke_token get_user get_organization get_organization_member in_family
  rotate-single hash t w e r l h fresh = grind (
    arith,
    live_refresh-pair,
    live_refresh-rotate f hash w.clock w.db.tokens t e,
    live_refresh-revoke f t.jti rotated w.clock w.db.tokens,
  )

  pub refresh_tokens-single :
      (raw : Text) (w : World)
      → live_refresh f w.db.tokens ≤ 1
      → (text_eq (env.uuid w.draws) f ≡ true → live_refresh f w.db.tokens ≡ 0)
      → live_refresh f (refresh_tokens env s raw w).1.db.tokens ≤ 1
  unfolding refresh_tokens get_token_by_hash revoke_token_family
  refresh_tokens-single raw w h fresh =
      elim (Option-cases (find_first (λ x. text_eq x.token_hash (env.sha256 raw)) w.db.tokens)) [
        | inl gone ↦ ground arith
        | inr (t, e) ↦ grind (arith, rotate-single (env.sha256 raw) t, live_refresh-revoke_family)
      ]

  rotate-dead :
      (hash : Text) (t : Token) (w : World)
      → in_family f t ≡ false
      → live f w.db.tokens ≡ 0
      → text_eq (env.uuid w.draws) f ≡ false
      → live f (rotate env s t w).1.db.tokens ≡ 0
  unfolding rotate revoke_token get_user get_organization get_organization_member in_family
  rotate-dead hash t w e h fresh =
      grind (arith, live-pair, live-revoke f t.jti rotated w.clock w.db.tokens)

  pub refresh_tokens-dead :
      (raw : Text) (w : World)
      → live f w.db.tokens ≡ 0
      → text_eq (env.uuid w.draws) f ≡ false
      → live f (refresh_tokens env s raw w).1.db.tokens ≡ 0
  unfolding refresh_tokens get_token_by_hash revoke_token_family
  refresh_tokens-dead raw w h fresh =
      elim (Option-cases (find_first (λ x. text_eq x.token_hash (env.sha256 raw)) w.db.tokens)) [
        | inl gone ↦ ground arith
        | inr (t, e) ↦ elim (Bool-cases (in_family f t)) [
          | inl own ↦ grind (
            arith,
            live-revoke_family,
            count_if-found (λ x. text_eq x.token_hash (env.sha256 raw)) (is_live f) w.db.tokens t e,
          )
          | inr other ↦ grind (arith, rotate-dead (env.sha256 raw) t, live-revoke_family)
        ]
      ]

  rotate-none :
      (t : Token) (w : World)
      → in_family f t ≡ false
      → live_refresh f w.db.tokens ≡ 0
      → (w.draws < (rotate env s t w).1.draws → text_eq (env.uuid w.draws) f ≡ false)
      → live_refresh f (rotate env s t w).1.db.tokens ≡ 0
  unfolding rotate revoke_token get_user get_organization get_organization_member in_family
  rotate-none t w e h fresh = grind (
    arith,
    draws-pair env s,
    live_refresh-pair,
    live_refresh-revoke f t.jti rotated w.clock w.db.tokens,
  )

  -- No live refresh token appears in a family that has none and is not new.
  pub refresh_tokens-none :
      (raw : Text) (w : World)
      → live_refresh f w.db.tokens ≡ 0
      → (w.draws < (refresh_tokens env s raw w).1.draws → text_eq (env.uuid w.draws) f ≡ false)
      → live_refresh f (refresh_tokens env s raw w).1.db.tokens ≡ 0
  unfolding refresh_tokens get_token_by_hash revoke_token_family
  refresh_tokens-none raw w h fresh =
      elim (Option-cases (find_first (λ x. text_eq x.token_hash (env.sha256 raw)) w.db.tokens)) [
        | inl gone ↦ ground arith
        | inr (t, e) ↦ elim (Bool-cases (in_family f t)) [
          | inl own ↦ grind (
            arith,
            live_refresh-revoke_family,
            count_if-found (λ x. text_eq x.token_hash (env.sha256 raw)) (is_live_refresh f)
                w.db.tokens t e,
          )
          | inr other ↦ grind (arith, rotate-none t, live_refresh-revoke_family)
        ]
      ]
