-- ===== src/Auth/Revoked.antt =====
-- A revoked record stays revoked.
use cuddly_lamp.Prelude.{
  ℕ, ◌≡◌, Bool, true, false, Option, none, some, List, [], ◌∷◌, ◌++◌, arith, find_first,
}
use cuddly_lamp.Text.{Text, text_eq}
use cuddly_lamp.Text.Laws.{text_eq_refl}
use cuddly_lamp.Model.Identity.{UserRole, User, Organization, Token, RevokeReason}
use cuddly_lamp.Env.{Env}
use cuddly_lamp.Storage.Action.{World}
use cuddly_lamp.Storage.Accounts.{get_user, get_organization}
use cuddly_lamp.Storage.Members.{get_organization_member}
use cuddly_lamp.Storage.Tokens.{
  create_token, get_token_by_hash, revoke_token, revoke_token_family, revoke_rows,
  revoke_family_rows, touch_rows,
}
use cuddly_lamp.Auth.Tokens.{AuthService, generate_token_pair_with_family, generate_token_pair}
use cuddly_lamp.Auth.Session.{rotate, refresh_tokens}
use cuddly_lamp.Auth.Keeps.{TokenInvariant}

-- The two columns by which a record is looked up.
pub data Key : Type 0 where
  by_jti by_hash : Key

abbrev pub key_of : Key → Token → Text
key_of by_jti t = t.jti
key_of by_hash t = t.token_hash

abbrev revoked_row : Option Token → Bool
revoked_row none = false
revoked_row (some t) = t.is_revoked

-- The record that the look-up finds is revoked.
abbrev pub is_revoked_in : Key → Text → List Token → Bool
is_revoked_in k j ts = revoked_row (find_first (λ t. text_eq (key_of k t) j) ts)

module _ (k : Key) (j : Text) where
  revoked-append :
      (ts : List Token) (t : Token)
      → is_revoked_in k j ts ≡ true
      → is_revoked_in k j (ts ++ t ∷ []) ≡ true
  revoked-append [] t h = cc
  revoked-append (x ∷ ts) t h = ground (arith, revoked-append ts t)

  pub revoked-revoke :
      (jti : Text) (r : RevokeReason) (time : ℕ) (ts : List Token)
      → is_revoked_in k j ts ≡ true
      → is_revoked_in k j (revoke_rows jti r time ts) ≡ true
  unfolding revoke_rows
  revoked-revoke jti r time [] h = cc
  revoked-revoke jti r time (x ∷ ts) h = ground (arith, revoked-revoke jti r time ts)

  pub revoked-revoke_family :
      (g : Text) (r : RevokeReason) (time : ℕ) (ts : List Token)
      → is_revoked_in k j ts ≡ true
      → is_revoked_in k j (revoke_family_rows g r time ts) ≡ true
  unfolding revoke_family_rows
  revoked-revoke_family g r time [] h = cc
  revoked-revoke_family g r time (x ∷ ts) h = ground (arith, revoked-revoke_family g r time ts)

  pub revoked-touch :
      (jti : Text) (time : ℕ) (ts : List Token)
      → is_revoked_in k j ts ≡ true
      → is_revoked_in k j (touch_rows jti time ts) ≡ true
  unfolding touch_rows
  revoked-touch jti time [] h = cc
  revoked-touch jti time (x ∷ ts) h = ground (arith, revoked-touch jti time ts)

-- After `RevokeToken` on the record that a look-up by hash found, the look-up finds it revoked.
pub revoked-found :
    (hash : Text) (r : RevokeReason) (time : ℕ) (ts : List Token) (t : Token)
    → find_first (λ x. text_eq x.token_hash hash) ts ≡ some t
    → is_revoked_in by_hash hash (revoke_rows t.jti r time ts) ≡ true
unfolding revoke_rows
revoked-found hash r time [] t e = cc
revoked-found hash r time (x ∷ ts) t e =
    ground (arith, revoked-found hash r time ts t, text_eq_refl t.jti)

-- The same by the jti, where there is a record of it.
pub revoked-named :
    (jti : Text) (r : RevokeReason) (time : ℕ) (ts : List Token) (t : Token)
    → find_first (λ x. text_eq x.jti jti) ts ≡ some t
    → is_revoked_in by_jti jti (revoke_rows jti r time ts) ≡ true
unfolding revoke_rows
revoked-named jti r time [] t e = cc
revoked-named jti r time (x ∷ ts) t e = ground (arith, revoked-named jti r time ts t)

module _ (env : Env) (s : AuthService) (k : Key) (j : Text) where
  revoked-create :
      (t : Token) (w : World)
      → is_revoked_in k j w.db.tokens ≡ true
      → is_revoked_in k j (create_token env t w).1.db.tokens ≡ true
  unfolding create_token
  revoked-create t w h = ground (arith, revoked-append k j w.db.tokens t h)

  pub revoked-pair_with_family :
      (user : User) (org : Organization) (role : UserRole) (family : Text) (parent : Option Text)
      (w : World)
      → is_revoked_in k j w.db.tokens ≡ true
      → is_revoked_in k j
          (generate_token_pair_with_family env s user org role family parent w).1.db.tokens
        ≡ true
  unfolding generate_token_pair_with_family
  revoked-pair_with_family user org role family parent w h = grind (arith, revoked-create)

  pub revoked-pair :
      (user : User) (org : Organization) (role : UserRole) (w : World)
      → is_revoked_in k j w.db.tokens ≡ true
      → is_revoked_in k j (generate_token_pair env s user org role w).1.db.tokens ≡ true
  unfolding generate_token_pair
  revoked-pair user org role w h = grind (arith, revoked-pair_with_family)

  revoked-rotate :
      (t : Token) (w : World)
      → is_revoked_in k j w.db.tokens ≡ true
      → is_revoked_in k j (rotate env s t w).1.db.tokens ≡ true
  unfolding rotate revoke_token get_user get_organization get_organization_member
  revoked-rotate t w h = grind (arith, revoked-pair_with_family, revoked-revoke)

  pub revoked-refresh :
      (raw : Text) (w : World)
      → is_revoked_in k j w.db.tokens ≡ true
      → is_revoked_in k j (refresh_tokens env s raw w).1.db.tokens ≡ true
  unfolding refresh_tokens get_token_by_hash revoke_token_family
  revoked-refresh raw w h = grind (arith, revoked-rotate, revoked-revoke_family)

  abbrev pub revoked : TokenInvariant env s
  revoked = record {
    Holds = λ ts n. is_revoked_in k j ts ≡ true;
    on_draw = λ ts n h. h;
    on_revoke = λ jti r time ts n h. revoked-revoke k j jti r time ts h;
    on_revoke_family = λ g r time ts n h. revoked-revoke_family k j g r time ts h;
    on_touch = λ jti time ts n h. revoked-touch k j jti time ts h;
    on_pair = revoked-pair;
    on_refresh = revoked-refresh;
  }
