-- ===== src/Auth/Invariants.antt =====
-- The invariants of the token table.
use cuddly_lamp.Prelude.{
  ℕ, ◌≤◌, ◌<◌, ◌≡◌, refl, subst, true, false, List, [], ◌∷◌, arith, Bool-cases, inl, inr,
}
use cuddly_lamp.Text.{Text, text_eq}
use cuddly_lamp.Text.Laws.{text_eq_iff}
use cuddly_lamp.Model.Identity.{UserRole, User, Organization, Token}
use cuddly_lamp.Env.{Env}
use cuddly_lamp.Storage.Action.{World}
use cuddly_lamp.Storage.Tokens.{in_family, touch_rows}
use cuddly_lamp.Auth.Tokens.{AuthService, generate_token_pair}
use cuddly_lamp.Auth.Session.{refresh_tokens}
use cuddly_lamp.Auth.Families.{
  live, live_refresh, live_refresh-revoke, live_refresh-revoke_family, live_refresh-pair, live-pair,
  live-revoke, live-revoke_family,
}
use cuddly_lamp.Auth.Rotation.{
  refresh_tokens-single, refresh_tokens-none, refresh_tokens-dead, draws-pair, draws-refresh_tokens,
}
use cuddly_lamp.Auth.Keeps.{TokenInvariant}

module _ (f : Text) where
  pub live-touch :
      (jti : Text) (time : ℕ) (ts : List Token) → live f (touch_rows jti time ts) ≡ live f ts
  unfolding touch_rows in_family
  live-touch jti time [] = refl
  live-touch jti time (t ∷ ts) = ground (arith, live-touch jti time ts)

  pub live_refresh-touch :
      (jti : Text) (time : ℕ) (ts : List Token)
      → live_refresh f (touch_rows jti time ts) ≡ live_refresh f ts
  unfolding touch_rows in_family
  live_refresh-touch jti time [] = refl
  live_refresh-touch jti time (t ∷ ts) = ground (arith, live_refresh-touch jti time ts)

module _ (env : Env) (s : AuthService) (f : Text) where
  -- No token of the family is live, and no random draw to come names the family.
  pub record IsDead (ts : List Token) (n : ℕ) : Type 0 where
    pub none_live : live f ts ≡ 0
    pub is_old : (k : ℕ) → n ≤ k → text_eq (env.uuid k) f ≡ false

  pub IsDead-pair :
      (user : User) (org : Organization) (role : UserRole) (w : World)
      → IsDead w.db.tokens w.draws
      → (let w' = (generate_token_pair env s user org role w).1 in IsDead w'.db.tokens w'.draws)
  unfolding generate_token_pair
  IsDead-pair user org role w h = record {
    none_live = grind (arith, live-pair, h.is_old w.draws, h.none_live);
    is_old = λ k le. h.is_old k (grind (arith, draws-pair));
  }

  abbrev pub dead : TokenInvariant env s
  dead = record {
    Holds = IsDead;
    on_draw =
        λ ts n h. record { none_live = h.none_live; is_old = λ k le. h.is_old k (omega arith) };
    on_revoke = λ jti r time ts n h. record {
      none_live = omega (arith, live-revoke f jti r time ts, h.none_live);
      is_old = h.is_old;
    };
    on_revoke_family = λ g r time ts n h. record {
      none_live = omega (arith, live-revoke_family f g r time ts, h.none_live);
      is_old = h.is_old;
    };
    on_touch = λ jti time ts n h. record {
      none_live = omega (arith, live-touch f jti time ts, h.none_live);
      is_old = h.is_old;
    };
    on_pair = IsDead-pair;
    on_refresh = λ raw w h. record {
      none_live = refresh_tokens-dead env s f raw w h.none_live (h.is_old w.draws (omega arith));
      is_old = λ k le. h.is_old k (omega (arith, draws-refresh_tokens env s raw w));
    };
  }

-- `uuid.New()` never repeats itself.
module _ (env : Env) (s : AuthService)
    (uuids_differ : (m n : ℕ) → text_eq (env.uuid m) (env.uuid n) ≡ true → m ≡ n) where
  -- One live refresh token at most in each family, and none in those that are yet to be drawn.
  pub record IsSingle (ts : List Token) (n : ℕ) : Type 0 where
    pub at_most_one : (f : Text) → live_refresh f ts ≤ 1
    pub unborn : (k : ℕ) → n ≤ k → live_refresh (env.uuid k) ts ≡ 0

  fresh_family :
      (w : World) (f : Text)
      → IsSingle w.db.tokens w.draws
      → text_eq (env.uuid w.draws) f ≡ true
      → live_refresh f w.db.tokens ≡ 0
  fresh_family w f h same =
      subst (λ g. live_refresh g w.db.tokens ≡ 0) ((text_eq_iff (env.uuid w.draws) f).0 same)
        (h.unborn w.draws (omega arith))

  old_name : (w : World) (k : ℕ) → w.draws < k → text_eq (env.uuid w.draws) (env.uuid k) ≡ false
  old_name w k lt = elim (Bool-cases (text_eq (env.uuid w.draws) (env.uuid k))) [
    | inl same ↦ absurd (omega (arith, uuids_differ w.draws k same))
    | inr differs ↦ differs
  ]

  pub IsSingle-pair :
      (user : User) (org : Organization) (role : UserRole) (w : World)
      → IsSingle w.db.tokens w.draws
      → (let w' = (generate_token_pair env s user org role w).1 in IsSingle w'.db.tokens w'.draws)
  unfolding generate_token_pair
  IsSingle-pair user org role w h = record {
    at_most_one = λ f. grind (arith, live_refresh-pair, h.at_most_one f, fresh_family w f h);
    unborn = λ k le. grind (arith, live_refresh-pair, draws-pair, h.unborn k, old_name w k);
  }

  pub IsSingle-refresh :
      (raw : Text) (w : World)
      → IsSingle w.db.tokens w.draws
      → (let w' = (refresh_tokens env s raw w).1 in IsSingle w'.db.tokens w'.draws)
  IsSingle-refresh raw w h = record {
    at_most_one = λ f. refresh_tokens-single env s f raw w (h.at_most_one f) (fresh_family w f h);
    unborn = λ k le.
        refresh_tokens-none env s (env.uuid k) raw w
          (h.unborn k (omega (arith, draws-refresh_tokens env s raw w)))
          (λ drawn. old_name w k (omega arith));
  }

  abbrev pub single : TokenInvariant env s
  single = record {
    Holds = IsSingle;
    on_draw =
        λ ts n h. record { at_most_one = h.at_most_one; unborn = λ k le. h.unborn k (omega arith) };
    on_revoke = λ jti r time ts n h. record {
      at_most_one = λ f. omega (arith, live_refresh-revoke f jti r time ts, h.at_most_one f);
      unborn = λ k le. omega (arith, live_refresh-revoke (env.uuid k) jti r time ts, h.unborn k le);
    };
    on_revoke_family = λ g r time ts n h. record {
      at_most_one = λ f. omega (arith, live_refresh-revoke_family f g r time ts, h.at_most_one f);
      unborn =
          λ k le. omega (arith, live_refresh-revoke_family (env.uuid k) g r time ts, h.unborn k le);
    };
    on_touch = λ jti time ts n h. record {
      at_most_one = λ f. omega (arith, live_refresh-touch f jti time ts, h.at_most_one f);
      unborn = λ k le. omega (arith, live_refresh-touch (env.uuid k) jti time ts, h.unborn k le);
    };
    on_pair = IsSingle-pair;
    on_refresh = IsSingle-refresh;
  }
