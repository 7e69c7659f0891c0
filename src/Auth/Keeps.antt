-- ===== src/Auth/Keeps.antt =====
-- Invariants of the token table, as an interface, and what keeps one: a rule for each way to build an
-- action.
pub mod Calls
pub mod Handlers
use cuddly_lamp.Prelude.{
  ℕ, suc, ◌≡◌, refl, sym, subst, inl, inr, Bool-cases, Bool, true, false, Option, none, some, List,
  if◌then◌else◌,
}
use cuddly_lamp.Text.{Text}
use cuddly_lamp.Model.Identity.{UserRole, User, Organization, Token, RevokeReason}
use cuddly_lamp.Env.{Env}
use cuddly_lamp.Storage.Action.{
  Db, World, Error, Outcome, ok, err, Action, pure, raise, proceed, ◌>>=◌, or_error, or_none,
  map_error, ignore, check, require, now, draw, query, write,
}
use cuddly_lamp.Storage.Tokens.{
  revoke_family_rows, revoke_rows, touch_rows, revoke_token_family, revoke_token,
  update_token_last_used,
}
use cuddly_lamp.Auth.Tokens.{AuthService, generate_token_pair}
use cuddly_lamp.Auth.Session.{refresh_tokens}

-- What an invariant of the tokens and of the number of random draws has to survive.
pub record TokenInvariant (env : Env) (s : AuthService) : Type 1 where
  pub Holds : List Token → ℕ → Type 0
  pub on_draw : (ts : List Token) (n : ℕ) → Holds ts n → Holds ts (suc n)
  pub on_revoke :
      (jti : Text) (r : RevokeReason) (time : ℕ) (ts : List Token) (n : ℕ)
      → Holds ts n
      → Holds (revoke_rows jti r time ts) n
  pub on_revoke_family :
      (family : Text) (r : RevokeReason) (time : ℕ) (ts : List Token) (n : ℕ)
      → Holds ts n
      → Holds (revoke_family_rows family r time ts) n
  pub on_touch :
      (jti : Text) (time : ℕ) (ts : List Token) (n : ℕ)
      → Holds ts n
      → Holds (touch_rows jti time ts) n
  pub on_pair :
      (user : User) (org : Organization) (role : UserRole) (w : World)
      → Holds w.db.tokens w.draws
      → (let w' = (generate_token_pair env s user org role w).1 in Holds w'.db.tokens w'.draws)
  pub on_refresh :
      (raw : Text) (w : World)
      → Holds w.db.tokens w.draws
      → (let w' = (refresh_tokens env s raw w).1 in Holds w'.db.tokens w'.draws)

module _ {env : Env} {s : AuthService} (inv : TokenInvariant env s) where
  abbrev pub HoldsIn : World → Type 0
  HoldsIn w = inv.Holds w.db.tokens w.draws

  -- `m` keeps the invariant, whether it succeeds or fails.
  pub record Keeps {ℓ} {A : Type ℓ} (m : Action A) : Type ℓ where
    pub at : (w : World) → HoldsIn w → HoldsIn (m w).1

  pub Keeps-pure {ℓ} : {A : Type ℓ} (a : A) → Keeps (pure a)
  Keeps-pure a = record { at = λ w h. h }

  pub Keeps-raise {ℓ} : {A : Type ℓ} (e : Error) → Keeps (raise {A = A} e)
  Keeps-raise e = record { at = λ w h. h }

  pub Keeps-check : (b : Bool) (e : Error) → Keeps (check b e)
  Keeps-check true e = record { at = λ w h. h }
  Keeps-check false e = record { at = λ w h. h }

  pub Keeps-require {ℓ} : {A : Type ℓ} (o : Option A) (e : Error) → Keeps (require o e)
  Keeps-require none e = record { at = λ w h. h }
  Keeps-require (some a) e = record { at = λ w h. h }

  pub Keeps-now : Keeps now
  Keeps-now = record { at = λ w h. h }

  pub Keeps-draw : (source : ℕ → Text) → Keeps (draw source)
  Keeps-draw source = record { at = λ w h. inv.on_draw w.db.tokens w.draws h }

  proceed-Keeps {ℓ κ} :
      {A : Type ℓ} {B : Type κ} (o : Outcome A) (w : World) (f : A → Action B)
      → ((a : A) → Keeps (f a))
      → HoldsIn w
      → HoldsIn (proceed o w f).1
  proceed-Keeps (ok a) w f kf h = (kf a).at w h
  proceed-Keeps (err e) w f kf h = h

  pub Keeps-bind {ℓ κ} :
      {A : Type ℓ} {B : Type κ} (m : Action A) (f : A → Action B)
      → Keeps m
      → ((a : A) → Keeps (f a))
      → Keeps (m >>= f)
  Keeps-bind m f km kf = record { at = λ w h. proceed-Keeps (m w).0 (m w).1 f kf (km.at w h) }

  pub Keeps-if {ℓ} :
      {A : Type ℓ} (b : Bool) (m n : Action A) → Keeps m → Keeps n → Keeps (if b then m else n)
  Keeps-if true m n km kn = km
  Keeps-if false m n km kn = kn

  pub Keeps-ignore {ℓ} : {A : Type ℓ} (m : Action A) → Keeps m → Keeps (ignore m)
  Keeps-ignore m km = record { at = λ w h. km.at w h }

  change_error {ℓ} :
      {A : Type ℓ} (o : Outcome A) (e : Error) (w : World)
      → HoldsIn w
      → HoldsIn (elim o as (λ _. Outcome A × World) [ ok a ↦ (ok a, w) | err _ ↦ (err e, w) ]).1
  change_error (ok a) e w h = h
  change_error (err _) e w h = h

  pub Keeps-or_error {ℓ} : {A : Type ℓ} (m : Action A) (e : Error) → Keeps m → Keeps (or_error m e)
  Keeps-or_error m e km = record { at = λ w h. change_error (m w).0 e (m w).1 (km.at w h) }

  changed_error {ℓ} :
      {A : Type ℓ} (o : Outcome A) (f : Error → Error) (w : World)
      → HoldsIn w
      → HoldsIn (elim o as (λ _. Outcome A × World) [ ok a ↦ (ok a, w) | err e ↦ (err (f e), w) ]).1
  changed_error (ok a) f w h = h
  changed_error (err _) f w h = h

  pub Keeps-map_error {ℓ} :
      {A : Type ℓ} (f : Error → Error) (m : Action A) → Keeps m → Keeps (map_error f m)
  Keeps-map_error f m km = record { at = λ w h. changed_error (m w).0 f (m w).1 (km.at w h) }

  dropped_error {ℓ} :
      {A : Type ℓ} (o : Outcome (Option A)) (w : World)
      → HoldsIn w
      → HoldsIn
          (elim o as (λ _. Outcome (Option A) × World) [
            | ok a ↦ (ok a, w)
            | err _ ↦ (ok none, w)
          ]).1
  dropped_error (ok a) w h = h
  dropped_error (err _) w h = h

  pub Keeps-or_none {ℓ} : {A : Type ℓ} (m : Action (Option A)) → Keeps m → Keeps (or_none m)
  Keeps-or_none m km = record { at = λ w h. dropped_error (m w).0 (m w).1 (km.at w h) }

  pub Keeps-query {ℓ} : {A : Type ℓ} (f : Db → A) → Keeps (query env f)
  unfolding query
  Keeps-query f = record {
    at = λ w h. elim (Bool-cases (env.faults w.calls)) [ inl e ↦ rw e h | inr e ↦ rw e h ];
  }

  written :
      (o : Outcome Db) (w : World)
      → ((db : Db) → o ≡ ok db → inv.Holds db.tokens w.draws)
      → HoldsIn w
      → HoldsIn
          (elim o as (λ _. Outcome (Unit {0}) × World) [
            | ok db ↦ (ok tt, record w { db = db; calls = suc w.calls })
            | err e ↦ (err e, record w { calls = suc w.calls })
          ]).1
  written (ok db) w k h = k db refl
  written (err e) w k h = h

  pub Keeps-write :
      (f : ℕ → Db → Outcome Db)
      → ((time : ℕ) (db db' : Db) (n : ℕ)
          → f time db ≡ ok db'
          → inv.Holds db.tokens n
          → inv.Holds db'.tokens n)
      → Keeps (write env f)
  unfolding write
  Keeps-write f keep = record {
    at = λ w h. elim (Bool-cases (env.faults w.calls)) [
      | inl e ↦ rw e h
      | inr e ↦ rw e (written (f w.clock w.db) w (λ db k. keep w.clock w.db db w.draws k h) h)
    ];
  }

  -- A write to another table.
  pub Keeps-write_other :
      (f : ℕ → Db → Outcome Db)
      → ((time : ℕ) (db db' : Db) → f time db ≡ ok db' → db'.tokens ≡ db.tokens)
      → Keeps (write env f)
  Keeps-write_other f same =
      Keeps-write f (λ time db db' n k h. subst (λ ts. inv.Holds ts n) (sym (same time db db' k)) h)

pub ruleset action_rules = (
  Keeps-pure, Keeps-raise, Keeps-check, Keeps-require, Keeps-now, Keeps-draw, Keeps-bind, Keeps-if,
  Keeps-ignore, Keeps-or_error, Keeps-map_error, Keeps-or_none,
)
