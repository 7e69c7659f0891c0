-- ===== src/Storage/Tokens.antt =====
-- Tokens in postgres_repository.go.
use cuddly_lamp.Prelude.{
  ◌≡◌, refl, ap, inl, inr, All, Bool-cases, arith, ℕ, Bool, true, false, not, ◌&&◌, Option, none,
  some, List, [], ◌∷◌, ◌++◌, any, find_first, update_where, if◌then◌else◌,
}
use cuddly_lamp.Text.{Text, text_eq}
use cuddly_lamp.Model.Identity.{Token, RevokeReason}
use cuddly_lamp.Env.{Env}
use cuddly_lamp.Storage.Action.{Action, World, ok, err, db_error, query, write}

-- `family_id = ?` is false of NULL.
unfoldable pub in_family : Text → Token → Bool
in_family family t = elim t.family_id [ none ↦ false | some f ↦ text_eq f family ]

abbrev pub revoke_row : RevokeReason → ℕ → Token → Token
revoke_row reason now t = record t {
  is_revoked = true;
  revoked_at = some now;
  revoke_reason = some reason;
}

-- The update of `RevokeTokenFamily` and that of `RevokeToken`.
unfoldable pub revoke_family_rows : Text → RevokeReason → ℕ → List Token → List Token
revoke_family_rows family reason now =
    update_where (λ t. in_family family t && not t.is_revoked) (revoke_row reason now)

unfoldable pub revoke_rows : Text → RevokeReason → ℕ → List Token → List Token
revoke_rows jti reason now = update_where (λ t. text_eq t.jti jti) (revoke_row reason now)

-- That of `UpdateTokenLastUsed`.
unfoldable pub touch_rows : Text → ℕ → List Token → List Token
touch_rows jti now =
    update_where (λ t. text_eq t.jti jti) (λ t. record t { last_used_at = some now })

module _ (env : Env) where
  -- The column jti is unique.
  unfoldable pub create_token : Token → Action (Unit {0})
  unfolding write
  create_token token = write env (λ _ db.
      if any (λ t. text_eq t.jti token.jti) db.tokens
      then err db_error
      else ok (record db { tokens = db.tokens ++ token ∷ [] }))

  unfoldable pub get_token_by_jti : Text → Action (Option Token)
  unfolding query
  get_token_by_jti jti = query env (λ db. find_first (λ t. text_eq t.jti jti) db.tokens)

  -- `First` takes the least id, of a column that has no unique index. The rows stand for a table in which
  -- no two tokens have one hash, as the hashes of random tokens and of signed claims with their jti do not
  -- collide; then the row is the only one, in whatever order (`get_token_by_hash-only`).
  unfoldable pub get_token_by_hash : Text → Action (Option Token)
  unfolding query
  get_token_by_hash hash = query env (λ db. find_first (λ t. text_eq t.token_hash hash) db.tokens)

  unfoldable pub revoke_token_family : Text → RevokeReason → Action (Unit {0})
  unfolding write
  revoke_token_family family reason =
      write env
        (λ now db. ok (record db { tokens = revoke_family_rows family reason now db.tokens }))

  unfoldable pub revoke_token : Text → RevokeReason → Action (Unit {0})
  unfolding write
  revoke_token jti reason =
      write env (λ now db. ok (record db { tokens = revoke_rows jti reason now db.tokens }))

  unfoldable pub update_token_last_used : Text → Action (Unit {0})
  unfolding write
  update_token_last_used jti =
      write env (λ now db. ok (record db { tokens = touch_rows jti now db.tokens }))

find_first-only :
    (p : Token → Bool) (ts : List Token) (t : Token)
    → any p ts ≡ true
    → All (λ x. p x ≡ true → x ≡ t) ts
    → find_first p ts ≡ some t
find_first-only p [] t found only = absurd (ground arith)
find_first-only p (x ∷ ts) t found only = elim (Bool-cases (p x)) [
  | inl hit ↦ rw (hit, only.0 hit) refl
  | inr miss ↦ rw miss (find_first-only p ts t (ground arith) only.1)
]

-- Where one token alone has the hash, the look-up finds it, wherever it stands in the table.
get_token_by_hash-only :
    (env : Env) (hash : Text) (t : Token) (w : World)
    → env.faults w.calls ≡ false
    → any (λ x. text_eq x.token_hash hash) w.db.tokens ≡ true
    → All (λ x. text_eq x.token_hash hash ≡ true → x ≡ t) w.db.tokens
    → (get_token_by_hash env hash w).0 ≡ ok (some t)
unfolding get_token_by_hash
get_token_by_hash-only env hash t w works found only =
    rw works (
      ap (λ row. ok row)
        (find_first-only (λ x. text_eq x.token_hash hash) w.db.tokens t found only))
