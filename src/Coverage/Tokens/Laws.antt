-- ===== src/Coverage/Tokens/Laws.antt =====
-- What an upload token is good for, and until when.
use cuddly_lamp.Prelude.{
  ℕ, ◌+◌, ◌≤◌, ◌≡◌, ◌≢◌, ◌↔◌, true, false, Option, some, List, [], ◌∷◌, arith, all, find_first,
  update_where, is_some, inl, inr, Option-cases,
}
use cuddly_lamp.Text.{Text, text_eq, has_prefix}
use cuddly_lamp.Model.Coverage.{CoverageUploadToken, is_active}
use cuddly_lamp.Env.{Env}
use cuddly_lamp.Storage.Action.{World, ok}
use cuddly_lamp.Storage.Coverage.{
  get_coverage_upload_token_by_hash, get_coverage_upload_token, revoke_coverage_upload_token,
  is_revocable, revoke_upload_row,
}
use cuddly_lamp.Auth.Password.{byte_length}
use cuddly_lamp.Coverage.Tokens.{
  is_hex, is_plausible_sha, coverage_token_prefix, revoke_upload_token, authenticate_token,
}

abbrev pub by_token : Env → Text → World → Option CoverageUploadToken
by_token env token w =
    find_first (λ t. text_eq t.token_hash (env.sha256 token)) w.db.coverage_tokens

-- `isPlausibleSHA` accepts exactly the texts of 7 to 64 bytes whose characters are all hexadecimal.
plausible-accepts :
    (s : Text)
    → is_plausible_sha s ≡ true ↔ 7 ≤ byte_length s × byte_length s ≤ 64 × all is_hex s ≡ true
unfolding is_plausible_sha
plausible-accepts s = (λ h. (ground arith, ground arith, ground arith), λ h. ground arith)

-- If its call of the repository does not fail, `authenticateToken` returns a token exactly if the given one
-- has the prefix, the first row with its hash is that token, it belongs to the repository, and it is
-- neither revoked nor expired.
authenticate-finds :
    (env : Env) (repo_id token : Text) (w : World) (t : CoverageUploadToken)
    → env.faults w.calls ≡ false
    → (authenticate_token env repo_id token w).0 ≡ ok t
      ↔ has_prefix token coverage_token_prefix ≡ true
        × by_token env token w ≡ some t
        × text_eq t.repository_id repo_id ≡ true
        × is_active t w.clock ≡ true
unfolding authenticate_token get_coverage_upload_token_by_hash
authenticate-finds env repo_id token w t q = elim (Option-cases (by_token env token w)) [
  | inl e ↦ (λ h. (ground arith, ground arith, ground arith, ground arith), λ h. ground arith)
  | inr (x, e) ↦ (λ h. (ground arith, ground arith, ground arith, ground arith), λ h. ground arith)
]

find_first-revoked :
    (hash id : Text) (time : ℕ) (ts : List CoverageUploadToken) (t u : CoverageUploadToken)
    → find_first (λ x. text_eq x.token_hash hash) ts ≡ some t
    → text_eq t.id id ≡ true
    → find_first
        (λ x. text_eq x.token_hash hash)
        (update_where (is_revocable id) (revoke_upload_row time) ts)
      ≡ some u
    → is_some u.revoked_at ≡ true
find_first-revoked hash id time [] t u e k f = cc
find_first-revoked hash id time (x ∷ ts) t u e k f =
    ground (arith, find_first-revoked hash id time ts t u)

-- After `RevokeUploadToken` succeeded, `authenticateToken` refuses the token, for every repository and at
-- every later time.
pub revoke-refuses :
    (env : Env) (repo_id id token other : Text) (w : World) (t u : CoverageUploadToken) (n : ℕ)
    → by_token env token w ≡ some t
    → text_eq t.id id ≡ true
    → (revoke_upload_token env repo_id id w).0 ≡ ok tt
    → (let w' = record (revoke_upload_token env repo_id id w).1 { clock = w.clock + n } in
        (authenticate_token env other token w').0 ≢ ok u)
unfolding revoke_upload_token get_coverage_upload_token revoke_coverage_upload_token
    authenticate_token get_coverage_upload_token_by_hash is_active
revoke-refuses env repo_id id token other w t u n e k h accepted =
    ground (arith, find_first-revoked (env.sha256 token) id w.clock w.db.coverage_tokens t u e k)
