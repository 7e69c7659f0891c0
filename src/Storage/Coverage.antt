-- ===== src/Storage/Coverage.antt =====
-- coverage_upload_token_repository.go.
use cuddly_lamp.Prelude.{
  ℕ, Bool, not, ◌&&◌, ◌||◌, Option, some, [], ◌∷◌, ◌++◌, any, find_first, update_where, is_some,
  if◌then◌else◌,
}
use cuddly_lamp.Text.{Text, text_eq, is_empty}
use cuddly_lamp.Model.Coverage.{CoverageUploadToken}
use cuddly_lamp.Env.{Env}
use cuddly_lamp.Storage.Action.{Action, ok, err, db_error, record_not_found, raise, query, write}

abbrev pub revoke_upload_row : ℕ → CoverageUploadToken → CoverageUploadToken
revoke_upload_row now t = record t { revoked_at = some now }

-- `WHERE id = ? AND revoked_at IS NULL`
abbrev pub is_revocable : Text → CoverageUploadToken → Bool
is_revocable id t = text_eq t.id id && not (is_some t.revoked_at)

module _ (env : Env) where
  -- The token hash is unique.
  unfoldable pub create_coverage_upload_token : CoverageUploadToken → Action (Unit {0})
  unfolding write
  create_coverage_upload_token token =
      if is_empty token.repository_id || is_empty token.token_hash || is_empty token.name
      then raise db_error
      else write env (λ _ db.
        if any (λ t. text_eq t.token_hash token.token_hash) db.coverage_tokens
        then err db_error
        else ok (record db { coverage_tokens = db.coverage_tokens ++ token ∷ [] }))

  unfoldable pub get_coverage_upload_token_by_hash : Text → Action (Option CoverageUploadToken)
  unfolding query
  get_coverage_upload_token_by_hash hash =
      query env (λ db. find_first (λ t. text_eq t.token_hash hash) db.coverage_tokens)

  unfoldable pub get_coverage_upload_token : Text → Action (Option CoverageUploadToken)
  unfolding query
  get_coverage_upload_token id =
      query env (λ db. find_first (λ t. text_eq t.id id) db.coverage_tokens)

  unfoldable pub revoke_coverage_upload_token : Text → Action (Unit {0})
  unfolding write
  revoke_coverage_upload_token id = write env (λ now db.
      if any (is_revocable id) db.coverage_tokens
      then ok (record db {
        coverage_tokens = update_where (is_revocable id) (revoke_upload_row now) db.coverage_tokens;
      })
      else err record_not_found)
