-- ===== src/Coverage/Tokens.antt =====
-- The upload tokens and the commit hashes of internal/services/coverage_service.go.
pub mod Laws
use cuddly_lamp.Prelude.{
  ℕ, ◌+◌, Bool, true, false, ◌&&◌, ◌||◌, Option, none, some, List, [], ◌∷◌, ◌++◌, all, leb, ltb,
  if◌then◌else◌,
}
use cuddly_lamp.Text.{Text, text, text_eq, is_empty, has_prefix}
use cuddly_lamp.Model.Coverage.{CoverageUploadToken, is_active}
use cuddly_lamp.Env.{Env}
use cuddly_lamp.Storage.Action.{
  Action, Error, pure, raise, ◌>>=◌, ◌>>◌, map_error, check, require, now, draw,
  coverage_token_invalid, coverage_token_foreign_repo, coverage_token_expired,
  coverage_token_not_found, coverage_name_required,
}
use cuddly_lamp.Storage.Coverage.{
  create_coverage_upload_token, get_coverage_upload_token_by_hash, get_coverage_upload_token,
  revoke_coverage_upload_token,
}
use cuddly_lamp.Auth.Password.{byte_length}
use cuddly_lamp.Membership.{optional}

abbrev pub coverage_token_prefix : Text
coverage_token_prefix = text "cov_"

unfoldable pub is_hex : ℕ → Bool
is_hex r = (leb b'0' r && leb r b'9') || (leb b'a' r && leb r b'f') || (leb b'A' r && leb r b'F')

unfoldable pub is_plausible_sha : Text → Bool
unfolding is_hex
is_plausible_sha s = if ltb (byte_length s) 7 || ltb 64 (byte_length s) then false else all is_hex s

-- `errors.Is(err, gorm.ErrRecordNotFound)` becomes `ErrCoverageTokenNotFound`.
abbrev pub hide_record_not_found : Error → Error
hide_record_not_found Error.record_not_found = coverage_token_not_found
hide_record_not_found e = e

module _ (env : Env) where
  unfoldable pub hash_coverage_token : Text → Text
  hash_coverage_token plain = env.sha256 plain

  -- The plain token is returned once; the row keeps its hash.
  unfoldable pub create_upload_token :
      Text → Text → Text → Option ℕ → Action (Text × CoverageUploadToken)
  unfolding hash_coverage_token
  create_upload_token repo_id name user_id expires_at =
      if is_empty repo_id || is_empty name then raise coverage_name_required else do
        hex ← draw env.random_hex
        id ← draw env.uuid
        let plain = coverage_token_prefix ++ hex
        let model : CoverageUploadToken = record {
          id = id;
          repository_id = repo_id;
          name = name;
          token_hash = hash_coverage_token plain;
          created_by_user_id = optional user_id;
          last_used_at = none;
          expires_at = expires_at;
          revoked_at = none;
        }
        create_coverage_upload_token env model
        pure (plain, model)

  unfoldable pub revoke_upload_token : Text → Text → Action (Unit {0})
  revoke_upload_token repo_id id = do
    found ← get_coverage_upload_token env id
    t ← require found coverage_token_not_found
    check (text_eq t.repository_id repo_id) coverage_token_not_found
    map_error hide_record_not_found (revoke_coverage_upload_token env id)

  unfoldable pub authenticate_token : Text → Text → Action CoverageUploadToken
  unfolding hash_coverage_token
  authenticate_token repo_id token =
      if has_prefix token coverage_token_prefix
      then (do
        found ← get_coverage_upload_token_by_hash env (hash_coverage_token token)
        t ← require found coverage_token_invalid
        check (text_eq t.repository_id repo_id) coverage_token_foreign_repo
        time ← now
        check (is_active t time) coverage_token_expired
        pure t)
      else raise coverage_token_invalid
