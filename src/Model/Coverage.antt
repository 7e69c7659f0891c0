-- ===== src/Model/Coverage.antt =====
-- internal/models/coverage_upload_token.go.
use cuddly_lamp.Prelude.{ℕ, Bool, false, not, Option, none, some, ltb, is_some, if◌then◌else◌}
use cuddly_lamp.Text.{Text}

pub record CoverageUploadToken : Type 0 where
  pub id : Text
  pub repository_id : Text
  pub name : Text
  pub token_hash : Text
  pub created_by_user_id : Option Text
  pub last_used_at : Option ℕ
  pub expires_at : Option ℕ
  pub revoked_at : Option ℕ

-- `t != nil && !t.After(now)`
abbrev pub has_passed : Option ℕ → ℕ → Bool
has_passed none now = false
has_passed (some t) now = not (ltb now t)

unfoldable pub is_active : CoverageUploadToken → ℕ → Bool
is_active t now = if is_some t.revoked_at then false else not (has_passed t.expires_at now)
