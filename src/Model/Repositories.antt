-- ===== src/Model/Repositories.antt =====
-- internal/models/repository.go and team.go.
use cuddly_lamp.Prelude.{ℕ, Option, if◌then◌else◌}
use cuddly_lamp.Text.{Text, is_empty}

-- `owner_team_id` is none for NULL.
pub record Repository : Type 0 where
  pub id : Text
  pub organization_id : Text
  pub name : Text
  pub owner_team_id : Option Text
  pub deleted_at : Option ℕ

pub data TeamRole : Type 0 where
  member lead : TeamRole
  unknown : Text → TeamRole

pub data TeamSource : Type 0 where
  local github : TeamSource

pub record Team : Type 0 where
  pub id : Text
  pub organization_id : Text
  pub name : Text
  pub slug : Text
  pub description : Text
  pub external_id : Text
  pub created_by_user_id : Option Text
  pub updated_at : ℕ
  pub deleted_at : Option ℕ

-- `Source`
unfoldable pub team_source : Team → TeamSource
team_source t = if is_empty t.external_id then local else github

pub record TeamMember : Type 0 where
  pub team_id : Text
  pub user_id : Text
  pub role : TeamRole
