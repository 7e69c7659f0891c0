-- ===== src/Storage/Teams.antt =====
-- team_repository.go.
use cuddly_lamp.Prelude.{
  ℕ, Bool, not, ◌&&◌, ◌||◌, Option, none, some, List, [], ◌∷◌, ◌++◌, map, any, find_first, select,
  update_where, is_some, if◌then◌else◌,
}
use cuddly_lamp.Text.{Text, text_eq}
use cuddly_lamp.Model.Repositories.{Repository, Team, TeamMember}
use cuddly_lamp.Model.Architecture.{column_is}
use cuddly_lamp.Env.{Env}
use cuddly_lamp.Storage.Action.{Action, ok, err, db_error, record_not_found, query, write}

abbrev pub is_live_team : Text → Team → Bool
is_live_team id t = text_eq t.id id && not (is_some t.deleted_at)

abbrev pub is_membership : Text → Text → TeamMember → Bool
is_membership team_id user_id m = text_eq m.team_id team_id && text_eq m.user_id user_id

-- `JOIN teams t ON t.id = tm.team_id AND t.deleted_at IS NULL WHERE tm.user_id = ? AND t.organization_id = ?`
unfoldable pub joins_team : List Team → Text → Text → TeamMember → Bool
joins_team teams org_id user_id m =
    text_eq m.user_id user_id
    && any (λ t. is_live_team m.team_id t && text_eq t.organization_id org_id) teams

-- The soft delete, and the release of a repository.
abbrev pub retire_team : ℕ → Team → Team
retire_team now t = record t { deleted_at = some now; updated_at = now }

abbrev pub release : Repository → Repository
release r = record r { owner_team_id = none }

module _ (env : Env) where
  -- The id is the primary key; the slug is unique among the live teams of an organization.
  unfoldable pub create_team_row : Team → Action (Unit {0})
  unfolding write
  create_team_row team = write env (λ _ db.
      if any (λ t. text_eq t.id team.id) db.teams
        || any
            (λ t.
              text_eq t.organization_id team.organization_id
              && text_eq t.slug team.slug
              && not (is_some t.deleted_at))
            db.teams
      then err db_error
      else ok (record db { teams = db.teams ++ team ∷ [] }))

  unfoldable pub get_team_row : Text → Action (Option Team)
  unfolding query
  get_team_row id = query env (λ db. find_first (is_live_team id) db.teams)

  unfoldable pub get_team_by_slug : Text → Text → Action (Option Team)
  unfolding query
  get_team_by_slug org_id slug = query env (λ db.
      find_first
        (λ t. text_eq t.organization_id org_id && text_eq t.slug slug && not (is_some t.deleted_at))
        db.teams)

  unfoldable pub update_team_row : Team → Action (Unit {0})
  unfolding write
  update_team_row team = write env (λ now db. ok (record db {
    teams =
        update_where (λ t. text_eq t.id team.id) (λ t. record team { updated_at = now }) db.teams;
  }))

  unfoldable pub delete_team_row : Text → Action (Unit {0})
  unfolding write
  delete_team_row id = write env (λ now db.
      if any (is_live_team id) db.teams
      then ok (record db {
        teams = update_where (is_live_team id) (retire_team now) db.teams;
        repositories = update_where (λ r. column_is r.owner_team_id id) release db.repositories;
      })
      else err record_not_found)

  unfoldable pub list_team_ids_for_user : Text → Text → Action (List Text)
  unfolding query joins_team
  list_team_ids_for_user org_id user_id =
      query env
        (λ db. map (λ m. m.team_id) (select (joins_team db.teams org_id user_id) db.team_members))

  -- `ON CONFLICT (team_id, user_id) DO UPDATE SET role`
  unfoldable pub upsert_team_member : TeamMember → Action (Unit {0})
  unfolding write
  upsert_team_member member = write env (λ _ db. ok (record db {
    team_members =
        if any (is_membership member.team_id member.user_id) db.team_members
        then update_where (is_membership member.team_id member.user_id)
            (λ m. record m { role = member.role }) db.team_members
        else db.team_members ++ member ∷ [];
  }))

  unfoldable pub delete_team_member : Text → Text → Action (Unit {0})
  unfolding write
  delete_team_member team_id user_id = write env (λ _ db.
      if any (is_membership team_id user_id) db.team_members
      then ok (record db {
        team_members = select (λ m. not (is_membership team_id user_id m)) db.team_members;
      })
      else err record_not_found)

  unfoldable pub set_repository_owner_team : Text → Option Text → Action (Unit {0})
  unfolding write
  set_repository_owner_team repo_id team_id = write env (λ _ db.
      if any (λ r. text_eq r.id repo_id && not (is_some r.deleted_at)) db.repositories
      then ok (record db {
        repositories =
            update_where (λ r. text_eq r.id repo_id && not (is_some r.deleted_at))
              (λ r. record r { owner_team_id = team_id }) db.repositories;
      })
      else err record_not_found)
