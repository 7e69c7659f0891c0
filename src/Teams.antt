-- ===== src/Teams.antt =====
-- internal/services/team_service.go and repository_authz.go.
pub mod Writers
pub mod Joined
use cuddly_lamp.Prelude.{
  ℕ, Bool, true, false, not, ◌&&◌, ◌||◌, Option, none, some, List, [], ◌∷◌, any, leb, is_some,
  if◌then◌else◌,
}
use cuddly_lamp.Text.{Text, text_eq, is_empty, trim_space, to_lower, Unicode}
use cuddly_lamp.Derive.Hosts.{trim_char}
use cuddly_lamp.Model.Identity.{UserRole, developer, maintainer, has_permission}
use cuddly_lamp.Model.Repositories.{
  Repository, Team, TeamMember, TeamRole, TeamSource, member, lead, local, github, team_source,
}
use cuddly_lamp.Env.{Env}
use cuddly_lamp.Storage.Action.{
  Action, pure, raise, ◌>>=◌, ◌>>◌, or_error, or_none, ignore, check, require, draw, ok, err,
  team_not_found, team_slug_taken, team_invalid, team_not_local, user_not_in_organization,
  repository_not_found,
}
use cuddly_lamp.Storage.Members.{get_organization_member}
use cuddly_lamp.Storage.Architecture.{get_repository}
use cuddly_lamp.Storage.Teams.{
  create_team_row, get_team_row, get_team_by_slug, update_team_row, delete_team_row,
  list_team_ids_for_user, upsert_team_member, delete_team_member, set_repository_owner_team,
}
use cuddly_lamp.Membership.{optional}

abbrev pub is_alphanumeric : ℕ → Bool
is_alphanumeric c = (leb b'a' c && leb c b'z') || (leb b'0' c && leb c b'9')

-- `regexp.MustCompile("[^a-z0-9]+").ReplaceAllString(s, "-")`; the flag says whether a run has begun.
unfoldable pub replace_runs : Bool → Text → Text
replace_runs in_run [] = []
replace_runs in_run (c ∷ s) =
    let rest = replace_runs (not (is_alphanumeric c)) s in
    if is_alphanumeric c then c ∷ rest else if in_run then rest else b'-' ∷ rest

unfoldable pub slugify_team : Unicode → Text → Text
unfolding to_lower trim_space replace_runs trim_char
slugify_team u raw = trim_char b'-' (replace_runs false (to_lower u (trim_space raw)))

-- The slug of a request, or else of the name.
unfoldable pub team_slug : Unicode → Text → Text → Text
unfolding slugify_team
team_slug u slug name =
    if is_empty (slugify_team u slug) then slugify_team u name else slugify_team u slug

abbrev pub is_local : TeamSource → Bool
is_local local = true
is_local github = false

-- `if role != lead { role = member }`
abbrev pub granted_role : TeamRole → TeamRole
granted_role lead = lead
granted_role _ = member

-- `if req.Name != nil && strings.TrimSpace(*req.Name) == ""` is refused.
unfoldable pub is_named : Option Text → Bool
unfolding trim_space
is_named none = true
is_named (some name) = not (is_empty (trim_space name))

module _ (env : Env) where
  unfoldable pub get_scoped : Text → Text → Action Team
  unfolding get_team_row
  get_scoped org_id team_id = do
    found ← get_team_row env team_id
    team ← require found team_not_found
    check (text_eq team.organization_id org_id) team_not_found
    pure team

  -- The creator joins as lead, if that can be written.
  unfoldable pub create_team : Text → Text → Text → Text → Text → Action Team
  unfolding team_slug trim_space
  create_team org_id created_by name slug description = do
    let trimmed = trim_space name
    let chosen = team_slug env.unicode slug trimmed
    check (not (is_empty trimmed || is_empty chosen)) team_invalid
    existing ← get_team_by_slug env org_id chosen
    check (not (is_some existing)) team_slug_taken
    id ← draw env.uuid
    let team : Team = record {
      id = id;
      organization_id = org_id;
      name = trimmed;
      slug = chosen;
      description = trim_space description;
      external_id = [];
      created_by_user_id = optional created_by;
      updated_at = 0;
      deleted_at = none;
    }
    create_team_row env team
    if is_empty created_by then pure team else (do
      ignore (upsert_team_member env (record { team_id = id; user_id = created_by; role = lead }))
      pure team)

  unfoldable pub update_team : Text → Text → Option Text → Option Text → Action Team
  unfolding get_scoped trim_space
  update_team org_id team_id name description = do
    team ← get_scoped org_id team_id
    check (is_named name) team_invalid
    let changed = record team {
      name = elim name [ none ↦ team.name | some n ↦ trim_space n ];
      description = elim description [ none ↦ team.description | some d ↦ trim_space d ];
    }
    update_team_row env changed
    pure changed

  unfoldable pub delete_team : Text → Text → Action (Unit {0})
  unfolding get_scoped
  delete_team org_id team_id = do
    get_scoped org_id team_id
    or_error (delete_team_row env team_id) team_not_found

  unfoldable pub add_member : Text → Text → Text → TeamRole → Action (Unit {0})
  unfolding get_scoped
  add_member org_id team_id user_id role = do
    team ← get_scoped org_id team_id
    check (is_local (team_source team)) team_not_local
    found ← get_organization_member env org_id user_id
    require found user_not_in_organization
    upsert_team_member env
        (record { team_id = team_id; user_id = user_id; role = granted_role role })

  unfoldable pub remove_team_member : Text → Text → Text → Action (Unit {0})
  unfolding get_scoped
  remove_team_member org_id team_id user_id = do
    team ← get_scoped org_id team_id
    check (is_local (team_source team)) team_not_local
    or_error (delete_team_member env team_id user_id) team_not_found

  -- `if teamID != nil { if _, err := s.getScoped(..) .. }`
  unfoldable pub check_team : Text → Option Text → Action (Unit {0})
  unfolding get_scoped
  check_team org_id none = pure tt
  check_team org_id (some id) = do get_scoped org_id id; pure tt

  unfoldable pub set_repository_owner : Text → Text → Option Text → Action (Unit {0})
  unfolding check_team
  set_repository_owner org_id repo_id team_id = do
    found ← get_repository env repo_id
    repo ← require found repository_not_found
    check (text_eq repo.organization_id org_id) repository_not_found
    check_team org_id team_id
    set_repository_owner_team env repo_id team_id

  -- An error of the look-up reads as a refusal.
  unfoldable pub can_write_repository : UserRole → Text → Repository → Action Bool
  unfolding has_permission
  can_write_repository role user_id repo =
      if has_permission role maintainer
      then pure true
      else if not (has_permission role developer)
      then pure false
      else elim repo.owner_team_id [
        | none ↦ pure false
        | some owner ↦ if is_empty owner then pure false else λ w.
            elim (list_team_ids_for_user env repo.organization_id user_id w).0 [
              | ok ids ↦ (
                ok (any (text_eq owner) ids),
                (list_team_ids_for_user env repo.organization_id user_id w).1,
              )
              | err e ↦ (ok false, (list_team_ids_for_user env repo.organization_id user_id w).1)
            ]
      ]
