-- ===== src/Teams/Writers.antt =====
-- Who may write a repository, and how teams give and take that.
use cuddly_lamp.Prelude.{
  ap, ◌∙◌, ◌≡◌, refl, inl, inr, Bool, true, false, not, ◌&&◌, ◌||◌, none, some, List, [], ◌∷◌, map,
  any, find_first, select, update_where, Bool-cases, Option-cases, arith,
}
use cuddly_lamp.Text.{Text, text_eq, is_empty}
use cuddly_lamp.Model.Identity.{
  UserRole, admin, maintainer, developer, viewer, other, has_permission, role_level,
}
use cuddly_lamp.Model.Repositories.{Repository, Team, TeamMember}
use cuddly_lamp.Model.Architecture.{column_is}
use cuddly_lamp.Env.{Env}
use cuddly_lamp.Storage.Action.{World, Db, ok}
use cuddly_lamp.Storage.Teams.{
  get_team_row, delete_team_row, list_team_ids_for_user, joins_team, is_live_team, retire_team,
  release,
}
use cuddly_lamp.Teams.{can_write_repository, delete_team, get_scoped}

-- The person is on the team that owns the repository, which is a live team of its organization.
abbrev pub is_on_owner : Db → Text → Repository → Bool
is_on_owner db user_id repo = elim repo.owner_team_id [
  | none ↦ false
  | some owner ↦
      not (is_empty owner)
      && any
          (λ m.
            text_eq owner m.team_id
            && (text_eq m.user_id user_id
                && any
                    (λ t.
                      is_live_team m.team_id t && text_eq t.organization_id repo.organization_id)
                    db.teams))
          db.team_members
]

any-joined :
    (teams : List Team) (org_id user_id owner : Text) (ms : List TeamMember)
    → any (text_eq owner) (map (λ m. m.team_id) (select (joins_team teams org_id user_id) ms))
      ≡ any (λ m. text_eq owner m.team_id && joins_team teams org_id user_id m) ms
any-joined teams org_id user_id owner [] = refl
any-joined teams org_id user_id owner (m ∷ ms) =
    ground (arith, any-joined teams org_id user_id owner ms)

-- What a role may write, given whether the person is on the team that owns the repository.
abbrev pub may_write : UserRole → Bool → Bool
may_write admin on_owner = true
may_write maintainer on_owner = true
may_write developer on_owner = on_owner
may_write viewer on_owner = false
may_write (other _) on_owner = false

levels-may_write :
    (role : UserRole) (on_owner : Bool)
    → (has_permission role maintainer || (has_permission role developer && on_owner))
      ≡ may_write role on_owner
unfolding has_permission role_level
levels-may_write admin on_owner = refl
levels-may_write maintainer on_owner = refl
levels-may_write developer on_owner = refl
levels-may_write viewer on_owner = refl
levels-may_write (other s) on_owner = refl

can_write-levels :
    (env : Env) (role : UserRole) (user_id : Text) (repo : Repository) (w : World)
    → (can_write_repository env role user_id repo w).0
        ≡ ok (
            has_permission role maintainer
            || (has_permission role developer
                && (is_on_owner w.db user_id repo && not (env.faults w.calls))))
      × (can_write_repository env role user_id repo w).1.db ≡ w.db
unfolding can_write_repository list_team_ids_for_user joins_team
can_write-levels env role user_id repo w = elim (Bool-cases (has_permission role maintainer)) [
  | inl top ↦ rw top (refl, refl)
  | inr low ↦ elim (Bool-cases (has_permission role developer)) [
    | inr none_at_all ↦ rw (low, none_at_all) (refl, refl)
    | inl dev ↦ elim (Option-cases repo.owner_team_id) [
      | inl unowned ↦ rw (low, dev, unowned) (refl, refl)
      | inr (owner, owned) ↦ elim (Bool-cases (is_empty owner)) [
        | inl blank ↦ rw (low, dev, owned, blank) (refl, refl)
        | inr named ↦ elim (Bool-cases (env.faults w.calls)) [
          | inl fault ↦ (ground arith, ground arith)
          | inr works ↦ (
            ground
                (arith, any-joined w.db.teams repo.organization_id user_id owner w.db.team_members),
            ground arith,
          )
        ]
      ]
    ]
  ]
]

-- `CanWriteRepository` lets maintainers and administrators write every repository, developers the
-- repositories whose owner is a live team of the organization that they are on, if the look-up of their
-- teams does not fail, and nobody else any; and it changes nothing.
pub can_write_iff :
    (env : Env) (role : UserRole) (user_id : Text) (repo : Repository) (w : World)
    → (can_write_repository env role user_id repo w).0
        ≡ ok (may_write role (is_on_owner w.db user_id repo && not (env.faults w.calls)))
      × (can_write_repository env role user_id repo w).1.db ≡ w.db
can_write_iff env role user_id repo w =
    let (answer, same) = can_write-levels env role user_id repo w in
    (
      answer
          ∙ ap ok
              (levels-may_write role (is_on_owner w.db user_id repo && not (env.faults w.calls))),
      same,
    )

any-update_none :
    {A : Type 0} (p q : A → Bool) (f : A → A) (xs : List A)
    → ((x : A) → p x ≡ true → q (f x) ≡ false)
    → ((x : A) → p x ≡ false → q x ≡ false)
    → any q (update_where p f xs) ≡ false
any-update_none p q f [] h k = refl
any-update_none p q f (x ∷ xs) h k = ground (arith, any-update_none p q f xs h k, h x, k x)

-- After `DeleteTeam` succeeded, the team is not live and owns no repository.
pub delete_team-releases :
    (env : Env) (org_id id : Text) (w : World)
    → (delete_team env org_id id w).0 ≡ ok tt
    → (let w' = (delete_team env org_id id w).1 in
        any (is_live_team id) w'.db.teams ≡ false
        × any (λ r. column_is r.owner_team_id id) w'.db.repositories ≡ false)
unfolding delete_team get_scoped get_team_row delete_team_row
delete_team-releases env org_id id w done =
    elim (Option-cases (find_first (is_live_team id) w.db.teams)) [
      | inl nothing ↦ (ground arith, ground arith)
      | inr (team, found) ↦ (
        ground (
          arith,
          any-update_none (is_live_team id) (is_live_team id) (retire_team w.clock) w.db.teams,
        ),
        ground (
          arith,
          any-update_none (λ r. column_is r.owner_team_id id) (λ r. column_is r.owner_team_id id)
              release w.db.repositories,
        ),
      )
    ]
