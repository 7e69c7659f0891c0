-- ===== src/Teams/Joined.antt =====
-- Who joins a team may write what the team owns.
use cuddly_lamp.Prelude.{
  ◌≡◌, refl, sym, ap, ◌∙◌, inl, inr, Bool, true, false, not, ◌&&◌, some, List, [], ◌∷◌, ◌++◌, any,
  any-right, find_first, find_first-test, update_where, if◌then◌else◌, Bool-cases, Option-cases,
  arith,
}
use cuddly_lamp.Text.{Text, text_eq, is_empty}
use cuddly_lamp.Text.Laws.{text_eq_iff, text_eq_refl}
use cuddly_lamp.Model.Identity.{OrganizationMember, developer}
use cuddly_lamp.Model.Repositories.{Repository, Team, TeamMember, TeamRole, team_source}
use cuddly_lamp.Env.{Env}
use cuddly_lamp.Storage.Action.{World, Db, ok}
use cuddly_lamp.Storage.Teams.{
  get_team_row, joins_team, is_live_team, is_membership, upsert_team_member,
}
use cuddly_lamp.Storage.Members.{get_organization_member, has_key}
use cuddly_lamp.Architecture.Apply.Runs.{Outcome-cases}
use cuddly_lamp.Teams.{is_local, granted_role, add_member, get_scoped, can_write_repository}
use cuddly_lamp.Teams.Writers.{is_on_owner, can_write_iff}

any-found :
    {A : Type 0} (p q : A → Bool) (xs : List A) (x : A)
    → find_first p xs ≡ some x
    → q x ≡ true
    → any q xs ≡ true
any-found p q [] x e h = cc
any-found p q (y ∷ xs) x e h = ground (arith, any-found p q xs x)

any-update_role :
    (q : TeamMember → Bool) (p : TeamMember → Bool) (f : TeamMember → TeamMember)
    (ms : List TeamMember)
    → ((m : TeamMember) → p m ≡ true → q (f m) ≡ true)
    → any p ms ≡ true
    → any q (update_where p f ms) ≡ true
any-update_role q p f [] h k = k
any-update_role q p f (m ∷ ms) h k = ground (arith, any-update_role q p f ms h, h m)

upserted-joins :
    (teams : List Team) (org_id team_id user_id : Text) (role : TeamRole) (ms : List TeamMember)
    → any (λ t. is_live_team team_id t && text_eq t.organization_id org_id) teams ≡ true
    → any
        (λ m. text_eq team_id m.team_id && joins_team teams org_id user_id m)
        (if any (is_membership team_id user_id) ms
          then update_where (is_membership team_id user_id) (λ m. record m { role = role }) ms
          else ms ++ (record { team_id = team_id; user_id = user_id; role = role }) ∷ [])
      ≡ true
unfolding joins_team
upserted-joins teams org_id team_id user_id role ms joined =
    elim (Bool-cases (any (is_membership team_id user_id) ms)) [
      | inl there ↦ rw there (
          any-update_role (λ m. text_eq team_id m.team_id && joins_team teams org_id user_id m)
            (is_membership team_id user_id) (λ m. record m { role = role }) ms
            (λ m hit.
              let same : m.team_id ≡ team_id = (text_eq_iff m.team_id team_id).0 (ground arith) in
              rw same (ground (arith, joined, text_eq_refl team_id)))
            there)
      | inr new ↦ rw new (
          any-right (λ m. text_eq team_id m.team_id && joins_team teams org_id user_id m) ms
            ((record { team_id = team_id; user_id = user_id; role = role }) ∷ [])
            (ground (arith, joined, text_eq_refl team_id, text_eq_refl user_id)))
    ]

module _ (env : Env) where
  get_scoped-cases :
      (org_id id : Text) (w : World)
      → (let r = get_scoped env org_id id w in
          r.1.db ≡ w.db
          × ((team : Team)
              → r.0 ≡ ok team
              → find_first (is_live_team id) w.db.teams ≡ some team
                × text_eq team.organization_id org_id ≡ true))
  unfolding get_scoped get_team_row
  get_scoped-cases org_id id w = elim (Option-cases (find_first (is_live_team id) w.db.teams)) [
    | inl nothing ↦ (ground arith, λ team h. (ground arith, ground arith))
    | inr (x, found) ↦ (ground arith, λ team h. (ground arith, ground arith))
  ]

  member-read :
      (org_id user_id : Text) (w : World)
      → (let r = get_organization_member env org_id user_id w in
          r.1.db ≡ w.db
          × ((m : OrganizationMember)
              → r.0 ≡ ok (some m)
              → find_first (λ m. has_key org_id user_id m && m.is_active) w.db.members ≡ some m))
  unfolding get_organization_member
  member-read org_id user_id w = (ground arith, λ m h. ground arith)

  upsert-written :
      (m : TeamMember) (w : World)
      → (upsert_team_member env m w).0 ≡ ok tt
      → (let db = (upsert_team_member env m w).1.db in
          db.teams ≡ w.db.teams
          × db.team_members ≡ (
              if any (is_membership m.team_id m.user_id) w.db.team_members
              then update_where
                  (is_membership m.team_id m.user_id)
                  (λ n. record n { role = m.role })
                  w.db.team_members
              else w.db.team_members ++ m ∷ []))
  unfolding upsert_team_member
  upsert-written m w done = elim (Bool-cases (env.faults w.calls)) [
    | inl fault ↦ (ground arith, ground arith)
    | inr works ↦ rw works (refl, refl)
  ]

  is_on_owner-joined :
      (db : Db) (org_id team_id user_id : Text) (repo : Repository)
      → is_empty team_id ≡ false
      → repo.owner_team_id ≡ some team_id
      → text_eq repo.organization_id org_id ≡ true
      → any (λ m. text_eq team_id m.team_id && joins_team db.teams org_id user_id m) db.team_members
        ≡ true
      → is_on_owner db user_id repo ≡ true
  unfolding joins_team
  is_on_owner-joined db org_id team_id user_id repo named owned own there =
      rw (owned, named, (text_eq_iff repo.organization_id org_id).0 own) there

  add_member-joins :
      (org_id team_id user_id : Text) (role : TeamRole) (w : World) (repo : Repository)
      → is_empty team_id ≡ false
      → repo.owner_team_id ≡ some team_id
      → text_eq repo.organization_id org_id ≡ true
      → (add_member env org_id team_id user_id role w).0 ≡ ok tt
      → any (λ m. has_key org_id user_id m && m.is_active) w.db.members ≡ true
        × is_on_owner (add_member env org_id team_id user_id role w).1.db user_id repo ≡ true
  unfolding add_member
  add_member-joins org_id team_id user_id role w repo named owned own done =
      let w1 = (get_scoped env org_id team_id w).1 in
      let w2 = (get_organization_member env org_id user_id w1).1 in
      let (same1, scoped) = get_scoped-cases org_id team_id w in
      let (same2, read) = member-read org_id user_id w1 in
      let new : TeamMember = record {
        team_id = team_id;
        user_id = user_id;
        role = granted_role role;
      } in
      elim (Outcome-cases (get_scoped env org_id team_id w).0) [
        | inr (error, fails) ↦ (ground arith, ground arith)
        | inl (team, found) ↦ elim (Bool-cases (is_local (team_source team))) [
          | inr imported ↦ (ground arith, ground arith)
          | inl local ↦ elim (Outcome-cases (get_organization_member env org_id user_id w1).0) [
            | inr (error, fails) ↦ (ground arith, ground arith)
            | inl (member, answer) ↦ elim (Option-cases member) [
              | inl nobody ↦ (ground arith, ground arith)
              | inr (m, somebody) ↦
                  let step : add_member env org_id team_id user_id role w
                      ≡ upsert_team_member env new w2 =
                    rw (found, local, answer, somebody) refl in
                  let (teams, members) = upsert-written new w2 (sym (ap (λ r. r.0) step) ∙ done) in
                  let (row, own_team) = scoped team found in
                  let listed =
                    sym (
                      ap
                        (λ db. find_first (λ m. has_key org_id user_id m && m.is_active) db.members)
                        same1)
                    ∙ read m (answer ∙ ap ok somebody) in
                  let joined =
                    any-found (is_live_team team_id)
                      (λ t. is_live_team team_id t && text_eq t.organization_id org_id) w.db.teams
                      team row
                      (ground
                        (arith, find_first-test (is_live_team team_id) w.db.teams team row)) in
                  let after = (upsert_team_member env new w2).1.db in
                  let same_teams : after.teams ≡ w.db.teams =
                    teams ∙ ap (λ db. db.teams) (same2 ∙ same1) in
                  (
                    any-found (λ m. has_key org_id user_id m && m.is_active)
                        (λ m. has_key org_id user_id m && m.is_active) w.db.members m listed
                        (find_first-test (λ m. has_key org_id user_id m && m.is_active) w.db.members
                          m listed),
                    ap (λ r. is_on_owner r.1.db user_id repo) step
                        ∙ is_on_owner-joined after org_id team_id user_id repo named owned own (
                            ap
                              (λ ms.
                                any
                                  (λ m.
                                    text_eq team_id m.team_id
                                    && joins_team after.teams org_id user_id m)
                                  ms)
                              members
                            ∙ upserted-joins after.teams org_id team_id user_id (granted_role role)
                                w2.db.team_members
                                (ap
                                    (any (λ t.
                                      is_live_team team_id t && text_eq t.organization_id org_id))
                                    same_teams
                                  ∙ joined)),
                  )
            ]
          ]
        ]
      ]

  -- After `AddMember` succeeded, the person is an active member of the organization, and
  -- `CanWriteRepository` lets them, as a developer, write each repository of the organization that the
  -- team owns, if its look-up of the teams does not fail.
  pub add_member-grants :
      (org_id team_id user_id : Text) (role : TeamRole) (w : World) (repo : Repository)
      → is_empty team_id ≡ false
      → repo.owner_team_id ≡ some team_id
      → text_eq repo.organization_id org_id ≡ true
      → (add_member env org_id team_id user_id role w).0 ≡ ok tt
      → env.faults (add_member env org_id team_id user_id role w).1.calls ≡ false
      → any (λ m. has_key org_id user_id m && m.is_active) w.db.members ≡ true
        × (can_write_repository env developer user_id repo
            (add_member env org_id team_id user_id role w).1).0
          ≡ ok true
  add_member-grants org_id team_id user_id role w repo named owned own done works =
      let w' = (add_member env org_id team_id user_id role w).1 in
      let (listed, joined) =
        add_member-joins org_id team_id user_id role w repo named owned own done in
      (
        listed,
        (can_write_iff env developer user_id repo w').0
            ∙ ap (λ b. ok (b && not (env.faults w'.calls))) joined
            ∙ ap (λ b. ok (not b)) works,
      )
