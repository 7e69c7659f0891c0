-- ===== src/Relationships/Tenants.antt =====
-- The relationships of an organization are out of the reach of the others, and an edited edge of the derivers.
use cuddly_lamp.Prelude.{
  ◌≡◌, ap, ◌∙◌, inl, inr, ◌&&◌, select, update_where, Bool-cases, find_first-test, arith,
}
use cuddly_lamp.Text.{Text, text_eq}
use cuddly_lamp.Text.Laws.{text_eq_iff}
use cuddly_lamp.Model.Architecture.{
  RepositoryRelationship, is_undeleted, promote, is_valid_relationship_kind, is_unit,
}
use cuddly_lamp.Env.{Env}
use cuddly_lamp.Storage.Action.{World}
use cuddly_lamp.Storage.Architecture.{update_repository_relationship, retire}
use cuddly_lamp.Architecture.Apply.Rows.{IsKeyed}
use cuddly_lamp.Architecture.Apply.Runs.{rows_of, Outcome-cases}
use cuddly_lamp.Relationships.{
  CreateRequest, UpdateRequest, is_none_or, create_relationship, update_relationship,
  delete_relationship, require_relationship_in_organization, updated,
}
use cuddly_lamp.Relationships.Rows.{
  is_foreign, find_first-IsRow, require-cases, foreign-update, update_repository-keeps,
  delete_repository-keeps, create_relationship-foreign,
}

module _ (env : Env) where
  update_relationship-foreign :
      (org_id id : Text) (req : UpdateRequest) (w : World)
      → IsKeyed (rows_of w)
      → select (is_foreign org_id) (rows_of (update_relationship env org_id id req w).1)
        ≡ select (is_foreign org_id) (rows_of w)
  unfolding update_relationship updated promote
  update_relationship-foreign org_id id req w keyed =
      let (same, found) = require-cases env id org_id w in
      let w1 = (require_relationship_in_organization env id org_id w).1 in
      elim (Outcome-cases (require_relationship_in_organization env id org_id w).0) [
        | inr (error, fails) ↦ rw fails (ap (select (is_foreign org_id)) same)
        | inl (rel, there) ↦
            let (row, own) = found rel there in
            let new =
              λ (r : RepositoryRelationship). record (updated req rel) { updated_at = w1.clock } in
            let one =
              foreign-update org_id (rows_of w) rel (λ r. text_eq r.id rel.id) new keyed
                (find_first-IsRow (λ r. text_eq r.id id && is_undeleted r) (rows_of w) rel row) own
                own (λ r hit. hit) in
            let written =
              update_repository-keeps env
                (λ rows. select (is_foreign org_id) rows ≡ select (is_foreign org_id) (rows_of w))
                (updated req rel) w1 (ap (select (is_foreign org_id)) same)
                (ap
                    (λ rows.
                      select (is_foreign org_id) (update_where (λ r. text_eq r.id rel.id) new rows))
                    same
                  ∙ one) in
            elim (Bool-cases (is_none_or is_valid_relationship_kind req.kind)) [
              | inr bad ↦ rw (there, bad) (ap (select (is_foreign org_id)) same)
              | inl kind ↦ elim (Bool-cases (is_none_or is_unit req.confidence)) [
                | inr bad ↦ rw (there, kind, bad) (ap (select (is_foreign org_id)) same)
                | inl unit ↦
                    elim (Outcome-cases
                      (update_repository_relationship env (updated req rel) w1).0) [
                        | inl (u, done) ↦ rw (there, kind, unit, done) written
                        | inr (error, fails) ↦ rw (there, kind, unit, fails) written
                      ]
              ]
            ]
      ]

  delete_relationship-foreign :
      (org_id id : Text) (w : World)
      → IsKeyed (rows_of w)
      → select (is_foreign org_id) (rows_of (delete_relationship env org_id id w).1)
        ≡ select (is_foreign org_id) (rows_of w)
  unfolding delete_relationship retire
  delete_relationship-foreign org_id id w keyed =
      let (same, found) = require-cases env id org_id w in
      let w1 = (require_relationship_in_organization env id org_id w).1 in
      elim (Outcome-cases (require_relationship_in_organization env id org_id w).0) [
        | inr (error, fails) ↦ rw fails (ap (select (is_foreign org_id)) same)
        | inl (rel, there) ↦
            let (row, own) = found rel there in
            let one =
              foreign-update org_id (rows_of w) rel (λ r. text_eq r.id id && is_undeleted r)
                (retire w1.clock) keyed
                (find_first-IsRow (λ r. text_eq r.id id && is_undeleted r) (rows_of w) rel row) own
                own
                (λ r hit. ground (
                  arith,
                  text_eq_iff r.id id,
                  text_eq_iff rel.id id,
                  text_eq_iff r.id rel.id,
                  find_first-test (λ r. text_eq r.id id && is_undeleted r) (rows_of w) rel row,
                )) in
            rw there (
              delete_repository-keeps env
                (λ rows. select (is_foreign org_id) rows ≡ select (is_foreign org_id) (rows_of w))
                id w1 (ap (select (is_foreign org_id)) same)
                (ap
                    (λ rows. select (is_foreign org_id) (
                      update_where (λ r. text_eq r.id id && is_undeleted r) (retire w1.clock) rows))
                    same
                  ∙ one))
      ]

  -- No operation on relationships changes a row of another organization, whatever calls fail, if the ids
  -- are keys.
  pub relationships-keep_others :
      (org_id user_id id : Text) (new : CreateRequest) (change : UpdateRequest) (w : World)
      → IsKeyed (rows_of w)
      → select (is_foreign org_id) (rows_of (create_relationship env org_id user_id new w).1)
          ≡ select (is_foreign org_id) (rows_of w)
        × select (is_foreign org_id) (rows_of (update_relationship env org_id id change w).1)
          ≡ select (is_foreign org_id) (rows_of w)
        × select (is_foreign org_id) (rows_of (delete_relationship env org_id id w).1)
          ≡ select (is_foreign org_id) (rows_of w)
  relationships-keep_others org_id user_id id new change w keyed = (
    create_relationship-foreign env org_id user_id new w,
    update_relationship-foreign org_id id change w keyed,
    delete_relationship-foreign org_id id w keyed,
  )
