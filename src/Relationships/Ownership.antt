-- ===== src/Relationships/Ownership.antt =====
-- Who edits a derived edge owns it: the derivers leave it alone from then on.
use cuddly_lamp.Prelude.{
  ◌≡◌, refl, sym, ap, ◌∙◌, subst, inl, inr, ℕ, Bool, true, ◌&&◌, List, [], ◌∷◌, any, select,
  update_where, Bool-cases, arith, find_first-test,
}
use cuddly_lamp.Text.{Text, text_eq}
use cuddly_lamp.Text.Laws.{text_eq_iff, text_eq_refl}
use cuddly_lamp.Model.Architecture.{
  RepositoryRelationship, is_undeleted, promote, is_valid_relationship_kind, is_unit,
  relationship_is_valid,
}
use cuddly_lamp.Env.{Env}
use cuddly_lamp.Storage.Action.{World, ok}
use cuddly_lamp.Storage.Architecture.{update_repository_relationship}
use cuddly_lamp.Architecture.{DerivedSet}
use cuddly_lamp.Architecture.Apply.{apply_edges}
use cuddly_lamp.Architecture.Apply.Rows.{IsKeyed, is_human, row-passes}
use cuddly_lamp.Architecture.Apply.Upsert.{has_id, update_where-IsKeyed}
use cuddly_lamp.Architecture.Apply.Runs.{rows_of, Outcome-cases}
use cuddly_lamp.Architecture.Apply.Runs.Kept.{apply_edges-human}
use cuddly_lamp.Relationships.{
  UpdateRequest, is_none_or, update_relationship, require_relationship_in_organization, updated,
}
use cuddly_lamp.Relationships.Rows.{find_first-IsRow, require-cases}

-- The live row of an id.
abbrev pub is_live_id : Text → RepositoryRelationship → Bool
is_live_id id r = has_id id r && is_undeleted r

any-select :
    (p q : RepositoryRelationship → Bool) (rows : List RepositoryRelationship)
    → any q (select p rows) ≡ any (λ r. p r && q r) rows
any-select p q [] = refl
any-select p q (r ∷ rows) = ground (arith, any-select p q rows)

any-update_hit :
    (p q : RepositoryRelationship → Bool) (f : RepositoryRelationship → RepositoryRelationship)
    (rows : List RepositoryRelationship)
    → ((r : RepositoryRelationship) → p r ≡ true → q (f r) ≡ true)
    → any p rows ≡ true
    → any q (update_where p f rows) ≡ true
any-update_hit p q f [] h k = k
any-update_hit p q f (r ∷ rows) h k = ground (arith, any-update_hit p q f rows h, h r)

module _ (env : Env) where
  update_relationship-rows :
      (org_id id : Text) (req : UpdateRequest) (w : World) (rel : RepositoryRelationship)
      → IsKeyed (rows_of w)
      → (update_relationship env org_id id req w).0 ≡ ok rel
      → IsKeyed (rows_of (update_relationship env org_id id req w).1)
        × any
            (λ r. is_human r && is_live_id id r)
            (rows_of (update_relationship env org_id id req w).1)
          ≡ true
  unfolding update_relationship update_repository_relationship updated promote
  update_relationship-rows org_id id req w rel keyed done =
      let (same, found) = require-cases env id org_id w in
      let w1 = (require_relationship_in_organization env id org_id w).1 in
      elim (Outcome-cases (require_relationship_in_organization env id org_id w).0) [
        | inr (error, fails) ↦ ground arith
        | inl (old, there) ↦
            let (row, own) = found old there in
            let new =
              λ (r : RepositoryRelationship). record (updated req old) { updated_at = w1.clock } in
            let is_old =
              find_first-IsRow (λ r. text_eq r.id id && is_undeleted r) (rows_of w) old row in
            let passes =
              find_first-test (λ r. text_eq r.id id && is_undeleted r) (rows_of w) old row in
            let keyed' : IsKeyed (update_where (λ r. text_eq r.id old.id) new (rows_of w1)) =
              subst (λ rows. IsKeyed (update_where (λ r. text_eq r.id old.id) new rows)) (sym same)
                (update_where-IsKeyed (λ r. text_eq r.id old.id) new
                  (λ r hit. sym ((text_eq_iff r.id old.id).0 hit)) (rows_of w) keyed) in
            let hit : any (λ r. is_human r && is_live_id id r)
                  (update_where (λ r. text_eq r.id old.id) new (rows_of w1))
                ≡ true =
              ap
                (λ rows.
                  any (λ r. is_human r && is_live_id id r)
                    (update_where (λ r. text_eq r.id old.id) new rows))
                same
              ∙ any-update_hit (λ r. text_eq r.id old.id) (λ r. is_human r && is_live_id id r) new
                  (rows_of w) (λ r h. ground arith)
                  (row-passes (λ r. text_eq r.id old.id) (rows_of w) old is_old
                    (text_eq_refl old.id)) in
            elim (Bool-cases (is_none_or is_valid_relationship_kind req.kind)) [
              | inr bad ↦ ground arith
              | inl kind ↦ elim (Bool-cases (is_none_or is_unit req.confidence)) [
                | inr bad ↦ ground arith
                | inl unit ↦ elim (Bool-cases (relationship_is_valid (updated req old))) [
                  | inr bad ↦ ground arith
                  | inl valid ↦ elim (Bool-cases (env.faults w1.calls)) [
                    | inl fault ↦ ground arith
                    | inr works ↦ rw (there, kind, unit, valid, works) (keyed', hit)
                  ]
                ]
              ]
            ]
      ]

  -- After `UpdateRelationship` succeeded, the relationship is a person's, and no later run of
  -- `applyEdges` retires it or makes it a deriver's, whatever it derives and whatever calls fail.
  pub update-survives :
      (org_id id : Text) (req : UpdateRequest) (w : World) (rel : RepositoryRelationship)
      (org_id' key : Text) (set : DerivedSet) (run_started_at : ℕ)
      → IsKeyed (rows_of w)
      → (update_relationship env org_id id req w).0 ≡ ok rel
      → any
          (λ r. is_human r && is_live_id id r)
          (rows_of
            (apply_edges env org_id' key set run_started_at
              (update_relationship env org_id id req w).1).1)
        ≡ true
  update-survives org_id id req w rel org_id' key set run_started_at keyed done =
      let w' = (update_relationship env org_id id req w).1 in
      let (keyed', there) = update_relationship-rows org_id id req w rel keyed done in
      let same = apply_edges-human env org_id' key set run_started_at w' keyed' in
      sym (
        any-select is_human (is_live_id id)
          (rows_of (apply_edges env org_id' key set run_started_at w').1))
      ∙ ap (any (is_live_id id)) same
      ∙ any-select is_human (is_live_id id) (rows_of w')
      ∙ there
