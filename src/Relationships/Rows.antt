-- ===== src/Relationships/Rows.antt =====
-- The rows that the operations on relationships read and write.
use cuddly_lamp.Prelude.{
  ◌≡◌, refl, ap, ◌∙◌, inl, inr, suc, Bool, true, false, not, ◌&&◌, none, some, List, [], ◌∷◌,
  All-map, find_first, select, update_where, is_some, Bool-cases, Option-cases, arith,
}
use cuddly_lamp.Text.{Text, text_eq}
use cuddly_lamp.Text.Laws.{text_eq_refl}
use cuddly_lamp.Model.Architecture.{
  RepositoryRelationship, is_undeleted, is_valid_relationship_kind, relationship_is_valid,
}
use cuddly_lamp.Env.{Env}
use cuddly_lamp.Storage.Action.{World, ok}
use cuddly_lamp.Storage.Architecture.{
  get_repository, create_repository_relationship, get_repository_relationship,
  update_repository_relationship, delete_repository_relationship, retire,
}
use cuddly_lamp.Architecture.Apply.Rows.{IsKeyed, IsRow, select-update_by, select_last, only_row}
use cuddly_lamp.Architecture.Apply.Runs.{rows_of, Outcome-cases}
use cuddly_lamp.Relationships.{
  CreateRequest, create_relationship, require_relationship_in_organization,
  fetch_repository_in_organization, require_repository_in_organization, declared,
}

-- A row of another organization.
abbrev pub is_foreign : Text → RepositoryRelationship → Bool
is_foreign org_id r = not (text_eq r.organization_id org_id)

pub find_first-IsRow :
    (p : RepositoryRelationship → Bool) (rows : List RepositoryRelationship)
    (x : RepositoryRelationship)
    → find_first p rows ≡ some x
    → IsRow rows x
find_first-IsRow p [] x e = cc
find_first-IsRow p (r ∷ rows) x e = elim (Bool-cases (p r)) [
  | inl h ↦ inl (ground arith)
  | inr h ↦ inr (find_first-IsRow p rows x (ground arith))
]

pub foreign-update :
    (org_id : Text) (rows : List RepositoryRelationship) (x : RepositoryRelationship)
    (p : RepositoryRelationship → Bool) (f : RepositoryRelationship → RepositoryRelationship)
    → IsKeyed rows
    → IsRow rows x
    → text_eq x.organization_id org_id ≡ true
    → text_eq (f x).organization_id org_id ≡ true
    → ((r : RepositoryRelationship) → p r ≡ true → text_eq r.id x.id ≡ true)
    → select (is_foreign org_id) (update_where p f rows) ≡ select (is_foreign org_id) rows
foreign-update org_id rows x p f keyed row own own' ids =
    let only = only_row rows x keyed row in
    select-update_by p (is_foreign org_id) f rows
      (All-map (λ r. text_eq r.id x.id ≡ true → r ≡ x)
        (λ r. p r ≡ true → is_foreign org_id (f r) ≡ false)
        (λ r h hit. ap (λ z. is_foreign org_id (f z)) (h (ids r hit)) ∙ ground arith) rows only)
      (All-map (λ r. text_eq r.id x.id ≡ true → r ≡ x)
        (λ r. p r ≡ true → is_foreign org_id r ≡ false)
        (λ r h hit. ap (is_foreign org_id) (h (ids r hit)) ∙ ground arith) rows only)

module _ (env : Env) where
  pub require-cases :
      (id org_id : Text) (w : World)
      → (let r = require_relationship_in_organization env id org_id w in
          rows_of r.1 ≡ rows_of w
          × ((rel : RepositoryRelationship)
              → r.0 ≡ ok rel
              → find_first (λ r. text_eq r.id id && is_undeleted r) (rows_of w) ≡ some rel
                × text_eq rel.organization_id org_id ≡ true))
  unfolding require_relationship_in_organization get_repository_relationship
  require-cases id org_id w =
      elim (Option-cases (find_first (λ r. text_eq r.id id && is_undeleted r) (rows_of w))) [
        | inl e ↦ (ground arith, λ rel h. (ground arith, ground arith))
        | inr (x, e) ↦ (ground arith, λ rel h. (ground arith, ground arith))
      ]

  require_repository-rows :
      (id org_id : Text) (w : World)
      → rows_of (require_repository_in_organization env id org_id w).1 ≡ rows_of w
  unfolding require_repository_in_organization fetch_repository_in_organization get_repository
  require_repository-rows id org_id w =
      elim (Option-cases
        (find_first (λ r. text_eq r.id id && not (is_some r.deleted_at)) w.db.repositories)) [
          | inl e ↦ ground arith
          | inr (x, e) ↦ ground arith
        ]

  create_repository_relationship-foreign :
      (org_id : Text) (rel : RepositoryRelationship) (w : World)
      → text_eq rel.organization_id org_id ≡ true
      → select (is_foreign org_id) (rows_of (create_repository_relationship env rel w).1)
        ≡ select (is_foreign org_id) (rows_of w)
  unfolding create_repository_relationship
  create_repository_relationship-foreign org_id rel w own =
      let row = record rel { created_at = w.clock; updated_at = w.clock; deleted_at = none } in
      ground (arith, select_last (is_foreign org_id) (rows_of w) row (ground arith))

  pub create_relationship-foreign :
      (org_id user_id : Text) (req : CreateRequest) (w : World)
      → select (is_foreign org_id) (rows_of (create_relationship env org_id user_id req w).1)
        ≡ select (is_foreign org_id) (rows_of w)
  unfolding create_relationship declared
  create_relationship-foreign org_id user_id req w =
      let a = require_repository_in_organization env req.source_repository_id org_id in
      let b = require_repository_in_organization env req.target_repository_id org_id in
      let w1 = (a w).1 in
      let w2 = (b w1).1 in
      let same1 = require_repository-rows req.source_repository_id org_id w in
      let same2 = require_repository-rows req.target_repository_id org_id w1 in
      let w3 = record w2 { draws = suc w2.draws } in
      let written =
        create_repository_relationship-foreign org_id
          (declared (env.uuid w2.draws) org_id user_id req) w3 (text_eq_refl org_id) in
      let foreign = λ (rows : List RepositoryRelationship). select (is_foreign org_id) rows in
      elim (Bool-cases (
        is_valid_relationship_kind req.kind
        && not (text_eq req.source_repository_id req.target_repository_id))) [
          | inr bad ↦ rw bad refl
          | inl good ↦ elim (Outcome-cases (a w).0) [
            | inr (error, fails) ↦ rw (good, fails) (ap foreign same1)
            | inl (source, found) ↦ elim (Outcome-cases (b w1).0) [
              | inr (error, fails) ↦ rw (good, found, fails) (ap foreign (same2 ∙ same1))
              | inl (target, there) ↦
                  elim (Outcome-cases
                    (create_repository_relationship env
                      (declared (env.uuid w2.draws) org_id user_id req) w3).0) [
                        | inl (u, done) ↦
                            rw (good, found, there, done) (written ∙ ap foreign (same2 ∙ same1))
                        | inr (error, fails) ↦
                            rw (good, found, there, fails) (written ∙ ap foreign (same2 ∙ same1))
                      ]
            ]
          ]
        ]

  -- A property of the rows that an update keeps, whether it is written or fails.
  pub update_repository-keeps :
      (P : List RepositoryRelationship → Type 0) (rel : RepositoryRelationship) (w : World)
      → P (rows_of w)
      → P (
          update_where
            (λ r. text_eq r.id rel.id)
            (λ r. record rel { updated_at = w.clock })
            (rows_of w))
      → P (rows_of (update_repository_relationship env rel w).1)
  unfolding update_repository_relationship
  update_repository-keeps P rel w before after = elim (Bool-cases (relationship_is_valid rel)) [
    | inr bad ↦ rw bad before
    | inl good ↦ elim (Bool-cases (env.faults w.calls)) [
      | inl fault ↦ rw (good, fault) before
      | inr works ↦ rw (good, works) after
    ]
  ]

  pub delete_repository-keeps :
      (P : List RepositoryRelationship → Type 0) (id : Text) (w : World)
      → P (rows_of w)
      → P (update_where (λ r. text_eq r.id id && is_undeleted r) (retire w.clock) (rows_of w))
      → P (rows_of (delete_repository_relationship env id w).1)
  unfolding delete_repository_relationship
  delete_repository-keeps P id w before after = elim (Bool-cases (env.faults w.calls)) [
    | inl fault ↦ rw fault before
    | inr works ↦ rw works after
  ]
