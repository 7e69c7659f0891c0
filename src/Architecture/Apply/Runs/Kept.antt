-- ===== src/Architecture/Apply/Runs/Kept.antt =====
-- What a run of `applyEdges` leaves as it is: the rows of people, and all rows if the facts are incomplete.
use cuddly_lamp.Prelude.{
  ◌≡◌, refl, ◌∙◌, inl, inr, ℕ, ◌+◌, true, false, ◌&&◌, List, any, select, update_where,
  Option-cases, All-each, arith,
}
use cuddly_lamp.Text.{Text}
use cuddly_lamp.Model.Architecture.{RepositoryRelationship, is_undeleted}
use cuddly_lamp.Env.{Env}
use cuddly_lamp.Storage.Action.{World}
use cuddly_lamp.Storage.Architecture.{is_stale, retire}
use cuddly_lamp.Architecture.{DerivedSet}
use cuddly_lamp.Architecture.Apply.{relationship_of, apply_edges}
use cuddly_lamp.Architecture.Apply.Rows.{IsKeyed, is_human, select-update_by}
use cuddly_lamp.Architecture.Apply.Upsert.{
  upsert_rows-human, upsert_rows-alive, upsert_rows-IsKeyed, has_id, update_where-IsKeyed,
}
use cuddly_lamp.Architecture.Apply.Runs.{rows_of, apply_edges-keeps}

module _ (env : Env) where
  stale-human :
      (key : Text) (run_started_at now : ℕ) (r : RepositoryRelationship)
      → is_stale key run_started_at r ≡ true
      → is_human r ≡ false × is_human (retire now r) ≡ false
  unfolding is_stale retire
  stale-human key run_started_at now r h = elim (Option-cases r.derivation_key) [
    | inl null ↦ ground arith
    | inr (k, e) ↦ (ground arith, ground arith)
  ]

  sweep-IsKeyed :
      (key : Text) (run_started_at now : ℕ) (rows : List RepositoryRelationship)
      → IsKeyed rows
      → IsKeyed (update_where (is_stale key run_started_at) (retire now) rows)
  unfolding retire
  sweep-IsKeyed key run_started_at now rows =
      update_where-IsKeyed (is_stale key run_started_at) (retire now) (λ r hit. refl) rows

  -- `applyEdges` changes no row that a person declared, whatever calls fail, if the ids are keys.
  pub apply_edges-human :
      (org_id key : Text) (set : DerivedSet) (run_started_at : ℕ) (w : World)
      → IsKeyed (rows_of w)
      → select is_human (rows_of (apply_edges env org_id key set run_started_at w).1)
        ≡ select is_human (rows_of w)
  unfolding relationship_of
  apply_edges-human org_id key set run_started_at w keyed =
      (apply_edges-keeps env
        (λ rows. IsKeyed rows × select is_human rows ≡ select is_human (rows_of w)) org_id key set
        run_started_at
        (λ now id e rows rows' done h. (
          upsert_rows-IsKeyed now id (relationship_of org_id key (run_started_at + 1000000) e) rows
              rows' done h.0,
          upsert_rows-human now id (relationship_of org_id key (run_started_at + 1000000) e) rows
                rows' done h.0 refl
              ∙ h.1,
        ))
        (λ complete now rows h. (
          sweep-IsKeyed key run_started_at now rows h.0,
          select-update_by (is_stale key run_started_at) is_human (retire now) rows
                (All-each
                  (λ r. is_stale key run_started_at r ≡ true → is_human (retire now r) ≡ false)
                  (λ r stale. (stale-human key run_started_at now r stale).1) rows)
                (All-each (λ r. is_stale key run_started_at r ≡ true → is_human r ≡ false)
                  (λ r stale. (stale-human key run_started_at now r stale).0) rows)
              ∙ h.1,
        ))
        w (keyed, refl)).1

  -- A run over incomplete facts retires no row: each id that is live stays so, whatever calls fail.
  pub apply_edges-alive :
      (org_id key : Text) (set : DerivedSet) (run_started_at : ℕ) (w : World) (id : Text)
      → set.complete ≡ false
      → any (λ r. has_id id r && is_undeleted r) (rows_of w) ≡ true
      → any
          (λ r. has_id id r && is_undeleted r)
          (rows_of (apply_edges env org_id key set run_started_at w).1)
        ≡ true
  apply_edges-alive org_id key set run_started_at w id incomplete =
      apply_edges-keeps env (λ rows. any (λ r. has_id id r && is_undeleted r) rows ≡ true) org_id
        key set run_started_at
        (λ now j e rows rows' done h.
          upsert_rows-alive now j (relationship_of org_id key (run_started_at + 1000000) e) rows
            rows' done id h)
        (λ complete now rows h. ground arith) w
