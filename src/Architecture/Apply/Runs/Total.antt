-- ===== src/Architecture/Apply/Runs/Total.antt =====
-- A run of `applyEdges` comes to its end where no call fails.
use cuddly_lamp.Prelude.{
  ◌≡◌, refl, ap, ◌∙◌, inl, inr, ℕ, suc, ◌+◌, ◌≤◌, Bool, true, false, not, ◌&&◌, List, [], ◌∷◌, any,
  All, Bool-cases, Option-cases, arith,
}
use cuddly_lamp.Text.{Text, text_eq, is_empty}
use cuddly_lamp.Model.Architecture.{
  DerivationSuppression, is_valid_relationship_kind, is_valid_relationship_source, is_unit,
  relationship_is_valid, relationship_is_derived,
}
use cuddly_lamp.Env.{Env}
use cuddly_lamp.Storage.Action.{World, ok}
use cuddly_lamp.Storage.Architecture.{
  find_twin, revive, upsert_rows, upsert_derived_relationship, list_suppressions,
  sweep_derived_relationships,
}
use cuddly_lamp.Architecture.{DerivedEdge, DerivedSet}
use cuddly_lamp.Architecture.Apply.{
  is_passed_over, relationship_of, upsert_edges, apply_edges, ReconcileStats,
}
use cuddly_lamp.Architecture.Apply.Rows.{any_last}
use cuddly_lamp.Architecture.Apply.Upsert.{has_id, inserted, upsert_rows-cases, any_id-update_where}
use cuddly_lamp.Architecture.Apply.Runs.{
  rows_of, upsert-cases, upsert, loop, is_left_out, loop-over, loop-steps, next-done,
  suppressions-rows,
}

-- The ids that are still to be drawn are of no row.
abbrev pub IsFresh : Env → World → Type 0
IsFresh env w = (n : ℕ) → w.draws ≤ n → any (has_id (env.uuid n)) (rows_of w) ≡ false

abbrev pub is_writable : DerivedEdge → Bool
is_writable e =
    is_valid_relationship_kind e.kind
    && is_valid_relationship_source e.source
    && is_unit e.confidence

module _ (env : Env) (works : (n : ℕ) → env.faults n ≡ false)
    (distinct : (m n : ℕ) → text_eq (env.uuid m) (env.uuid n) ≡ true → m ≡ n) (org_id key : Text)
    (some_org : is_empty org_id ≡ false) (some_key : is_empty key ≡ false)
    (suppressions : List DerivationSuppression) (seen_at : ℕ) where
  upsert-works :
      (e : DerivedEdge) (w : World)
      → is_writable e ≡ true
      → is_left_out env org_id key suppressions seen_at e ≡ false
      → IsFresh env w
      → (upsert env org_id key suppressions seen_at e w).0 ≡ ok tt
        × (upsert env org_id key suppressions seen_at e w).1.draws ≡ suc w.draws
  unfolding upsert_derived_relationship upsert_rows relationship_is_valid relationship_is_derived
      is_passed_over relationship_of
  upsert-works e w writable kept fresh =
      let rel = relationship_of org_id key seen_at e in
      elim (Option-cases (find_twin rel (rows_of w))) [
        | inl none_found ↦ (
          ground (arith, works w.calls, fresh w.draws),
          ground (arith, works w.calls, fresh w.draws),
        )
        | inr (x, found) ↦ (ground (arith, works w.calls), ground (arith, works w.calls))
      ]

  upsert-IsFresh :
      (e : DerivedEdge) (w : World)
      → (upsert env org_id key suppressions seen_at e w).0 ≡ ok tt
      → (upsert env org_id key suppressions seen_at e w).1.draws ≡ suc w.draws
      → IsFresh env w
      → IsFresh env (upsert env org_id key suppressions seen_at e w).1
  unfolding relationship_of revive
  upsert-IsFresh e w done draws fresh n later =
      let rel = relationship_of org_id key seen_at e in
      let earlier : w.draws ≤ n = omega (arith, draws, later) in
      elim (upsert-cases env rel w) [
        | inl (same, failed) ↦ elim (failed tt done) [ ]
        | inr (written, rows) ↦
            elim (upsert_rows-cases w.clock (env.uuid w.draws) rel (rows_of w)
              (rows_of (upsert env org_id key suppressions seen_at e w).1) rows) [
                | inl (none_found, unused, e') ↦
                    ap (any (has_id (env.uuid n))) e'
                    ∙ any_last (has_id (env.uuid n)) (rows_of w)
                        (inserted w.clock (env.uuid w.draws) rel)
                    ∙ ground (arith, fresh n earlier, distinct w.draws n)
                | inr (x, (found, e')) ↦
                    ap (any (has_id (env.uuid n))) e'
                    ∙ any_id-update_where (has_id x.id) (revive w.clock rel) (λ r hit. refl)
                        (env.uuid n) (rows_of w)
                    ∙ fresh n earlier
              ]
      ]

  loop-works :
      (es : List DerivedEdge) (w : World)
      → All (λ e. is_writable e ≡ true) es
      → IsFresh env w
      → (n : ℕ) × ((loop env org_id key suppressions seen_at es w).0 ≡ ok n)
  unfolding upsert_edges
  loop-works [] w writable fresh = (0, refl)
  loop-works (e ∷ es) w writable fresh =
      elim (Bool-cases (is_left_out env org_id key suppressions seen_at e)) [
        | inl over ↦
            let (n, done) = loop-works es w writable.1 fresh in
            (n, ap (λ r. r.0) (loop-over env org_id key suppressions seen_at e es w over) ∙ done)
        | inr kept ↦
            let (written, draws) = upsert-works e w writable.0 kept fresh in
            let (n, done) =
              loop-works es (upsert env org_id key suppressions seen_at e w).1 writable.1
                (upsert-IsFresh e w written draws fresh) in
            (
              suc n,
              ap (λ r. r.0) (loop-steps env org_id key suppressions seen_at e es w kept written)
                  ∙ next-done env org_id key suppressions seen_at es
                      (upsert env org_id key suppressions seen_at e w).1 n done,
            )
      ]

suppressions-works :
    (env : Env) (works : (n : ℕ) → env.faults n ≡ false) (org_id key : Text) (w : World)
    → ((ss : List DerivationSuppression) × ((list_suppressions env org_id key w).0 ≡ ok ss))
      × (list_suppressions env org_id key w).1.draws ≡ w.draws
unfolding list_suppressions
suppressions-works env works org_id key w = rw (works w.calls) ((_, refl), refl)

sweep-works :
    (env : Env) (works : (n : ℕ) → env.faults n ≡ false) (key : Text) (run_started_at : ℕ)
    (w : World)
    → is_empty key ≡ false
    → (n : ℕ) × ((sweep_derived_relationships env key run_started_at w).0 ≡ ok n)
unfolding sweep_derived_relationships
sweep-works env works key run_started_at w some_key = rw (some_key, works w.calls) (_, refl)

-- Where no call fails and the drawn ids are new and distinct, `applyEdges` succeeds for a named
-- organization and key on every set whose edges have a valid kind, source and confidence.
pub apply_edges-succeeds :
    (env : Env) (org_id key : Text) (set : DerivedSet) (run_started_at : ℕ) (w : World)
    → ((n : ℕ) → env.faults n ≡ false)
    → ((m n : ℕ) → text_eq (env.uuid m) (env.uuid n) ≡ true → m ≡ n)
    → IsFresh env w
    → is_empty org_id ≡ false
    → is_empty key ≡ false
    → All (λ e. is_writable e ≡ true) set.edges
    → (stats : ReconcileStats) × ((apply_edges env org_id key set run_started_at w).0 ≡ ok stats
        × stats.sweep_skipped ≡ not set.complete)
unfolding apply_edges
apply_edges-succeeds env org_id key set run_started_at w works distinct fresh some_org some_key
      writable =
    let ((ss, found), draws) = suppressions-works env works org_id key w in
    let w1 = (list_suppressions env org_id key w).1 in
    let same = suppressions-rows env org_id key w in
    let fresh1 : IsFresh env w1 =
      λ n later. ap (any (has_id (env.uuid n))) same ∙ fresh n (omega (arith, draws, later)) in
    let (n, written) =
      loop-works env works distinct org_id key some_org some_key ss (run_started_at + 1000000)
        set.edges w1 writable fresh1 in
    let w2 = (upsert_edges env org_id key ss (run_started_at + 1000000) set.edges w1).1 in
    elim (Bool-cases set.complete) [
      | inl complete ↦
          let (swept, clean) = sweep-works env works key run_started_at w2 some_key in
          rw (found, written, complete, clean) (_, (refl, refl))
      | inr incomplete ↦ rw (found, written, incomplete) (_, (refl, refl))
    ]
