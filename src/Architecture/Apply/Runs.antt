-- ===== src/Architecture/Apply/Runs.antt =====
-- Whole runs of `applyEdges`: what they keep, and that they leave what was derived.
pub mod Exact
pub mod Total
pub mod Kept
use cuddly_lamp.Prelude.{
  ◌≡◌, refl, sym, ap, ◌∙◌, subst, ◌⊎◌, inl, inr, ℕ, suc, ◌+◌, Bool, true, false, not, ◌&&◌, ◌||◌,
  none, some, List, [], ◌∷◌, any, select, update_where, is_some, if◌then◌else◌, Bool-cases,
  Option-cases, All-each, arith,
}
use cuddly_lamp.Text.{Text, text_eq, is_empty}
use cuddly_lamp.Model.Architecture.{
  RepositoryRelationship, DerivationSuppression, is_undeleted, relationship_is_valid,
  relationship_is_derived,
}
use cuddly_lamp.Env.{Env}
use cuddly_lamp.Storage.Action.{World, Outcome, Error, ok, err, pure, ◌>>=◌}
use cuddly_lamp.Storage.Architecture.{
  upsert_derived_relationship, upsert_rows, or_now, list_suppressions, sweep_derived_relationships,
  is_stale, retire,
}
use cuddly_lamp.Architecture.{DerivedEdge, DerivedSet}
use cuddly_lamp.Architecture.Apply.{
  is_passed_over, is_suppressed, relationship_of, upsert_edges, apply_edges, ReconcileStats,
}
use cuddly_lamp.Architecture.Apply.Rows.{IsKeyed, is_human, select-update_by}
use cuddly_lamp.Architecture.Apply.Upsert.{
  upsert_rows-human, upsert_rows-alive, upsert_rows-IsKeyed, has_id, update_where-IsKeyed,
}

abbrev pub rows_of : World → List RepositoryRelationship
rows_of w = w.db.relationships

pub Outcome-cases {ℓ} :
    {A : Type ℓ} (o : Outcome A) → ((a : A) × (o ≡ ok a)) ⊎ ((e : Error) × (o ≡ err e))
Outcome-cases (ok a) = inl (a, refl)
Outcome-cases (err e) = inr (e, refl)

module _ (env : Env) where
  -- The write fails and changes no row, or it is the transaction.
  pub upsert-cases :
      (rel : RepositoryRelationship) (w : World)
      → (let done = upsert_derived_relationship env rel w in
          (rows_of done.1 ≡ rows_of w × ((e : Unit {0}) → done.0 ≡ ok e → ⊥))
          ⊎ (done.0 ≡ ok tt
              × upsert_rows w.clock
                  (env.uuid w.draws)
                  (record rel { last_seen_at = or_now w.clock rel.last_seen_at })
                  (rows_of w)
                ≡ ok (rows_of done.1)))
  unfolding upsert_derived_relationship
  upsert-cases rel w =
      elim (Bool-cases (relationship_is_valid rel && relationship_is_derived rel)) [
        | inr bad ↦ inl (ground arith, λ e h. ground arith)
        | inl good ↦ elim (Bool-cases (env.faults w.calls)) [
          | inl fault ↦ inl (ground arith, λ e h. ground arith)
          | inr works ↦
              elim (Outcome-cases (
                upsert_rows w.clock (env.uuid w.draws)
                  (record rel { last_seen_at = or_now w.clock rel.last_seen_at }) (rows_of w))) [
                    | inl (rows, e) ↦ inr (ground arith, ground arith)
                    | inr (error, e) ↦ inl (ground arith, λ u h. ground arith)
                  ]
        ]
      ]

  module _ (org_id key : Text) (suppressions : List DerivationSuppression) (seen_at : ℕ) where
    abbrev pub upsert : DerivedEdge → World → Outcome (Unit {0}) × World
    upsert e = upsert_derived_relationship env (relationship_of org_id key seen_at e)

    abbrev pub loop : List DerivedEdge → World → Outcome ℕ × World
    loop = upsert_edges env org_id key suppressions seen_at

    abbrev pub is_left_out : DerivedEdge → Bool
    is_left_out e = is_passed_over e || is_suppressed suppressions e

    -- The three ways of the loop over its first edge.
    pub loop-over :
        (e : DerivedEdge) (es : List DerivedEdge) (w : World)
        → is_left_out e ≡ true
        → loop (e ∷ es) w ≡ loop es w
    unfolding upsert_edges
    loop-over e es w over = rw over refl

    pub loop-fails :
        (e : DerivedEdge) (es : List DerivedEdge) (w : World) (error : Error)
        → is_left_out e ≡ false
        → (upsert e w).0 ≡ err error
        → loop (e ∷ es) w ≡ (err error, (upsert e w).1)
    unfolding upsert_edges
    loop-fails e es w error kept failed = rw (kept, failed) refl

    pub loop-steps :
        (e : DerivedEdge) (es : List DerivedEdge) (w : World)
        → is_left_out e ≡ false
        → (upsert e w).0 ≡ ok tt
        → loop (e ∷ es) w ≡ (loop es >>= λ n. pure (suc n)) (upsert e w).1
    unfolding upsert_edges
    loop-steps e es w kept done = rw (kept, done) refl

    pub next-world :
        (es : List DerivedEdge) (w : World) → ((loop es >>= λ n. pure (suc n)) w).1 ≡ (loop es w).1
    next-world es w = elim (Outcome-cases (loop es w).0) [
      | inl (n, e) ↦ rw e refl
      | inr (error, e) ↦ rw e refl
    ]

    pub next-fails :
        (es : List DerivedEdge) (w : World) (error : Error)
        → (loop es w).0 ≡ err error
        → ((loop es >>= λ n. pure (suc n)) w).0 ≡ err error
    next-fails es w error fails = rw fails refl

    pub next-done :
        (es : List DerivedEdge) (w : World) (n : ℕ)
        → (loop es w).0 ≡ ok n
        → ((loop es >>= λ n. pure (suc n)) w).0 ≡ ok (suc n)
    next-done es w n done = rw done refl

    -- What each transaction of the loop keeps, the loop keeps, whether it fails or not.
    pub loop-keeps :
        (P : List RepositoryRelationship → Type 0)
        → ((now : ℕ) (id : Text) (e : DerivedEdge) (rows rows' : List RepositoryRelationship)
            → upsert_rows now id (relationship_of org_id key seen_at e) rows ≡ ok rows'
            → P rows
            → P rows')
        → (es : List DerivedEdge) (w : World) → P (rows_of w)
        → P (rows_of (loop es w).1)
    unfolding upsert_edges relationship_of
    loop-keeps P step [] w h = h
    loop-keeps P step (e ∷ es) w h = elim (Bool-cases (is_left_out e)) [
      | inl over ↦
          subst (λ r. P (rows_of r.1)) (sym (loop-over e es w over)) (loop-keeps P step es w h)
      | inr kept ↦ elim (upsert-cases (relationship_of org_id key seen_at e) w) [
        | inl (same, failed) ↦ elim (Outcome-cases (upsert e w).0) [
          | inl (u, done) ↦ elim (failed u done) [ ]
          | inr (error, fails) ↦
              subst (λ r. P (rows_of r.1)) (sym (loop-fails e es w error kept fails))
                (subst P (sym same) h)
        ]
        | inr (done, rows) ↦
            subst (λ r. P (rows_of r.1)) (sym (loop-steps e es w kept done))
              (subst (λ v. P (rows_of v)) (sym (next-world es (upsert e w).1))
                (loop-keeps P step es (upsert e w).1
                  (step w.clock (env.uuid w.draws) e (rows_of w) (rows_of (upsert e w).1) rows h)))
      ]
    ]

  pub suppressions-rows :
      (org_id key : Text) (w : World) → rows_of (list_suppressions env org_id key w).1 ≡ rows_of w
  unfolding list_suppressions
  suppressions-rows org_id key w = ground arith

  pub sweep-keeps :
      (P : List RepositoryRelationship → Type 0) (key : Text) (run_started_at : ℕ)
      → ((now : ℕ) (rows : List RepositoryRelationship)
          → P rows
          → P (update_where (is_stale key run_started_at) (retire now) rows))
      → (w : World) → P (rows_of w)
      → P (rows_of (sweep_derived_relationships env key run_started_at w).1)
  unfolding sweep_derived_relationships
  sweep-keeps P key run_started_at closed w h = elim (Bool-cases (is_empty key)) [
    | inl nothing ↦ rw nothing h
    | inr some_key ↦ elim (Bool-cases (env.faults w.calls)) [
      | inl fault ↦ rw (some_key, fault) h
      | inr works ↦ rw (some_key, works) (closed w.clock (rows_of w) h)
    ]
  ]

  -- What the transactions of a run keep, the run keeps; the sweep only counts if the set is complete.
  pub apply_edges-keeps :
      (P : List RepositoryRelationship → Type 0) (org_id key : Text) (set : DerivedSet)
      (run_started_at : ℕ)
      → ((now : ℕ) (id : Text) (e : DerivedEdge) (rows rows' : List RepositoryRelationship)
          → upsert_rows now id (relationship_of org_id key (run_started_at + 1000000) e) rows
            ≡ ok rows'
          → P rows
          → P rows')
      → (set.complete ≡ true
          → (now : ℕ) (rows : List RepositoryRelationship) → P rows
          → P (update_where (is_stale key run_started_at) (retire now) rows))
      → (w : World) → P (rows_of w)
      → P (rows_of (apply_edges env org_id key set run_started_at w).1)
  unfolding apply_edges
  apply_edges-keeps P org_id key set run_started_at step closed w h =
      let h1 = subst P (sym (suppressions-rows org_id key w)) h in
      elim (Outcome-cases (list_suppressions env org_id key w).0) [
        | inr (error, fails) ↦ rw fails h1
        | inl (suppressions, found) ↦
            let w1 = (list_suppressions env org_id key w).1 in
            let h2 =
              loop-keeps org_id key suppressions (run_started_at + 1000000) P step set.edges w1
                h1 in
            elim (Outcome-cases
              (upsert_edges env org_id key suppressions (run_started_at + 1000000) set.edges
                w1).0) [
                  | inr (error, fails) ↦ rw (found, fails) h2
                  | inl (n, done) ↦
                      let w2 =
                        (upsert_edges env org_id key suppressions (run_started_at + 1000000)
                          set.edges w1).1 in
                      elim (Bool-cases set.complete) [
                        | inr incomplete ↦ rw (found, done, incomplete) h2
                        | inl complete ↦
                            let h3 = sweep-keeps P key run_started_at (closed complete) w2 h2 in
                            elim (Outcome-cases
                              (sweep_derived_relationships env key run_started_at w2).0) [
                                | inl (swept, clean) ↦ rw (found, done, complete, clean) h3
                                | inr (error, fails) ↦ rw (found, done, complete, fails) h3
                              ]
                      ]
                ]
      ]
