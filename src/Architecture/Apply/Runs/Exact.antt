-- ===== src/Architecture/Apply/Runs/Exact.antt =====
-- After a complete run the live rows of a key are the derived edges.
use cuddly_lamp.Prelude.{
  ◌≡◌, refl, sym, ap, ◌∙◌, subst, inl, inr, ℕ, ◌+◌, Bool, true, false, not, ◌&&◌, ◌||◌, Option,
  none, some, List, [], ◌∷◌, any, select, update_where, Bool-cases, arith,
}
use cuddly_lamp.Text.{Text, text_eq, is_empty}
use cuddly_lamp.Text.Laws.{text_eq_iff, text_eq_refl}
use cuddly_lamp.Model.Architecture.{
  RepositoryRelationship, DerivationSuppression, is_undeleted, column_is,
}
use cuddly_lamp.Env.{Env}
use cuddly_lamp.Storage.Action.{World, ok, err}
use cuddly_lamp.Storage.Architecture.{
  is_twin, revive, list_suppressions, sweep_derived_relationships, is_stale, retire, is_before,
}
use cuddly_lamp.Architecture.{DerivedEdge, DerivedSet}
use cuddly_lamp.Architecture.Apply.{
  is_passed_over, is_suppressed, relationship_of, upsert_edges, apply_edges, ReconcileStats,
}
use cuddly_lamp.Architecture.Apply.Rows.{IsKeyed}
use cuddly_lamp.Architecture.Apply.Upsert.{inserted, upsert_rows-any, upsert_rows-IsKeyed}
use cuddly_lamp.Architecture.Apply.Runs.{
  rows_of, Outcome-cases, upsert-cases, upsert, loop, is_left_out, loop-over, loop-fails,
  loop-steps, next-world, next-fails, suppressions-rows,
}

-- Two edges that are one row: the same ends, kind and fingerprint.
abbrev pub is_same_edge : DerivedEdge → DerivedEdge → Bool
is_same_edge d e =
    text_eq d.source_repository_id e.source_repository_id
    && text_eq d.target_repository_id e.target_repository_id
    && text_eq d.kind e.kind
    && text_eq d.fingerprint e.fingerprint

-- The edges that the run writes.
abbrev pub is_wanted : List DerivationSuppression → DerivedEdge → Bool
is_wanted suppressions d = not (is_passed_over d || is_suppressed suppressions d)

column-same : (c : Option Text) (a b : Text) → column_is c a ≡ true → column_is c b ≡ text_eq a b
column-same none a b h = cc
column-same (some t) a b h = ap (λ z. text_eq z b) ((text_eq_iff t a).0 h)

text-same : (s a b : Text) → text_eq s a ≡ true → text_eq s b ≡ text_eq a b
text-same s a b h = ap (λ z. text_eq z b) ((text_eq_iff s a).0 h)

-- A live row of the edge.
abbrev pub is_live : Text → Text → DerivedEdge → RepositoryRelationship → Bool
is_live org_id key e r = is_twin (relationship_of org_id key 0 e) r && is_undeleted r

-- A row of the key that was seen at a time or after it.
abbrev pub is_seen_since : Text → ℕ → RepositoryRelationship → Bool
is_seen_since key t r = column_is r.derivation_key key && not (is_before r.last_seen_at t)

module _ (org_id key : Text) (seen_at run_started_at : ℕ) (e : DerivedEdge) where
  -- A live row of the edge that was seen in this run.
  abbrev pub is_seen : RepositoryRelationship → Bool
  is_seen r =
      is_twin (relationship_of org_id key seen_at e) r
      && is_undeleted r
      && not (is_before r.last_seen_at run_started_at)

  twin-same :
      (d : DerivedEdge) (x : RepositoryRelationship)
      → is_twin (relationship_of org_id key seen_at d) x ≡ true
      → is_twin (relationship_of org_id key seen_at e) x ≡ is_same_edge d e
  unfolding is_twin relationship_of
  twin-same d x h = ground (
    arith,
    text-same x.source_repository_id d.source_repository_id e.source_repository_id,
    text-same x.target_repository_id d.target_repository_id e.target_repository_id,
    text-same x.kind d.kind e.kind,
    column-same x.derivation_fingerprint d.fingerprint e.fingerprint,
  )

  inserted-seen :
      (d : DerivedEdge) (now : ℕ) (id : Text)
      → is_before (some seen_at) run_started_at ≡ false
      → is_seen (inserted now id (relationship_of org_id key seen_at d)) ≡ is_same_edge d e
  unfolding is_twin relationship_of
  inserted-seen d now id fresh = ground (arith, text_eq_refl org_id, text_eq_refl key)

  revived-seen :
      (d : DerivedEdge) (now : ℕ) (x : RepositoryRelationship)
      → is_before (some seen_at) run_started_at ≡ false
      → is_twin (relationship_of org_id key seen_at d) x ≡ true
      → is_seen (revive now (relationship_of org_id key seen_at d) x) ≡ is_same_edge d e
  unfolding is_twin relationship_of revive
  revived-seen d now x fresh twin = ground (arith, twin-same d x)

  module _ (env : Env) (suppressions : List DerivationSuppression) where
    abbrev is_kept : DerivedEdge → Bool
    is_kept d = is_wanted suppressions d && is_same_edge d e

    loop-seen :
        (es : List DerivedEdge) (w : World) (n : ℕ)
        → is_before (some seen_at) run_started_at ≡ false
        → IsKeyed (rows_of w)
        → (loop env org_id key suppressions seen_at es w).0 ≡ ok n
        → any is_seen (rows_of (loop env org_id key suppressions seen_at es w).1)
          ≡ any is_seen (rows_of w) || any is_kept es
    unfolding upsert_edges relationship_of
    loop-seen [] w n fresh keyed done = ground arith
    loop-seen (d ∷ es) w n fresh keyed done =
        elim (Bool-cases (is_left_out env org_id key suppressions seen_at d)) [
          | inl over ↦
              let same = loop-over env org_id key suppressions seen_at d es w over in
              ap (λ r. any is_seen (rows_of r.1)) same
              ∙ loop-seen es w n fresh keyed (sym (ap (λ r. r.0) same) ∙ done)
              ∙ ground arith
          | inr kept ↦ elim (upsert-cases env (relationship_of org_id key seen_at d) w) [
            | inl (same, failed) ↦
                elim (Outcome-cases (upsert env org_id key suppressions seen_at d w).0) [
                  | inl (u, written) ↦ elim (failed u written) [ ]
                  | inr (error, fails) ↦
                      let stop =
                        loop-fails env org_id key suppressions seen_at d es w error kept fails in
                      let absurd : err error ≡ ok n = sym (ap (λ r. r.0) stop) ∙ done in
                      ground (arith)
                ]
            | inr (written, rows) ↦
                let w1 = (upsert env org_id key suppressions seen_at d w).1 in
                let step = loop-steps env org_id key suppressions seen_at d es w kept written in
                let rest = sym (ap (λ r. r.0) step) ∙ done in
                let one =
                  upsert_rows-any w.clock (env.uuid w.draws) (relationship_of org_id key seen_at d)
                    (rows_of w) (rows_of w1) rows is_seen (is_same_edge d e) keyed
                    (inserted-seen d w.clock (env.uuid w.draws) fresh)
                    (λ x twin. revived-seen d w.clock x fresh twin)
                    (λ x twin passes. ground (arith, twin-same d x twin)) in
                let keyed1 =
                  upsert_rows-IsKeyed w.clock (env.uuid w.draws)
                    (relationship_of org_id key seen_at d) (rows_of w) (rows_of w1) rows keyed in
                elim (Outcome-cases (loop env org_id key suppressions seen_at es w1).0) [
                  | inr (error, fails) ↦
                      let absurd : err error ≡ ok n =
                        sym (next-fails env org_id key suppressions seen_at es w1 error fails)
                        ∙ rest in
                      ground (arith)
                  | inl (m, finished) ↦
                      ap (λ r. any is_seen (rows_of r.1)) step
                      ∙ ap (λ v. any is_seen (rows_of v))
                          (next-world env org_id key suppressions seen_at es w1)
                      ∙ loop-seen es w1 m fresh keyed1 finished
                      ∙ ground (arith, one)
                ]
          ]
        ]

  sweep-live :
      (now : ℕ) (rows : List RepositoryRelationship)
      → any (is_live org_id key e) (update_where (is_stale key run_started_at) (retire now) rows)
        ≡ any is_seen rows
  unfolding is_stale retire is_twin relationship_of
  sweep-live now [] = refl
  sweep-live now (r ∷ rows) = ground (arith, sweep-live now rows)

  not-seen :
      (rows : List RepositoryRelationship)
      → any (is_seen_since key run_started_at) rows ≡ false
      → any is_seen rows ≡ false
  unfolding is_twin relationship_of
  not-seen [] h = refl
  not-seen (r ∷ rows) h = ground (arith, not-seen rows)

  sweep-exact :
      (env : Env) (w : World) (n : ℕ)
      → (sweep_derived_relationships env key run_started_at w).0 ≡ ok n
      → any
          (is_live org_id key e)
          (rows_of (sweep_derived_relationships env key run_started_at w).1)
        ≡ any is_seen (rows_of w)
  unfolding sweep_derived_relationships
  sweep-exact env w n done = elim (Bool-cases (is_empty key)) [
    | inl nothing ↦ ground arith
    | inr some_key ↦ elim (Bool-cases (env.faults w.calls)) [
      | inl fault ↦ ground arith
      | inr works ↦ rw (some_key, works) (sweep-live w.clock (rows_of w))
    ]
  ]

-- The suppressions that a run reads.
abbrev pub suppressions_in : Text → Text → World → List DerivationSuppression
suppressions_in org_id key w =
    select (λ s. text_eq s.organization_id org_id && (is_empty key || text_eq s.derivation_key key))
      w.db.suppressions

suppressions-read :
    (env : Env) (org_id key : Text) (w : World) (ss : List DerivationSuppression)
    → (list_suppressions env org_id key w).0 ≡ ok ss
    → ss ≡ suppressions_in org_id key w
unfolding list_suppressions
suppressions-read env org_id key w ss found = elim (Bool-cases (env.faults w.calls)) [
  | inl fault ↦ ground arith
  | inr works ↦ ground arith
]

-- If the ids are keys and the rows of the key were last seen before the run, then a run of `applyEdges`
-- that succeeds on a complete set leaves a live row of the key for an edge exactly if the set has that
-- edge, with both ends, from one repository to another, and not suppressed.
pub apply_edges-exact :
    (env : Env) (org_id key : Text) (set : DerivedSet) (run_started_at : ℕ) (w : World)
    (stats : ReconcileStats) (e : DerivedEdge)
    → IsKeyed (rows_of w)
    → any (is_seen_since key run_started_at) (rows_of w) ≡ false
    → set.complete ≡ true
    → (apply_edges env org_id key set run_started_at w).0 ≡ ok stats
    → any (is_live org_id key e) (rows_of (apply_edges env org_id key set run_started_at w).1)
      ≡ any (λ d. is_wanted (suppressions_in org_id key w) d && is_same_edge d e) set.edges
unfolding apply_edges
apply_edges-exact env org_id key set run_started_at w stats e keyed unseen complete done =
    elim (Outcome-cases (list_suppressions env org_id key w).0) [
      | inr (error, fails) ↦ ground arith
      | inl (ss, found) ↦
          let w1 = (list_suppressions env org_id key w).1 in
          let seen_at = run_started_at + 1000000 in
          elim (Outcome-cases (upsert_edges env org_id key ss seen_at set.edges w1).0) [
            | inr (error, fails) ↦ ground arith
            | inl (n, written) ↦
                let w2 = (upsert_edges env org_id key ss seen_at set.edges w1).1 in
                elim (Outcome-cases (sweep_derived_relationships env key run_started_at w2).0) [
                  | inr (error, fails) ↦ ground arith
                  | inl (swept, clean) ↦
                      let same = suppressions-rows env org_id key w in
                      let none_seen =
                        not-seen org_id key seen_at run_started_at e (rows_of w1)
                          (ap (any (is_seen_since key run_started_at)) same ∙ unseen) in
                      rw (found, written, complete, clean)
                        (sweep-exact org_id key seen_at run_started_at e env w2 swept clean
                          ∙ loop-seen org_id key seen_at run_started_at e env ss set.edges w1 n
                              (ground arith) (subst IsKeyed (sym same) keyed) written
                          ∙ ap (λ b. b || any (λ d. is_wanted ss d && is_same_edge d e) set.edges)
                              none_seen
                          ∙ ap (λ ds. any (λ d. is_wanted ds d && is_same_edge d e) set.edges)
                              (suppressions-read env org_id key w ss found))
                ]
          ]
    ]
