-- ===== src/Architecture/Apply.antt =====
-- internal/services/architecture_service.go: `applyEdges`.
pub mod Rows
pub mod Upsert
pub mod Runs
use cuddly_lamp.Prelude.{
  ℕ, suc, ◌+◌, Bool, true, false, not, ◌&&◌, ◌||◌, none, some, List, [], ◌∷◌, any, map,
  if◌then◌else◌,
}
use cuddly_lamp.Text.{Text, text_eq, is_empty}
use cuddly_lamp.Model.Architecture.{RepositoryRelationship, DerivationSuppression}
use cuddly_lamp.Env.{Env}
use cuddly_lamp.Storage.Action.{Action, pure, raise, ◌>>=◌, ◌>>◌, now}
use cuddly_lamp.Storage.Architecture.{
  list_suppressions, upsert_derived_relationship, sweep_derived_relationships,
}
use cuddly_lamp.Architecture.{DerivedEdge, DerivedSet}

pub record ReconcileStats : Type 0 where
  pub upserted : ℕ
  pub swept : ℕ
  pub sweep_skipped : Bool

-- The edges that the loop passes over: without an end, or from a repository to itself.
unfoldable pub is_passed_over : DerivedEdge → Bool
is_passed_over e =
    is_empty e.source_repository_id
    || is_empty e.target_repository_id
    || text_eq e.source_repository_id e.target_repository_id

unfoldable pub relationship_of : Text → Text → ℕ → DerivedEdge → RepositoryRelationship
relationship_of org_id key seen_at e = record {
  id = [];
  organization_id = org_id;
  source_repository_id = e.source_repository_id;
  target_repository_id = e.target_repository_id;
  kind = e.kind;
  label = e.label;
  description = [];
  source = e.source;
  confidence = e.confidence;
  metadata = e.metadata;
  derivation_key = some key;
  derivation_fingerprint = some e.fingerprint;
  last_seen_at = some seen_at;
  created_by_user_id = [];
  created_at = 0;
  updated_at = 0;
  deleted_at = none;
}

unfoldable pub is_suppressed : List DerivationSuppression → DerivedEdge → Bool
is_suppressed suppressions e =
    any (λ s. text_eq s.derivation_fingerprint e.fingerprint) suppressions

module _ (env : Env) where
  -- The loop over the edges; the answer is how many were written.
  unfoldable pub upsert_edges :
      Text → Text → List DerivationSuppression → ℕ → List DerivedEdge → Action ℕ
  unfolding is_passed_over is_suppressed relationship_of
  upsert_edges org_id key suppressions seen_at [] = pure 0
  upsert_edges org_id key suppressions seen_at (e ∷ es) =
      let rest = upsert_edges org_id key suppressions seen_at es in
      if is_passed_over e || is_suppressed suppressions e then rest else (do
        upsert_derived_relationship env (relationship_of org_id key seen_at e)
        n ← rest
        pure (suc n))

  -- `last_seen_at` is a millisecond after the start of the run.
  unfoldable pub apply_edges : Text → Text → DerivedSet → ℕ → Action ReconcileStats
  unfolding upsert_edges
  apply_edges org_id key set run_started_at = do
    suppressions ← list_suppressions env org_id key
    upserted ← upsert_edges org_id key suppressions (run_started_at + 1000000) set.edges
    if set.complete
        then (do
          swept ← sweep_derived_relationships env key run_started_at
          pure (record { upserted = upserted; swept = swept; sweep_skipped = false }))
        else pure (record { upserted = upserted; swept = 0; sweep_skipped = true })
