-- ===== src/Architecture.antt =====
-- internal/services/architecture_service.go: what derivers return and how a stored fact is read.
pub mod Library
pub mod Apply
pub mod Hosts
pub mod Consume
use cuddly_lamp.Prelude.{
  ℕ, zero, suc, Bool, true, false, Option, none, some, List, [], ◌∷◌, if◌then◌else◌,
}
use cuddly_lamp.Text.{Text, text}
use cuddly_lamp.Text.Search.{join}
use cuddly_lamp.Model.Architecture.{Confidence, Metadata}
use cuddly_lamp.Model.Facts.{RepositoryFact}
use cuddly_lamp.Env.{Env}
use cuddly_lamp.Derive.{Outcome, parse_failed}

pub record DerivedEdge : Type 0 where
  pub source_repository_id : Text
  pub target_repository_id : Text
  pub kind : Text
  pub source : Text
  pub confidence : Confidence
  pub label : Text
  pub fingerprint : Text
  pub metadata : Metadata

pub record DerivedSet : Type 0 where
  pub edges : List DerivedEdge
  pub complete : Bool
  pub reasons : List Text

unfoldable pub take : ℕ → Text → Text
take zero s = []
take (suc n) [] = []
take (suc n) (c ∷ s) = c ∷ take n s

-- The first 32 digits of the hash.
unfoldable pub fingerprint : Env → List Text → Text
unfolding take join
fingerprint env parts = take 32 (env.sha256 (join (0 ∷ []) parts))

unfoldable pub unmarshal_fact_payload : {A : Type 0} → RepositoryFact A → A × Outcome
unmarshal_fact_payload f = (
  f.payload.0,
  elim f.payload.1 [
    | none ↦ record { complete = false; reasons = parse_failed ∷ [] }
    | some outcome ↦ record {
      complete = if f.complete then outcome.complete else false;
      reasons = outcome.reasons;
    }
  ],
)
