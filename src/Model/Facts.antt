-- ===== src/Model/Facts.antt =====
-- internal/models/repository_fact.go: what an extraction leaves behind for the derivation.
use cuddly_lamp.Prelude.{ℕ, Bool, Option}
use cuddly_lamp.Text.{Text}
use cuddly_lamp.Derive.{Outcome}

-- A row of `repository_facts` of one kind. Its payload is what decoding leaves in a zero value of the data,
-- which is a part of the data where decoding fails, and the outcome of the envelope, or none where
-- decoding fails.
pub record RepositoryFact (A : Type 0) : Type 0 where
  pub organization_id : Text
  pub repository_id : Text
  pub payload : A × Option Outcome
  pub tree_sha : Text
  pub complete : Bool
  pub extractor_version : ℕ
  pub extracted_at : ℕ
