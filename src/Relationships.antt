-- ===== src/Relationships.antt =====
-- internal/services/repository_relationship_service.go: the declared relationships, and the graph's filters.
pub mod Rows
pub mod Tenants
pub mod Ownership
use cuddly_lamp.Prelude.{
  ◌≡◌, Bool, true, false, not, ◌&&◌, ◌||◌, Option, none, some, List, [], ◌∷◌, ◌++◌, any, select,
  if◌then◌else◌,
}
use mathlib.Core.Option
use cuddly_lamp.Text.{Text, text, text_eq}
use cuddly_lamp.Model.Repositories.{Repository}
use cuddly_lamp.Model.Architecture.{
  RepositoryRelationship, Confidence, plus, confidence_lt, is_unit, Metadata,
  is_valid_relationship_kind, source_manual, promote,
}
use cuddly_lamp.Env.{Env}
use cuddly_lamp.Storage.Action.{
  Action, pure, raise, ◌>>=◌, ◌>>◌, check, require, draw, repository_not_found,
  repository_forbidden, relationship_not_found, relationship_invalid,
}
use cuddly_lamp.Storage.Architecture.{
  get_repository, create_repository_relationship, get_repository_relationship,
  update_repository_relationship, delete_repository_relationship,
}

pub record CreateRequest : Type 0 where
  pub source_repository_id : Text
  pub target_repository_id : Text
  pub kind : Text
  pub label : Text
  pub description : Text
  pub metadata : Metadata

-- A field that is none stays as it is.
pub record UpdateRequest : Type 0 where
  pub kind : Option Text
  pub label : Option Text
  pub description : Option Text
  pub confidence : Option Confidence
  pub metadata : Option Metadata

abbrev pub or_kept {ℓ} : {A : Type ℓ} → Option A → A → A
or_kept none a = a
or_kept (some b) a = b

-- `if x != nil && !valid(*x)`
abbrev pub is_none_or {ℓ} : {A : Type ℓ} → (A → Bool) → Option A → Bool
is_none_or valid none = true
is_none_or valid (some a) = valid a

unfoldable pub updated : UpdateRequest → RepositoryRelationship → RepositoryRelationship
unfolding promote
updated req rel = promote (record rel {
  kind = or_kept req.kind rel.kind;
  label = or_kept req.label rel.label;
  description = or_kept req.description rel.description;
  confidence = or_kept req.confidence rel.confidence;
  metadata = or_kept req.metadata rel.metadata;
})

unfoldable pub declared : Text → Text → Text → CreateRequest → RepositoryRelationship
declared id org_id user_id req = record {
  id = id;
  organization_id = org_id;
  source_repository_id = req.source_repository_id;
  target_repository_id = req.target_repository_id;
  kind = req.kind;
  label = req.label;
  description = req.description;
  source = source_manual;
  confidence = plus 10000;
  metadata = req.metadata;
  derivation_key = none;
  derivation_fingerprint = none;
  last_seen_at = none;
  created_by_user_id = user_id;
  created_at = 0;
  updated_at = 0;
  deleted_at = none;
}

module _ (env : Env) where
  unfoldable pub fetch_repository_in_organization : Text → Text → Action (Option Repository)
  unfolding get_repository
  fetch_repository_in_organization repo_id org_id = do
    found ← get_repository env repo_id
    elim found [
      | none ↦ pure none
      | some repo ↦
          if text_eq repo.organization_id org_id
          then pure (some repo)
          else raise repository_forbidden
    ]

  unfoldable pub require_repository_in_organization : Text → Text → Action Repository
  unfolding fetch_repository_in_organization
  require_repository_in_organization repo_id org_id = do
    found ← fetch_repository_in_organization repo_id org_id
    require found repository_not_found

  unfoldable pub require_relationship_in_organization : Text → Text → Action RepositoryRelationship
  unfolding get_repository_relationship
  require_relationship_in_organization id org_id = do
    found ← get_repository_relationship env id
    rel ← require found relationship_not_found
    check (text_eq rel.organization_id org_id) repository_forbidden
    pure rel

  unfoldable pub create_relationship : Text → Text → CreateRequest → Action RepositoryRelationship
  unfolding require_repository_in_organization declared
  create_relationship org_id user_id req = do
    check
        (is_valid_relationship_kind req.kind
          && not (text_eq req.source_repository_id req.target_repository_id))
        relationship_invalid
    require_repository_in_organization req.source_repository_id org_id
    require_repository_in_organization req.target_repository_id org_id
    id ← draw env.uuid
    create_repository_relationship env (declared id org_id user_id req)
    pure (declared id org_id user_id req)

  unfoldable pub update_relationship : Text → Text → UpdateRequest → Action RepositoryRelationship
  unfolding require_relationship_in_organization updated
  update_relationship org_id id req = do
    rel ← require_relationship_in_organization id org_id
    check (is_none_or is_valid_relationship_kind req.kind) relationship_invalid
    check (is_none_or is_unit req.confidence) relationship_invalid
    update_repository_relationship env (updated req rel)
    pure (updated req rel)

  unfoldable pub delete_relationship : Text → Text → Action (Unit {0})
  unfolding require_relationship_in_organization
  delete_relationship org_id id = do
    require_relationship_in_organization id org_id
    delete_repository_relationship env id

-- The graph payload, less what its readers do not filter by.
pub record GraphEdge : Type 0 where
  pub id : Text
  pub source : Text
  pub target : Text
  pub confidence : Confidence

pub record Graph : Type 0 where
  pub nodes : List Text
  pub edges : List GraphEdge

unfoldable pub prune_edges : List GraphEdge → List Text → Confidence → List GraphEdge
prune_edges edges present min_confidence =
    select
      (λ e.
        any (text_eq e.source) present
        && any (text_eq e.target) present
        && not (confidence_lt e.confidence min_confidence))
      edges
