-- ===== src/Storage/Architecture.antt =====
-- postgres_repository.go: facts, relationships and suppressions.
use cuddly_lamp.Prelude.{
  ℕ, Bool, false, not, ◌&&◌, ◌||◌, Option, none, some, List, [], ◌∷◌, ◌++◌, any, ltb, find_first,
  select, count_if, update_where, is_some, if◌then◌else◌,
}
use cuddly_lamp.Text.{Text, text_eq, is_empty}
use cuddly_lamp.Model.Architecture.{
  RepositoryRelationship, DerivationSuppression, relationship_is_valid, relationship_is_derived,
  is_undeleted, column_is,
}
use cuddly_lamp.Model.Facts.{RepositoryFact}
use cuddly_lamp.Model.Repositories.{Repository, Team}
use mathlib.Core.Option
use cuddly_lamp.Derive.Packages.{PackagesFact}
use cuddly_lamp.Derive.Hosts.{HostsFact}
use cuddly_lamp.Env.{Env}
use cuddly_lamp.Storage.Action.{
  Action, Outcome, ok, err, db_error, pure, raise, ◌>>=◌, ◌>>◌, draw, query, write,
}

-- Equality of nullable columns, which NULL never satisfies.
abbrev pub is_same_column : Option Text → Option Text → Bool
is_same_column column none = false
is_same_column column (some t) = column_is column t

-- `last_seen_at < ?`
abbrev pub is_before : Option ℕ → ℕ → Bool
is_before none t = false
is_before (some s) t = ltb s t

-- `if rel.LastSeenAt == nil`
abbrev pub or_now : ℕ → Option ℕ → Option ℕ
or_now now none = some now
or_now now (some t) = some t

-- The columns of the identity: organization, ends, kind, key and fingerprint.
unfoldable pub is_twin : RepositoryRelationship → RepositoryRelationship → Bool
is_twin rel r =
    text_eq r.organization_id rel.organization_id
    && text_eq r.source_repository_id rel.source_repository_id
    && text_eq r.target_repository_id rel.target_repository_id
    && text_eq r.kind rel.kind
    && is_same_column r.derivation_key rel.derivation_key
    && is_same_column r.derivation_fingerprint rel.derivation_fingerprint

-- The newest row, the first among equals.
unfoldable pub newest : List RepositoryRelationship → Option RepositoryRelationship
newest [] = none
newest (r ∷ rs) = elim (newest rs) [
  | none ↦ some r
  | some s ↦ if ltb r.created_at s.created_at then some s else some r
]

-- A live row wins over a soft-deleted twin; among twins, the newest.
unfoldable pub find_twin :
    RepositoryRelationship → List RepositoryRelationship → Option RepositoryRelationship
unfolding is_twin newest
find_twin rel rows = elim (newest (select (λ r. is_twin rel r && is_undeleted r) rows)) [
  | some r ↦ some r
  | none ↦ newest (select (is_twin rel) rows)
]

-- The update of the twin; the identity and the id stay.
unfoldable pub revive : ℕ → RepositoryRelationship → RepositoryRelationship → RepositoryRelationship
revive now rel r = record r {
  label = rel.label;
  description = rel.description;
  source = rel.source;
  confidence = rel.confidence;
  metadata = rel.metadata;
  last_seen_at = rel.last_seen_at;
  updated_at = now;
  deleted_at = none;
}

-- The transaction of `UpsertDerivedRelationship`. The id is the primary key.
unfoldable pub upsert_rows :
    ℕ
    → Text
    → RepositoryRelationship
    → List RepositoryRelationship
    → Outcome (List RepositoryRelationship)
unfolding find_twin revive
upsert_rows now id rel rows = elim (find_twin rel rows) [
  | none ↦
      if any (λ r. text_eq r.id id) rows
      then err db_error
      else ok (
          rows
          ++ record rel { id = id; created_at = now; updated_at = now; deleted_at = none } ∷ [])
  | some twin ↦ ok (update_where (λ r. text_eq r.id twin.id) (revive now rel) rows)
]

-- `derivation_key = ? AND last_seen_at < ? AND deleted_at IS NULL`
unfoldable pub is_stale : Text → ℕ → RepositoryRelationship → Bool
is_stale key run_started_at r =
    column_is r.derivation_key key && is_before r.last_seen_at run_started_at && is_undeleted r

unfoldable pub retire : ℕ → RepositoryRelationship → RepositoryRelationship
retire now r = record r { deleted_at = some now; updated_at = now }

-- `LEFT JOIN teams t ON t.id = r.owner_team_id AND t.deleted_at IS NULL`
unfoldable pub with_owner : List Team → Repository → Repository
with_owner teams r =
    if any (λ t. column_is r.owner_team_id t.id && not (is_some t.deleted_at)) teams
    then r
    else record r { owner_team_id = none }

module _ (env : Env) where
  unfoldable pub get_repository : Text → Action (Option Repository)
  unfolding query with_owner
  get_repository id = query env (λ db.
      Option.map (with_owner db.teams)
        (find_first (λ r. text_eq r.id id && not (is_some r.deleted_at)) db.repositories))

  unfoldable pub list_package_facts : Text → Action (List (RepositoryFact PackagesFact))
  unfolding query
  list_package_facts org_id =
      query env (λ db. select (λ f. text_eq f.organization_id org_id) db.package_facts)

  unfoldable pub list_host_facts : Text → Action (List (RepositoryFact HostsFact))
  unfolding query
  list_host_facts org_id =
      query env (λ db. select (λ f. text_eq f.organization_id org_id) db.host_facts)

  unfoldable pub list_suppressions : Text → Text → Action (List DerivationSuppression)
  unfolding query
  list_suppressions org_id key = query env (λ db.
      select
        (λ s. text_eq s.organization_id org_id && (is_empty key || text_eq s.derivation_key key))
        db.suppressions)

  unfoldable pub upsert_derived_relationship : RepositoryRelationship → Action (Unit {0})
  unfolding write upsert_rows
  upsert_derived_relationship rel =
      if relationship_is_valid rel && relationship_is_derived rel
      then (do
        id ← draw env.uuid
        write env (λ now db.
            elim (upsert_rows now id (record rel { last_seen_at = or_now now rel.last_seen_at })
              db.relationships) [
                | ok rows ↦ ok (record db { relationships = rows })
                | err e ↦ err e
              ]))
      else raise db_error

  -- How many rows are retired.
  unfoldable pub sweep_derived_relationships : Text → ℕ → Action ℕ
  unfolding query write is_stale retire
  sweep_derived_relationships key run_started_at = if is_empty key then raise db_error else λ w.
      let swept = count_if (is_stale key run_started_at) w.db.relationships in
      (write env (λ now db. ok (record db {
        relationships = update_where (is_stale key run_started_at) (retire now) db.relationships;
      }))
          >> pure swept)
        w

  unfoldable pub create_repository_relationship : RepositoryRelationship → Action (Unit {0})
  unfolding write
  create_repository_relationship rel =
      if relationship_is_valid rel
      then write env (λ now db.
        if any (λ r. text_eq r.id rel.id) db.relationships
        then err db_error
        else ok (record db {
          relationships =
              db.relationships
              ++ record rel { created_at = now; updated_at = now; deleted_at = none } ∷ [];
        }))
      else raise db_error

  unfoldable pub get_repository_relationship : Text → Action (Option RepositoryRelationship)
  unfolding query
  get_repository_relationship id =
      query env (λ db. find_first (λ r. text_eq r.id id && is_undeleted r) db.relationships)

  -- `Save` writes every column.
  unfoldable pub update_repository_relationship : RepositoryRelationship → Action (Unit {0})
  unfolding write
  update_repository_relationship rel =
      if relationship_is_valid rel
      then write env (λ now db. ok (record db {
        relationships =
            update_where (λ r. text_eq r.id rel.id) (λ r. record rel { updated_at = now })
              db.relationships;
      }))
      else raise db_error

  unfoldable pub delete_repository_relationship : Text → Action (Unit {0})
  unfolding write retire
  delete_repository_relationship id = write env (λ now db. ok (record db {
    relationships =
        update_where (λ r. text_eq r.id id && is_undeleted r) (retire now) db.relationships;
  }))
