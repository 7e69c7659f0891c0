-- ===== src/Examples/Architecture.antt =====
-- Two repositories, of which one requires what the other publishes, and a run of the derivation.
use cuddly_lamp.Prelude.{
  ℕ, ◌≡◌, refl, Bool, true, false, ◌&&◌, none, some, List, [], ◌∷◌, any, All, select, arith,
}
use cuddly_lamp.Text.{Text, text, text_eq}
use cuddly_lamp.Model.Architecture.{
  RepositoryRelationship, plus, is_undeleted, is_valid_relationship_kind,
  is_valid_relationship_source, is_unit, relationship_is_valid, relationship_is_derived,
}
use cuddly_lamp.Model.Facts.{RepositoryFact}
use cuddly_lamp.Derive.Index.{resolve, new_package_index}
use cuddly_lamp.Derive.Index.Owner.{Publication, add_all, publishes, IsAnswer, resolve-IsAnswer}
use cuddly_lamp.Derive.Packages.{PackagesFact}
use cuddly_lamp.Storage.Action.{World, ok}
use cuddly_lamp.Storage.Architecture.{
  list_suppressions, upsert_derived_relationship, sweep_derived_relationships, upsert_rows,
  find_twin, is_twin, newest, revive, is_stale, retire,
}
use cuddly_lamp.Architecture.{DerivedEdge, DerivedSet}
use cuddly_lamp.Architecture.Library.{derive_libraries}
use cuddly_lamp.Architecture.Library.Gather.{IsOnePerRepository}
use cuddly_lamp.Architecture.Library.Derivation.{IsDerivation, derive_libraries-IsDerivation}
use cuddly_lamp.Architecture.Apply.{
  apply_edges, upsert_edges, is_passed_over, is_suppressed, relationship_of, ReconcileStats,
}
use cuddly_lamp.Architecture.Apply.Rows.{is_human, IsKeyed}
use cuddly_lamp.Architecture.Apply.Upsert.{has_id}
use cuddly_lamp.Architecture.Apply.Runs.{rows_of}
use cuddly_lamp.Architecture.Apply.Runs.Kept.{apply_edges-human, apply_edges-alive}
use cuddly_lamp.Architecture.Apply.Runs.Exact.{
  is_live, is_seen_since, is_wanted, is_same_edge, suppressions_in, apply_edges-exact,
}
use cuddly_lamp.Architecture.Apply.Runs.Total.{IsFresh, is_writable, apply_edges-succeeds}
use cuddly_lamp.Examples.{env, world}

abbrev published : List Publication
published =
    (record { ecosystem = text "go"; name = text "acme/lib"; repository_id = text "lib" })
    ∷ (record { ecosystem = text "go"; name = text "acme/lib"; repository_id = text "lib" })
    ∷ (record { ecosystem = text "npm"; name = text "ui"; repository_id = text "web" })
    ∷ []

resolve-IsAnswer_example :
    IsAnswer
      (publishes published (text "go") (text "acme/lib"))
      (resolve (add_all new_package_index published) (text "go") (text "acme/lib"))
resolve-IsAnswer_example = resolve-IsAnswer published (text "go") (text "acme/lib")

abbrev fact : Text → PackagesFact → RepositoryFact PackagesFact
fact id payload = record {
  organization_id = text "o";
  repository_id = id;
  payload = (payload, some (record { complete = true; reasons = [] }));
  tree_sha = text "";
  complete = true;
  extractor_version = 1;
  extracted_at = 0;
}

abbrev facts : List (RepositoryFact PackagesFact)
facts =
    fact (text "app") (record {
      published = [];
      requires =
          (record {
            ecosystem = text "go";
            name = text "acme/lib";
            raw_name = text "";
            manifest_path = text "go.mod";
            version = text "v1";
            purl_text = text "";
          })
          ∷ [];
      manifest_count = 1;
    })
    ∷ fact (text "lib") (record {
      published =
          (record {
            ecosystem = text "go";
            name = text "acme/lib";
            raw_name = text "";
            manifest_path = text "go.mod";
            purl_text = text "";
          })
          ∷ [];
      requires = [];
      manifest_count = 1;
    })
    ∷ []

one_per_repository : IsOnePerRepository facts
unfolding text_eq
one_per_repository = ((refl, tt), (tt, tt))

derive_libraries-IsDerivation_example : IsDerivation env facts (derive_libraries env facts)
derive_libraries-IsDerivation_example = derive_libraries-IsDerivation env facts one_per_repository

abbrev edge : DerivedEdge
edge = record {
  source_repository_id = text "app";
  target_repository_id = text "lib";
  kind = text "library";
  source = text "manifest";
  confidence = plus 10000;
  label = text "acme/lib";
  fingerprint = text "f";
  metadata = [];
}

abbrev derived : Bool → DerivedSet
derived complete = record { edges = edge ∷ []; complete = complete; reasons = [] }

abbrev row : RepositoryRelationship
row = record {
  id = text "r";
  organization_id = text "o";
  source_repository_id = text "app";
  target_repository_id = text "web";
  kind = text "http";
  label = text "";
  description = text "";
  source = text "manual";
  confidence = plus 10000;
  metadata = [];
  derivation_key = none;
  derivation_fingerprint = none;
  last_seen_at = none;
  created_by_user_id = text "alice";
  created_at = 0;
  updated_at = 0;
  deleted_at = none;
}

-- An edge that an earlier run derived and this one does not.
abbrev stale : RepositoryRelationship
stale = record row {
  id = text "s";
  derivation_key = some (text "k");
  derivation_fingerprint = some (text "g");
  last_seen_at = some 500;
}

abbrev with_rows : World
with_rows = let w = world [] in record w { db = record w.db { relationships = row ∷ stale ∷ [] } }

rows-IsKeyed : IsKeyed (rows_of with_rows)
unfolding text_eq
rows-IsKeyed = (refl, (refl, tt))

apply_edges-human_example :
    select is_human
      (rows_of (apply_edges env (text "o") (text "k") (derived true) 1000 with_rows).1)
    ≡ row ∷ []
apply_edges-human_example =
    apply_edges-human env (text "o") (text "k") (derived true) 1000 with_rows rows-IsKeyed

alive : any (λ r. has_id (text "s") r && is_undeleted r) (rows_of with_rows) ≡ true
unfolding text_eq
alive = refl

apply_edges-alive_example :
    any
      (λ r. has_id (text "s") r && is_undeleted r)
      (rows_of (apply_edges env (text "o") (text "k") (derived false) 1000 with_rows).1)
    ≡ true
apply_edges-alive_example =
    apply_edges-alive env (text "o") (text "k") (derived false) 1000 with_rows (text "s") refl alive

unseen : any (is_seen_since (text "k") 1000) (rows_of with_rows) ≡ false
unfolding text_eq
unseen = refl

abbrev stats : ReconcileStats
stats = record { upserted = 1; swept = 1; sweep_skipped = false }

run : (apply_edges env (text "o") (text "k") (derived true) 1000 with_rows).0 ≡ ok stats
unfolding apply_edges upsert_edges is_passed_over is_suppressed relationship_of list_suppressions
    upsert_derived_relationship sweep_derived_relationships upsert_rows find_twin is_twin newest
    revive is_stale retire relationship_is_valid relationship_is_derived is_valid_relationship_kind
    is_valid_relationship_source is_unit text_eq
run = refl

apply_edges-exact_example :
    any
      (is_live (text "o") (text "k") edge)
      (rows_of (apply_edges env (text "o") (text "k") (derived true) 1000 with_rows).1)
    ≡ any
        (λ d. is_wanted (suppressions_in (text "o") (text "k") with_rows) d && is_same_edge d edge)
        (edge ∷ [])
apply_edges-exact_example =
    apply_edges-exact env (text "o") (text "k") (derived true) 1000 with_rows stats edge
      rows-IsKeyed unseen refl run

writable : All (λ e. is_writable e ≡ true) (edge ∷ [])
unfolding is_valid_relationship_kind is_valid_relationship_source is_unit text_eq
writable = (refl, tt)

uuids_distinct : (m n : ℕ) → text_eq (env.uuid m) (env.uuid n) ≡ true → m ≡ n
unfolding text_eq
uuids_distinct m n h = ground arith

uuids-IsFresh : IsFresh env with_rows
unfolding text_eq
uuids-IsFresh n later = ground arith

apply_edges-succeeds_example :
    (s : ReconcileStats) × ((apply_edges env (text "o") (text "k") (derived true) 1000 with_rows).0
        ≡ ok s
      × s.sweep_skipped ≡ false)
apply_edges-succeeds_example =
    apply_edges-succeeds env (text "o") (text "k") (derived true) 1000 with_rows (λ n. refl)
      uuids_distinct uuids-IsFresh refl refl writable
