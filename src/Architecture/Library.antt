-- ===== src/Architecture/Library.antt =====
-- internal/services/architecture_packages.go: the deriver of library edges.
pub mod Edges
pub mod Gather
pub mod Derivation
use cuddly_lamp.Prelude.{
  Bool, true, false, not, ◌&&◌, ◌||◌, List, [], ◌∷◌, ◌++◌, any, if◌then◌else◌,
}
use cuddly_lamp.Text.{Text, text, text_eq, is_empty}
use cuddly_lamp.Model.Architecture.{Metadata, Value, word, kind_library, source_manifest}
use cuddly_lamp.Model.Facts.{RepositoryFact}
use cuddly_lamp.Env.{Env}
use cuddly_lamp.Derive.{Outcome, append_unique, exact_name}
use cuddly_lamp.Derive.Index.{PackageIndex, new_package_index, add, resolve}
use cuddly_lamp.Derive.Packages.{
  PackagesFact, PublishedPackage, RequiredPackage, rule_for_ecosystem,
}
use cuddly_lamp.Architecture.{DerivedEdge, DerivedSet, fingerprint, unmarshal_fact_payload}

unfoldable pub libdep_key : Text → Text
libdep_key organization_id = text "libdep:v1:org/" ++ organization_id

-- `set.Reasons` after the reasons of one outcome.
unfoldable pub add_reasons : List Text → List Text → List Text
unfolding append_unique
add_reasons reasons [] = reasons
add_reasons reasons (r ∷ rs) = add_reasons (append_unique reasons r) rs

-- `payloads[id] = payload`
unfoldable pub put_payload : {A : Type 0} → Text → A → List (Text × A) → List (Text × A)
put_payload id payload [] = (id, payload) ∷ []
put_payload id payload ((id', old) ∷ rest) =
    let others = put_payload id payload rest in
    if text_eq id' id then (id, payload) ∷ rest else (id', old) ∷ others

unfoldable pub add_published : PackageIndex → Text → List PublishedPackage → PackageIndex
add_published index id [] = index
add_published index id (p ∷ ps) = add_published (add index p.ecosystem p.name id) id ps

-- What the first loop of `Derive` keeps.
pub record Gathered : Type 0 where
  pub complete : Bool
  pub reasons : List Text
  pub index : PackageIndex
  pub payloads : List (Text × PackagesFact)

unfoldable pub gather_fact : Gathered → RepositoryFact PackagesFact → Gathered
unfolding add_reasons put_payload add_published unmarshal_fact_payload
gather_fact g f =
    let read = unmarshal_fact_payload f in
    record {
      complete = if read.1.complete then g.complete else false;
      reasons = if read.1.complete then g.reasons else add_reasons g.reasons read.1.reasons;
      index = add_published g.index f.repository_id read.0.published;
      payloads = put_payload f.repository_id read.0 g.payloads;
    }

unfoldable pub gather : Gathered → List (RepositoryFact PackagesFact) → Gathered
unfolding gather_fact
gather g [] = g
gather g (f ∷ fs) = gather (gather_fact g f) fs

module _ (env : Env) where
  unfoldable pub requirement_fingerprint : RequiredPackage → Text
  unfolding fingerprint
  requirement_fingerprint r =
      fingerprint env (rule_for_ecosystem r.ecosystem ∷ r.ecosystem ∷ r.name ∷ r.manifest_path ∷ [])

  unfoldable pub library_edge : Text → Text → RequiredPackage → DerivedEdge
  unfolding requirement_fingerprint
  library_edge id owner r = record {
    source_repository_id = id;
    target_repository_id = owner;
    kind = kind_library;
    source = source_manifest;
    confidence = exact_name;
    label = if is_empty r.raw_name then r.name else r.raw_name;
    fingerprint = requirement_fingerprint r;
    metadata =
        (text "rule_id", word (rule_for_ecosystem r.ecosystem))
        ∷ (text "ecosystem", word r.ecosystem)
        ∷ (text "package_name", word r.name)
        ∷ (text "manifest_path", word r.manifest_path)
        ∷ (text "purl", word r.purl_text)
        ∷ (text "declared_version", word r.version)
        ∷ [];
  }

  -- Whether a requirement passes the tests of the inner loop.
  unfoldable pub is_new_edge : PackageIndex → Text → List Text → RequiredPackage → Bool
  unfolding requirement_fingerprint
  is_new_edge index id seen r =
      let owner = resolve index r.ecosystem r.name in
      not (not owner.2 || owner.1)
      && not (text_eq owner.0 id)
      && not (any (text_eq (requirement_fingerprint r)) seen)

  -- The edges of one repository, less the fingerprints that were seen.
  unfoldable pub library_edges :
      PackageIndex → Text → List Text → List RequiredPackage → List DerivedEdge
  unfolding requirement_fingerprint library_edge is_new_edge
  library_edges index id seen [] = []
  library_edges index id seen (r ∷ rs) =
      let is_new = is_new_edge index id seen r in
      let rest =
        library_edges index id (if is_new then requirement_fingerprint r ∷ seen else seen) rs in
      if is_new then library_edge id (resolve index r.ecosystem r.name).0 r ∷ rest else rest

  unfoldable pub edges_of_all : PackageIndex → List (Text × PackagesFact) → List DerivedEdge
  unfolding library_edges
  edges_of_all index [] = []
  edges_of_all index ((id, payload) ∷ rest) =
      library_edges index id [] payload.requires ++ edges_of_all index rest

  unfoldable pub derive_libraries : List (RepositoryFact PackagesFact) → DerivedSet
  unfolding gather edges_of_all new_package_index
  derive_libraries facts =
      let g =
        gather (record { complete = true; reasons = []; index = new_package_index; payloads = [] })
          facts in
      record { edges = edges_of_all g.index g.payloads; complete = g.complete; reasons = g.reasons }
