-- ===== src/Architecture/Library/Edges.antt =====
-- The edges of the library deriver against the claims and requirements in the facts.
use cuddly_lamp.Prelude.{
  ◌≡◌, refl, ap₂, inl, inr, Bool, true, false, not, ◌&&◌, ◌||◌, List, [], ◌∷◌, any, All, Any,
  All-map, Bool-cases, arith,
}
use cuddly_lamp.Text.{Text, text_eq}
use cuddly_lamp.Text.Laws.{text_eq_iff, text_eq_refl}
use cuddly_lamp.Env.{Env}
use cuddly_lamp.Derive.Index.{PackageIndex, new_package_index, resolve}
use cuddly_lamp.Derive.Index.Owner.{Publication, add_all, publishes, IsSoleClaim, resolve-IsAnswer}
use cuddly_lamp.Derive.Packages.{RequiredPackage}
use cuddly_lamp.Architecture.{DerivedEdge}
use cuddly_lamp.Architecture.Library.{
  is_new_edge, library_edge, library_edges, requirement_fingerprint,
}

-- A requirement of a repository is linked to the one repository that publishes the name, if that is
-- another.
abbrev pub IsLinked : List Publication → Text → RequiredPackage → Text → Type 0
IsLinked ps id r owner =
    IsSoleClaim (publishes ps r.ecosystem r.name) owner × text_eq owner id ≡ false

abbrev pub IsEdgeOf : Env → List Publication → Text → List RequiredPackage → DerivedEdge → Type 0
IsEdgeOf env ps id requires e =
    Any
      (λ r.
        e ≡ library_edge env id e.target_repository_id r × IsLinked ps id r e.target_repository_id)
      requires

abbrev pub edge_at : Text → Text → DerivedEdge → Bool
edge_at id fingerprint e = text_eq e.source_repository_id id && text_eq e.fingerprint fingerprint

module _ (env : Env) (ps : List Publication) (id : Text) where
  abbrev pub index : PackageIndex
  index = add_all new_package_index ps

  is_new_edge-IsLinked :
      (seen : List Text) (r : RequiredPackage)
      → is_new_edge env index id seen r ≡ true
      → IsLinked ps id r (resolve index r.ecosystem r.name).0
  unfolding is_new_edge
  is_new_edge-IsLinked seen r h =
      let owner = resolve index r.ecosystem r.name in
      let known : owner.2 ≡ true = ground arith in
      let sole : owner.1 ≡ false = ground arith in
      let answer : owner ≡ (owner.0, false, true) = ap₂ (λ a b. (owner.0, a, b)) sole known in
      (((resolve-IsAnswer ps r.ecosystem r.name).0 owner.0).0 answer, ground arith)

  is_new_edge-linked :
      (seen : List Text) (r : RequiredPackage) (owner : Text)
      → IsLinked ps id r owner
      → is_new_edge env index id seen r ≡ not (any (text_eq (requirement_fingerprint env r)) seen)
  unfolding is_new_edge
  is_new_edge-linked seen r owner (sole, other) =
      let answer = ((resolve-IsAnswer ps r.ecosystem r.name).0 owner).1 sole in
      rw (answer, other) (refl)

  pub library_edges-IsEdgeOf :
      (seen : List Text) (rs : List RequiredPackage)
      → All (IsEdgeOf env ps id rs) (library_edges env index id seen rs)
  unfolding library_edges
  library_edges-IsEdgeOf seen [] = tt
  library_edges-IsEdgeOf seen (r ∷ rs) = elim (Bool-cases (is_new_edge env index id seen r)) [
    | inl h ↦
        let rest = library_edges-IsEdgeOf (requirement_fingerprint env r ∷ seen) rs in
        rw h (
          inl (refl, is_new_edge-IsLinked seen r h),
          All-map (IsEdgeOf env ps id rs) (IsEdgeOf env ps id (r ∷ rs)) (λ e k. inr k)
              (library_edges env index id (requirement_fingerprint env r ∷ seen) rs) rest,
        )
    | inr h ↦ rw h (
        All-map (IsEdgeOf env ps id rs) (IsEdgeOf env ps id (r ∷ rs)) (λ e k. inr k)
          (library_edges env index id seen rs) (library_edges-IsEdgeOf seen rs))
  ]

  -- The edge of a linked requirement is there, or its fingerprint was seen.
  abbrev pub IsCovered : List Text → List DerivedEdge → RequiredPackage → Type 0
  IsCovered seen es r =
      (owner : Text)
      → IsLinked ps id r owner
      → (any (text_eq (requirement_fingerprint env r)) seen
          || any (edge_at id (requirement_fingerprint env r)) es)
        ≡ true

  pub library_edges-IsCovered :
      (seen : List Text) (rs : List RequiredPackage)
      → All (IsCovered seen (library_edges env index id seen rs)) rs
  unfolding library_edges
  library_edges-IsCovered seen [] = tt
  library_edges-IsCovered seen (r ∷ rs) = elim (Bool-cases (is_new_edge env index id seen r)) [
    | inl h ↦
        let fp = requirement_fingerprint env r in
        let rest = library_edges env index id (fp ∷ seen) rs in
        (
          λ owner linked. ground (arith, text_eq_refl id, text_eq_refl fp),
          All-map (IsCovered (fp ∷ seen) rest)
              (IsCovered seen (library_edges env index id seen (r ∷ rs)))
              (λ x k owner linked. ground (
                arith,
                k owner linked,
                text_eq_refl id,
                text_eq_iff (requirement_fingerprint env x) fp,
                text_eq_iff fp (requirement_fingerprint env x),
              ))
              rs (library_edges-IsCovered (fp ∷ seen) rs),
        )
    | inr h ↦ (
      λ owner linked. ground (arith, is_new_edge-linked seen r owner linked),
      All-map (IsCovered seen (library_edges env index id seen rs))
          (IsCovered seen (library_edges env index id seen (r ∷ rs)))
          (λ x k owner linked. ground (arith, k owner linked)) rs (library_edges-IsCovered seen rs),
    )
  ]
