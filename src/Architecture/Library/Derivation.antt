-- ===== src/Architecture/Library/Derivation.antt =====
-- The whole deriver of library edges, from the facts of an organization to its answer.
use cuddly_lamp.Prelude.{
  ◌≡◌, sym, ap, ◌∙◌, subst, inl, inr, Bool, true, List, [], ◌∷◌, any, all, All, Any, any-left,
  any-right, All-map, All-append, Any-map, All-Any_self,
}
use cuddly_lamp.Text.{Text}
use cuddly_lamp.Model.Facts.{RepositoryFact}
use cuddly_lamp.Env.{Env}
use cuddly_lamp.Derive.Index.{PackageIndex, new_package_index}
use cuddly_lamp.Derive.Index.Owner.{Publication, add_all}
use cuddly_lamp.Derive.Packages.{PackagesFact}
use cuddly_lamp.Architecture.{DerivedEdge, DerivedSet}
use cuddly_lamp.Architecture.Library.{
  Gathered, gather, library_edges, edges_of_all, derive_libraries, requirement_fingerprint,
}
use cuddly_lamp.Architecture.Library.Edges.{
  IsLinked, IsEdgeOf, edge_at, IsCovered, library_edges-IsEdgeOf, library_edges-IsCovered,
}
use cuddly_lamp.Architecture.Library.Gather.{
  payload_of, is_trusted, publications, IsOnePerRepository, gather-index, gather-complete,
  gather-All, gather-adds,
}

module _ (env : Env) where
  edges_of_all-All :
      (P : DerivedEdge → Type 0) (index : PackageIndex) (ps : List (Text × PackagesFact))
      → All (λ p. All P (library_edges env index p.0 [] p.1.requires)) ps
      → All P (edges_of_all env index ps)
  unfolding edges_of_all
  edges_of_all-All P index [] h = tt
  edges_of_all-All P index ((id, x) ∷ ps) h =
      All-append P (library_edges env index id [] x.requires) (edges_of_all env index ps) h.0
        (edges_of_all-All P index ps h.1)

  edges_of_all-any :
      (q : DerivedEdge → Bool) (index : PackageIndex) (id : Text) (x : PackagesFact)
      (ps : List (Text × PackagesFact))
      → any q (library_edges env index id [] x.requires) ≡ true
      → Any (λ p. p ≡ (id, x)) ps
      → any q (edges_of_all env index ps) ≡ true
  unfolding edges_of_all
  edges_of_all-any q index id x [] h there = elim there [ ]
  edges_of_all-any q index id x ((j, y) ∷ ps) h (inl e) =
      let here : any q (library_edges env index j [] y.requires) ≡ true =
        ap (λ p. any q (library_edges env index p.0 [] p.1.requires)) e ∙ h in
      any-left q (library_edges env index j [] y.requires) (edges_of_all env index ps) here
  edges_of_all-any q index id x ((j, y) ∷ ps) h (inr k) =
      any-right q (library_edges env index j [] y.requires) (edges_of_all env index ps)
        (edges_of_all-any q index id x ps h k)

abbrev start : Gathered
start = record { complete = true; reasons = []; index = record { owners = [] }; payloads = [] }

module _ (env : Env) (facts : List (RepositoryFact PackagesFact)) where
  abbrev ps : List Publication
  ps = publications facts

  abbrev index : PackageIndex
  index = add_all (record { owners = [] }) ps

  abbrev IsOfFact : DerivedEdge → Type 0
  IsOfFact e = Any (λ f. IsEdgeOf env ps f.repository_id (payload_of f).requires e) facts

  edges-IsOfFact : All IsOfFact (edges_of_all env index (gather start facts).payloads)
  unfolding new_package_index
  edges-IsOfFact = edges_of_all-All env IsOfFact index (gather start facts).payloads (
      gather-All (λ p. All IsOfFact (library_edges env index p.0 [] p.1.requires)) start facts tt
        (All-map (λ f. Any (λ y. y ≡ f) facts)
          (λ f. All IsOfFact (library_edges env index f.repository_id [] (payload_of f).requires))
          (λ f there.
            All-map (IsEdgeOf env ps f.repository_id (payload_of f).requires) IsOfFact
              (λ e edge.
                Any-map (λ y. y ≡ f)
                  (λ y. IsEdgeOf env ps y.repository_id (payload_of y).requires e)
                  (λ y same.
                    subst (λ z. IsEdgeOf env ps z.repository_id (payload_of z).requires e)
                      (sym same) edge)
                  facts there)
              (library_edges env index f.repository_id [] (payload_of f).requires)
              (library_edges-IsEdgeOf env ps f.repository_id [] (payload_of f).requires))
          facts (All-Any_self facts)))

  -- The edge of a linked requirement is among the edges of all.
  abbrev IsServed : PackageIndex → RepositoryFact PackagesFact → Type 0
  IsServed i f =
      All
        (λ r.
          (owner : Text)
          → IsLinked ps f.repository_id r owner
          → any (edge_at f.repository_id (requirement_fingerprint env r))
              (edges_of_all env i (gather start facts).payloads)
            ≡ true)
        (payload_of f).requires

  facts-IsServed : IsOnePerRepository facts → All (IsServed index) facts
  unfolding new_package_index
  facts-IsServed one =
      All-map (λ f. Any (λ p. p ≡ (f.repository_id, payload_of f)) (gather start facts).payloads)
        (IsServed index)
        (λ f added.
          All-map
            (IsCovered env ps f.repository_id []
              (library_edges env index f.repository_id [] (payload_of f).requires))
            (λ r.
              (owner : Text)
              → IsLinked ps f.repository_id r owner
              → any (edge_at f.repository_id (requirement_fingerprint env r))
                  (edges_of_all env index (gather start facts).payloads)
                ≡ true)
            (λ r covered owner linked.
              edges_of_all-any env (edge_at f.repository_id (requirement_fingerprint env r)) index
                f.repository_id (payload_of f) (gather start facts).payloads (covered owner linked)
                added)
            (payload_of f).requires
            (library_edges-IsCovered env ps f.repository_id [] (payload_of f).requires))
        facts (gather-adds start facts one)

-- What the answer of the deriver is to be, read off the facts: it authorises a sweep exactly if every
-- fact is complete, each edge stems from a requirement that is linked to its target, and each linked
-- requirement has an edge of its repository and fingerprint.
abbrev pub IsDerivation : Env → List (RepositoryFact PackagesFact) → DerivedSet → Type 0
IsDerivation env facts set =
    let ps = publications facts in
    set.complete ≡ all is_trusted facts
    × All (λ e. Any (λ f. IsEdgeOf env ps f.repository_id (payload_of f).requires e) facts)
        set.edges
    × All
        (λ f.
          All
            (λ r.
              (owner : Text)
              → IsLinked ps f.repository_id r owner
              → any (edge_at f.repository_id (requirement_fingerprint env r)) set.edges ≡ true)
            (payload_of f).requires)
        facts

-- For facts with one row for each repository, `libDepDeriver.Derive` authorises a sweep exactly if every
-- fact is complete; each edge stems from a requirement of its source on a name that its target alone
-- publishes, and its target is another repository; and each such requirement has an edge with its
-- fingerprint.
pub derive_libraries-IsDerivation :
    (env : Env) (facts : List (RepositoryFact PackagesFact))
    → IsOnePerRepository facts
    → IsDerivation env facts (derive_libraries env facts)
unfolding derive_libraries new_package_index
derive_libraries-IsDerivation env facts one =
    let same = gather-index start facts in
    (
      gather-complete start facts,
      subst (λ i. All (IsOfFact env facts) (edges_of_all env i (gather start facts).payloads))
          (sym same) (edges-IsOfFact env facts),
      subst (λ i. All (IsServed env facts i) facts) (sym same) (facts-IsServed env facts one),
    )
