-- ===== src/Architecture/Library/Gather.antt =====
-- What the first loop of the deriver gathers from the facts.
use cuddly_lamp.Prelude.{
  ◌≡◌, refl, sym, ap, ◌∙◌, inl, inr, Bool, false, ◌&&◌, List, [], ◌∷◌, ◌++◌, map, all, All, Any,
  Bool-cases, arith,
}
use cuddly_lamp.Text.{Text, text_eq}
use cuddly_lamp.Model.Facts.{RepositoryFact}
use cuddly_lamp.Derive.Index.{PackageIndex, add}
use cuddly_lamp.Derive.Index.Owner.{Publication, add_all}
use cuddly_lamp.Derive.Packages.{PackagesFact, PublishedPackage}
use cuddly_lamp.Architecture.{unmarshal_fact_payload}
use cuddly_lamp.Architecture.Library.{Gathered, gather_fact, gather, add_published, put_payload}

abbrev pub payload_of : RepositoryFact PackagesFact → PackagesFact
payload_of f = (unmarshal_fact_payload f).0

abbrev pub is_trusted : RepositoryFact PackagesFact → Bool
is_trusted f = (unmarshal_fact_payload f).1.complete

abbrev pub publication : Text → PublishedPackage → Publication
publication id p = record { ecosystem = p.ecosystem; name = p.name; repository_id = id }

-- Every name that some fact publishes, with its repository.
abbrev pub publications : List (RepositoryFact PackagesFact) → List Publication
publications [] = []
publications (f ∷ fs) =
    map (publication f.repository_id) (payload_of f).published ++ publications fs

-- `(repository_id, fact_kind)` is unique.
abbrev pub IsOnePerRepository : List (RepositoryFact PackagesFact) → Type 0
IsOnePerRepository [] = Unit
IsOnePerRepository (f ∷ fs) =
    All (λ g. text_eq f.repository_id g.repository_id ≡ false) fs × IsOnePerRepository fs

add_all-append :
    (idx : PackageIndex) (ps qs : List Publication)
    → add_all idx (ps ++ qs) ≡ add_all (add_all idx ps) qs
add_all-append idx [] qs = refl
add_all-append idx (p ∷ ps) qs = add_all-append (add idx p.ecosystem p.name p.repository_id) ps qs

add_published-add_all :
    (idx : PackageIndex) (id : Text) (ps : List PublishedPackage)
    → add_published idx id ps ≡ add_all idx (map (publication id) ps)
unfolding add_published
add_published-add_all idx id [] = refl
add_published-add_all idx id (p ∷ ps) = add_published-add_all (add idx p.ecosystem p.name id) id ps

pub gather-index :
    (g : Gathered) (fs : List (RepositoryFact PackagesFact))
    → (gather g fs).index ≡ add_all g.index (publications fs)
unfolding gather gather_fact
gather-index g [] = refl
gather-index g (f ∷ fs) =
    let names = map (publication f.repository_id) (payload_of f).published in
    gather-index (gather_fact g f) fs
    ∙ ap (λ i. add_all i (publications fs))
        (add_published-add_all g.index f.repository_id (payload_of f).published)
    ∙ sym (add_all-append g.index names (publications fs))

pub gather-complete :
    (g : Gathered) (fs : List (RepositoryFact PackagesFact))
    → (gather g fs).complete ≡ (g.complete && all is_trusted fs)
unfolding gather gather_fact
gather-complete g [] = ground arith
gather-complete g (f ∷ fs) = ground (arith, gather-complete (gather_fact g f) fs)

module _ (P : Text × PackagesFact → Type 0) where
  put_payload-All :
      (id : Text) (x : PackagesFact) (ps : List (Text × PackagesFact))
      → P (id, x)
      → All P ps
      → All P (put_payload id x ps)
  unfolding put_payload
  put_payload-All id x [] h k = (h, tt)
  put_payload-All id x ((j, y) ∷ ps) h k = elim (Bool-cases (text_eq j id)) [
    | inl e ↦ rw e (h, k.1)
    | inr e ↦ rw e (k.0, put_payload-All id x ps h k.1)
  ]

  pub gather-All :
      (g : Gathered) (fs : List (RepositoryFact PackagesFact))
      → All P g.payloads
      → All (λ f. P (f.repository_id, payload_of f)) fs
      → All P (gather g fs).payloads
  unfolding gather gather_fact
  gather-All g [] h k = h
  gather-All g (f ∷ fs) h k =
      gather-All (gather_fact g f) fs
        (put_payload-All f.repository_id (payload_of f) g.payloads k.0 h) k.1

put_payload-adds :
    (id : Text) (x : PackagesFact) (ps : List (Text × PackagesFact))
    → Any (λ p. p ≡ (id, x)) (put_payload id x ps)
unfolding put_payload
put_payload-adds id x [] = inl refl
put_payload-adds id x ((j, y) ∷ ps) = elim (Bool-cases (text_eq j id)) [
  | inl e ↦ rw e (inl refl)
  | inr e ↦ rw e (inr (put_payload-adds id x ps))
]

put_payload-keeps :
    (id j : Text) (x y : PackagesFact) (ps : List (Text × PackagesFact))
    → text_eq id j ≡ false
    → Any (λ p. p ≡ (id, x)) ps
    → Any (λ p. p ≡ (id, x)) (put_payload j y ps)
unfolding put_payload
put_payload-keeps id j x y [] differ h = inr h
put_payload-keeps id j x y ((i, z) ∷ ps) differ (inl h) =
    let same : text_eq i j ≡ false = ap (λ p. text_eq p.0 j) h ∙ differ in rw same (inl h)
put_payload-keeps id j x y ((i, z) ∷ ps) differ (inr h) = elim (Bool-cases (text_eq i j)) [
  | inl e ↦ rw e (inr h)
  | inr e ↦ rw e (inr (put_payload-keeps id j x y ps differ h))
]

gather-keeps :
    (id : Text) (x : PackagesFact) (g : Gathered) (fs : List (RepositoryFact PackagesFact))
    → All (λ f. text_eq id f.repository_id ≡ false) fs
    → Any (λ p. p ≡ (id, x)) g.payloads
    → Any (λ p. p ≡ (id, x)) (gather g fs).payloads
unfolding gather gather_fact
gather-keeps id x g [] others h = h
gather-keeps id x g (f ∷ fs) others h =
    gather-keeps id x (gather_fact g f) fs others.1
      (put_payload-keeps id f.repository_id x (payload_of f) g.payloads others.0 h)

pub gather-adds :
    (g : Gathered) (fs : List (RepositoryFact PackagesFact))
    → IsOnePerRepository fs
    → All (λ f. Any (λ p. p ≡ (f.repository_id, payload_of f)) (gather g fs).payloads) fs
unfolding gather gather_fact
gather-adds g [] one = tt
gather-adds g (f ∷ fs) one = (
  gather-keeps f.repository_id (payload_of f) (gather_fact g f) fs one.0
      (put_payload-adds f.repository_id (payload_of f) g.payloads),
  gather-adds (gather_fact g f) fs one.1,
)
