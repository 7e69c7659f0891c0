-- ===== src/Prelude/Members.antt =====
-- A predicate of some row, beside the predicate of every row.
use mathlib.Core.Path.{◌≡◌, refl}
use mathlib.Core.Logic.{◌⊎◌, inl, inr}
use mathlib.Core.List.{List, [], ◌∷◌}
use cuddly_lamp.Prelude.Lists.{All}

module _ {A : Type 0} where
  abbrev pub Any : (A → Type 0) → List A → Type 0
  Any P [] = ⊥
  Any P (x ∷ xs) = P x ⊎ Any P xs

  pub All-each : (P : A → Type 0) → ((x : A) → P x) → (xs : List A) → All P xs
  All-each P h [] = tt
  All-each P h (x ∷ xs) = (h x, All-each P h xs)

  module _ (P Q : A → Type 0) where
    pub Any-map : ((x : A) → P x → Q x) → (xs : List A) → Any P xs → Any Q xs
    Any-map f [] h = h
    Any-map f (x ∷ xs) (inl h) = inl (f x h)
    Any-map f (x ∷ xs) (inr h) = inr (Any-map f xs h)

    pub All-map : ((x : A) → P x → Q x) → (xs : List A) → All P xs → All Q xs
    All-map f [] h = tt
    All-map f (x ∷ xs) h = (f x h.0, All-map f xs h.1)

    -- What holds of every row holds of some row that has a property.
    pub All-Any : (xs : List A) → All P xs → Any Q xs → Any (λ x. P x × Q x) xs
    All-Any [] h k = k
    All-Any (x ∷ xs) h (inl k) = inl (h.0, k)
    All-Any (x ∷ xs) h (inr k) = inr (All-Any xs h.1 k)

  pub All-Any_self : (xs : List A) → All (λ x. Any (λ y. y ≡ x) xs) xs
  All-Any_self [] = tt
  All-Any_self (x ∷ xs) = (
    inl refl,
    All-map (λ z. Any (λ y. y ≡ z) xs) (λ z. Any (λ y. y ≡ z) (x ∷ xs)) (λ z h. inr h) xs
        (All-Any_self xs),
  )
