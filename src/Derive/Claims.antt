-- ===== src/Derive/Claims.antt =====
-- The maps from a name to the set of repositories that claim it: `PackageIndex.owners` and
-- `hostIndex.owners`. A set is a list without duplicates.
use cuddly_lamp.Prelude.{
  ◌≡◌, refl, sym, ap, ◌↔◌, ◌≢◌, inl, inr, Bool, true, false, ◌&&◌, ◌||◌, List, [], ◌∷◌, ◌++◌, any,
  if◌then◌else◌, Bool-cases, arith,
}
use cuddly_lamp.Text.{Text, text_eq}
use cuddly_lamp.Text.Laws.{text_eq_iff, text_eq_refl}
use cuddly_lamp.Derive.{append_unique}

module _ {K : Type 0} (eq : K → K → Bool) where
  unfoldable pub claim : K → Text → List (K × List Text) → List (K × List Text)
  claim k id [] = (k, id ∷ []) ∷ []
  claim k id ((k', ids) ∷ rest) =
      let others = claim k id rest in
      if eq k' k then (k', append_unique ids id) ∷ rest else (k', ids) ∷ others

  unfoldable pub claimants : K → List (K × List Text) → List Text
  claimants k [] = []
  claimants k ((k', ids) ∷ rest) = let others = claimants k rest in if eq k' k then ids else others

-- A set as a list: no text twice.
abbrev pub IsUnique : List Text → Type 0
IsUnique [] = Unit
IsUnique (x ∷ xs) = any (text_eq x) xs ≡ false × IsUnique xs

pub any_append :
    (p : Text → Bool) (xs : List Text) (y : Text) → any p (xs ++ y ∷ []) ≡ any p xs || p y
any_append p [] y = ground arith
any_append p (x ∷ xs) y = ground (arith, any_append p xs y)

pub text_eq_sym : (s t : Text) → text_eq s t ≡ text_eq t s
text_eq_sym s t = ground (arith, text_eq_iff s t, text_eq_iff t s)

any-append_unique :
    (x : Text) (xs : List Text) (y : Text)
    → any (text_eq x) (append_unique xs y) ≡ any (text_eq x) xs || text_eq x y
unfolding append_unique
any-append_unique x xs y = elim (Bool-cases (any (text_eq y) xs)) [
  | inl h ↦ elim (Bool-cases (text_eq x y)) [
    | inl e ↦
        let q : x ≡ y = (text_eq_iff x y).0 e in ground (arith, ap (λ z. any (text_eq z) xs) q)
    | inr e ↦ ground (arith)
  ]
  | inr h ↦ ground (arith, any_append (text_eq x) xs y)
]

append_unique-IsUnique : (xs : List Text) (y : Text) → IsUnique xs → IsUnique (append_unique xs y)
unfolding append_unique
append_unique-IsUnique xs y u = elim (Bool-cases (any (text_eq y) xs)) [
  | inl h ↦ rw h u
  | inr h ↦ rw h (add_last xs u h)
]
  where
    add_last : (zs : List Text) → IsUnique zs → any (text_eq y) zs ≡ false → IsUnique (zs ++ y ∷ [])
    add_last [] u h = (refl, tt)
    add_last (z ∷ zs) u h = (
      ground (arith, any_append (text_eq z) zs y, text_eq_sym z y),
      add_last zs u.1 (ground arith),
    )

module _ {K : Type 0} (eq : K → K → Bool) (decides : (a b : K) → (eq a b ≡ true) ↔ (a ≡ b)) where
  pub claimants-claim :
      (x : Text) (k k' : K) (id : Text) (c : List (K × List Text))
      → any (text_eq x) (claimants eq k (claim eq k' id c))
        ≡ any (text_eq x) (claimants eq k c) || (eq k' k && text_eq x id)
  unfolding claim claimants
  claimants-claim x k k' id [] = ground arith
  claimants-claim x k k' id ((j, ids) ∷ c) = elim (Bool-cases (eq j k')) [
    | inl h ↦
        let q : j ≡ k' = (decides j k').0 h in
        ground (arith, any-append_unique x ids id, ap (λ z. eq z k) q)
    | inr h ↦ elim (Bool-cases (eq k' k)) [
      | inl e ↦
          let q : k' ≡ k = (decides k' k).0 e in
          ground (arith, claimants-claim x k k' id c, ap (eq j) q)
      | inr e ↦ ground (arith, claimants-claim x k k' id c)
    ]
  ]

  pub claimants-IsUnique :
      (k k' : K) (id : Text) (c : List (K × List Text))
      → IsUnique (claimants eq k c)
      → IsUnique (claimants eq k (claim eq k' id c))
  unfolding claim claimants
  claimants-IsUnique k k' id [] u = elim (Bool-cases (eq k' k)) [
    | inl h ↦ rw h (refl, tt)
    | inr h ↦ rw h u
  ]
  claimants-IsUnique k k' id ((j, ids) ∷ c) u = elim (Bool-cases (eq j k')) [
    | inl h ↦ elim (Bool-cases (eq j k)) [
      | inl e ↦ rw (h, e) (append_unique-IsUnique ids id (rw e at u))
      | inr e ↦ rw (h, e) (rw e at u)
    ]
    | inr h ↦ elim (Bool-cases (eq j k)) [
      | inl e ↦ rw (h, e) (rw e at u)
      | inr e ↦ rw (h, e) (claimants-IsUnique k k' id c (rw e at u))
    ]
  ]

-- A set of which the members are known is empty, a single member, or has two.
pub data SetShape (m : Text → Bool) : List Text → Type 0 where
  shape_none : ((x : Text) → m x ≡ false) → SetShape m []
  shape_one : (x : Text) → ((y : Text) → (m y ≡ true) ↔ (y ≡ x)) → SetShape m (x ∷ [])
  shape_more :
      (x y : Text) (xs : List Text) → x ≢ y → m x ≡ true → m y ≡ true → SetShape m (x ∷ y ∷ xs)

pub set_shape :
    (m : Text → Bool) (xs : List Text)
    → IsUnique xs
    → ((x : Text) → any (text_eq x) xs ≡ m x)
    → SetShape m xs
set_shape m [] u h = shape_none (λ x. sym (h x))
set_shape m (x ∷ []) u h = shape_one x (λ y. ground (arith, h y, text_eq_iff y x))
set_shape m (x ∷ y ∷ xs) u h =
    shape_more x y xs (ground (arith, text_eq_iff x y)) (ground (arith, h x, text_eq_refl x))
      (ground (arith, h y, text_eq_refl y))
