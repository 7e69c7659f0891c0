-- ===== src/Prelude/Lists.antt =====
-- Lists measured by native numbers, and the list operations that stand for table queries.
use Prim.Native.Nat.{ℕ, suc, ◌+◌, ◌≤◌}
use mathlib.Core.Path.{◌≡◌, refl, sym, subst}
use mathlib.Core.Logic.{inl, inr}
use mathlib.Core.Bool.{Bool, true, false, ◌&&◌, ◌||◌}
use mathlib.Core.List.{List, [], ◌∷◌, ◌++◌}
use mathlib.Core.Option.{Option, none, some}
use native.Mathlib.Omega.{arith}
use cuddly_lamp.Prelude.Tests.{if◌then◌else◌, Bool-cases}

module _ {ℓ} {A : Type ℓ} where
  abbrev pub length : List A → ℕ
  length [] = 0
  length (x ∷ xs) = suc (length xs)

  -- The first row that passes the test.
  abbrev pub find_first : (A → Bool) → List A → Option A
  find_first p [] = none
  find_first p (x ∷ xs) = if p x then some x else find_first p xs

  -- The rows that pass the test, in order.
  abbrev pub select : (A → Bool) → List A → List A
  select p [] = []
  select p (x ∷ xs) = let rest = select p xs in if p x then x ∷ rest else rest

  -- How many rows pass the test.
  abbrev pub count_if : (A → Bool) → List A → ℕ
  count_if p [] = 0
  count_if p (x ∷ xs) = (if p x then 1 else 0) + count_if p xs

  abbrev pub any : (A → Bool) → List A → Bool
  any p [] = false
  any p (x ∷ xs) = p x || any p xs

  abbrev pub all : (A → Bool) → List A → Bool
  all p [] = true
  all p (x ∷ xs) = p x && all p xs

  -- Change the rows that pass the test.
  abbrev pub update_where : (A → Bool) → (A → A) → List A → List A
  update_where p f [] = []
  update_where p f (x ∷ xs) = (if p x then f x else x) ∷ update_where p f xs

  -- A predicate of every row.
  abbrev pub All {κ} : (A → Type κ) → List A → Type κ
  All P [] = Unit
  All P (x ∷ xs) = P x × All P xs

module _ {ℓ} {A : Type ℓ} where
  pub length-append : (xs ys : List A) → length (xs ++ ys) ≡ length xs + length ys
  length-append [] ys = omega arith
  length-append (x ∷ xs) ys = omega (arith, length-append xs ys)

  pub count_if-append :
      (p : A → Bool) (xs ys : List A) → count_if p (xs ++ ys) ≡ count_if p xs + count_if p ys
  count_if-append p [] ys = omega arith
  count_if-append p (x ∷ xs) ys = omega (arith, count_if-append p xs ys)

  pub any-left : (p : A → Bool) (xs ys : List A) → any p xs ≡ true → any p (xs ++ ys) ≡ true
  any-left p [] ys h = cc
  any-left p (x ∷ xs) ys h = ground (arith, any-left p xs ys)

  pub any-right : (p : A → Bool) (xs ys : List A) → any p ys ≡ true → any p (xs ++ ys) ≡ true
  any-right p [] ys h = h
  any-right p (x ∷ xs) ys h = ground (arith, any-right p xs ys h)

  pub All-append {κ} : (P : A → Type κ) (xs ys : List A) → All P xs → All P ys → All P (xs ++ ys)
  All-append P [] ys hx hy = hy
  All-append P (x ∷ xs) ys hx hy = (hx.0, All-append P xs ys hx.1 hy)

  pub All-update_where {κ} :
      (P : A → Type κ) (p : A → Bool) (f : A → A) (xs : List A)
      → ((x : A) → P x → P (f x))
      → All P xs
      → All P (update_where p f xs)
  All-update_where P p f [] keep h = tt
  All-update_where P p f (x ∷ xs) keep h =
      (All-update_where_head (p x) h.0, All-update_where P p f xs keep h.1)
    where
      All-update_where_head : (b : Bool) → P x → P (if b then f x else x)
      All-update_where_head true hx = keep x hx
      All-update_where_head false hx = hx

  -- What is found passes the test, and has what all rows have.
  pub find_first-test : (p : A → Bool) (xs : List A) (x : A) → find_first p xs ≡ some x → p x ≡ true
  find_first-test p [] x h = ground arith
  find_first-test p (y ∷ ys) x h = ground (arith, find_first-test p ys x)

  pub find_first-All {κ} :
      (P : A → Type κ) (p : A → Bool) (xs : List A) (x : A)
      → All P xs
      → find_first p xs ≡ some x
      → P x
  find_first-All P p [] x h e = cc
  find_first-All P p (y ∷ ys) x h e = elim (Bool-cases (p y)) [
    | inl hit ↦ let q : y ≡ x = ground arith in subst P q h.0
    | inr miss ↦ find_first-All P p ys x h.1 (rw miss at e)
  ]

  -- A row that is found and passes another test is counted by it.
  pub count_if-found :
      (p q : A → Bool) (xs : List A) (x : A)
      → find_first p xs ≡ some x
      → q x ≡ true
      → 1 ≤ count_if q xs
  count_if-found p q [] x h k = cc
  count_if-found p q (y ∷ ys) x h k = ground (arith, count_if-found p q ys x)

  -- A change that gives no row the counted property, and one after which no row has it.
  pub count_if-update_le :
      (q p : A → Bool) (f : A → A) (xs : List A)
      → ((x : A) → p x ≡ true → q (f x) ≡ true → q x ≡ true)
      → count_if q (update_where p f xs) ≤ count_if q xs
  count_if-update_le q p f [] h = omega arith
  count_if-update_le q p f (x ∷ xs) h = ground (arith, count_if-update_le q p f xs h, h x)

  pub count_if-update_zero :
      (q p : A → Bool) (f : A → A) (xs : List A)
      → ((x : A) → p x ≡ true → q (f x) ≡ false)
      → ((x : A) → p x ≡ false → q x ≡ false)
      → count_if q (update_where p f xs) ≡ 0
  count_if-update_zero q p f [] h k = refl
  count_if-update_zero q p f (x ∷ xs) h k =
      ground (arith, count_if-update_zero q p f xs h k, h x, k x)

  -- A change that takes the property from a row that has it.
  pub count_if-update_lt :
      (q p r : A → Bool) (f : A → A) (xs : List A) (x : A)
      → ((y : A) → p y ≡ true → q (f y) ≡ false)
      → find_first r xs ≡ some x
      → p x ≡ true
      → q x ≡ true
      → count_if q (update_where p f xs) + 1 ≤ count_if q xs
  count_if-update_lt q p r f [] x h e px qx = cc
  count_if-update_lt q p r f (y ∷ ys) x h e px qx = elim (Bool-cases (r y)) [
    | inl hit ↦
        let same : y ≡ x = ground arith in
        let py : p y ≡ true = subst (λ z. p z ≡ true) (sym same) px in
        let qy : q y ≡ true = subst (λ z. q z ≡ true) (sym same) qx in
        rw (py, h y py, qy)
          (ground (arith, count_if-update_le q p f ys (λ z pz qz. ground (arith, h z pz))))
    | inr miss ↦ ground (arith, count_if-update_lt q p r f ys x h (rw miss at e) px qx, h y)
  ]
