-- ===== src/Text/Search.antt =====
-- Cutting and searching of texts, as the program calls Go's `strings` for it.
use cuddly_lamp.Prelude.{
  ℕ, Bool, true, false, ◌||◌, Option, none, some, List, [], ◌∷◌, ◌++◌, any, ◌==◌, if◌then◌else◌,
}
use cuddly_lamp.Text.{Text, has_prefix}

-- `strings.Cut` by a single character.
unfoldable pub cut : ℕ → Text → Text × Text × Bool
cut c [] = ([], [], false)
cut c (x ∷ s) = let rest = cut c s in if x == c then ([], s, true) else (x ∷ rest.0, rest.1, rest.2)

-- The text on both sides of `strings.LastIndex`.
unfoldable pub cut_last : ℕ → Text → Option (Text × Text)
cut_last c [] = none
cut_last c (x ∷ s) = elim (cut_last c s) [
  | some (before, after) ↦ some (x ∷ before, after)
  | none ↦ if x == c then some ([], s) else none
]

-- `strings.Contains`
unfoldable pub contains : Text → Text → Bool
unfolding has_prefix
contains [] part = has_prefix [] part
contains (c ∷ s) part = has_prefix (c ∷ s) part || contains s part

-- `strings.ContainsAny`
unfoldable pub contains_any : Text → Text → Bool
contains_any s chars = any (λ c. any (λ d. c == d) chars) s

-- `strings.Join`
unfoldable pub join : Text → List Text → Text
join separator [] = []
join separator (t ∷ []) = t
join separator (t ∷ u ∷ ts) = t ++ separator ++ join separator (u ∷ ts)
