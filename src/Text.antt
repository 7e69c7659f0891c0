-- ===== src/Text.antt =====
-- Text as code points, and what the program calls of Go's `strings` and `unicode` packages.
pub mod Laws
pub mod Search
use mathlib.Core.List.{reverse}
use Prim.Native.Char.{code}
use cuddly_lamp.Prelude.{
  ℕ, ◌+◌, ◌-◌, String, Bool, true, false, ◌&&◌, ◌||◌, List, [], ◌∷◌, map, ltb, leb, ◌==◌,
  if◌then◌else◌,
}

abbrev pub Text : Type 0
Text = List ℕ

-- A literal as its code points.
abbrev pub text : String → Text
text String.[] = []
text (String.◌∷◌ c s) = code c ∷ text s

-- `==` on Go strings.
unfoldable pub text_eq : Text → Text → Bool
text_eq [] [] = true
text_eq (a ∷ s) (b ∷ t) = (a == b) && text_eq s t
text_eq _ _ = false

-- `s == ""`
abbrev pub is_empty : Text → Bool
is_empty [] = true
is_empty (_ ∷ _) = false

-- The tables of the `unicode` package beyond ASCII: lower and upper case, and one member of each
-- orbit of the simple case folding.
pub record Unicode : Type 0 where
  pub lower : ℕ → ℕ
  pub upper : ℕ → ℕ
  pub fold : ℕ → ℕ

-- `unicode.IsSpace`: the white space of Latin-1 and the category Z.
unfoldable pub is_space : ℕ → Bool
is_space c =
    (leb 9 c && leb c 13)
    || c == 32
    || c == 0x85
    || c == 0xa0
    || c == 0x1680
    || (leb 0x2000 c && leb c 0x200a)
    || c == 0x2028
    || c == 0x2029
    || c == 0x202f
    || c == 0x205f
    || c == 0x3000

unfoldable pub trim_left : Text → Text
trim_left [] = []
trim_left (c ∷ s) = let rest = trim_left s in if is_space c then rest else c ∷ s

-- `strings.TrimSpace`
unfoldable pub trim_space : Text → Text
unfolding trim_left
trim_space s = reverse (trim_left (reverse (trim_left s)))

module _ (u : Unicode) where
  -- `unicode.ToLower`
  unfoldable pub lower_rune : ℕ → ℕ
  lower_rune c = if ltb c 128 then (if leb b'A' c && leb c b'Z' then c + 32 else c) else u.lower c

  -- `strings.ToLower`
  unfoldable pub to_lower : Text → Text
  unfolding lower_rune
  to_lower = map lower_rune

  -- `unicode.ToUpper`
  unfoldable pub upper_rune : ℕ → ℕ
  upper_rune c = if ltb c 128 then (if leb b'a' c && leb c b'z' then c - 32 else c) else u.upper c

  -- `strings.ToUpper`
  unfoldable pub to_upper : Text → Text
  unfolding upper_rune
  to_upper = map upper_rune

  unfoldable pub fold_rune : ℕ → ℕ
  fold_rune c = if ltb c 128 then (if leb b'A' c && leb c b'Z' then c + 32 else c) else u.fold c

  -- `strings.EqualFold`
  unfoldable pub equal_fold : Text → Text → Bool
  unfolding fold_rune text_eq
  equal_fold s t = text_eq (map fold_rune s) (map fold_rune t)

-- `strings.HasPrefix`
unfoldable pub has_prefix : Text → Text → Bool
has_prefix s [] = true
has_prefix [] (_ ∷ _) = false
has_prefix (c ∷ s) (d ∷ p) = (c == d) && has_prefix s p
