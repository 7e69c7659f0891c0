-- ===== src/Auth/Slug.antt =====
-- `normalizeSlug`, `slugify` and `normalizeOrDeriveSlug` of auth_service.go.
pub mod Shape
pub mod Fixed
use mathlib.Core.List.{reverse}
use cuddly_lamp.Prelude.{
  ℕ, Bool, true, false, not, ◌&&◌, ◌||◌, Option, none, some, [], ◌∷◌, ◌++◌, leb, ◌==◌,
  if◌then◌else◌,
}
use cuddly_lamp.Text.{Text, Unicode, is_empty, is_space, trim_space, to_lower}

unfoldable pub normalize_slug : Unicode → Text → Text
normalize_slug u slug = to_lower u (trim_space slug)

-- The two cases of the `switch`: a character to keep, and a separator.
abbrev pub is_slug_char : ℕ → Bool
is_slug_char r = (leb b'a' r && leb r b'z') || (leb b'0' r && leb r b'9')

unfoldable pub is_separator : ℕ → Bool
is_separator r = is_space r || r == b'-' || r == b'_'

-- The `for` loop, over the builder and the flag `lastHyphen`.
unfoldable pub slug_step : ℕ → Text × Bool → Text × Bool
unfolding is_separator
slug_step r (b, last_hyphen) =
    if is_slug_char r
    then (b ++ r ∷ [], false)
    else if is_separator r
    then (if not (is_empty b) && not last_hyphen then (b ++ b'-' ∷ [], true) else (b, last_hyphen))
    else (b, last_hyphen)

unfoldable pub slug_loop : Text → Text × Bool → Text × Bool
slug_loop [] state = state
slug_loop (r ∷ value) state = slug_loop value (slug_step r state)

unfoldable pub trim_left_hyphens : Text → Text
trim_left_hyphens [] = []
trim_left_hyphens (c ∷ s) = let rest = trim_left_hyphens s in if c == b'-' then rest else c ∷ s

-- `strings.Trim(s, "-")`
unfoldable pub trim_hyphens : Text → Text
trim_hyphens s = reverse (trim_left_hyphens (reverse (trim_left_hyphens s)))

unfoldable pub slugify : Unicode → Text → Text
slugify u value = trim_hyphens (slug_loop (to_lower u (trim_space value)) ([], false)).0

-- `none` is "organization slug is required".
unfoldable pub normalize_or_derive_slug : Unicode → Text → Text → Option Text
normalize_or_derive_slug u name slug =
    let normalized = slugify u (if is_empty (trim_space slug) then name else slug) in
    if is_empty normalized then none else some normalized
