-- ===== src/Auth/Slug/Fixed.antt =====
-- `slugify` leaves a slug as it is.
use mathlib.Core.List.{reverse, reverse-append, reverse-reverse}
use cuddly_lamp.Prelude.{
  ℕ, ◌≡◌, refl, ap, ◌∙◌, Bool, true, false, ◌&&◌, ◌||◌, [], ◌∷◌, ◌++◌, arith, all, ◌==◌,
}
use cuddly_lamp.Text.{Text, Unicode, is_space, trim_left, trim_space, to_lower, lower_rune}
use cuddly_lamp.Auth.Slug.{is_slug_char, is_separator, slug_step, slug_loop, slugify}
use cuddly_lamp.Auth.Slug.Shape.{
  IsBuilt, nothing, letter, joined, IsSlug, trim_hyphens-fixed, slugify-IsSlug,
}

is_plain : ℕ → Bool
is_plain c = is_slug_char c || c == b'-'

all-append : (p : ℕ → Bool) (s t : Text) → all p (s ++ t) ≡ all p s && all p t
all-append p [] t = refl
all-append p (c ∷ s) t = ground (arith, all-append p s t)

all-reverse : (p : ℕ → Bool) (s : Text) → all p s ≡ true → all p (reverse s) ≡ true
all-reverse p [] h = refl
all-reverse p (c ∷ s) h =
    ap (all p) (reverse-append (c ∷ []) s)
    ∙ all-append p (reverse s) (c ∷ [])
    ∙ ground (arith, all-reverse p s)

IsBuilt-is_plain : {b : Text} {last : Bool} → IsBuilt b last → all is_plain b ≡ true
unfolding is_plain
IsBuilt-is_plain nothing = refl
IsBuilt-is_plain (letter {b} c h k) =
    all-append is_plain b (c ∷ []) ∙ ground (arith, IsBuilt-is_plain k)
IsBuilt-is_plain (joined {b} h k) =
    all-append is_plain b (b'-' ∷ []) ∙ ground (arith, IsBuilt-is_plain k)

to_lower-plain : (u : Unicode) (s : Text) → all is_plain s ≡ true → to_lower u s ≡ s
unfolding to_lower lower_rune is_plain
to_lower-plain u [] h = refl
to_lower-plain u (c ∷ s) h = grind (arith, to_lower-plain u s)

trim_left-plain : (s : Text) → all is_plain s ≡ true → trim_left s ≡ s
unfolding trim_left is_space is_plain
trim_left-plain [] h = refl
trim_left-plain (c ∷ s) h = ground arith

trim_space-plain : (s : Text) → all is_plain s ≡ true → trim_space s ≡ s
unfolding trim_space
trim_space-plain s h =
    ap (λ t. reverse (trim_left (reverse t))) (trim_left-plain s h)
    ∙ ap reverse (trim_left-plain (reverse s) (all-reverse is_plain s h))
    ∙ reverse-reverse s

slug_loop-append :
    (v w : Text) (state : Text × Bool) → slug_loop (v ++ w) state ≡ slug_loop w (slug_loop v state)
unfolding slug_loop
slug_loop-append [] w state = refl
slug_loop-append (r ∷ v) w state = slug_loop-append v w (slug_step r state)

slug_loop-built : {b : Text} {last : Bool} → IsBuilt b last → slug_loop b ([], false) ≡ (b, last)
unfolding slug_loop slug_step is_separator is_space
slug_loop-built nothing = refl
slug_loop-built (letter {b} {last} c h k) =
    slug_loop-append b (c ∷ []) ([], false) ∙ ap (slug_step c) (slug_loop-built k) ∙ rw h refl
slug_loop-built (joined {b} h k) =
    slug_loop-append b (b'-' ∷ []) ([], false) ∙ ap (slug_step b'-') (slug_loop-built k) ∙ rw h refl

slug-fixed : (u : Unicode) (s : Text) → IsSlug s → slugify u s ≡ s
unfolding slugify IsSlug
slug-fixed u s h =
    let plain = IsBuilt-is_plain h in
    rw (trim_space-plain s plain, to_lower-plain u s plain, slug_loop-built h)
      (trim_hyphens-fixed h)

-- `slugify` of what it returned changes nothing.
slugify_idempotent : (u : Unicode) (value : Text) → slugify u (slugify u value) ≡ slugify u value
slugify_idempotent u value = slug-fixed u (slugify u value) (slugify-IsSlug u value)
