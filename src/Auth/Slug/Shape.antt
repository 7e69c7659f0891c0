-- ===== src/Auth/Slug/Shape.antt =====
-- The shape of what `slugify` returns.
use mathlib.Core.List.{reverse, reverse-append, reverse-reverse}
use cuddly_lamp.Prelude.{
  ℕ, ◌≡◌, refl, sym, ap, ◌∙◌, Bool, true, false, not, ◌&&◌, [], ◌∷◌, ◌++◌, arith, ◌==◌,
  if◌then◌else◌, Bool-cases, inl, inr, subst,
}
use cuddly_lamp.Text.{Text, Unicode, is_empty, trim_space, to_lower}
use cuddly_lamp.Auth.Slug.{
  is_slug_char, is_separator, slug_step, slug_loop, trim_left_hyphens, trim_hyphens, slugify,
}

-- What the loop has built: words of letters and digits, joined by single hyphens; the flag says
-- whether the last hyphen waits for its word.
pub data IsBuilt : Text → Bool → Type 0 where
  nothing : IsBuilt [] false
  letter :
      {b : Text} {last : Bool} (c : ℕ)
      → is_slug_char c ≡ true
      → IsBuilt b last
      → IsBuilt (b ++ c ∷ []) false
  joined : {b : Text} → is_empty b ≡ false → IsBuilt b false → IsBuilt (b ++ b'-' ∷ []) true

-- A slug: empty, or words of letters and digits joined by single hyphens.
unfoldable pub IsSlug : Text → Type 0
IsSlug s = IsBuilt s false

starts_well : Text → Bool
starts_well [] = true
starts_well (c ∷ s) = not (c == b'-')

starts_well-append : (b t : Text) → is_empty b ≡ false → starts_well (b ++ t) ≡ starts_well b
unfolding starts_well
starts_well-append [] t h = cc
starts_well-append (c ∷ b) t h = refl

starts_well-trim : (s : Text) → starts_well s ≡ true → trim_left_hyphens s ≡ s
unfolding starts_well trim_left_hyphens
starts_well-trim [] h = refl
starts_well-trim (c ∷ s) h = ground arith

starts_well-letter :
    (b : Text) (c : ℕ)
    → is_slug_char c ≡ true
    → starts_well b ≡ true
    → starts_well (b ++ c ∷ []) ≡ true
unfolding starts_well
starts_well-letter [] c h k = ground arith
starts_well-letter (d ∷ b) c h k = k

IsBuilt-starts_well : {b : Text} {last : Bool} → IsBuilt b last → starts_well b ≡ true
unfolding starts_well
IsBuilt-starts_well nothing = refl
IsBuilt-starts_well (letter {b} c h k) = starts_well-letter b c h (IsBuilt-starts_well k)
IsBuilt-starts_well (joined {b} h k) = starts_well-append b (b'-' ∷ []) h ∙ IsBuilt-starts_well k

IsBuilt-ends_well : {b : Text} → IsBuilt b false → starts_well (reverse b) ≡ true
unfolding starts_well
IsBuilt-ends_well nothing = refl
IsBuilt-ends_well (letter {b} c h k) = ap starts_well (reverse-append b (c ∷ [])) ∙ ground arith

trim_right :
    (b : Text) → starts_well (reverse b) ≡ true → reverse (trim_left_hyphens (reverse b)) ≡ b
trim_right b h = ap reverse (starts_well-trim (reverse b) h) ∙ reverse-reverse b

-- The trim removes a waiting hyphen, and nothing else.
trim_hyphens-IsSlug : {b : Text} {last : Bool} → IsBuilt b last → IsSlug (trim_hyphens b)
unfolding trim_hyphens IsSlug trim_left_hyphens
trim_hyphens-IsSlug nothing = nothing
trim_hyphens-IsSlug (letter {b} c h k) =
    let whole = letter c h k in
    subst (λ t. IsBuilt t false)
      (sym (
        ap (λ t. reverse (trim_left_hyphens (reverse t)))
          (starts_well-trim (b ++ c ∷ []) (IsBuilt-starts_well whole))
        ∙ trim_right (b ++ c ∷ []) (IsBuilt-ends_well whole)))
      whole
trim_hyphens-IsSlug (joined {b} h k) =
    subst (λ t. IsBuilt t false)
      (sym (
        ap (λ t. reverse (trim_left_hyphens (reverse t)))
          (starts_well-trim (b ++ b'-' ∷ []) (IsBuilt-starts_well (joined h k)))
        ∙ ap (λ t. reverse (trim_left_hyphens t)) (reverse-append b (b'-' ∷ []))
        ∙ trim_right b (IsBuilt-ends_well k)))
      k

pub trim_hyphens-fixed : {b : Text} → IsBuilt b false → trim_hyphens b ≡ b
unfolding trim_hyphens
trim_hyphens-fixed {b} h =
    ap (λ t. reverse (trim_left_hyphens (reverse t))) (starts_well-trim b (IsBuilt-starts_well h))
    ∙ trim_right b (IsBuilt-ends_well h)

slug_step-IsBuilt :
    (r : ℕ) {b : Text} {last : Bool}
    → IsBuilt b last
    → IsBuilt (slug_step r (b, last)).0 (slug_step r (b, last)).1
unfolding slug_step
slug_step-IsBuilt r {b} {last} h = elim (Bool-cases (is_slug_char r)) [
  | inl e ↦ rw e (letter r e h)
  | inr e ↦
      rw e
        (elim (Bool-cases (is_separator r)) [ inr e' ↦ rw e' h | inl e' ↦ rw e' (slug_hyphen h) ])
]
  where
    slug_hyphen :
        {b : Text} {last : Bool}
        → IsBuilt b last
        → (let state : Text × Bool =
              if not (is_empty b) && not last then (b ++ b'-' ∷ [], true) else (b, last) in
            IsBuilt state.0 state.1)
    slug_hyphen {b = []} h = h
    slug_hyphen {b = c ∷ b} {last = true} h = h
    slug_hyphen {b = c ∷ b} {last = false} h = joined refl h

slug_loop-IsBuilt :
    (v : Text) (state : Text × Bool)
    → IsBuilt state.0 state.1
    → IsBuilt (slug_loop v state).0 (slug_loop v state).1
unfolding slug_loop
slug_loop-IsBuilt [] state h = h
slug_loop-IsBuilt (r ∷ v) state h = slug_loop-IsBuilt v (slug_step r state) (slug_step-IsBuilt r h)

-- `slugify` returns a slug: empty, or words of lower-case letters and digits of ASCII joined by single
-- hyphens.
pub slugify-IsSlug : (u : Unicode) (value : Text) → IsSlug (slugify u value)
unfolding slugify
slugify-IsSlug u value =
    trim_hyphens-IsSlug (slug_loop-IsBuilt (to_lower u (trim_space value)) ([], false) nothing)
