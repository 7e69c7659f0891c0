-- ===== src/Derive/Index/Owner.antt =====
-- The package index as an implementation of a set of claims: what it answers to a name.
use cuddly_lamp.Prelude.{
  ◌≡◌, refl, ap, ap₂, ◌↔◌, ◌≢◌, Bool, true, false, not, ◌&&◌, ◌||◌, List, [], ◌∷◌, any, arith, inl,
  inr, Bool-cases,
}
use cuddly_lamp.Text.{Text, text_eq, is_empty}
use cuddly_lamp.Text.Laws.{text_eq_iff}
use cuddly_lamp.Derive.Claims.{
  claimants, claimants-claim, claimants-IsUnique, IsUnique, SetShape, shape_none, shape_one,
  shape_more, set_shape,
}
use cuddly_lamp.Derive.Index.{
  PackageIdentity, identity_eq, PackageIndex, new_package_index, add, resolve, sole_owner,
}

-- One call of `Add`.
pub record Publication : Type 0 where
  pub ecosystem : Text
  pub name : Text
  pub repository_id : Text

abbrev pub add_all : PackageIndex → List Publication → PackageIndex
add_all idx [] = idx
add_all idx (p ∷ ps) = add_all (add idx p.ecosystem p.name p.repository_id) ps

-- The abstract view: whether a repository is among those that published a name.
abbrev pub is_claim : Text → Text → Text → Publication → Bool
is_claim ecosystem name id p =
    not (is_empty p.ecosystem || is_empty p.name || is_empty p.repository_id)
    && text_eq p.ecosystem ecosystem
    && text_eq p.name name
    && text_eq id p.repository_id

abbrev pub publishes : List Publication → Text → Text → Text → Bool
publishes ps ecosystem name id = any (is_claim ecosystem name id) ps

pub identity_decides : (a b : PackageIdentity) → (identity_eq a b ≡ true) ↔ (a ≡ b)
unfolding identity_eq
identity_decides a b = (
  λ h.
      ap₂ (λ e n. record { ecosystem = e; name = n })
        ((text_eq_iff a.ecosystem b.ecosystem).0 (ground arith))
        ((text_eq_iff a.name b.name).0 (ground arith)),
  λ h. ground (
    arith,
    (text_eq_iff a.ecosystem b.ecosystem).1 (ap (λ x. x.ecosystem) h),
    (text_eq_iff a.name b.name).1 (ap (λ x. x.name) h),
  ),
)

abbrev owners_of : PackageIndex → Text → Text → List Text
owners_of idx ecosystem name =
    claimants identity_eq (record { ecosystem = ecosystem; name = name }) idx.owners

owners_of-add :
    (x ecosystem name : Text) (idx : PackageIndex) (p : Publication)
    → any (text_eq x) (owners_of (add idx p.ecosystem p.name p.repository_id) ecosystem name)
      ≡ any (text_eq x) (owners_of idx ecosystem name) || is_claim ecosystem name x p
unfolding add identity_eq
owners_of-add x ecosystem name idx p = ground (
  arith,
  claimants-claim identity_eq identity_decides x (record { ecosystem = ecosystem; name = name })
      (record { ecosystem = p.ecosystem; name = p.name }) p.repository_id idx.owners,
)

owners_of-add_all :
    (x ecosystem name : Text) (idx : PackageIndex) (ps : List Publication)
    → any (text_eq x) (owners_of (add_all idx ps) ecosystem name)
      ≡ any (text_eq x) (owners_of idx ecosystem name) || publishes ps ecosystem name x
owners_of-add_all x ecosystem name idx [] = ground arith
owners_of-add_all x ecosystem name idx (p ∷ ps) = ground (
  arith,
  owners_of-add x ecosystem name idx p,
  owners_of-add_all x ecosystem name (add idx p.ecosystem p.name p.repository_id) ps,
)

owners_of-IsUnique :
    (ecosystem name : Text) (idx : PackageIndex) (ps : List Publication)
    → IsUnique (owners_of idx ecosystem name)
    → IsUnique (owners_of (add_all idx ps) ecosystem name)
unfolding add
owners_of-IsUnique ecosystem name idx [] u = u
owners_of-IsUnique ecosystem name idx (p ∷ ps) u =
    owners_of-IsUnique ecosystem name (add idx p.ecosystem p.name p.repository_id) ps
      (elim (Bool-cases (is_empty p.ecosystem || is_empty p.name || is_empty p.repository_id)) [
        | inl h ↦ rw h u
        | inr h ↦ rw h (
            claimants-IsUnique identity_eq identity_decides
              (record { ecosystem = ecosystem; name = name })
              (record { ecosystem = p.ecosystem; name = p.name }) p.repository_id idx.owners u)
      ])

abbrev new_index : List Publication → PackageIndex
new_index ps = add_all new_package_index ps

pub owners_of-shape :
    (ps : List Publication) (ecosystem name : Text)
    → SetShape (publishes ps ecosystem name) (
        claimants identity_eq
          (record { ecosystem = ecosystem; name = name })
          (add_all new_package_index ps).owners)
unfolding new_package_index claimants
owners_of-shape ps ecosystem name =
    set_shape (publishes ps ecosystem name) (owners_of (new_index ps) ecosystem name)
      (owners_of-IsUnique ecosystem name (record { owners = [] }) ps tt)
      (λ x. owners_of-add_all x ecosystem name (record { owners = [] }) ps)

-- What a set of claims says of one name.
abbrev pub IsSoleClaim : (Text → Bool) → Text → Type 0
IsSoleClaim claims id = claims id ≡ true × ((other : Text) → claims other ≡ true → other ≡ id)

abbrev pub IsContested : (Text → Bool) → Type 0
IsContested claims = (a : Text) × (b : Text) × (a ≢ b × claims a ≡ true × claims b ≡ true)

abbrev pub IsUnclaimed : (Text → Bool) → Type 0
IsUnclaimed claims = (x : Text) → claims x ≡ false

abbrev pub IsAnswer : (Text → Bool) → Text × Bool × Bool → Type 0
IsAnswer claims answer =
    ((id : Text) → answer ≡ (id, false, true) ↔ IsSoleClaim claims id)
    × (answer ≡ ([], true, true) ↔ IsContested claims)
    × (answer ≡ ([], false, false) ↔ IsUnclaimed claims)

sole_owner-IsAnswer :
    (claims : Text → Bool) (xs : List Text) → SetShape claims xs → IsAnswer claims (sole_owner xs)
unfolding sole_owner
sole_owner-IsAnswer claims _ (shape_none none_claims) = (
  λ id. (λ e. cc, λ h. ground (arith, none_claims id)),
  (λ e. cc, λ (a, b, h). ground (arith, none_claims a)),
  (λ e. none_claims, λ h. refl),
)
sole_owner-IsAnswer claims _ (shape_one x only) = (
  λ id. (
    λ e. (ground (arith, only id), λ other c. ground (arith, only other)),
    λ h. ground (arith, only id),
  ),
  (λ e. cc, λ (a, b, h). ground (arith, only a, only b)),
  (λ e. cc, λ h. ground (arith, h x, only x)),
)
sole_owner-IsAnswer claims _ (shape_more x y xs differ cx cy) = (
  λ id. (λ e. cc, λ h. ground (arith, h.1 x cx, h.1 y cy)),
  (λ e. (x, y, (differ, cx, cy)), λ h. refl),
  (λ e. cc, λ h. ground (arith, h x)),
)

-- The index built by any sequence of `Add`s answers a name by the set of the repositories that published
-- it, whatever the order and the repetitions: it is owned by a repository exactly if this one published
-- it and no other did, contested exactly if two did, unknown exactly if none did.
pub resolve-IsAnswer :
    (ps : List Publication) (ecosystem name : Text)
    → IsAnswer (publishes ps ecosystem name) (resolve (add_all new_package_index ps) ecosystem name)
unfolding resolve
resolve-IsAnswer ps ecosystem name =
    sole_owner-IsAnswer (publishes ps ecosystem name) (owners_of (new_index ps) ecosystem name)
      (owners_of-shape ps ecosystem name)
