-- ===== src/Derive/Index.antt =====
-- internal/derive/index.go.
pub mod Owner
use cuddly_lamp.Prelude.{Bool, true, false, ◌&&◌, ◌||◌, List, [], ◌∷◌, if◌then◌else◌}
use cuddly_lamp.Text.{Text, text_eq, is_empty}
use cuddly_lamp.Derive.Claims.{claim, claimants}

pub record PackageIdentity : Type 0 where
  pub ecosystem : Text
  pub name : Text

unfoldable pub identity_eq : PackageIdentity → PackageIdentity → Bool
identity_eq a b = text_eq a.ecosystem b.ecosystem && text_eq a.name b.name

pub record PackageIndex : Type 0 where
  pub owners : List (PackageIdentity × List Text)

unfoldable pub new_package_index : PackageIndex
new_package_index = record { owners = [] }

unfoldable pub add : PackageIndex → Text → Text → Text → PackageIndex
unfolding claim
add idx ecosystem name repository_id =
    if is_empty ecosystem || is_empty name || is_empty repository_id then idx else record {
      owners =
          claim identity_eq (record { ecosystem = ecosystem; name = name }) repository_id
            idx.owners;
    }

-- The owner, whether the name is contested, and whether it is known.
unfoldable pub sole_owner : List Text → Text × Bool × Bool
sole_owner [] = ([], false, false)
sole_owner (id ∷ []) = (id, false, true)
sole_owner (_ ∷ _ ∷ _) = ([], true, true)

unfoldable pub resolve : PackageIndex → Text → Text → Text × Bool × Bool
unfolding claimants sole_owner
resolve idx ecosystem name =
    sole_owner (claimants identity_eq (record { ecosystem = ecosystem; name = name }) idx.owners)
