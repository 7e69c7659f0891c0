-- ===== src/Derive/Packages.antt =====
-- internal/derive/packages.go and internal/derive/ecosystems/ecosystems.go.
use cuddly_lamp.Prelude.{ℕ, ◌&&◌, some, List, [], ◌∷◌, ◌++◌, map, any, length, ◌==◌, if◌then◌else◌}
use cuddly_lamp.Text.{Text, text, text_eq, is_empty, has_prefix, trim_space, to_lower, Unicode}
use cuddly_lamp.Text.Search.{cut, cut_last}

abbrev pub go : Text
go = text "go"

abbrev pub npm : Text
npm = text "npm"

abbrev pub maven : Text
maven = text "maven"

abbrev pub python : Text
python = text "python"

abbrev pub cargo : Text
cargo = text "cargo"

abbrev pub nuget : Text
nuget = text "nuget"

pub record Package : Type 0 where
  pub ecosystem : Text
  pub name : Text
  pub raw_name : Text
  pub version : Text

pub record Manifest : Type 0 where
  pub path : Text
  pub published : List Package
  pub requires : List Package

-- `strings.ReplaceAll` of one character by another.
abbrev pub replace_char : ℕ → ℕ → Text → Text
replace_char c d = map (λ x. if x == c then d else x)

module _ (u : Unicode) where
  unfoldable pub normalize : Text → Text → Text
  unfolding trim_space to_lower cut text_eq
  normalize ecosystem name =
      let trimmed = trim_space name in
      let lowered = to_lower u trimmed in
      if text_eq ecosystem go
      then (let parts = cut b'/' trimmed in
          if parts.2 then to_lower u parts.0 ++ text "/" ++ parts.1 else lowered)
      else if text_eq ecosystem maven
      then trimmed
      else if text_eq ecosystem python
      then replace_char b'.' b'-' (replace_char b'_' b'-' lowered)
      else if text_eq ecosystem cargo
      then replace_char b'_' b'-' lowered
      else lowered

-- The type, the namespace and the base of a package URL.
unfoldable pub purl_parts : Text → Text → Text × Text × Text
unfolding cut cut_last text_eq has_prefix
purl_parts ecosystem name =
    if text_eq ecosystem go
    then elim (cut_last b'/' name) [
      | some (c ∷ namespace, base) ↦ (text "golang", c ∷ namespace, base)
      | _ ↦ (text "golang", [], name)
    ]
    else if text_eq ecosystem npm
    then (let parts = cut b'/' name in
        if parts.2 && has_prefix parts.0 (text "@")
        then (npm, parts.0, parts.1)
        else (npm, [], name))
    else if text_eq ecosystem maven
    then (let parts = cut b':' name in (maven, parts.0, parts.1))
    else if text_eq ecosystem python
    then (text "pypi", [], name)
    else (ecosystem, [], name)

unfoldable pub purl : Text → Text → Text → Text
unfolding purl_parts
purl ecosystem name version =
    let parts = purl_parts ecosystem name in
    text "pkg:"
    ++ parts.0
    ++ text "/"
    ++ (if is_empty parts.1 then [] else parts.1 ++ text "/")
    ++ parts.2
    ++ (if is_empty version then [] else text "@" ++ version)

-- `libdep.gomod` for Go, else `libdep.` and the ecosystem.
unfoldable pub rule_for_ecosystem : Text → Text
unfolding text_eq
rule_for_ecosystem ecosystem =
    if text_eq ecosystem go
    then text "libdep.gomod"
    else if any (text_eq ecosystem) (npm ∷ maven ∷ python ∷ cargo ∷ nuget ∷ [])
    then text "libdep." ++ ecosystem
    else text "libdep.unknown"

pub record PublishedPackage : Type 0 where
  pub ecosystem : Text
  pub name : Text
  pub raw_name : Text
  pub manifest_path : Text
  pub purl_text : Text

pub record RequiredPackage : Type 0 where
  pub ecosystem : Text
  pub name : Text
  pub raw_name : Text
  pub manifest_path : Text
  pub version : Text
  pub purl_text : Text

pub record PackagesFact : Type 0 where
  pub published : List PublishedPackage
  pub requires : List RequiredPackage
  pub manifest_count : ℕ

unfoldable pub published_package : Text → Package → PublishedPackage
published_package path pkg = record {
  ecosystem = pkg.ecosystem;
  name = pkg.name;
  raw_name = pkg.raw_name;
  manifest_path = path;
  purl_text = purl pkg.ecosystem pkg.raw_name [];
}

unfoldable pub required_package : Text → Package → RequiredPackage
required_package path pkg = record {
  ecosystem = pkg.ecosystem;
  name = pkg.name;
  raw_name = pkg.raw_name;
  manifest_path = path;
  version = pkg.version;
  purl_text = purl pkg.ecosystem pkg.raw_name pkg.version;
}

unfoldable pub published_by : List Manifest → List PublishedPackage
unfolding published_package
published_by [] = []
published_by (m ∷ ms) = map (published_package m.path) m.published ++ published_by ms

unfoldable pub required_by : List Manifest → List RequiredPackage
unfolding required_package
required_by [] = []
required_by (m ∷ ms) = map (required_package m.path) m.requires ++ required_by ms

unfoldable pub packages_from_manifests : List Manifest → PackagesFact
unfolding published_by required_by
packages_from_manifests manifests = record {
  published = published_by manifests;
  requires = required_by manifests;
  manifest_count = length manifests;
}
