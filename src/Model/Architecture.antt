-- ===== src/Model/Architecture.antt =====
-- internal/models/repository_relationship.go and repository_fact.go.
use cuddly_lamp.Prelude.{
  ℕ, Bool, true, false, not, ◌&&◌, if◌then◌else◌, Option, none, some, List, [], ◌∷◌, any, leb, ltb,
  is_some,
}
use cuddly_lamp.Text.{Text, text, text_eq, is_empty}

-- A confidence in units of 0.0001, the scale of its column; `minus n` is -(n + 1) units.
pub data Confidence : Type 0 where
  plus minus : ℕ → Confidence

-- `0 <= c && c <= 1`
unfoldable pub is_unit : Confidence → Bool
is_unit (plus n) = leb n 10000
is_unit (minus n) = false

-- `a < b`
unfoldable pub confidence_lt : Confidence → Confidence → Bool
confidence_lt (plus a) (plus b) = ltb a b
confidence_lt (plus a) (minus b) = false
confidence_lt (minus a) (plus b) = true
confidence_lt (minus a) (minus b) = ltb b a

-- A value of `map[string]any`, as the derivers store them.
pub data Value : Type 0 where
  word : Text → Value
  flag : Bool → Value
  words : List Text → Value

abbrev pub Metadata : Type 0
Metadata = List (Text × Value)

unfoldable pub get : Text → Metadata → Option Value
get name [] = none
get name ((n, v) ∷ rest) = let later = get name rest in if text_eq n name then some v else later

unfoldable pub put : Text → Value → Metadata → Metadata
put name value [] = (name, value) ∷ []
put name value ((n, v) ∷ rest) =
    let later = put name value rest in
    if text_eq n name then (name, value) ∷ rest else (n, v) ∷ later

-- The kinds and sources are Go strings, of which the constants are valid.
abbrev pub kind_http : Text
kind_http = text "http"

abbrev pub kind_async : Text
kind_async = text "async"

abbrev pub kind_library : Text
kind_library = text "library"

abbrev pub relationship_kinds : List Text
relationship_kinds =
    kind_http
    ∷ kind_async
    ∷ kind_library
    ∷ text "data"
    ∷ text "infra"
    ∷ text "manual"
    ∷ text "other"
    ∷ text "provides"
    ∷ text "uses"
    ∷ []

unfoldable pub is_valid_relationship_kind : Text → Bool
is_valid_relationship_kind kind = any (text_eq kind) relationship_kinds

abbrev pub source_manual : Text
source_manual = text "manual"

abbrev pub source_manifest : Text
source_manifest = text "manifest"

abbrev pub source_config : Text
source_config = text "config"

abbrev pub relationship_sources : List Text
relationship_sources =
    source_manual
    ∷ text "analysis"
    ∷ source_manifest
    ∷ text "import"
    ∷ text "webhook"
    ∷ text "legacy_dependency"
    ∷ source_config
    ∷ []

unfoldable pub is_valid_relationship_source : Text → Bool
is_valid_relationship_source source = any (text_eq source) relationship_sources

pub record RepositoryRelationship : Type 0 where
  pub id : Text
  pub organization_id : Text
  pub source_repository_id : Text
  pub target_repository_id : Text
  pub kind : Text
  pub label : Text
  pub description : Text
  pub source : Text
  pub confidence : Confidence
  pub metadata : Metadata
  pub derivation_key : Option Text
  pub derivation_fingerprint : Option Text
  pub last_seen_at : Option ℕ
  pub created_by_user_id : Text
  pub created_at : ℕ
  pub updated_at : ℕ
  pub deleted_at : Option ℕ

-- `IsDerived`
unfoldable pub relationship_is_derived : RepositoryRelationship → Bool
relationship_is_derived r = elim r.derivation_key [ none ↦ false | some key ↦ not (is_empty key) ]

unfoldable pub promote : RepositoryRelationship → RepositoryRelationship
promote r = record r { derivation_key = none; derivation_fingerprint = none; last_seen_at = none }

-- `IsValid`
unfoldable pub relationship_is_valid : RepositoryRelationship → Bool
unfolding is_valid_relationship_kind is_valid_relationship_source is_unit
relationship_is_valid r =
    not (is_empty r.organization_id)
    && not (is_empty r.source_repository_id)
    && not (is_empty r.target_repository_id)
    && not (text_eq r.source_repository_id r.target_repository_id)
    && is_valid_relationship_kind r.kind
    && is_valid_relationship_source r.source
    && is_unit r.confidence

-- `deleted_at IS NULL`
abbrev pub is_undeleted : RepositoryRelationship → Bool
is_undeleted r = not (is_some r.deleted_at)

-- `derivation_key = ?`, which NULL does not satisfy.
abbrev pub column_is : Option Text → Text → Bool
column_is none t = false
column_is (some s) t = text_eq s t

pub record DerivationSuppression : Type 0 where
  pub organization_id : Text
  pub derivation_key : Text
  pub derivation_fingerprint : Text
