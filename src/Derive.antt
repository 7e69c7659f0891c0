-- ===== src/Derive.antt =====
-- internal/derive/derive.go: the evidence of a fact, and the completeness of an extraction.
pub mod Claims
pub mod Index
pub mod Packages
pub mod Hosts
use cuddly_lamp.Prelude.{ℕ, Bool, true, false, List, [], ◌∷◌, ◌++◌, any, leb, length, if◌then◌else◌}
use cuddly_lamp.Text.{Text, text, text_eq}
use cuddly_lamp.Model.Architecture.{Confidence, plus}

abbrev pub exact_name : Confidence
exact_name = plus 10000

abbrev pub declared_host : Confidence
declared_host = plus 8500

abbrev pub shared_locator : Confidence
shared_locator = plus 8500

abbrev pub compose_topology : Confidence
compose_topology = plus 7500

abbrev pub local_evidence : Confidence
local_evidence = plus 7000

abbrev pub max_evidence : ℕ
max_evidence = 3

-- `appendUnique`, and the loops that `AddPath` and `MarkIncomplete` write out.
unfoldable pub append_unique : List Text → Text → List Text
append_unique list value = if any (text_eq value) list then list else list ++ value ∷ []

pub record Evidence : Type 0 where
  pub rule_id : Text
  pub paths : List Text

unfoldable pub add_path : Evidence → Text → Evidence
unfolding append_unique
add_path e path =
    if leb max_evidence (length e.paths) then e else record e { paths = append_unique e.paths path }

abbrev pub tree_truncated : Text
tree_truncated = text "tree_truncated"

abbrev pub read_failed : Text
read_failed = text "read_failed"

abbrev pub parse_failed : Text
parse_failed = text "parse_failed"

abbrev pub too_many_candidates : Text
too_many_candidates = text "too_many_candidates"

pub record Outcome : Type 0 where
  pub complete : Bool
  pub reasons : List Text

unfoldable pub complete_outcome : Outcome
complete_outcome = record { complete = true; reasons = [] }

unfoldable pub mark_incomplete : Outcome → Text → Outcome
unfolding append_unique
mark_incomplete o reason = record { complete = false; reasons = append_unique o.reasons reason }
