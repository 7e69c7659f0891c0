-- ===== src/Scorecard.antt =====
-- internal/scorecard/scorecard.go: the checks over the facts of a repository, and their counts.
pub mod Counts
use cuddly_lamp.Prelude.{
  ℕ, suc, Bool, true, false, not, Option, none, some, List, [], ◌∷◌, ◌++◌, if◌then◌else◌,
}
use cuddly_lamp.Text.{Text, text, text_eq, is_empty, trim_space}

pub data Status : Type 0 where
  pass fail not_applicable : Status

pub record RepoFacts : Type 0 where
  pub has_owner_team : Bool
  pub description : Text
  pub sync_status : Text
  pub has_ever_synced : Bool
  pub has_coverage : Bool
  pub coverage_status : Text
  pub has_docs : Bool
  pub has_webhook : Bool
  pub webhook_registration_skipped : Bool
  pub has_ci : Option Bool
  pub has_tests : Option Bool

-- The checks of the registry, in its order.
pub data Check : Type 0 where
  has_owner_team has_description sync_healthy has_generated_docs : Check
  webhook_registered has_ci has_tests coverage_reported : Check

-- `Check.ID`
unfoldable pub check_id : Check → Text
check_id has_owner_team = text "ownership.has_owner_team"
check_id has_description = text "catalog.has_description"
check_id sync_healthy = text "sync.healthy"
check_id has_generated_docs = text "docs.has_generated_docs"
check_id webhook_registered = text "delivery.webhook_registered"
check_id has_ci = text "delivery.has_ci"
check_id has_tests = text "quality.has_tests"
check_id coverage_reported = text "quality.coverage_reported"

abbrev verdict : Bool → Status
verdict true = pass
verdict false = fail

-- A signal that may never have been produced.
abbrev signal : Option Bool → Status
signal none = not_applicable
signal (some b) = verdict b

-- `Check.Eval`, without the words of its reason.
unfoldable pub eval : Check → RepoFacts → Status
eval has_owner_team f = verdict f.has_owner_team
eval has_description f = verdict (not (is_empty (trim_space f.description)))
eval sync_healthy f =
    if f.has_ever_synced
    then verdict (not (text_eq f.sync_status (text "error")))
    else not_applicable
eval has_generated_docs f = verdict f.has_docs
eval webhook_registered f =
    if f.webhook_registration_skipped then not_applicable else verdict f.has_webhook
eval has_ci f = signal f.has_ci
eval has_tests f = signal f.has_tests
eval coverage_reported f =
    if f.has_coverage then verdict (not (text_eq f.coverage_status (text "failed"))) else fail

unfoldable pub registry : List Check
registry =
    has_owner_team ∷ has_description ∷ sync_healthy ∷ has_generated_docs ∷ webhook_registered
    ∷ Check.has_ci ∷ Check.has_tests ∷ coverage_reported ∷ []

pub record Verdict : Type 0 where
  pub check : Check
  pub status : Status

pub record Summary : Type 0 where
  pub passing : ℕ
  pub failing : ℕ
  pub not_applicable : ℕ
  pub total : ℕ
  pub verdicts : List Verdict

abbrev pub no_verdicts : Summary
no_verdicts = record { passing = 0; failing = 0; not_applicable = 0; total = 0; verdicts = [] }

-- The `switch` on the status.
unfoldable pub count_status : Status → Summary → Summary
count_status pass s = record s { passing = suc s.passing; total = suc s.total }
count_status fail s = record s { failing = suc s.failing; total = suc s.total }
count_status not_applicable s = record s { not_applicable = suc s.not_applicable }

-- The `for` loop over the checks.
unfoldable pub evaluate_all : RepoFacts → List Check → Summary → Summary
unfolding count_status
evaluate_all facts [] summary = summary
evaluate_all facts (c ∷ checks) summary =
    let status = eval c facts in
    let appended = record summary {
      verdicts = summary.verdicts ++ (record { check = c; status = status }) ∷ [];
    } in
    evaluate_all facts checks (count_status status appended)

unfoldable pub evaluate : RepoFacts → Summary
evaluate facts = evaluate_all facts registry no_verdicts

unfoldable pub check_ids : List Check → List Text
check_ids [] = []
check_ids (c ∷ checks) = check_id c ∷ check_ids checks
