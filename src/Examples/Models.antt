-- ===== src/Examples/Models.antt =====
-- Steps and assignments, a scorecard and coverage reports.
use cuddly_lamp.Prelude.{
  ◌<◌, ◌^◌, arith, All, ltb, if◌then◌else◌, ◌≢◌, ◌+◌, ◌≡◌, refl, true, false, none, some, List, [],
  ◌∷◌, map,
}
use cuddly_lamp.Text.{Text, text, text_eq, trim_space, trim_left, is_space, has_prefix}
use cuddly_lamp.Model.Onboarding.{
  pos, StepKind, StepConfig, VerifiedCheck, OnboardingStep, StepReferences, validate, validate_kind,
  validate_contacts, kind_is_known, references,
}
use cuddly_lamp.Model.Onboarding.Valid.{NamesEntity, validate-references}
use cuddly_lamp.Scorecard.{RepoFacts, registry, evaluate}
use cuddly_lamp.Scorecard.Counts.{verdict_of, IsTally, evaluate-IsTally}
use cuddly_lamp.Model.Coverage.{CoverageUploadToken}
use cuddly_lamp.Storage.Action.{World, ok}
use cuddly_lamp.Storage.Coverage.{get_coverage_upload_token, revoke_coverage_upload_token}
use cuddly_lamp.Coverage.Tokens.{revoke_upload_token, authenticate_token}
use cuddly_lamp.Coverage.Tokens.Laws.{by_token, revoke-refuses}
use cuddly_lamp.Coverage.Cobertura.{CoberturaRoot, parse_cobertura}
use cuddly_lamp.Coverage.Cobertura.Laws.{all_lines, all_hits, paths, parse_cobertura-IsCounted}
use cuddly_lamp.Examples.{env, world}
use cuddly_lamp.Derive.Claims.{IsUnique}
use cuddly_lamp.Coverage.{
  FileCoverage, Report, parse_lcov, lcov_lines, lcov_line, flush_file, count_line, line_hits, atoi,
  digits, before_comma, after_comma,
}
use cuddly_lamp.Coverage.GoCover.{Profile, parse_go_cover}
use cuddly_lamp.Coverage.GoCover.Laws.{all_statements, int_report, file_of, parse_go_cover-IsTotal}
use cuddly_lamp.Coverage.Totals.{sum_covered, sum_total, IsPartial, IsTotal, parse_lcov-IsTotal}

abbrev config : StepConfig
config = record {
  repository_id = text "";
  team_id = text "";
  doc_generation_id = text "";
  doc_type = text "";
  repository_ids = [];
  term_ids = [];
  people = (record { user_id = text "alice"; area = text "infra"; when_to_reach = text "" }) ∷ [];
  items = [];
  url = text "";
  label = text "";
  instructions = text "";
  task_url = text "";
  check = VerifiedCheck.team_membership;
}

abbrev step : OnboardingStep
step = record {
  id = text "s";
  flow_id = text "flow";
  position = 0;
  kind = StepKind.contacts;
  title = text "Who to ask";
  body = text "";
  config = some config;
  is_required = true;
  estimated_minutes = none;
}

is_valid : validate step ≡ none
unfolding validate validate_kind validate_contacts kind_is_known trim_space trim_left is_space
is_valid = refl

validate-references_example :
    (cfg : StepConfig) × (r : StepReferences) × step.config ≡ some cfg
    × references step ≡ some r
    × NamesEntity step.kind cfg r
validate-references_example = validate-references step is_valid

abbrev facts : RepoFacts
facts = record {
  has_owner_team = true;
  description = text "billing";
  sync_status = text "ok";
  has_ever_synced = true;
  has_coverage = false;
  coverage_status = text "";
  has_docs = false;
  has_webhook = true;
  webhook_registration_skipped = false;
  has_ci = some true;
  has_tests = none;
}

evaluate-IsTally_example :
    (evaluate facts).verdicts ≡ map (verdict_of facts) registry
    × IsTally (evaluate facts)
    × (evaluate facts).passing + (evaluate facts).failing + (evaluate facts).not_applicable ≡ 8
evaluate-IsTally_example = evaluate-IsTally facts

abbrev profiles : List Profile
profiles =
    (record {
      file_name = text "a.go";
      blocks = (record { num_stmt = 3; count = 1 }) ∷ (record { num_stmt = 2; count = 0 }) ∷ [];
    })
    ∷ []

few_statements : all_statements profiles < 2 ^ 63
few_statements = omega arith

parse_go_cover-IsTotal_example :
    (r : Report) × (parse_go_cover (some profiles) ≡ some (int_report r)
      × r.files ≡ map file_of profiles
      × IsTotal r)
parse_go_cover-IsTotal_example = parse_go_cover-IsTotal profiles few_statements

abbrev tracefile : List Text
tracefile =
    text "SF:a.go"
    ∷ text "DA:1,2"
    ∷ text "DA:2,0"
    ∷ text "SF:b.go"
    ∷ text "DA:1, 7"
    ∷ text "DA:2,x"
    ∷ text "end_of_record"
    ∷ []

parse_lcov-IsTotal_example : (r : Report) × parse_lcov tracefile false ≡ some r × IsTotal r
parse_lcov-IsTotal_example = parse_lcov-IsTotal tracefile

-- A second `SF:` without `end_of_record` takes over the lines of the first file.
parsed :
    parse_lcov tracefile false
    ≡ some (record {
      lines_covered = 2;
      lines_total = 3;
      files = (record { path = text "b.go"; lines_covered = 2; lines_total = 3 }) ∷ [];
    })
unfolding parse_lcov lcov_lines lcov_line flush_file count_line line_hits atoi digits before_comma
    after_comma trim_space trim_left is_space has_prefix text_eq
parsed = refl

abbrev upload_token : CoverageUploadToken
upload_token = record {
  id = text "t";
  repository_id = text "r";
  name = text "ci";
  token_hash = text "cov_ab";
  created_by_user_id = none;
  last_used_at = none;
  expires_at = some 5000;
  revoked_at = none;
}

abbrev with_token : World
with_token =
    let w = world [] in record w { db = record w.db { coverage_tokens = upload_token ∷ [] } }

token_found : by_token env (text "cov_ab") with_token ≡ some upload_token
unfolding text_eq
token_found = refl

token_revoked : (revoke_upload_token env (text "r") (text "t") with_token).0 ≡ ok tt
unfolding revoke_upload_token get_coverage_upload_token revoke_coverage_upload_token text_eq
token_revoked = refl

same_id : text_eq upload_token.id (text "t") ≡ true
unfolding text_eq
same_id = refl

revoke-refuses_example :
    (let w' = record (revoke_upload_token env (text "r") (text "t") with_token).1 {
      clock = 1000 + 60;
    } in
      (authenticate_token env (text "r") (text "cov_ab") w').0 ≢ ok upload_token)
revoke-refuses_example =
    revoke-refuses env (text "r") (text "t") (text "cov_ab") (text "r") with_token upload_token
      upload_token 60 token_found same_id token_revoked

-- Two classes of one file, in a document that has no totals.
abbrev cobertura : CoberturaRoot
cobertura = record {
  lines_valid = none;
  lines_covered = none;
  packages =
      ((record { filename = text "A.java"; hits = pos 2 ∷ pos 0 ∷ [] })
        ∷ (record { filename = text "A.java"; hits = pos 1 ∷ [] })
        ∷ [])
      ∷ [];
}

parse_cobertura-IsCounted_example :
    (fs : List FileCoverage) × ((all_lines cobertura.packages ≡ sum_total fs
        × all_hits cobertura.packages ≡ sum_covered fs)
      × (All IsPartial fs × IsUnique (paths fs))
      × parse_cobertura (some cobertura) ≡ (
          if ltb 0 (all_lines cobertura.packages)
          then some (record {
            lines_covered = pos (all_hits cobertura.packages);
            lines_total = pos (all_lines cobertura.packages);
            files = fs;
          })
          else none))
parse_cobertura-IsCounted_example = parse_cobertura-IsCounted cobertura refl
