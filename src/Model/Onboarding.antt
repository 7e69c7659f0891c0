-- ===== src/Model/Onboarding.antt =====
-- internal/models/onboarding.go. A step's kind and a status are strings in the source: `unknown`
-- holds those that this build does not know. The JSONB column of a step is kept decoded; `none`
-- stands for a blob that `json.Unmarshal` refuses, and an empty blob is the empty configuration.
pub mod Life
pub mod Valid
use cuddly_lamp.Prelude.{
  ℕ, Bool, true, false, not, ◌&&◌, Option, none, some, List, [], ◌∷◌, ◌++◌, any, if◌then◌else◌,
}
use cuddly_lamp.Text.{Text, is_empty, trim_space}

pub record OnboardingFlow : Type 0 where
  pub id : Text
  pub organization_id : Text
  pub name : Text
  pub slug : Text
  pub description : Text
  pub is_default : Bool

pub data StepKind : Type 0 where
  markdown checklist link contacts task : StepKind
  repository team doc architecture glossary verified : StepKind
  unknown_kind : Text → StepKind

unfoldable pub kind_is_known : StepKind → Bool
kind_is_known (unknown_kind _) = false
kind_is_known _ = true

pub data CompletionMode : Type 0 where
  auto acknowledge self_reported platform_verified : CompletionMode

unfoldable pub completion_mode : StepKind → Bool → CompletionMode
completion_mode verified required = platform_verified
completion_mode checklist required = self_reported
completion_mode link required = self_reported
completion_mode task required = self_reported
completion_mode _ required = if required then acknowledge else auto

pub data VerifiedCheck : Type 0 where
  first_change_request team_membership : VerifiedCheck
  unknown_check : Text → VerifiedCheck

pub record StepContact : Type 0 where
  pub user_id : Text
  pub area : Text
  pub when_to_reach : Text

pub record ChecklistItem : Type 0 where
  pub label : Text
  pub url : Text

pub record StepConfig : Type 0 where
  pub repository_id : Text
  pub team_id : Text
  pub doc_generation_id : Text
  pub doc_type : Text
  pub repository_ids : List Text
  pub term_ids : List Text
  pub people : List StepContact
  pub items : List ChecklistItem
  pub url : Text
  pub label : Text
  pub instructions : Text
  pub task_url : Text
  pub check : VerifiedCheck

-- An `int`; `negsuc n` is -(n + 1).
pub data ℤ : Type 0 where
  pos negsuc : ℕ → ℤ

abbrev is_negative : Option ℤ → Bool
is_negative (some (negsuc _)) = true
is_negative _ = false

pub record OnboardingStep : Type 0 where
  pub id : Text
  pub flow_id : Text
  pub position : ℕ
  pub kind : StepKind
  pub title : Text
  pub body : Text
  pub config : Option StepConfig
  pub is_required : Bool
  pub estimated_minutes : Option ℤ

pub data StepError : Type 0 where
  title_required unknown_step_kind config_corrupt body_missing repository_missing : StepError
  team_missing doc_missing url_missing items_missing item_text_missing : StepError
  people_missing contact_user_missing instructions_missing check_repository_missing : StepError
  unknown_verification minutes_negative : StepError

abbrev blank : Text → Bool
blank t = is_empty (trim_space t)

abbrev reject_if : Bool → StepError → Option StepError
reject_if true e = some e
reject_if false e = none

abbrev nil_list {ℓ} : {A : Type ℓ} → List A → Bool
nil_list [] = true
nil_list (_ ∷ _) = false

unfoldable pub validate_checklist : List ChecklistItem → Option StepError
validate_checklist items =
    if nil_list items
    then some items_missing
    else reject_if (any (λ i. blank i.label) items) item_text_missing

unfoldable pub validate_contacts : List StepContact → Option StepError
validate_contacts people =
    if nil_list people
    then some people_missing
    else reject_if (any (λ p. is_empty p.user_id) people) contact_user_missing

unfoldable pub validate_check : VerifiedCheck → StepConfig → Option StepError
validate_check first_change_request cfg =
    reject_if (is_empty cfg.repository_id) check_repository_missing
validate_check team_membership cfg = none
validate_check (unknown_check _) cfg = some unknown_verification

-- The `switch step.Kind` of `Validate`.
unfoldable pub validate_kind : StepKind → Text → StepConfig → Option StepError
unfolding validate_checklist validate_contacts validate_check
validate_kind markdown body cfg = reject_if (blank body) body_missing
validate_kind repository body cfg = reject_if (is_empty cfg.repository_id) repository_missing
validate_kind team body cfg = reject_if (is_empty cfg.team_id) team_missing
validate_kind doc body cfg = reject_if (is_empty cfg.doc_generation_id) doc_missing
validate_kind link body cfg = reject_if (is_empty cfg.url) url_missing
validate_kind checklist body cfg = validate_checklist cfg.items
validate_kind contacts body cfg = validate_contacts cfg.people
validate_kind task body cfg =
    reject_if (blank cfg.instructions && is_empty cfg.task_url) instructions_missing
validate_kind verified body cfg = validate_check cfg.check cfg
validate_kind architecture body cfg = none
validate_kind glossary body cfg = none
validate_kind (unknown_kind _) body cfg = none

abbrev validate_config : Option StepConfig → StepKind → Text → Option StepError
validate_config none kind body = some config_corrupt
validate_config (some cfg) kind body = validate_kind kind body cfg

-- `none` is a step that passes.
unfoldable pub validate : OnboardingStep → Option StepError
unfolding validate_kind kind_is_known
validate s =
    if blank s.title
    then some title_required
    else if not (kind_is_known s.kind)
    then some unknown_step_kind
    else if is_negative s.estimated_minutes
    then some minutes_negative
    else validate_config s.config s.kind s.body

pub record StepReferences : Type 0 where
  pub repository_ids : List Text
  pub team_ids : List Text
  pub doc_generation_ids : List Text
  pub glossary_term_ids : List Text
  pub user_ids : List Text

-- `if id != "" { list = append(list, id) }`
abbrev pub if_set : Text → List Text
if_set [] = []
if_set (c ∷ id) = (c ∷ id) ∷ []

unfoldable pub contact_ids : List StepContact → List Text
contact_ids [] = []
contact_ids (p ∷ people) = if_set p.user_id ++ contact_ids people

unfoldable pub config_references : StepConfig → StepReferences
config_references cfg = record {
  repository_ids = if_set cfg.repository_id ++ cfg.repository_ids;
  team_ids = if_set cfg.team_id;
  doc_generation_ids = if_set cfg.doc_generation_id;
  glossary_term_ids = cfg.term_ids;
  user_ids = contact_ids cfg.people;
}

-- `none` where the config does not decode.
unfoldable pub references : OnboardingStep → Option StepReferences
references s = elim s.config [ none ↦ none | some cfg ↦ some (config_references cfg) ]

pub data AssignmentStatus : Type 0 where
  pending in_progress completed abandoned : AssignmentStatus

pub record OnboardingAssignment : Type 0 where
  pub id : Text
  pub organization_id : Text
  pub flow_id : Text
  pub user_id : Text
  pub assigned_by_user_id : Option Text
  pub invite_id : Option Text
  pub status : AssignmentStatus
  pub started_at : Option ℕ
  pub completed_at : Option ℕ
  pub feedback : Text
  pub feedback_at : Option ℕ

unfoldable pub is_live : OnboardingAssignment → Bool
is_live a = elim a.status [ abandoned ↦ false | _ ↦ true ]

abbrev start_status : AssignmentStatus → AssignmentStatus
start_status pending = in_progress
start_status other = other

-- `if t == nil { t = &now }`
abbrev or_now : Option ℕ → ℕ → Option ℕ
or_now none now = some now
or_now (some t) now = some t

unfoldable pub mark_started : OnboardingAssignment → ℕ → OnboardingAssignment
mark_started a now = record a {
  status = start_status a.status;
  started_at = or_now a.started_at now;
}

unfoldable pub mark_completed : OnboardingAssignment → ℕ → OnboardingAssignment
mark_completed a now = record a {
  status = completed;
  completed_at = some now;
  started_at = or_now a.started_at now;
}

pub data StepStatus : Type 0 where
  done skipped : StepStatus
  unknown_status : Text → StepStatus

unfoldable pub status_is_known : StepStatus → Bool
status_is_known (unknown_status _) = false
status_is_known _ = true

pub record StepProgress : Type 0 where
  pub assignment_id : Text
  pub step_id : Text
  pub status : StepStatus
  pub note : Text
  pub completed_at : ℕ
