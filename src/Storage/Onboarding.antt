-- ===== src/Storage/Onboarding.antt =====
-- internal/storage/postgres/onboarding_repository.go: flows, steps, assignments and progress.
use cuddly_lamp.Prelude.{
  Bool, ◌&&◌, Option, List, [], ◌∷◌, ◌++◌, any, find_first, select, update_where, if◌then◌else◌,
}
use mathlib.Core.List.{reverse}
use cuddly_lamp.Text.{Text, text_eq}
use cuddly_lamp.Model.Onboarding.{
  OnboardingFlow, OnboardingStep, OnboardingAssignment, StepProgress, is_live,
}
use cuddly_lamp.Env.{Env}
use cuddly_lamp.Storage.Action.{Action, ok, err, db_error, query, write}

-- The primary key of `onboarding_step_progress`.
abbrev pub same_step : StepProgress → StepProgress → Bool
same_step p q = text_eq p.assignment_id q.assignment_id && text_eq p.step_id q.step_id

module _ (env : Env) where
  unfoldable pub get_onboarding_flow : Text → Action (Option OnboardingFlow)
  unfolding query
  get_onboarding_flow id = query env (λ db. find_first (λ f. text_eq f.id id) db.flows)

  unfoldable pub get_default_onboarding_flow : Text → Action (Option OnboardingFlow)
  unfolding query
  get_default_onboarding_flow org_id =
      query env (λ db. find_first (λ f. text_eq f.organization_id org_id && f.is_default) db.flows)

  unfoldable pub get_onboarding_step : Text → Action (Option OnboardingStep)
  unfolding query
  get_onboarding_step id = query env (λ db. find_first (λ s. text_eq s.id id) db.steps)

  -- The partial unique index on (flow_id, user_id) where the status is not abandoned.
  abbrev pub clashes : OnboardingAssignment → OnboardingAssignment → Bool
  clashes a b = text_eq a.flow_id b.flow_id && text_eq a.user_id b.user_id && is_live b

  unfoldable pub create_onboarding_assignment : OnboardingAssignment → Action (Unit {0})
  unfolding write
  create_onboarding_assignment a = write env (λ _ db.
      if is_live a && any (clashes a) db.assignments
      then err db_error
      else ok (record db { assignments = db.assignments ++ a ∷ [] }))

  unfoldable pub get_onboarding_assignment : Text → Action (Option OnboardingAssignment)
  unfolding query
  get_onboarding_assignment id = query env (λ db. find_first (λ a. text_eq a.id id) db.assignments)

  -- `ORDER BY created_at DESC`: rows stand in the order of creation.
  unfoldable pub list_onboarding_assignments_for_user :
      Text → Text → Action (List OnboardingAssignment)
  unfolding query
  list_onboarding_assignments_for_user org_id user_id = query env (λ db. reverse (
      select (λ a. text_eq a.organization_id org_id && text_eq a.user_id user_id && is_live a)
        db.assignments))

  abbrev pub save_assignment : OnboardingAssignment → OnboardingAssignment → OnboardingAssignment
  save_assignment a b = record b {
    status = a.status;
    started_at = a.started_at;
    completed_at = a.completed_at;
    feedback = a.feedback;
    feedback_at = a.feedback_at;
  }

  unfoldable pub update_onboarding_assignment : OnboardingAssignment → Action (Unit {0})
  unfolding write
  update_onboarding_assignment a = write env (λ _ db. ok (record db {
    assignments = update_where (λ b. text_eq b.id a.id) (save_assignment a) db.assignments;
  }))

  -- `INSERT .. ON CONFLICT (assignment_id, step_id) DO UPDATE`
  unfoldable pub upsert_onboarding_step_progress : StepProgress → Action (Unit {0})
  unfolding write
  upsert_onboarding_step_progress p = write env (λ _ db.
      if any (same_step p) db.progress
      then ok (record db { progress = update_where (same_step p) (λ _. p) db.progress })
      else ok (record db { progress = db.progress ++ p ∷ [] }))
