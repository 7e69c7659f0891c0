-- ===== src/Onboarding/Seeds.antt =====
-- internal/services/onboarding_service.go: the steps of a template, as `CreateFlow` uses them.
pub mod Kept
use cuddly_lamp.Prelude.{
  ℕ, zero, suc, ltb, Bool, true, false, Option, none, some, List, [], ◌∷◌, is_some, if◌then◌else◌,
}
use mathlib.Core.Option
use cuddly_lamp.Text.{Text, is_empty}
use cuddly_lamp.Model.Onboarding.{OnboardingFlow, OnboardingStep, validate, pos}
use cuddly_lamp.Env.{Env}
use cuddly_lamp.Storage.Action.{
  Action, pure, raise, ◌>>=◌, ◌>>◌, template_not_found, template_invalid,
}
use cuddly_lamp.Storage.Flows.{replace_onboarding_steps}
use cuddly_lamp.Onboarding.Templates.{TemplateStep, Template, template_by_id}

-- A config encodes without an error.
unfoldable pub seeded_step : TemplateStep → OnboardingStep
seeded_step seed = record {
  id = [];
  flow_id = [];
  position = 0;
  kind = seed.kind;
  title = seed.title;
  body = seed.body;
  config = some seed.config;
  is_required = seed.is_required;
  estimated_minutes =
      if ltb 0 seed.estimated_minutes then some (pos seed.estimated_minutes) else none;
}

-- `none` is an error.
unfoldable pub steps_from_template : List TemplateStep → Option (List OnboardingStep)
unfolding seeded_step validate
steps_from_template [] = some []
steps_from_template (seed ∷ seeds) =
    let rest = steps_from_template seeds in
    if is_some (validate (seeded_step seed))
    then none
    else Option.map (λ steps. seeded_step seed ∷ steps) rest

-- The template that a request names, if it names one.
unfoldable pub chosen_template : Text → Action (Option Template)
unfolding template_by_id
chosen_template id =
    if is_empty id
    then pure none
    else elim (template_by_id id) [ none ↦ raise template_not_found | some t ↦ pure (some t) ]

module _ (env : Env) where
  unfoldable pub seed_steps : OnboardingFlow → Option Template → Action OnboardingFlow
  unfolding steps_from_template
  seed_steps flow none = pure flow
  seed_steps flow (some t) = elim (steps_from_template t.steps) [
    | none ↦ raise template_invalid
    | some steps ↦ do replace_onboarding_steps env flow.id steps; pure flow
  ]
