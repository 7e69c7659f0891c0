-- ===== src/Storage/Flows.antt =====
-- internal/storage/postgres/onboarding_repository.go: flows and the steps of a flow. The table of flows
-- holds the rows that are not soft-deleted.
use cuddly_lamp.Prelude.{
  ℕ, suc, ◌+◌, length, leb, Bool, false, not, ◌&&◌, ◌||◌, Option, none, some, List, [], ◌∷◌, ◌++◌,
  any, find_first, select, update_where, if◌then◌else◌,
}
use cuddly_lamp.Text.{Text, text_eq, is_empty}
use cuddly_lamp.Model.Onboarding.{OnboardingFlow, OnboardingStep}
use cuddly_lamp.Env.{Env}
use cuddly_lamp.Storage.Action.{Action, ok, err, db_error, query, write}

-- A default of an organization, other than a flow if one is named.
abbrev pub is_other_default : Text → Text → OnboardingFlow → Bool
is_other_default org_id id f =
    text_eq f.organization_id org_id && f.is_default && (is_empty id || not (text_eq f.id id))

-- The unique indexes on the slug and on the default of an organization, for another row.
abbrev pub flow_clashes : OnboardingFlow → OnboardingFlow → Bool
flow_clashes flow f =
    not (text_eq f.id flow.id)
    && text_eq f.organization_id flow.organization_id
    && (text_eq f.slug flow.slug || (f.is_default && flow.is_default))

abbrev pub demote : OnboardingFlow → OnboardingFlow
demote f = record f { is_default = false }

-- The columns of the update.
abbrev pub save_flow : OnboardingFlow → OnboardingFlow → OnboardingFlow
save_flow flow f = record f {
  name = flow.name;
  slug = flow.slug;
  description = flow.description;
  is_default = flow.is_default;
}

-- `ORDER BY position ASC`
unfoldable pub insert_step : OnboardingStep → List OnboardingStep → List OnboardingStep
insert_step s [] = s ∷ []
insert_step s (t ∷ ts) =
    let later = insert_step s ts in if leb s.position t.position then s ∷ t ∷ ts else t ∷ later

unfoldable pub sort_steps : List OnboardingStep → List OnboardingStep
unfolding insert_step
sort_steps [] = []
sort_steps (s ∷ ss) = insert_step s (sort_steps ss)

-- The step of a flow that has an id, and the columns that an update writes.
abbrev pub is_step : Text → Text → OnboardingStep → Bool
is_step flow_id id s = text_eq s.id id && text_eq s.flow_id flow_id

abbrev pub save_step : ℕ → OnboardingStep → OnboardingStep → OnboardingStep
save_step position step s = record s {
  position = position;
  kind = step.kind;
  title = step.title;
  body = step.body;
  config = step.config;
  is_required = step.is_required;
  estimated_minutes = step.estimated_minutes;
}

-- The loop of `ReplaceOnboardingSteps`: a step without an id is created under the next new one, one with
-- an id is updated in place, and none is an id that the flow does not have.
unfoldable pub put_steps :
    (ℕ → Text) → ℕ → Text → List OnboardingStep → List OnboardingStep → Option (List OnboardingStep)
put_steps ids position flow_id [] rows = some rows
put_steps ids position flow_id (step ∷ steps) rows =
    if is_empty step.id
    then put_steps ids (suc position) flow_id steps
        (rows ++ (record step { id = ids position; flow_id = flow_id; position = position }) ∷ [])
    else if any (is_step flow_id step.id) rows
    then put_steps ids (suc position) flow_id steps
        (update_where (is_step flow_id step.id) (save_step position step) rows)
    else none

-- A step that the new list drops; its progress goes with it.
abbrev pub is_dropped : Text → List OnboardingStep → OnboardingStep → Bool
is_dropped flow_id steps s = text_eq s.flow_id flow_id && not (any (λ t. text_eq t.id s.id) steps)

module _ (env : Env) where
  unfoldable pub create_onboarding_flow : OnboardingFlow → Action (Unit {0})
  unfolding write
  create_onboarding_flow flow = write env (λ _ db.
      if any (λ f. text_eq f.id flow.id || flow_clashes flow f) db.flows
      then err db_error
      else ok (record db { flows = db.flows ++ flow ∷ [] }))

  unfoldable pub get_onboarding_flow_by_slug : Text → Text → Action (Option OnboardingFlow)
  unfolding query
  get_onboarding_flow_by_slug org_id slug =
      query env
        (λ db. find_first (λ f. text_eq f.organization_id org_id && text_eq f.slug slug) db.flows)

  unfoldable pub update_onboarding_flow : OnboardingFlow → Action (Unit {0})
  unfolding write
  update_onboarding_flow flow = write env (λ _ db.
      if any (λ f. text_eq f.id flow.id) db.flows && any (flow_clashes flow) db.flows
      then err db_error
      else ok (record db {
        flows = update_where (λ f. text_eq f.id flow.id) (save_flow flow) db.flows;
      }))

  unfoldable pub clear_default_onboarding_flow : Text → Text → Action (Unit {0})
  unfolding write
  clear_default_onboarding_flow org_id except_id = write env (λ _ db.
      ok (record db { flows = update_where (is_other_default org_id except_id) demote db.flows }))

  unfoldable pub delete_onboarding_flow : Text → Action (Unit {0})
  unfolding write
  delete_onboarding_flow id =
      write env (λ _ db. ok (record db { flows = select (λ f. not (text_eq f.id id)) db.flows }))

  unfoldable pub list_onboarding_steps : Text → Action (List OnboardingStep)
  unfolding query sort_steps
  list_onboarding_steps flow_id =
      query env (λ db. sort_steps (select (λ s. text_eq s.flow_id flow_id) db.steps))

  unfoldable pub replace_onboarding_steps : Text → List OnboardingStep → Action (Unit {0})
  unfolding write put_steps
  replace_onboarding_steps flow_id steps w =
      let ids = λ (n : ℕ). env.uuid (w.draws + n) in
      write env
        (λ _ db.
          elim (put_steps ids 0 flow_id steps
            (select (λ s. not (is_dropped flow_id steps s)) db.steps)) [
              | none ↦ err db_error
              | some rows ↦ ok (record db {
                steps = rows;
                progress =
                    select
                      (λ p.
                        not (
                          any (λ s. is_dropped flow_id steps s && text_eq s.id p.step_id) db.steps))
                      db.progress;
              })
            ])
        (record w { draws = w.draws + length steps })
