-- ===== src/Onboarding/Flows.antt =====
-- internal/services/onboarding_service.go: the flows of an organization.
pub mod Default
use cuddly_lamp.Prelude.{
  ℕ, zero, suc, ◌+◌, ◌/◌, ◌%◌, ltb, Bool, true, false, not, ◌&&◌, ◌||◌, Option, none, some, List,
  [], ◌∷◌, ◌++◌, map, is_some, if◌then◌else◌,
}
use cuddly_lamp.Text.{Text, text, text_eq, is_empty, trim_space, to_lower, Unicode}
use cuddly_lamp.Derive.Hosts.{trim_char}
use cuddly_lamp.Teams.{replace_runs}
use cuddly_lamp.Model.Onboarding.{OnboardingFlow, OnboardingStep}
use cuddly_lamp.Env.{Env}
use cuddly_lamp.Storage.Action.{
  Action, pure, raise, ◌>>=◌, ◌>>◌, check, draw, flow_invalid, flow_slug_taken,
}
use cuddly_lamp.Storage.Flows.{
  create_onboarding_flow, get_onboarding_flow_by_slug, update_onboarding_flow,
  clear_default_onboarding_flow, delete_onboarding_flow, list_onboarding_steps,
  replace_onboarding_steps,
}
use cuddly_lamp.Onboarding.Seeds.{chosen_template, seed_steps}
use cuddly_lamp.Onboarding.Assign.{get_scoped_flow}

unfoldable pub slugify_onboarding : Unicode → Text → Text
unfolding to_lower trim_space replace_runs trim_char
slugify_onboarding u raw = trim_char b'-' (replace_runs false (to_lower u (trim_space raw)))

pub record CreateFlowRequest : Type 0 where
  pub name : Text
  pub slug : Text
  pub description : Text
  pub is_default : Bool
  pub template_id : Text

-- A field that is none stays as it is.
pub record UpdateFlowRequest : Type 0 where
  pub name : Option Text
  pub slug : Option Text
  pub description : Option Text
  pub is_default : Option Bool

abbrev pub when : Bool → Action (Unit {0}) → Action (Unit {0})
when true m = m
when false m = pure tt

-- `%d` of a number below 100.
unfoldable pub decimal : ℕ → Text
decimal n = if ltb n 10 then (b'0' + n) ∷ [] else (b'0' + n / 10) ∷ (b'0' + n % 10) ∷ []

-- `len(steps) > 0`
abbrev pub is_some_step : List OnboardingStep → Bool
is_some_step [] = false
is_some_step (_ ∷ _) = true

module _ (env : Env) where
  unfoldable pub flow_slug : CreateFlowRequest → Text
  unfolding slugify_onboarding
  flow_slug req =
      if is_empty (slugify_onboarding env.unicode req.slug)
      then slugify_onboarding env.unicode (trim_space req.name)
      else slugify_onboarding env.unicode req.slug

  unfoldable pub create_flow : Text → CreateFlowRequest → Action OnboardingFlow
  unfolding flow_slug trim_space
  create_flow org_id req = do
    check (not (is_empty (trim_space req.name) || is_empty (flow_slug req))) flow_invalid
    existing ← get_onboarding_flow_by_slug env org_id (flow_slug req)
    check (not (is_some existing)) flow_slug_taken
    template ← chosen_template req.template_id
    when req.is_default (clear_default_onboarding_flow env org_id [])
    id ← draw env.uuid
    let flow : OnboardingFlow = record {
      id = id;
      organization_id = org_id;
      name = trim_space req.name;
      slug = flow_slug req;
      description = trim_space req.description;
      is_default = req.is_default;
    }
    create_onboarding_flow env flow
    seed_steps env flow template

  unfoldable pub renamed : Option Text → OnboardingFlow → Action OnboardingFlow
  unfolding trim_space
  renamed none flow = pure flow
  renamed (some name) flow =
      if is_empty (trim_space name)
      then raise flow_invalid
      else pure (record flow { name = trim_space name })

  unfoldable pub reslugged : Text → Option Text → OnboardingFlow → Action OnboardingFlow
  unfolding slugify_onboarding
  reslugged org_id none flow = pure flow
  reslugged org_id (some raw) flow =
      let slug = slugify_onboarding env.unicode raw in
      if is_empty slug
      then raise flow_invalid
      else if text_eq slug flow.slug
      then pure (record flow { slug = slug })
      else (do
        taken ← get_onboarding_flow_by_slug env org_id slug
        check (not (is_some taken)) flow_slug_taken
        pure (record flow { slug = slug }))

  unfoldable pub described : Option Text → OnboardingFlow → OnboardingFlow
  unfolding trim_space
  described none flow = flow
  described (some d) flow = record flow { description = trim_space d }

  unfoldable pub nominated : Text → Option Bool → OnboardingFlow → Action OnboardingFlow
  nominated org_id none flow = pure flow
  nominated org_id (some is_default) flow = do
    when (is_default && not flow.is_default) (clear_default_onboarding_flow env org_id flow.id)
    pure (record flow { is_default = is_default })

  unfoldable pub update_flow : Text → Text → UpdateFlowRequest → Action OnboardingFlow
  unfolding renamed reslugged described nominated
  update_flow org_id flow_id req = do
    flow ← get_scoped_flow env org_id flow_id
    named ← renamed req.name flow
    slugged ← reslugged org_id req.slug named
    final ← nominated org_id req.is_default (described req.description slugged)
    update_onboarding_flow env final
    pure final

  unfoldable pub delete_flow : Text → Text → Action (Unit {0})
  delete_flow org_id flow_id = do
    flow ← get_scoped_flow env org_id flow_id
    delete_onboarding_flow env flow.id

  -- `" (cópia)"` with its number, and the first that is free of those from an attempt on.
  unfoldable pub copy_name : Text → ℕ → Text
  unfolding decimal
  copy_name source zero = source ++ text " (cópia)"
  copy_name source (suc n) = source ++ text " (cópia " ++ decimal (suc (suc n)) ++ text ")"

  unfoldable pub available_copy_name : Text → Text → ℕ → ℕ → Action (Text × Text)
  unfolding copy_name slugify_onboarding
  available_copy_name org_id source attempt zero = raise flow_slug_taken
  available_copy_name org_id source attempt (suc left) =
      let rest = available_copy_name org_id source (suc attempt) left in
      let name = copy_name source attempt in
      let slug = slugify_onboarding env.unicode name in
      do
        existing ← get_onboarding_flow_by_slug env org_id slug
        elim existing [ none ↦ pure (name, slug) | some _ ↦ rest ]

  unfoldable pub duplicate_flow : Text → Text → Action OnboardingFlow
  unfolding available_copy_name
  duplicate_flow org_id flow_id = do
    source ← get_scoped_flow env org_id flow_id
    steps ← list_onboarding_steps env source.id
    found ← available_copy_name org_id source.name 0 50
    id ← draw env.uuid
    let flow : OnboardingFlow = record {
      id = id;
      organization_id = org_id;
      name = found.0;
      slug = found.1;
      description = source.description;
      is_default = false;
    }
    create_onboarding_flow env flow
    when (is_some_step steps) (
        replace_onboarding_steps env id
          (map (λ (s : OnboardingStep). record s { id = text ""; flow_id = id }) steps))
    pure flow
