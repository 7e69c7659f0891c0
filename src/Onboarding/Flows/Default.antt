-- ===== src/Onboarding/Flows/Default.antt =====
-- The default flow of an organization: a new default demotes the one before.
use cuddly_lamp.Prelude.{
  ap, ◌∙◌, ◌≡◌, refl, ℕ, suc, Bool, true, false, ◌&&◌, ◌||◌, none, List, [], ◌∷◌, ◌++◌, any,
  find_first, select, update_where, arith,
}
use cuddly_lamp.Text.{Text, text_eq, is_empty, trim_space}
use cuddly_lamp.Text.Laws.{text_eq_refl}
use cuddly_lamp.Model.Onboarding.{OnboardingFlow}
use cuddly_lamp.Env.{Env}
use cuddly_lamp.Storage.Action.{World, ok}
use cuddly_lamp.Storage.Flows.{
  is_other_default, flow_clashes, demote, create_onboarding_flow, get_onboarding_flow_by_slug,
  clear_default_onboarding_flow,
}
use cuddly_lamp.Onboarding.Seeds.Kept.{is_known_template, chosen-IsSeed, seed_steps-kept}
use cuddly_lamp.Onboarding.Flows.{CreateFlowRequest, create_flow, flow_slug}

-- The default flows of an organization.
abbrev pub is_default_of : Text → OnboardingFlow → Bool
is_default_of org_id f = text_eq f.organization_id org_id && f.is_default

abbrev pub has_slug : Text → Text → OnboardingFlow → Bool
has_slug org_id slug f = text_eq f.organization_id org_id && text_eq f.slug slug

-- The table once the defaults of an organization are demoted.
abbrev demoted : Text → List OnboardingFlow → List OnboardingFlow
demoted org_id = update_where (is_other_default org_id []) demote

demoted-clashes :
    (flow : OnboardingFlow) (fs : List OnboardingFlow)
    → any (has_slug flow.organization_id flow.slug) fs ≡ false
    → any (λ f. text_eq f.id flow.id) fs ≡ false
    → any (λ f. text_eq f.id flow.id || flow_clashes flow f) (demoted flow.organization_id fs)
      ≡ false
demoted-clashes flow [] h k = refl
demoted-clashes flow (f ∷ fs) h k = ground (arith, demoted-clashes flow fs)

demoted-defaults :
    (org_id : Text) (fs : List OnboardingFlow)
    → select (is_default_of org_id) (demoted org_id fs) ≡ []
demoted-defaults org_id [] = refl
demoted-defaults org_id (f ∷ fs) = ground (arith, demoted-defaults org_id fs)

select-last :
    (p : OnboardingFlow → Bool) (fs : List OnboardingFlow) (flow : OnboardingFlow)
    → select p fs ≡ []
    → p flow ≡ true
    → select p (fs ++ flow ∷ []) ≡ flow ∷ []
select-last p [] flow h k = rw k refl
select-last p (f ∷ fs) flow h k = ground (arith, select-last p fs flow)

find_first-absent :
    (p : OnboardingFlow → Bool) (fs : List OnboardingFlow)
    → any p fs ≡ false
    → find_first p fs ≡ none
find_first-absent p [] h = refl
find_first-absent p (f ∷ fs) h = ground (arith, find_first-absent p fs)

module _ (env : Env) where
  -- `CreateFlow` of a default flow succeeds whatever flow was the default, and leaves the new one as the
  -- only default of the organization, if its name is not blank, its slug is free, its id is new, the
  -- request names no template or one of the registry, and no call fails.
  pub create_flow-default :
      (org_id : Text) (req : CreateFlowRequest) (w : World)
      → ((n : ℕ) → env.faults n ≡ false)
      → req.is_default ≡ true
      → is_empty (trim_space req.name) ≡ false
      → is_empty (flow_slug env req) ≡ false
      → any (has_slug org_id (flow_slug env req)) w.db.flows ≡ false
      → any (λ f. text_eq f.id (env.uuid w.draws)) w.db.flows ≡ false
      → is_known_template req.template_id ≡ true
      → (flow : OnboardingFlow) × ((create_flow env org_id req w).0 ≡ ok flow
          × select (is_default_of org_id) (create_flow env org_id req w).1.db.flows ≡ flow ∷ [])
  unfolding create_flow get_onboarding_flow_by_slug clear_default_onboarding_flow
      create_onboarding_flow
  create_flow-default org_id req w works default named slugged free new known =
      let flow : OnboardingFlow = record {
        id = env.uuid w.draws;
        organization_id = org_id;
        name = trim_space req.name;
        slug = flow_slug env req;
        description = trim_space req.description;
        is_default = true;
      } in
      let none_there = find_first-absent (has_slug org_id (flow_slug env req)) w.db.flows free in
      let accepted = demoted-clashes flow w.db.flows free new in
      let alone =
        select-last (is_default_of org_id) (demoted org_id w.db.flows) flow
          (demoted-defaults org_id w.db.flows) (ground (arith, text_eq_refl org_id)) in
      let (template, (chosen, sound)) = chosen-IsSeed req.template_id known in
      let created : World = record w {
        db = record w.db { flows = demoted org_id w.db.flows ++ flow ∷ [] };
        calls = suc (suc (suc w.calls));
        draws = suc w.draws;
      } in
      let (done, kept) = seed_steps-kept env flow template created (works created.calls) sound in
      (
        flow,
        rw
            (
              named,
              slugged,
              works w.calls,
              none_there,
              chosen,
              default,
              works (suc w.calls),
              works (suc (suc w.calls)),
              accepted,
            )
            (done, ap (select (is_default_of org_id)) kept ∙ alone),
      )
