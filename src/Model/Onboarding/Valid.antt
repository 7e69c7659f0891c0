-- ===== src/Model/Onboarding/Valid.antt =====
-- What a step that passes `Validate` guarantees to `References`.
use cuddly_lamp.Prelude.{
  ◌≡◌, refl, false, none, some, List, [], ◌∷◌, arith, map, any, ap, ◌++◌, inl, inr, Option-cases,
}
use cuddly_lamp.Text.{Text, is_empty}
use cuddly_lamp.Model.Onboarding.{
  StepKind, StepContact, StepConfig, OnboardingStep, validate, validate_kind, validate_contacts,
  references, config_references, if_set, contact_ids, StepReferences,
}

contact_ids-all :
    (people : List StepContact)
    → any (λ p. is_empty p.user_id) people ≡ false
    → contact_ids people ≡ map (λ p. p.user_id) people
unfolding contact_ids
contact_ids-all [] h = refl
contact_ids-all (p ∷ people) h = ground (arith, contact_ids-all people)

-- The entity that a kind of step cannot do without.
abbrev pub NamesEntity : StepKind → StepConfig → StepReferences → Type 0
NamesEntity StepKind.repository cfg r = r.repository_ids ≡ cfg.repository_id ∷ cfg.repository_ids
NamesEntity StepKind.team cfg r = r.team_ids ≡ cfg.team_id ∷ []
NamesEntity StepKind.doc cfg r = r.doc_generation_ids ≡ cfg.doc_generation_id ∷ []
NamesEntity StepKind.contacts cfg r = r.user_ids ≡ map (λ p. p.user_id) cfg.people
NamesEntity _ cfg r = Unit

if_set-full : (t : Text) → is_empty t ≡ false → if_set t ≡ t ∷ []
if_set-full [] h = cc
if_set-full (c ∷ t) h = refl

validate_kind-NamesEntity :
    (k : StepKind) (body : Text) (cfg : StepConfig)
    → validate_kind k body cfg ≡ none
    → NamesEntity k cfg (config_references cfg)
unfolding validate_kind validate_contacts config_references
validate_kind-NamesEntity StepKind.repository body cfg h =
    ap (λ ids. ids ++ cfg.repository_ids) (if_set-full cfg.repository_id (ground arith))
validate_kind-NamesEntity StepKind.team body cfg h = if_set-full cfg.team_id (ground arith)
validate_kind-NamesEntity StepKind.doc body cfg h = if_set-full cfg.doc_generation_id (ground arith)
validate_kind-NamesEntity StepKind.contacts body cfg h = contact_ids-all cfg.people (ground arith)
validate_kind-NamesEntity StepKind.markdown body cfg h = tt
validate_kind-NamesEntity StepKind.checklist body cfg h = tt
validate_kind-NamesEntity StepKind.link body cfg h = tt
validate_kind-NamesEntity StepKind.task body cfg h = tt
validate_kind-NamesEntity StepKind.verified body cfg h = tt
validate_kind-NamesEntity StepKind.architecture body cfg h = tt
validate_kind-NamesEntity StepKind.glossary body cfg h = tt
validate_kind-NamesEntity (StepKind.unknown_kind _) body cfg h = tt

-- A step that passes `Validate` has a readable config, and `References` returns what its kind needs: a
-- repository step its repository first, a team or doc step exactly its team or document, a contacts step
-- the user of each contact, in order.
pub validate-references :
    (s : OnboardingStep)
    → validate s ≡ none
    → (cfg : StepConfig) × (r : StepReferences) × s.config ≡ some cfg
      × references s ≡ some r
      × NamesEntity s.kind cfg r
unfolding validate references
validate-references s h = elim (Option-cases s.config) [
  | inl e ↦ absurd (ground arith)
  | inr (cfg, e) ↦ (
    cfg,
    config_references cfg,
    e,
    ground arith,
    validate_kind-NamesEntity s.kind s.body cfg (ground arith),
  )
]
