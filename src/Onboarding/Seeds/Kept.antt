-- ===== src/Onboarding/Seeds/Kept.antt =====
-- The templates seed valid steps, and seeding leaves the flows as they are.
use cuddly_lamp.Prelude.{
  ◌≡◌, refl, subst, inl, inr, ℕ, suc, ◌+◌, Bool, true, false, not, ◌||◌, Option, none, some, List,
  [], ◌∷◌, ◌++◌, find_first, select, All, is_some, Bool-cases, Option-cases, arith,
}
use cuddly_lamp.Text.{Text, text_eq, is_empty, trim_space, trim_left, is_space}
use cuddly_lamp.Model.Onboarding.{
  OnboardingFlow, OnboardingStep, validate, validate_kind, validate_checklist, validate_check,
  kind_is_known,
}
use cuddly_lamp.Env.{Env}
use cuddly_lamp.Storage.Action.{World, pure, ok}
use cuddly_lamp.Storage.Flows.{replace_onboarding_steps, put_steps, is_dropped}
use cuddly_lamp.Onboarding.Templates.{
  TemplateStep, Template, template_by_id, templates, general, backend_dev, frontend_dev, note,
}
use cuddly_lamp.Onboarding.Seeds.{seeded_step, steps_from_template, chosen_template, seed_steps}

-- A request names no template, or one of the registry.
abbrev pub is_known_template : Text → Bool
is_known_template id = is_empty id || is_some (template_by_id id)

-- The steps of a template can be stored.
abbrev pub is_sound : Template → Bool
is_sound t = is_some (steps_from_template t.steps)

general_sound : is_sound general ≡ true
unfolding steps_from_template seeded_step validate validate_kind validate_checklist validate_check
    kind_is_known trim_space trim_left is_space general note
general_sound = refl

backend_dev_sound : is_sound backend_dev ≡ true
unfolding steps_from_template seeded_step validate validate_kind validate_checklist validate_check
    kind_is_known trim_space trim_left is_space backend_dev note
backend_dev_sound = refl

frontend_dev_sound : is_sound frontend_dev ≡ true
unfolding steps_from_template seeded_step validate validate_kind validate_checklist validate_check
    kind_is_known trim_space trim_left is_space frontend_dev note
frontend_dev_sound = refl

templates_sound : All (λ t. is_sound t ≡ true) templates
unfolding templates
templates_sound = (general_sound, (backend_dev_sound, (frontend_dev_sound, tt)))

find_first-All :
    {A : Type 0} (P : A → Type 0) (p : A → Bool) (xs : List A) (x : A)
    → All P xs
    → find_first p xs ≡ some x
    → P x
find_first-All P p [] x h e = absurd (ground arith)
find_first-All P p (y ∷ xs) x h e = elim (Bool-cases (p y)) [
  | inl hit ↦ subst P (ground arith) h.0
  | inr miss ↦ find_first-All P p xs x h.1 (ground arith)
]

-- A template that can be seeded, if any.
abbrev pub IsSeed : Option Template → Type 0
IsSeed none = Unit
IsSeed (some t) = is_sound t ≡ true

pub chosen-IsSeed :
    (id : Text)
    → is_known_template id ≡ true
    → (t : Option Template) × (chosen_template id ≡ pure t × IsSeed t)
unfolding chosen_template template_by_id
chosen-IsSeed id known = elim (Bool-cases (is_empty id)) [
  | inl unnamed ↦ (none, (rw unnamed refl, tt))
  | inr named ↦ elim (Option-cases (template_by_id id)) [
    | inl missing ↦ absurd (ground arith)
    | inr (t, found) ↦ (
      some t,
      (
        rw (named, found) refl,
        find_first-All (λ t. is_sound t ≡ true) (λ t. text_eq t.id id) templates t templates_sound
            found,
      ),
    )
  ]
]

steps_from_template-fresh :
    (seeds : List TemplateStep) (steps : List OnboardingStep)
    → steps_from_template seeds ≡ some steps
    → All (λ s. is_empty s.id ≡ true) steps
unfolding steps_from_template seeded_step
steps_from_template-fresh [] steps e =
    let whole : [] ≡ steps = ground arith in subst (All (λ s. is_empty s.id ≡ true)) whole tt
steps_from_template-fresh (seed ∷ seeds) steps e =
    elim (Bool-cases (is_some (validate (seeded_step seed)))) [
      | inl bad ↦ absurd (ground arith)
      | inr good ↦ elim (Option-cases (steps_from_template seeds)) [
        | inl none_left ↦ absurd (ground arith)
        | inr (rest, seeded) ↦
            let whole : seeded_step seed ∷ rest ≡ steps = ground arith in
            subst (All (λ s. is_empty s.id ≡ true)) whole
              (refl, steps_from_template-fresh seeds rest seeded)
      ]
    ]

put_steps-fresh :
    (ids : ℕ → Text) (position : ℕ) (flow_id : Text) (steps rows : List OnboardingStep)
    → All (λ s. is_empty s.id ≡ true) steps
    → is_some (put_steps ids position flow_id steps rows) ≡ true
unfolding put_steps
put_steps-fresh ids position flow_id [] rows h = refl
put_steps-fresh ids position flow_id (s ∷ steps) rows h = rw h.0 (
    put_steps-fresh ids (suc position) flow_id steps
      (rows ++ (record s { id = ids position; flow_id = flow_id; position = position }) ∷ []) h.1)

module _ (env : Env) where
  replace-kept :
      (flow_id : Text) (steps : List OnboardingStep) (w : World)
      → env.faults w.calls ≡ false
      → All (λ s. is_empty s.id ≡ true) steps
      → (replace_onboarding_steps env flow_id steps w).0 ≡ ok tt
        × (replace_onboarding_steps env flow_id steps w).1.db.flows ≡ w.db.flows
  unfolding replace_onboarding_steps
  replace-kept flow_id steps w works fresh =
      let rows = select (λ s. not (is_dropped flow_id steps s)) w.db.steps in
      let put = put_steps-fresh (λ n. env.uuid (w.draws + n)) 0 flow_id steps rows fresh in
      elim (Option-cases (put_steps (λ n. env.uuid (w.draws + n)) 0 flow_id steps rows)) [
        | inl refused ↦ absurd (ground arith)
        | inr (after, done) ↦ rw (works, done) (refl, refl)
      ]

  pub seed_steps-kept :
      (flow : OnboardingFlow) (t : Option Template) (w : World)
      → env.faults w.calls ≡ false
      → IsSeed t
      → (seed_steps env flow t w).0 ≡ ok flow × (seed_steps env flow t w).1.db.flows ≡ w.db.flows
  unfolding seed_steps
  seed_steps-kept flow none w works sound = (refl, refl)
  seed_steps-kept flow (some t) w works sound = elim (Option-cases (steps_from_template t.steps)) [
    | inl refused ↦ absurd (ground arith)
    | inr (steps, seeded) ↦
        let (done, kept) =
          replace-kept flow.id steps w works (steps_from_template-fresh t.steps steps seeded) in
        rw (seeded, seed_steps) (rw done (refl, kept))
  ]
