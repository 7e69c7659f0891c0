-- ===== src/Onboarding/Once.antt =====
-- An assignment that is asked for twice is made once.
use mathlib.Core.List.{reverse, reverse-append}
use cuddly_lamp.Prelude.{
  ◌≡◌, refl, ap, ◌∙◌, Bool, true, false, Option, none, some, List, [], ◌∷◌, ◌++◌, ◌&&◌, arith,
  find_first, select, inl, inr, Option-cases,
}
use cuddly_lamp.Text.{Text, text_eq}
use cuddly_lamp.Text.Laws.{text_eq_refl}
use cuddly_lamp.Model.Onboarding.{OnboardingAssignment, is_live}
use cuddly_lamp.Env.{Env}
use cuddly_lamp.Storage.Action.{World, ok}
use cuddly_lamp.Storage.Onboarding.{
  create_onboarding_assignment, list_onboarding_assignments_for_user,
}
use cuddly_lamp.Onboarding.Assign.{assign, existing_or_create}

module _ (org_id flow_id user_id : Text) where
  live_for : OnboardingAssignment → Bool
  live_for a = text_eq a.organization_id org_id && text_eq a.user_id user_id && is_live a

  -- The live assignment of the flow to the user, the latest first.
  unfoldable pub assigned : List OnboardingAssignment → Option OnboardingAssignment
  unfolding live_for
  assigned rows = find_first (λ a. text_eq a.flow_id flow_id) (reverse (select live_for rows))

  select-append_new :
      (rows : List OnboardingAssignment) (a : OnboardingAssignment)
      → live_for a ≡ true
      → select live_for (rows ++ a ∷ []) ≡ select live_for rows ++ a ∷ []
  select-append_new [] a h = ground arith
  select-append_new (x ∷ rows) a h = ground (arith, select-append_new rows a h)

  assigned-append_new :
      (rows : List OnboardingAssignment) (a : OnboardingAssignment)
      → live_for a ≡ true
      → text_eq a.flow_id flow_id ≡ true
      → assigned (rows ++ a ∷ []) ≡ some a
  unfolding assigned
  assigned-append_new rows a h k =
      ap (λ xs. find_first (λ x. text_eq x.flow_id flow_id) (reverse xs))
        (select-append_new rows a h)
      ∙ ap (find_first (λ x. text_eq x.flow_id flow_id))
          (reverse-append (select live_for rows) (a ∷ []))
      ∙ rw k refl

  module _ (env : Env) where
    assign-reads :
        (by : Text) (invite : Option Text) (w : World) (a : OnboardingAssignment)
        → env.faults w.calls ≡ false
        → assigned w.db.assignments ≡ some a
        → (assign env org_id flow_id user_id by invite w).0 ≡ ok a
          × (assign env org_id flow_id user_id by invite w).1.db ≡ w.db
    unfolding assign existing_or_create list_onboarding_assignments_for_user assigned live_for
    assign-reads by invite w a q e = (ground arith, ground arith)

    assign-found :
        (by : Text) (invite : Option Text) (w : World) (x a : OnboardingAssignment)
        → assigned w.db.assignments ≡ some x
        → (assign env org_id flow_id user_id by invite w).0 ≡ ok a
        → assigned (assign env org_id flow_id user_id by invite w).1.db.assignments ≡ some a
    unfolding assign existing_or_create list_onboarding_assignments_for_user live_for assigned
    assign-found by invite w x a e h = ground arith

    NoneAssigned : World → Type 0
    NoneAssigned w =
        find_first (λ a. text_eq a.flow_id flow_id)
          (reverse (
            select (λ a. text_eq a.organization_id org_id && text_eq a.user_id user_id && is_live a)
              w.db.assignments))
        ≡ none

    assign-new :
        (by : Text) (invite : Option Text) (w : World) (a : OnboardingAssignment)
        → NoneAssigned w
        → (assign env org_id flow_id user_id by invite w).0 ≡ ok a
        → assigned (assign env org_id flow_id user_id by invite w).1.db.assignments ≡ some a
    unfolding assign existing_or_create list_onboarding_assignments_for_user live_for
        create_onboarding_assignment NoneAssigned is_live
    assign-new by invite w a e h = ground (
      arith,
      assigned-append_new w.db.assignments a,
      text_eq_refl org_id,
      text_eq_refl flow_id,
      text_eq_refl user_id,
    )

    assign-assigned :
        (by : Text) (invite : Option Text) (w : World) (a : OnboardingAssignment)
        → (assign env org_id flow_id user_id by invite w).0 ≡ ok a
        → assigned (assign env org_id flow_id user_id by invite w).1.db.assignments ≡ some a
    unfolding NoneAssigned assigned live_for
    assign-assigned by invite w a h = elim (Option-cases (assigned w.db.assignments)) [
      | inr (x, e) ↦ assign-found by invite w x a e h
      | inl e ↦ assign-new by invite w a e h
    ]

    -- Once an assignment of a flow to a user was made or found, a later one of the same flow to the same
    -- user, by anyone and for any invite, whose look-up does not fail, returns the same row and changes
    -- no table.
    pub assign-once :
        (by by' : Text) (invite invite' : Option Text) (w : World) (a : OnboardingAssignment)
        → (assign env org_id flow_id user_id by invite w).0 ≡ ok a
        → env.faults (assign env org_id flow_id user_id by invite w).1.calls ≡ false
        → (let w' = (assign env org_id flow_id user_id by invite w).1 in
            (assign env org_id flow_id user_id by' invite' w').0 ≡ ok a
            × (assign env org_id flow_id user_id by' invite' w').1.db ≡ w'.db)
    assign-once by by' invite invite' w a h q =
        assign-reads by' invite' (assign env org_id flow_id user_id by invite w).1 a q
          (assign-assigned by invite w a h)
