-- ===== src/Model/Onboarding/Life.antt =====
-- The life of an assignment under any sequence of marks.
use cuddly_lamp.Prelude.{◌∙◌, ℕ, ◌≡◌, refl, Bool, true, false, List, [], ◌∷◌, arith, is_some}
use cuddly_lamp.Model.Onboarding.{
  AssignmentStatus, completed, OnboardingAssignment, mark_started, mark_completed,
}

-- `MarkStarted` or `MarkCompleted`, at a time.
pub data Mark : Type 0 where
  started finished : ℕ → Mark

unfoldable pub mark : Mark → OnboardingAssignment → OnboardingAssignment
mark (started time) a = mark_started a time
mark (finished time) a = mark_completed a time

unfoldable pub mark_all : List Mark → OnboardingAssignment → OnboardingAssignment
mark_all [] a = a
mark_all (m ∷ ms) a = mark_all ms (mark m a)

abbrev pub is_finished : AssignmentStatus → Bool
is_finished completed = true
is_finished _ = false

-- A completed assignment stays completed under every sequence of marks: nothing that the model's methods
-- do opens it again.
mark_all-completed :
    (ms : List Mark) (a : OnboardingAssignment)
    → is_finished a.status ≡ true
    → is_finished (mark_all ms a).status ≡ true
unfolding mark_all mark mark_started mark_completed
mark_all-completed [] a h = h
mark_all-completed (started time ∷ ms) a h =
    mark_all-completed ms (mark_started a time) (ground arith)
mark_all-completed (finished time ∷ ms) a h = mark_all-completed ms (mark_completed a time) refl

mark-started : (m : Mark) (a : OnboardingAssignment) → is_some (mark m a).started_at ≡ true
unfolding mark mark_started mark_completed
mark-started (started time) a = ground arith
mark-started (finished time) a = ground arith

mark-kept :
    (m : Mark) (a : OnboardingAssignment)
    → is_some a.started_at ≡ true
    → (mark m a).started_at ≡ a.started_at
unfolding mark mark_started mark_completed
mark-kept (started time) a h = ground arith
mark-kept (finished time) a h = ground arith

mark_all-kept :
    (ms : List Mark) (a : OnboardingAssignment)
    → is_some a.started_at ≡ true
    → (mark_all ms a).started_at ≡ a.started_at
unfolding mark_all
mark_all-kept [] a h = refl
mark_all-kept (m ∷ ms) a h = mark_all-kept ms (mark m a) (mark-started m a) ∙ mark-kept m a h

-- The first mark sets the start of an assignment, where it has none, and no mark that follows changes it.
mark_all-started :
    (m : Mark) (ms : List Mark) (a : OnboardingAssignment)
    → is_some (mark m a).started_at ≡ true
      × (mark_all (m ∷ ms) a).started_at ≡ (mark m a).started_at
unfolding mark_all
mark_all-started m ms a = (mark-started m a, mark_all-kept ms (mark m a) (mark-started m a))
