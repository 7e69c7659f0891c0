-- ===== src/Onboarding/Assign.antt =====
-- Who gets which flow: the assignments of internal/services/onboarding_service.go.
use cuddly_lamp.Prelude.{Bool, Option, none, some, find_first, if◌then◌else◌}
use cuddly_lamp.Text.{Text, text, text_eq, is_empty}
use cuddly_lamp.Model.Identity.{OrganizationInvite}
use cuddly_lamp.Model.Onboarding.{OnboardingFlow, OnboardingAssignment, pending}
use cuddly_lamp.Env.{Env}
use cuddly_lamp.Storage.Action.{
  Action, pure, ◌>>=◌, ◌>>◌, check, require, draw, flow_not_found, user_not_in_organization,
}
use cuddly_lamp.Storage.Members.{get_organization_member}
use cuddly_lamp.Storage.Onboarding.{
  get_onboarding_flow, get_default_onboarding_flow, create_onboarding_assignment,
  list_onboarding_assignments_for_user,
}
use cuddly_lamp.Membership.{optional}

abbrev pub or_empty : Option Text → Text
or_empty none = text ""
or_empty (some t) = t

module _ (env : Env) where
  unfoldable pub get_scoped_flow : Text → Text → Action OnboardingFlow
  get_scoped_flow org_id flow_id = do
    found ← get_onboarding_flow env flow_id
    flow ← require found flow_not_found
    check (text_eq flow.organization_id org_id) flow_not_found
    pure flow

  -- The last part of `assign`, for what the loop found.
  unfoldable pub existing_or_create :
      Text
      → Text
      → Text
      → Text
      → Option Text
      → Option OnboardingAssignment
      → Action OnboardingAssignment
  existing_or_create org_id flow_id user_id assigned_by invite_id (some existing) = pure existing
  existing_or_create org_id flow_id user_id assigned_by invite_id none = do
    id ← draw env.uuid
    let assignment : OnboardingAssignment = record {
      id = id;
      organization_id = org_id;
      flow_id = flow_id;
      user_id = user_id;
      assigned_by_user_id = optional assigned_by;
      invite_id = invite_id;
      status = pending;
      started_at = none;
      completed_at = none;
      feedback = text "";
      feedback_at = none;
    }
    create_onboarding_assignment env assignment
    pure assignment

  unfoldable pub assign : Text → Text → Text → Text → Option Text → Action OnboardingAssignment
  unfolding existing_or_create
  assign org_id flow_id user_id assigned_by invite_id = do
    existing ← list_onboarding_assignments_for_user env org_id user_id
    existing_or_create org_id flow_id user_id assigned_by invite_id
        (find_first (λ a. text_eq a.flow_id flow_id) existing)

  in_organization : Text → Option OnboardingFlow → Bool
  in_organization org_id none = Bool.false
  in_organization org_id (some flow) = text_eq flow.organization_id org_id

  unfoldable pub resolve_flow_for_invite : Text → Option Text → Action (Option OnboardingFlow)
  unfolding in_organization
  resolve_flow_for_invite org_id named =
      if is_empty (or_empty named) then get_default_onboarding_flow env org_id else do
        flow ← get_onboarding_flow env (or_empty named)
        if in_organization org_id flow then pure flow else get_default_onboarding_flow env org_id

  unfoldable pub assign_flow :
      Text
      → Text
      → OrganizationInvite
      → Option OnboardingFlow
      → Action (Option OnboardingAssignment)
  assign_flow org_id user_id invite none = pure none
  assign_flow org_id user_id invite (some flow) = do
    a ← assign org_id flow.id user_id (or_empty invite.created_by_user_id) (some invite.id)
    pure (some a)

  unfoldable pub assign_from_invite :
      Text → Text → OrganizationInvite → Action (Option OnboardingAssignment)
  unfolding assign_flow
  assign_from_invite org_id user_id invite = do
    flow ← resolve_flow_for_invite org_id invite.onboarding_flow_id
    assign_flow org_id user_id invite flow

  unfoldable pub assign_to_member : Text → Text → Text → Text → Action OnboardingAssignment
  assign_to_member org_id actor flow_id user_id = do
    flow ← get_scoped_flow org_id flow_id
    member ← get_organization_member env org_id user_id
    require member user_not_in_organization
    assign org_id flow.id user_id actor none
