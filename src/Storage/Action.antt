-- ===== src/Storage/Action.antt =====
-- The state of the service and the actions on it, in the order of the source's calls.
use cuddly_lamp.Prelude.{ℕ, suc, Bool, true, false, Option, none, some, List, if◌then◌else◌}
use cuddly_lamp.Model.Identity.{
  User, Organization, OrganizationConfig, OrganizationMember, OrganizationInvite, Token,
}
use cuddly_lamp.Model.Onboarding.{
  OnboardingFlow, OnboardingStep, OnboardingAssignment, StepProgress,
}
use cuddly_lamp.Model.Coverage.{CoverageUploadToken}
use cuddly_lamp.Model.Repositories.{Repository, Team, TeamMember}
use cuddly_lamp.Model.Architecture.{RepositoryRelationship, DerivationSuppression}
use cuddly_lamp.Model.Facts.{RepositoryFact}
use cuddly_lamp.Derive.Packages.{PackagesFact}
use cuddly_lamp.Derive.Hosts.{HostsFact}
use cuddly_lamp.Text.{Text}
use cuddly_lamp.Env.{Env}

-- The tables, rows in insertion order.
pub record Db : Type 0 where
  pub users : List User
  pub organizations : List Organization
  pub configs : List OrganizationConfig
  pub members : List OrganizationMember
  pub invites : List OrganizationInvite
  pub tokens : List Token
  pub flows : List OnboardingFlow
  pub steps : List OnboardingStep
  pub assignments : List OnboardingAssignment
  pub progress : List StepProgress
  pub coverage_tokens : List CoverageUploadToken
  pub repositories : List Repository
  pub teams : List Team
  pub team_members : List TeamMember
  pub relationships : List RepositoryRelationship
  pub suppressions : List DerivationSuppression
  pub package_facts : List (RepositoryFact PackagesFact)
  pub host_facts : List (RepositoryFact HostsFact)

-- `calls` numbers the calls of the repository, `draws` the random values. The clock stands still
-- during a request.
pub record World : Type 0 where
  pub db : Db
  pub calls : ℕ
  pub draws : ℕ
  pub clock : ℕ

-- The errors that the modelled code returns; a wrapped error is the error that it wraps.
pub data Error : Type 0 where
  db_error : Error
  invalid_credentials account_inactive invalid_user invalid_organization not_a_member : Error
  no_organization organization_unavailable invalid_ticket : Error
  weak_password slug_required requires_invite invite_rejected : Error
  invalid_token token_expired token_revoked token_type_not_allowed token_not_active : Error
  user_missing organization_missing membership_missing : Error
  invite_invalid_email invite_invalid_role invite_not_found invite_already_member : Error
  member_not_found last_admin self_demotion record_not_found invite_not_redeemable : Error
  flow_not_found assignment_not_found step_not_found step_status_invalid : Error
  user_not_in_organization : Error
  coverage_token_invalid coverage_token_foreign_repo coverage_token_expired : Error
  coverage_token_not_found coverage_name_required : Error
  team_not_found team_slug_taken team_invalid team_not_local : Error
  repository_not_found repository_forbidden : Error
  relationship_not_found relationship_invalid : Error
  flow_invalid flow_slug_taken template_not_found template_invalid : Error

pub data Outcome {ℓ} (A : Type ℓ) : Type ℓ where
  ok : A → Outcome A
  err : Error → Outcome A

abbrev pub Action {ℓ} : Type ℓ → Type ℓ
Action A = World → Outcome A × World

module _ {ℓ} {A : Type ℓ} where
  abbrev pub pure : A → Action A
  pure a w = (ok a, w)

  abbrev pub raise : Error → Action A
  raise e w = (err e, w)

module _ {ℓ κ} {A : Type ℓ} {B : Type κ} where
  abbrev pub proceed : Outcome A → World → (A → Action B) → Outcome B × World
  proceed (ok a) w f = f a w
  proceed (err e) w f = (err e, w)

  infixl 5 ◌>>=◌
  abbrev pub ◌>>=◌ : Action A → (A → Action B) → Action B
  ◌>>=◌ m f w = proceed (m w).0 (m w).1 f

infixl 5 ◌>>◌
abbrev pub ◌>>◌ {ℓ κ} : {A : Type ℓ} {B : Type κ} → Action A → Action B → Action B
m >> k = m >>= λ _. k

-- `if err != nil { return other }`
abbrev pub or_error {ℓ} : {A : Type ℓ} → Action A → Error → Action A
or_error m e w = elim (m w).0 [ ok a ↦ (ok a, (m w).1) | err _ ↦ (err e, (m w).1) ]

-- `if err != nil { return f(err) }`
abbrev pub map_error {ℓ} : {A : Type ℓ} → (Error → Error) → Action A → Action A
map_error f m w = elim (m w).0 [ ok a ↦ (ok a, (m w).1) | err e ↦ (err (f e), (m w).1) ]

-- A look-up whose error is dropped and reads as nil.
abbrev pub or_none {ℓ} : {A : Type ℓ} → Action (Option A) → Action (Option A)
or_none m w = elim (m w).0 [ ok found ↦ (ok found, (m w).1) | err _ ↦ (ok none, (m w).1) ]

-- A call whose result and error are dropped.
abbrev pub ignore {ℓ} : {A : Type ℓ} → Action A → Action (Unit {0})
ignore m w = (ok tt, (m w).1)

abbrev pub check : Bool → Error → Action (Unit {0})
check true e = pure tt
check false e = raise e

-- `if row == nil { return e }`
abbrev pub require {ℓ} : {A : Type ℓ} → Option A → Error → Action A
require none e = raise e
require (some a) e = pure a

abbrev pub now : Action ℕ
now w = (ok w.clock, w)

abbrev pub draw : (ℕ → Text) → Action Text
draw source w = (ok (source w.draws), record w { draws = suc w.draws })

module _ (env : Env) where
  -- A call that reads.
  unfoldable pub query {ℓ} : {A : Type ℓ} → (Db → A) → Action A
  query f w =
      let w' = record w { calls = suc w.calls } in
      if env.faults w.calls then (err db_error, w') else (ok (f w.db), w')

  -- A call that writes, at a time; a refused write changes nothing.
  unfoldable pub write : (ℕ → Db → Outcome Db) → Action (Unit {0})
  write f w =
      let w' = record w { calls = suc w.calls } in
      if env.faults w.calls
      then (err db_error, w')
      else elim (f w.clock w.db) [ ok db ↦ (ok tt, record w' { db = db }) | err e ↦ (err e, w') ]
