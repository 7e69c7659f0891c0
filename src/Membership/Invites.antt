-- ===== src/Membership/Invites.antt =====
-- What an invite is good for: the checks of `ResolveInvite`, and one redemption.
use cuddly_lamp.Prelude.{
  map, sym, refl, ℕ, suc, ◌+◌, ◌≤◌, ◌<◌, ◌≡◌, ◌≢◌, true, false, Option, none, some, List, [], ◌∷◌,
  ◌++◌, arith, any, find_first, update_where, ◌↔◌, ◌⊎◌, inl, inr, Option-cases, Bool-cases,
}
use cuddly_lamp.Text.{text, equal_fold, fold_rune, Text, text_eq, is_empty, trim_space}
use cuddly_lamp.Text.Laws.{text_eq_refl}
use cuddly_lamp.Model.Identity.{
  OrganizationMember, OrganizationInvite, is_redeemable, matches_email,
}
use cuddly_lamp.Env.{Env}
use cuddly_lamp.Storage.Action.{World, ok}
use cuddly_lamp.Storage.Accounts.{
  get_organization_invite_by_hash, accept_organization_invite, matches_redeemable, accept_row,
  create_organization_invite,
}
use cuddly_lamp.Storage.Members.{has_key}
use cuddly_lamp.Storage.Members.{list_organization_members}
use cuddly_lamp.Storage.Onboarding.{get_onboarding_flow}
use cuddly_lamp.Membership.{
  resolve_invite, hash_invite_token, invite_expiry, CreateInviteRequest, create_invite,
}

abbrev pub invite_by_hash : Text → World → Option OrganizationInvite
invite_by_hash hash w = find_first (λ i. text_eq i.token_hash hash) w.db.invites

abbrev pub invite_by_token : Env → Text → World → Option OrganizationInvite
invite_by_token env raw w =
    find_first (λ i. text_eq i.token_hash (hash_invite_token env (trim_space raw))) w.db.invites

-- If its call of the repository does not fail, `ResolveInvite` returns an invite exactly if the token
-- is not blank and the first row with its hash is that invite, which is neither accepted nor revoked,
-- expires later and was sent to the given address.
resolve-finds :
    (env : Env) (raw email : Text) (w : World) (i : OrganizationInvite)
    → env.faults w.calls ≡ false
    → (resolve_invite env raw email w).0 ≡ ok i
      ↔ is_empty (trim_space raw) ≡ false
        × invite_by_token env raw w ≡ some i
        × is_redeemable i w.clock ≡ true
        × matches_email env.unicode i email ≡ true
unfolding resolve_invite get_organization_invite_by_hash
resolve-finds env raw email w i q = elim (Option-cases (invite_by_token env raw w)) [
  | inl e ↦ (λ h. (ground arith, ground arith, ground arith, ground arith), λ h. ground arith)
  | inr (x, e) ↦ (λ h. (ground arith, ground arith, ground arith, ground arith), λ h. ground arith)
]

-- `ResolveInvite` changes no table.
resolve-reads :
    (env : Env) (raw email : Text) (w : World) → (resolve_invite env raw email w).1.db ≡ w.db
unfolding resolve_invite get_organization_invite_by_hash
resolve-reads env raw email w = ground arith

module _ (env : Env) (id user : Text) (time : ℕ) where
  -- After an acceptance no row with the id is redeemable, at any time from then on.
  none_redeemable :
      (later : ℕ) (is : List OrganizationInvite)
      → time ≤ later
      → any
          (matches_redeemable env id later)
          (update_where (matches_redeemable env id time) (accept_row env user time) is)
        ≡ false
  none_redeemable later [] le = cc
  none_redeemable later (i ∷ is) le = ground (arith, none_redeemable later is le)

-- An invite is spent once: after an acceptance succeeded, an acceptance of the same invite at that or a
-- later time, by anyone, fails and adds no member.
pub accept-once :
    (env : Env) (id : Text) (m m' : OrganizationMember) (w : World) (n : ℕ)
    → (accept_organization_invite env id m w).0 ≡ ok tt
    → (let w' = record (accept_organization_invite env id m w).1 { clock = w.clock + n } in
        (accept_organization_invite env id m' w').0 ≢ ok tt
        × (accept_organization_invite env id m' w').1.db ≡ w'.db)
unfolding accept_organization_invite
accept-once env id m m' w n h = (
  λ k. ground (arith, none_redeemable env id m.user_id w.clock (w.clock + n) w.db.invites),
  ground (arith, none_redeemable env id m.user_id w.clock (w.clock + n) w.db.invites),
)

abbrev pub AcceptedIn : Env → Text → OrganizationMember → World → World → Type 0
AcceptedIn env id m w w' =
    any (matches_redeemable env id w.clock) w.db.invites ≡ true
    × any (has_key m.organization_id m.user_id) w.db.members ≡ false
    × any (matches_redeemable env id w.clock) w'.db.invites ≡ false
    × w'.db.members ≡ w.db.members ++ m ∷ []

-- An acceptance succeeds, where the invite was redeemable and the user had no row in the organization,
-- and then the invite is spent and the member added; or it fails and changes no table.
pub accept-all_or_nothing :
    (env : Env) (id : Text) (m : OrganizationMember) (w : World)
    → ((accept_organization_invite env id m w).0 ≡ ok tt
        × AcceptedIn env id m w (accept_organization_invite env id m w).1)
      ⊎ ((accept_organization_invite env id m w).0 ≢ ok tt
          × (accept_organization_invite env id m w).1.db ≡ w.db)
unfolding accept_organization_invite
accept-all_or_nothing env id m w = elim (Bool-cases (env.faults w.calls)) [
  | inl e ↦ inr (ground arith, ground arith)
  | inr e ↦ elim (Bool-cases (any (matches_redeemable env id w.clock) w.db.invites)) [
    | inr e' ↦ inr (ground arith, ground arith)
    | inl e' ↦ elim (Bool-cases (any (has_key m.organization_id m.user_id) w.db.members)) [
      | inl e'' ↦ inr (ground arith, ground arith)
      | inr e'' ↦ inl (
        ground arith,
        (
          e',
          e'',
          ground (arith, none_redeemable env id m.user_id w.clock w.clock w.db.invites),
          ground arith,
        ),
      )
    ]
  ]
]

find_first-append_new :
    (is : List OrganizationInvite) (i : OrganizationInvite)
    → any (λ x. text_eq x.token_hash i.token_hash) is ≡ false
    → find_first (λ x. text_eq x.token_hash i.token_hash) (is ++ i ∷ []) ≡ some i
find_first-append_new [] i h = ground (arith, text_eq_refl i.token_hash)
find_first-append_new (x ∷ is) i h = ground (arith, find_first-append_new is i)

module _ (env : Env) (org_id by : Text) (req : CreateInviteRequest) (w : World)
    (i : OrganizationInvite) (plain : Text)
    (created : (create_invite env org_id by req w).0 ≡ ok (i, plain)) where
  create-row : invite_by_hash i.token_hash (create_invite env org_id by req w).1 ≡ some i
  unfolding create_invite list_organization_members create_organization_invite get_onboarding_flow
  create-row = ground (arith, find_first-append_new w.db.invites i)

  create-hash : i.token_hash ≡ hash_invite_token env plain
  unfolding create_invite list_organization_members create_organization_invite get_onboarding_flow
  create-hash = elim (Bool-cases (env.faults w.calls)) [
    | inl fault ↦ ground arith
    | inr works ↦ elim (Bool-cases (is_empty (trim_space req.onboarding_flow_id))) [
      | inl unnamed ↦ ground arith
      | inr named ↦ elim (Bool-cases (env.faults (suc w.calls))) [
        | inl fault ↦ ground arith
        | inr found ↦ ground arith
      ]
    ]
  ]

  create-expiry : i.expires_at ≡ invite_expiry w.clock req.ttl_hours
  unfolding create_invite list_organization_members create_organization_invite get_onboarding_flow
  create-expiry = elim (Bool-cases (env.faults w.calls)) [
    | inl fault ↦ ground arith
    | inr works ↦ elim (Bool-cases (is_empty (trim_space req.onboarding_flow_id))) [
      | inl unnamed ↦ ground arith
      | inr named ↦ elim (Bool-cases (env.faults (suc w.calls))) [
        | inl fault ↦ ground arith
        | inr found ↦ ground arith
      ]
    ]
  ]

  create-clock : (create_invite env org_id by req w).1.clock ≡ w.clock
  unfolding create_invite list_organization_members create_organization_invite get_onboarding_flow
  create-clock = elim (Bool-cases (env.faults w.calls)) [
    | inl fault ↦ ground arith
    | inr works ↦ elim (Bool-cases (is_empty (trim_space req.onboarding_flow_id))) [
      | inl unnamed ↦ ground arith
      | inr named ↦ elim (Bool-cases (env.faults (suc w.calls))) [
        | inl fault ↦ ground arith
        | inr found ↦ ground arith
      ]
    ]
  ]

  create-open : i.accepted_at ≡ none × i.revoked_at ≡ none
  unfolding create_invite list_organization_members create_organization_invite get_onboarding_flow
  create-open = (ground arith, ground arith)

  create-fields :
      i.token_hash ≡ hash_invite_token env plain
      × i.expires_at ≡ invite_expiry w.clock req.ttl_hours
      × i.accepted_at ≡ none
      × i.revoked_at ≡ none
      × (create_invite env org_id by req w).1.clock ≡ w.clock
  create-fields = (create-hash, create-expiry, create-open.0, create-open.1, create-clock)

  create-plain : plain ≡ text "inv_" ++ env.random_hex w.draws
  unfolding create_invite list_organization_members create_organization_invite get_onboarding_flow
  create-plain = ground arith

redeemable_until :
    (i : OrganizationInvite) (time : ℕ)
    → i.revoked_at ≡ none
    → i.accepted_at ≡ none
    → time < i.expires_at
    → is_redeemable i time ≡ true
unfolding is_redeemable
redeemable_until i time h k lt = ground arith

matches_email-own :
    (env : Env) (i : OrganizationInvite) → matches_email env.unicode i i.email ≡ true
unfolding matches_email equal_fold
matches_email-own env i = text_eq_refl (map (fold_rune env.unicode) (trim_space i.email))

-- The token that `CreateInvite` returned resolves to the new invite, for the address that the invite was
-- sent to, at each time from then on before its expiry, if the random hex has no white space and the
-- call of the repository does not fail.
pub create-resolves :
    (env : Env) (org_id by : Text) (req : CreateInviteRequest) (w : World) (i : OrganizationInvite)
    (plain : Text) (n : ℕ)
    → ((k : ℕ) → trim_space (text "inv_" ++ env.random_hex k) ≡ text "inv_" ++ env.random_hex k)
    → (create_invite env org_id by req w).0 ≡ ok (i, plain)
    → w.clock + n < invite_expiry w.clock req.ttl_hours
    → env.faults (create_invite env org_id by req w).1.calls ≡ false
    → (let w' = (create_invite env org_id by req w).1 in
        (resolve_invite env plain i.email (record w' { clock = w'.clock + n })).0 ≡ ok i)
create-resolves env org_id by req w i plain n blank created in_time q =
    let w' = (create_invite env org_id by req w).1 in
    let fields = create-fields env org_id by req w i plain created in
    let trimmed : trim_space plain ≡ plain =
      rw (create-plain env org_id by req w i plain created) (blank w.draws) in
    (resolve-finds env plain i.email (record w' { clock = w'.clock + n }) i q).1 (
      rw (trimmed, create-plain env org_id by req w i plain created) refl,
      rw (trimmed) (rw (sym fields.0) (create-row env org_id by req w i plain created)),
      redeemable_until i (w'.clock + n) fields.3 fields.2 (omega (arith, fields.1, fields.4)),
      matches_email-own env i,
    )
