-- ===== src/Architecture/Consume/Agreement.antt =====
-- The agreement of the consumption deriver: one edge for each pair of repositories and kind.
use cuddly_lamp.Prelude.{
  ◌≡◌, refl, sym, ap, ap₂, ◌∙◌, subst, inl, inr, Bool, true, false, not, ◌&&◌, ◌||◌, none, some,
  List, [], ◌∷◌, map, any, All, if◌then◌else◌, Bool-cases, Option-cases, arith,
}
use cuddly_lamp.Text.{Text, text, text_eq}
use cuddly_lamp.Text.Laws.{text_eq_iff}
use cuddly_lamp.Model.Architecture.{
  kind_async, kind_http, source_config, get, confidence_lt, is_valid_relationship_kind,
  is_valid_relationship_source, is_unit, Confidence,
}
use cuddly_lamp.Model.Facts.{RepositoryFact}
use cuddly_lamp.Env.{Env}
use cuddly_lamp.Derive.Claims.{IsUnique}
use cuddly_lamp.Derive.Hosts.{service_label, HostFinding, HostsFact}
use cuddly_lamp.Architecture.{DerivedEdge}
use cuddly_lamp.Architecture.Apply.Runs.Total.{is_writable}
use cuddly_lamp.Architecture.Hosts.{HostIndex, start_hosts, gather_hosts, resolve_host, match_host}
use cuddly_lamp.Architecture.Consume.{
  flag_or_false, take_stronger, take_production, merge_into, agreement_key, merge_consume_edge,
  consume_edge, consume_host, consume_hosts, consume_all, derive_consumptions, is_broker_host,
}

-- An edge as the deriver may assert it: between two repositories, and fit for the table.
abbrev pub is_proper : DerivedEdge → Bool
is_proper e = not (text_eq e.target_repository_id e.source_repository_id) && is_writable e

abbrev IsEntry : Text × DerivedEdge → Type 0
IsEntry p = p.0 ≡ agreement_key p.1 × is_proper p.1 ≡ true

abbrev keys : List (Text × DerivedEdge) → List Text
keys = map (λ p. p.0)

abbrev IsAgreed : List (Text × DerivedEdge) → Type 0
IsAgreed a = All IsEntry a × IsUnique (keys a)

-- A merge keeps the ends, the kind and the source, and takes one of the two confidences.
take_stronger-key : (x e : DerivedEdge) → agreement_key (take_stronger x e) ≡ agreement_key x
unfolding take_stronger agreement_key
take_stronger-key x e = elim (Bool-cases (confidence_lt x.confidence e.confidence)) [
  | inl h ↦ rw h refl
  | inr h ↦ rw h refl
]

take_production-key : (x e : DerivedEdge) → agreement_key (take_production x e) ≡ agreement_key x
unfolding take_production agreement_key
take_production-key x e =
    elim (Bool-cases (
      flag_or_false (get (text "from_test_file") x.metadata)
      && not (flag_or_false (get (text "from_test_file") e.metadata)))) [
        | inl h ↦ rw h refl
        | inr h ↦ rw h refl
      ]

merge_into-key : (x e : DerivedEdge) → agreement_key (merge_into x e) ≡ agreement_key x
unfolding merge_into agreement_key
merge_into-key x e = take_production-key _ e ∙ take_stronger-key x e

merge_into-IsProper :
    (x e : DerivedEdge)
    → is_proper x ≡ true
    → is_proper e ≡ true
    → is_proper (merge_into x e) ≡ true
unfolding merge_into take_stronger take_production
merge_into-IsProper x e hx he = ground arith

merge-All :
    (a : List (Text × DerivedEdge)) (e : DerivedEdge)
    → is_proper e ≡ true
    → All IsEntry a
    → All IsEntry (merge_consume_edge a e)
unfolding merge_consume_edge
merge-All [] e proper h = ((refl, proper), tt)
merge-All ((key, x) ∷ a) e proper h = elim (Bool-cases (text_eq key (agreement_key e))) [
  | inl same ↦
      rw same ((h.0.0 ∙ sym (merge_into-key x e), merge_into-IsProper x e h.0.1 proper), h.1)
  | inr differ ↦ rw differ (h.0, merge-All a e proper h.1)
]

merge-keys :
    (k : Text) (a : List (Text × DerivedEdge)) (e : DerivedEdge)
    → any (text_eq k) (keys (merge_consume_edge a e))
      ≡ any (text_eq k) (keys a) || text_eq k (agreement_key e)
unfolding merge_consume_edge
merge-keys k [] e = ground arith
merge-keys k ((key, x) ∷ a) e = elim (Bool-cases (text_eq key (agreement_key e))) [
  | inl same ↦ ground (arith, ap (text_eq k) ((text_eq_iff key (agreement_key e)).0 same))
  | inr differ ↦ ground (arith, merge-keys k a e)
]

merge-IsUnique :
    (a : List (Text × DerivedEdge)) (e : DerivedEdge)
    → IsUnique (keys a)
    → IsUnique (keys (merge_consume_edge a e))
unfolding merge_consume_edge
merge-IsUnique [] e h = (refl, tt)
merge-IsUnique ((key, x) ∷ a) e h = elim (Bool-cases (text_eq key (agreement_key e))) [
  | inl same ↦ rw same h
  | inr differ ↦ rw differ (ground (arith, merge-keys key a e, h.0), merge-IsUnique a e h.1)
]

valid_kinds :
    is_valid_relationship_kind kind_async ≡ true
    × is_valid_relationship_kind kind_http ≡ true
    × is_valid_relationship_source source_config ≡ true
unfolding is_valid_relationship_kind is_valid_relationship_source text_eq
valid_kinds = (refl, refl, refl)

module _ (env : Env) (services ingress : HostIndex) where
  match_host-unit :
      (c : HostFinding) (found : Text × Text × Confidence)
      → match_host env.unicode c services ingress ≡ some found
      → is_unit found.2 ≡ true
  unfolding match_host is_unit
  match_host-unit c found e =
      elim (Option-cases (resolve_host env.unicode services (service_label env.unicode c.host))) [
        | inr (t, h) ↦ ground arith
        | inl h ↦ elim (Option-cases (resolve_host env.unicode ingress c.host)) [
          | inr (t, k) ↦ ground arith
          | inl k ↦ ground arith
        ]
      ]

  consume_edge-proper :
      (id : Text) (c : HostFinding) (found : Text × Text × Confidence)
      → match_host env.unicode c services ingress ≡ some found
      → text_eq found.0 id ≡ false
      → is_proper (consume_edge env id c found) ≡ true
  unfolding consume_edge
  consume_edge-proper id c found e other = elim (Bool-cases (is_broker_host env.unicode c)) [
    | inl h ↦ rw (other, h, match_host-unit c found e, valid_kinds.0, valid_kinds.2) refl
    | inr h ↦ rw (other, h, match_host-unit c found e, valid_kinds.1, valid_kinds.2) refl
  ]

  consume_host-skips :
      (id : Text) (a : List (Text × DerivedEdge)) (c : HostFinding)
      → match_host env.unicode c services ingress ≡ none
      → consume_host env services ingress id a c ≡ a
  unfolding consume_host
  consume_host-skips id a c e = rw (e, consume_host) refl

  consume_host-found :
      (id : Text) (a : List (Text × DerivedEdge)) (c : HostFinding)
      (found : Text × Text × Confidence)
      → match_host env.unicode c services ingress ≡ some found
      → consume_host env services ingress id a c
        ≡ (if text_eq found.0 id then a else merge_consume_edge a (consume_edge env id c found))
  unfolding consume_host
  consume_host-found id a c found e = rw (e, consume_host) refl

  consume_host-IsAgreed :
      (id : Text) (a : List (Text × DerivedEdge)) (c : HostFinding)
      → IsAgreed a
      → IsAgreed (consume_host env services ingress id a c)
  consume_host-IsAgreed id a c h = elim (Option-cases (match_host env.unicode c services ingress)) [
    | inl nothing ↦ subst IsAgreed (sym (consume_host-skips id a c nothing)) h
    | inr (found, e) ↦
        subst IsAgreed (sym (consume_host-found id a c found e))
          (elim (Bool-cases (text_eq found.0 id)) [
            | inl self ↦ rw self h
            | inr other ↦
                let proper = consume_edge-proper id c found e other in
                rw other (
                  merge-All a (consume_edge env id c found) proper h.0,
                  merge-IsUnique a (consume_edge env id c found) h.1,
                )
          ])
  ]

  consume_hosts-IsAgreed :
      (id : Text) (a : List (Text × DerivedEdge)) (cs : List HostFinding)
      → IsAgreed a
      → IsAgreed (consume_hosts env services ingress id a cs)
  unfolding consume_hosts
  consume_hosts-IsAgreed id a [] h = h
  consume_hosts-IsAgreed id a (c ∷ cs) h =
      consume_hosts-IsAgreed id (consume_host env services ingress id a c) cs
        (consume_host-IsAgreed id a c h)

  consume_all-IsAgreed :
      (a : List (Text × DerivedEdge)) (ps : List (Text × HostsFact))
      → IsAgreed a
      → IsAgreed (consume_all env services ingress a ps)
  unfolding consume_all
  consume_all-IsAgreed a [] h = h
  consume_all-IsAgreed a ((id, x) ∷ ps) h =
      consume_all-IsAgreed (consume_hosts env services ingress id a x.consumed_hosts) ps
        (consume_hosts-IsAgreed id a x.consumed_hosts h)

entries-proper :
    (a : List (Text × DerivedEdge))
    → All IsEntry a
    → All (λ e. is_proper e ≡ true) (map (λ p. p.1) a)
entries-proper [] h = tt
entries-proper (p ∷ a) h = (h.0.1, entries-proper a h.1)

entries-keys :
    (a : List (Text × DerivedEdge)) → All IsEntry a → map agreement_key (map (λ p. p.1) a) ≡ keys a
entries-keys [] h = refl
entries-keys (p ∷ a) h = ap₂ (λ x xs. x ∷ xs) (sym h.0.0) (entries-keys a h.1)

-- `consumeDeriver.Derive` asserts no edge from a repository to itself, one edge at most for each pair of
-- repositories and kind, and only edges whose kind, source and confidence the table accepts.
pub derive_consumptions-IsAgreement :
    (env : Env) (facts : List (RepositoryFact HostsFact))
    → All (λ e. is_proper e ≡ true) (derive_consumptions env facts).edges
      × IsUnique (map agreement_key (derive_consumptions env facts).edges)
unfolding derive_consumptions
derive_consumptions-IsAgreement env facts =
    let g = gather_hosts env.unicode start_hosts facts in
    let agreed = consume_all-IsAgreed env g.services g.ingress [] g.host_payloads (tt, tt) in
    let agreement = consume_all env g.services g.ingress [] g.host_payloads in
    (
      entries-proper agreement agreed.0,
      subst IsUnique (sym (entries-keys agreement agreed.0)) agreed.1,
    )
