-- ===== src/Architecture/Consume.antt =====
-- internal/services/architecture_consume.go: the deriver of consumption edges.
pub mod Agreement
use cuddly_lamp.Prelude.{
  Bool, true, false, not, ◌&&◌, ◌||◌, Option, none, some, List, [], ◌∷◌, ◌++◌, map, any,
  if◌then◌else◌,
}
use cuddly_lamp.Text.{Text, text, text_eq, is_empty, trim_space, to_lower, to_upper, Unicode}
use cuddly_lamp.Text.Search.{contains, join}
use cuddly_lamp.Model.Architecture.{
  Confidence, confidence_lt, Value, word, flag, words, Metadata, get, put, kind_http, kind_async,
  source_config,
}
use cuddly_lamp.Model.Facts.{RepositoryFact}
use cuddly_lamp.Env.{Env}
use cuddly_lamp.Derive.{append_unique, compose_topology, declared_host}
use cuddly_lamp.Derive.Claims.{claim, claimants}
use cuddly_lamp.Derive.Hosts.{
  HostFinding, HostsFact, is_placeholder_host, service_label, rule_consume_compose_depends_on,
  rule_consume_k8s_service_host, rule_consume_ingress_host,
}
use cuddly_lamp.Architecture.{DerivedEdge, DerivedSet, fingerprint, unmarshal_fact_payload}
use cuddly_lamp.Architecture.Library.{add_reasons, put_payload}
use cuddly_lamp.Architecture.Hosts.{
  HostIndex, sole, GatheredHosts, add_host, resolve_host, add_hosts, gather_hosts_fact,
  gather_hosts, match_host, start_hosts,
}

unfoldable pub consume_key : Text → Text
consume_key organization_id = text "apiconsume:v1:org/" ++ organization_id

module _ (u : Unicode) where
  abbrev pub broker_var_markers : List Text
  broker_var_markers =
      text "KAFKA"
      ∷ text "AMQP"
      ∷ text "RABBIT"
      ∷ text "BROKER"
      ∷ text "NATS"
      ∷ text "SQS"
      ∷ text "PUBSUB"
      ∷ text "TOPIC"
      ∷ text "QUEUE"
      ∷ []

  unfoldable pub is_broker_host : HostFinding → Bool
  unfolding to_upper contains
  is_broker_host consumed = any (contains (to_upper u consumed.env_var)) broker_var_markers

unfoldable pub tier_for : Text → Text
unfolding text_eq
tier_for rule_id =
    if text_eq rule_id rule_consume_compose_depends_on
    then text "1"
    else if text_eq rule_id rule_consume_k8s_service_host
    then text "2a"
    else if text_eq rule_id rule_consume_ingress_host
    then text "2b"
    else text "unknown"

abbrev pub strings_from_metadata : Option Value → List Text
strings_from_metadata (some (words list)) = list
strings_from_metadata _ = []

abbrev pub string_or_empty : Option Value → Text
string_or_empty (some (word t)) = t
string_or_empty _ = []

abbrev pub flag_or_false : Option Value → Bool
flag_or_false (some (flag b)) = b
flag_or_false _ = false

-- `to[name] = from[name]`, where `from` has the name, as the metadata of every edge here does.
abbrev pub copy : Text → Metadata → Metadata → Metadata
copy name from to = elim (get name from) [ some v ↦ put name v to | none ↦ to ]

-- The stronger rule owns the confidence and the identity.
unfoldable pub take_stronger : DerivedEdge → DerivedEdge → DerivedEdge
unfolding get put
take_stronger existing e =
    if confidence_lt existing.confidence e.confidence
    then record existing {
      confidence = e.confidence;
      fingerprint = e.fingerprint;
      metadata = copy (text "tier") e.metadata (copy (text "rule_id") e.metadata existing.metadata);
    }
    else existing

-- Production evidence outranks test evidence.
unfoldable pub take_production : DerivedEdge → DerivedEdge → DerivedEdge
unfolding get put
take_production existing e =
    if flag_or_false (get (text "from_test_file") existing.metadata)
      && not (flag_or_false (get (text "from_test_file") e.metadata))
    then record existing {
      fingerprint = e.fingerprint;
      metadata = copy (text "env_var_name") e.metadata (
          copy (text "tier") e.metadata (
            copy (text "rule_id") e.metadata (
              copy (text "evidence_path") e.metadata
                (put (text "from_test_file") (flag false) existing.metadata))));
    }
    else existing

unfoldable pub merge_into : DerivedEdge → DerivedEdge → DerivedEdge
unfolding take_stronger take_production append_unique get put
merge_into existing e =
    let stronger = take_stronger existing e in
    let paths = strings_from_metadata (get (text "also_evidence") stronger.metadata) in
    let path = string_or_empty (get (text "evidence_path") e.metadata) in
    take_production
      (record stronger {
        metadata = put (text "also_evidence") (words (append_unique paths path)) stronger.metadata;
      })
      e

unfoldable pub agreement_key : DerivedEdge → Text
unfolding join
agreement_key e = join (0 ∷ []) (e.source_repository_id ∷ e.target_repository_id ∷ e.kind ∷ [])

unfoldable pub merge_consume_edge :
    List (Text × DerivedEdge) → DerivedEdge → List (Text × DerivedEdge)
unfolding merge_into agreement_key
merge_consume_edge [] e = (agreement_key e, e) ∷ []
merge_consume_edge ((key, existing) ∷ rest) e =
    let others = merge_consume_edge rest e in
    if text_eq key (agreement_key e)
    then (key, merge_into existing e) ∷ rest
    else (key, existing) ∷ others

module _ (env : Env) where
  unfoldable pub consume_edge : Text → HostFinding → Text × Text × Confidence → DerivedEdge
  unfolding fingerprint is_broker_host tier_for
  consume_edge id consumed found =
      let effective_rule =
        if consumed.from_test_file then found.1 ++ text ".test_file" else found.1 in
      record {
        source_repository_id = id;
        target_repository_id = found.0;
        kind = if is_broker_host env.unicode consumed then kind_async else kind_http;
        source = source_config;
        confidence = found.2;
        label = consumed.host;
        fingerprint =
            fingerprint env
              (effective_rule ∷ consumed.host ∷ consumed.evidence_path ∷ id ∷ found.0 ∷ []);
        metadata =
            (text "rule_id", word effective_rule)
            ∷ (text "matched_host", word consumed.host)
            ∷ (text "evidence_path", word consumed.evidence_path)
            ∷ (text "env_var_name", word consumed.env_var)
            ∷ (text "tier", word (tier_for found.1))
            ∷ (text "from_test_file", flag consumed.from_test_file)
            ∷ [];
      }

  unfoldable pub consume_host :
      HostIndex
      → HostIndex
      → Text
      → List (Text × DerivedEdge)
      → HostFinding
      → List (Text × DerivedEdge)
  unfolding match_host merge_consume_edge consume_edge
  consume_host services ingress id agreement consumed =
      elim (match_host env.unicode consumed services ingress) [
        | none ↦ agreement
        | some found ↦
            if text_eq found.0 id
            then agreement
            else merge_consume_edge agreement (consume_edge id consumed found)
      ]

  unfoldable pub consume_hosts :
      HostIndex
      → HostIndex
      → Text
      → List (Text × DerivedEdge)
      → List HostFinding
      → List (Text × DerivedEdge)
  unfolding consume_host
  consume_hosts services ingress id agreement [] = agreement
  consume_hosts services ingress id agreement (c ∷ cs) =
      consume_hosts services ingress id (consume_host services ingress id agreement c) cs

  unfoldable pub consume_all :
      HostIndex
      → HostIndex
      → List (Text × DerivedEdge)
      → List (Text × HostsFact)
      → List (Text × DerivedEdge)
  unfolding consume_hosts
  consume_all services ingress agreement [] = agreement
  consume_all services ingress agreement ((id, payload) ∷ rest) =
      consume_all services ingress
        (consume_hosts services ingress id agreement payload.consumed_hosts) rest

  unfoldable pub derive_consumptions : List (RepositoryFact HostsFact) → DerivedSet
  unfolding gather_hosts consume_all
  derive_consumptions facts =
      let g = gather_hosts env.unicode start_hosts facts in
      record {
        edges = map (λ p. p.1) (consume_all g.services g.ingress [] g.host_payloads);
        complete = g.all_complete;
        reasons = g.all_reasons;
      }
