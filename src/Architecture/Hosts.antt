-- ===== src/Architecture/Hosts.antt =====
-- internal/services/architecture_consume.go: the index of declared hosts, and what a consumed host matches.
use cuddly_lamp.Prelude.{Bool, true, false, ◌||◌, Option, none, some, List, [], ◌∷◌, if◌then◌else◌}
use cuddly_lamp.Text.{Text, text_eq, is_empty, trim_space, to_lower, Unicode}
use cuddly_lamp.Model.Architecture.{Confidence}
use cuddly_lamp.Model.Facts.{RepositoryFact}
use cuddly_lamp.Derive.{compose_topology, declared_host}
use cuddly_lamp.Derive.Claims.{claim, claimants}
use cuddly_lamp.Derive.Hosts.{
  HostFinding, HostsFact, is_placeholder_host, service_label, rule_consume_compose_depends_on,
  rule_consume_k8s_service_host, rule_consume_ingress_host,
}
use cuddly_lamp.Architecture.{unmarshal_fact_payload}
use cuddly_lamp.Architecture.Library.{add_reasons, put_payload}

pub record HostIndex : Type 0 where
  pub host_owners : List (Text × List Text)

unfoldable pub sole : List Text → Option Text
sole (id ∷ []) = some id
sole _ = none

-- What the first loop of `Derive` keeps.
pub record GatheredHosts : Type 0 where
  pub all_complete : Bool
  pub all_reasons : List Text
  pub services : HostIndex
  pub ingress : HostIndex
  pub host_payloads : List (Text × HostsFact)

module _ (u : Unicode) where
  unfoldable pub add_host : HostIndex → Text → Text → HostIndex
  unfolding claim is_placeholder_host to_lower trim_space
  add_host idx raw id =
      let name = to_lower u (trim_space raw) in
      if is_empty name || is_empty id || is_placeholder_host u name
      then idx
      else record { host_owners = claim text_eq name id idx.host_owners }

  unfoldable pub resolve_host : HostIndex → Text → Option Text
  unfolding claimants to_lower trim_space sole
  resolve_host idx raw = sole (claimants text_eq (to_lower u (trim_space raw)) idx.host_owners)

  unfoldable pub add_hosts : HostIndex → Text → List Text → HostIndex
  unfolding add_host
  add_hosts idx id [] = idx
  add_hosts idx id (name ∷ names) = add_hosts (add_host idx name id) id names

  unfoldable pub gather_hosts_fact : GatheredHosts → RepositoryFact HostsFact → GatheredHosts
  unfolding add_reasons put_payload add_hosts unmarshal_fact_payload
  gather_hosts_fact g f =
      let read = unmarshal_fact_payload f in
      record {
        all_complete = if read.1.complete then g.all_complete else false;
        all_reasons =
            if read.1.complete then g.all_reasons else add_reasons g.all_reasons read.1.reasons;
        services = add_hosts g.services f.repository_id read.0.declared_services;
        ingress = add_hosts g.ingress f.repository_id read.0.declared_hosts;
        host_payloads = put_payload f.repository_id read.0 g.host_payloads;
      }

  unfoldable pub gather_hosts : GatheredHosts → List (RepositoryFact HostsFact) → GatheredHosts
  unfolding gather_hosts_fact
  gather_hosts g [] = g
  gather_hosts g (f ∷ fs) = gather_hosts (gather_hosts_fact g f) fs

  -- The target, the rule and the confidence of a consumed host.
  unfoldable pub match_host :
      HostFinding → HostIndex → HostIndex → Option (Text × Text × Confidence)
  unfolding resolve_host service_label text_eq
  match_host consumed services ingress =
      let from_compose_alias = text_eq consumed.rule_id rule_consume_compose_depends_on in
      elim (resolve_host services (service_label u consumed.host)) [
        | some target ↦
            if from_compose_alias
            then some (target, rule_consume_compose_depends_on, compose_topology)
            else some (target, rule_consume_k8s_service_host, declared_host)
        | none ↦ if from_compose_alias then none else elim (resolve_host ingress consumed.host) [
          | some target ↦ some (target, rule_consume_ingress_host, compose_topology)
          | none ↦ none
        ]
      ]

abbrev pub start_hosts : GatheredHosts
start_hosts = record {
  all_complete = true;
  all_reasons = [];
  services = record { host_owners = [] };
  ingress = record { host_owners = [] };
  host_payloads = [];
}
