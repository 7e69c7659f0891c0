-- ===== src/Derive/Hosts.antt =====
-- Hostnames of internal/derive/resources.go, and the locators of internal/derive/dsn.go.
use cuddly_lamp.Prelude.{
  ℕ, Bool, ◌&&◌, ◌||◌, Option, none, some, List, [], ◌∷◌, any, all, leb, ◌==◌, if◌then◌else◌,
}
use mathlib.Core.List.{reverse}
use cuddly_lamp.Text.{Text, text, text_eq, is_empty, has_prefix, trim_space, to_lower, Unicode}
use cuddly_lamp.Text.Search.{cut, contains, contains_any}
use cuddly_lamp.Model.Architecture.{Confidence}

pub record HostFinding : Type 0 where
  pub host : Text
  pub env_var : Text
  pub evidence_path : Text
  pub rule_id : Text
  pub confidence : Confidence
  pub from_test_file : Bool

pub record HostsFact : Type 0 where
  pub declared_services : List Text
  pub declared_hosts : List Text
  pub consumed_hosts : List HostFinding

abbrev pub rule_resource_dsn : Text
rule_resource_dsn = text "resource.dsn"

abbrev pub rule_consume_compose_depends_on : Text
rule_consume_compose_depends_on = text "consume.compose_depends_on"

abbrev pub rule_consume_k8s_service_host : Text
rule_consume_k8s_service_host = text "consume.k8s_service_host"

abbrev pub rule_consume_ingress_host : Text
rule_consume_ingress_host = text "consume.ingress_host"

abbrev pub placeholder_hosts : List Text
placeholder_hosts =
    text "localhost"
    ∷ text "127.0.0.1"
    ∷ text "0.0.0.0"
    ∷ text "::1"
    ∷ text "host.docker.internal"
    ∷ text "example.com"
    ∷ text "example.org"
    ∷ text "example.net"
    ∷ text "test.local"
    ∷ text "changeme"
    ∷ text "todo"
    ∷ text "none"
    ∷ []

abbrev pub placeholder_prefixes : List Text
placeholder_prefixes =
    text "changeme"
    ∷ text "your-"
    ∷ text "your_"
    ∷ text "my-"
    ∷ text "my_"
    ∷ text "<"
    ∷ text "${"
    ∷ text "{{"
    ∷ text "$("
    ∷ text "%"
    ∷ []

-- `strings.Trim(s, c)`
unfoldable pub drop_char : ℕ → Text → Text
drop_char c [] = []
drop_char c (x ∷ s) = let rest = drop_char c s in if x == c then rest else x ∷ s

unfoldable pub trim_char : ℕ → Text → Text
unfolding drop_char
trim_char c s = reverse (drop_char c (reverse (drop_char c s)))

abbrev pub is_host_char : ℕ → Bool
is_host_char c =
    (leb b'a' c && leb c b'z') || (leb b'0' c && leb c b'9') || c == b'.' || c == b'-' || c == b'_'

abbrev pub is_lower_letter : ℕ → Bool
is_lower_letter c = leb b'a' c && leb c b'z'

module _ (u : Unicode) where
  unfoldable pub is_placeholder_host : Text → Bool
  unfolding to_lower trim_space text_eq has_prefix contains contains_any
  is_placeholder_host raw =
      let host = to_lower u (trim_space raw) in
      is_empty host
      || any (text_eq host) placeholder_hosts
      || any (has_prefix host) placeholder_prefixes
      || contains_any host (text "${}<>")
      || contains host (text "{{")

  unfoldable pub normalize_host : Text → Option Text
  unfolding to_lower trim_space trim_char is_placeholder_host
  normalize_host raw =
      let host = to_lower u (trim_char b'.' (trim_space raw)) in
      if is_empty host || is_placeholder_host host
      then none
      else if all is_host_char host
      then (if any is_lower_letter host then some host else none)
      else none

  -- `host[:idx]` where the separator stands behind a character.
  abbrev pub before_inner : ℕ → Text → Text
  before_inner c host = let before = (cut c host).0 in if is_empty before then host else before

  unfoldable pub service_label : Text → Text
  unfolding to_lower trim_space cut
  service_label raw = before_inner b'.' (before_inner b':' (to_lower u (trim_space raw)))
