-- ===== src/Examples/Graph.antt =====
-- Teams, declared relationships, consumed hosts and a default flow.
use cuddly_lamp.Prelude.{
  ◌≡◌, refl, true, false, not, ◌&&◌, none, some, List, [], ◌∷◌, map, any, All, select,
}
use cuddly_lamp.Text.{Text, text, text_eq, trim_space, trim_left, is_space, is_empty}
use cuddly_lamp.Model.Identity.{developer}
use cuddly_lamp.Model.Repositories.{Repository, Team, team_source, lead}
use cuddly_lamp.Model.Architecture.{
  RepositoryRelationship, plus, column_is, relationship_is_valid, relationship_is_derived, is_unit,
  is_valid_relationship_kind, is_valid_relationship_source, promote,
}
use cuddly_lamp.Model.Facts.{RepositoryFact}
use cuddly_lamp.Model.Onboarding.{OnboardingFlow}
use cuddly_lamp.Derive.Claims.{IsUnique}
use cuddly_lamp.Derive.Hosts.{HostsFact}
use cuddly_lamp.Storage.Action.{World, ok}
use cuddly_lamp.Storage.Members.{get_organization_member, has_key}
use cuddly_lamp.Storage.Teams.{is_live_team, get_team_row, delete_team_row, upsert_team_member}
use cuddly_lamp.Storage.Architecture.{get_repository_relationship, update_repository_relationship}
use cuddly_lamp.Architecture.{DerivedSet}
use cuddly_lamp.Architecture.Apply.{apply_edges}
use cuddly_lamp.Architecture.Apply.Rows.{is_human, IsKeyed}
use cuddly_lamp.Architecture.Apply.Runs.{rows_of}
use cuddly_lamp.Architecture.Consume.{derive_consumptions, agreement_key}
use cuddly_lamp.Architecture.Consume.Agreement.{is_proper, derive_consumptions-IsAgreement}
use cuddly_lamp.Relationships.{
  CreateRequest, UpdateRequest, create_relationship, update_relationship, delete_relationship,
  require_relationship_in_organization, updated,
}
use cuddly_lamp.Relationships.Rows.{is_foreign}
use cuddly_lamp.Relationships.Tenants.{relationships-keep_others}
use cuddly_lamp.Relationships.Ownership.{is_live_id, update-survives}
use cuddly_lamp.Teams.{can_write_repository, delete_team, add_member, get_scoped}
use cuddly_lamp.Teams.Writers.{may_write, is_on_owner, can_write_iff, delete_team-releases}
use cuddly_lamp.Teams.Joined.{add_member-grants}
use cuddly_lamp.Onboarding.Templates.{template_by_id, templates, general}
use cuddly_lamp.Onboarding.Seeds.Kept.{is_known_template}
use cuddly_lamp.Onboarding.Flows.{CreateFlowRequest, create_flow, flow_slug, slugify_onboarding}
use cuddly_lamp.Onboarding.Flows.Default.{has_slug, is_default_of, create_flow-default}
use cuddly_lamp.Examples.{env, world}

abbrev owned : Repository
owned = record {
  id = text "r";
  organization_id = text "o";
  name = text "billing";
  owner_team_id = some (text "t");
  deleted_at = none;
}

abbrev platform : Team
platform = record {
  id = text "t";
  organization_id = text "o";
  name = text "Platform";
  slug = text "platform";
  description = text "";
  external_id = text "";
  created_by_user_id = none;
  updated_at = 0;
  deleted_at = none;
}

abbrev with_team : World
with_team =
    let w = world [] in
    record w { db = record w.db { repositories = owned ∷ []; teams = platform ∷ [] } }

can_write_iff_example :
    (can_write_repository env developer (text "bob") owned with_team).0
      ≡ ok (
          may_write developer
            (is_on_owner with_team.db (text "bob") owned && not (env.faults with_team.calls)))
    × (can_write_repository env developer (text "bob") owned with_team).1.db ≡ with_team.db
can_write_iff_example = can_write_iff env developer (text "bob") owned with_team

deleted : (delete_team env (text "o") (text "t") with_team).0 ≡ ok tt
unfolding delete_team get_scoped get_team_row delete_team_row text_eq
deleted = refl

delete_team-releases_example :
    (let w' = (delete_team env (text "o") (text "t") with_team).1 in
      any (is_live_team (text "t")) w'.db.teams ≡ false
      × any (λ r. column_is r.owner_team_id (text "t")) w'.db.repositories ≡ false)
delete_team-releases_example = delete_team-releases env (text "o") (text "t") with_team deleted

added : (add_member env (text "o") (text "t") (text "bob") lead with_team).0 ≡ ok tt
unfolding add_member get_scoped get_team_row get_organization_member upsert_team_member team_source
    text_eq
added = refl

own_organization : text_eq owned.organization_id (text "o") ≡ true
unfolding text_eq
own_organization = refl

add_member-grants_example :
    any (λ m. has_key (text "o") (text "bob") m && m.is_active) with_team.db.members ≡ true
    × (can_write_repository env developer
        (text "bob")
        owned
        (add_member env (text "o") (text "t") (text "bob") lead with_team).1).0
      ≡ ok true
add_member-grants_example =
    add_member-grants env (text "o") (text "t") (text "bob") lead with_team owned refl refl
      own_organization added refl

abbrev derived_row : RepositoryRelationship
derived_row = record {
  id = text "s";
  organization_id = text "o";
  source_repository_id = text "app";
  target_repository_id = text "web";
  kind = text "http";
  label = text "";
  description = text "";
  source = text "config";
  confidence = plus 7000;
  metadata = [];
  derivation_key = some (text "k");
  derivation_fingerprint = some (text "g");
  last_seen_at = some 500;
  created_by_user_id = text "";
  created_at = 0;
  updated_at = 0;
  deleted_at = none;
}

abbrev foreign_row : RepositoryRelationship
foreign_row = record derived_row { id = text "x"; organization_id = text "p" }

abbrev with_rows : World
with_rows =
    let w = world [] in
    record w { db = record w.db { relationships = derived_row ∷ foreign_row ∷ [] } }

rows-IsKeyed : IsKeyed (rows_of with_rows)
unfolding text_eq
rows-IsKeyed = (refl, (refl, tt))

abbrev declaration : CreateRequest
declaration = record {
  source_repository_id = text "app";
  target_repository_id = text "web";
  kind = text "data";
  label = text "";
  description = text "";
  metadata = [];
}

abbrev correction : UpdateRequest
correction = record {
  kind = some (text "data");
  label = none;
  description = some (text "by hand");
  confidence = none;
  metadata = none;
}

relationships-keep_others_example :
    select
        (is_foreign (text "o"))
        (rows_of (create_relationship env (text "o") (text "alice") declaration with_rows).1)
      ≡ select (is_foreign (text "o")) (rows_of with_rows)
    × select
        (is_foreign (text "o"))
        (rows_of (update_relationship env (text "o") (text "s") correction with_rows).1)
      ≡ select (is_foreign (text "o")) (rows_of with_rows)
    × select
        (is_foreign (text "o"))
        (rows_of (delete_relationship env (text "o") (text "s") with_rows).1)
      ≡ select (is_foreign (text "o")) (rows_of with_rows)
relationships-keep_others_example =
    relationships-keep_others env (text "o") (text "alice") (text "s") declaration correction
      with_rows rows-IsKeyed

abbrev corrected : RepositoryRelationship
corrected = record derived_row {
  kind = text "data";
  description = text "by hand";
  derivation_key = none;
  derivation_fingerprint = none;
  last_seen_at = none;
}

corrects : (update_relationship env (text "o") (text "s") correction with_rows).0 ≡ ok corrected
unfolding update_relationship require_relationship_in_organization get_repository_relationship
    update_repository_relationship updated promote relationship_is_valid relationship_is_derived
    is_unit is_valid_relationship_kind is_valid_relationship_source text_eq
corrects = refl

abbrev nothing : DerivedSet
nothing = record { edges = []; complete = true; reasons = [] }

update-survives_example :
    any
      (λ r. is_human r && is_live_id (text "s") r)
      (rows_of
        (apply_edges env
          (text "o")
          (text "k")
          nothing
          1000
          (update_relationship env (text "o") (text "s") correction with_rows).1).1)
    ≡ true
update-survives_example =
    update-survives env (text "o") (text "s") correction with_rows corrected (text "o") (text "k")
      nothing 1000 rows-IsKeyed corrects

abbrev host_fact : Text → HostsFact → RepositoryFact HostsFact
host_fact id payload = record {
  organization_id = text "o";
  repository_id = id;
  payload = (payload, some (record { complete = true; reasons = [] }));
  tree_sha = text "";
  complete = true;
  extractor_version = 1;
  extracted_at = 0;
}

abbrev host_facts : List (RepositoryFact HostsFact)
host_facts =
    host_fact (text "app") (record {
      declared_services = [];
      declared_hosts = [];
      consumed_hosts =
          (record {
            host = text "billing.acme.io";
            env_var = text "BILLING_URL";
            evidence_path = text ".env.test";
            rule_id = text "consume.env_url";
            confidence = plus 7000;
            from_test_file = true;
          })
          ∷ [];
    })
    ∷ host_fact (text "billing") (record {
      declared_services = text "billing" ∷ [];
      declared_hosts = text "billing.acme.io" ∷ [];
      consumed_hosts = [];
    })
    ∷ []

derive_consumptions-IsAgreement_example :
    All (λ e. is_proper e ≡ true) (derive_consumptions env host_facts).edges
    × IsUnique (map agreement_key (derive_consumptions env host_facts).edges)
derive_consumptions-IsAgreement_example = derive_consumptions-IsAgreement env host_facts

abbrev old_default : OnboardingFlow
old_default = record {
  id = text "f";
  organization_id = text "o";
  name = text "Start";
  slug = text "start";
  description = text "";
  is_default = true;
}

abbrev with_flow : World
with_flow = let w = world [] in record w { db = record w.db { flows = old_default ∷ [] } }

abbrev new_flow : CreateFlowRequest
new_flow = record {
  name = text "go team";
  slug = text "go";
  description = text "";
  is_default = true;
  template_id = text "general";
}

named : is_empty (trim_space new_flow.name) ≡ false
unfolding trim_space trim_left is_space
named = refl

slugged : is_empty (flow_slug env new_flow) ≡ false
unfolding flow_slug slugify_onboarding trim_space trim_left is_space text_eq
slugged = refl

free : any (has_slug (text "o") (flow_slug env new_flow)) with_flow.db.flows ≡ false
unfolding flow_slug slugify_onboarding trim_space trim_left is_space text_eq
free = refl

new_id : any (λ f. text_eq f.id (env.uuid with_flow.draws)) with_flow.db.flows ≡ false
unfolding text_eq
new_id = refl

known : is_known_template (text "general") ≡ true
unfolding template_by_id templates general text_eq
known = refl

create_flow-default_example :
    (flow : OnboardingFlow) × ((create_flow env (text "o") new_flow with_flow).0 ≡ ok flow
      × select (is_default_of (text "o")) (create_flow env (text "o") new_flow with_flow).1.db.flows
        ≡ flow ∷ [])
create_flow-default_example =
    create_flow-default env (text "o") new_flow with_flow (λ n. refl) refl named slugged free new_id
      known
