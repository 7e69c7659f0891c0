-- ===== src/Examples.antt =====
-- A small organization, and an environment in which no call fails, to run the definitions on.
pub mod Sessions
pub mod Accounts
pub mod Logins
pub mod Models
pub mod Architecture
pub mod Graph
use cuddly_lamp.Prelude.{ℕ, suc, ◌+◌, Bool, true, false, Option, none, some, List, [], ◌∷◌, ◌++◌}
use cuddly_lamp.Text.{Text, text, Unicode}
use cuddly_lamp.Model.Identity.{
  UserRole, admin, developer, User, Organization, OrganizationMember, OrganizationInvite, Token,
  TokenType, access, refresh, TokenClaims, TokenResponse,
}
use cuddly_lamp.Env.{Env, TicketClaims}
use cuddly_lamp.Storage.Action.{Db, World}
use cuddly_lamp.Auth.Password.{zero_salt}
use cuddly_lamp.Auth.Tokens.{AuthService, access_claims}
use cuddly_lamp.Auth.Login.{ticket_purpose}

abbrev pub alice : User
alice = record {
  id = text "alice";
  email = text "alice@acme.io";
  full_name = text "Alice";
  role = developer;
  password_hash = zero_salt ++ text "$" ++ zero_salt ++ text "Secret123";
  is_active = true;
}

abbrev pub bob : User
bob = record {
  id = text "bob";
  email = text "bob@acme.io";
  full_name = text "Bob";
  role = developer;
  password_hash = text "";
  is_active = true;
}

abbrev pub acme : Organization
acme = record { id = text "o"; name = text "Acme"; slug = text "acme"; is_active = true }

abbrev pub alice_in_acme : OrganizationMember
alice_in_acme = record {
  organization_id = text "o";
  user_id = text "alice";
  role = admin;
  is_active = true;
}

abbrev pub bob_in_acme : OrganizationMember
bob_in_acme = record {
  organization_id = text "o";
  user_id = text "bob";
  role = admin;
  is_active = true;
}

abbrev pub service : AuthService
service = record {
  jwt_secret = text "secret";
  jwt_issuer = text "issuer";
  jwt_audience = text "audience";
  access_ttl = 900;
  refresh_ttl = 5000;
}

-- A signed token is its id, a ticket its user, a hash its input.
abbrev pub env : Env
env = record {
  faults = λ n. false;
  uuid = λ n. (suc n) ∷ [];
  random_token = λ n. (5000 + n) ∷ [];
  random_hex = λ n. text "ab";
  sha256 = λ t. t;
  argon2 = λ password salt. salt ++ password;
  sign_claims = λ secret c. c.jti;
  parse_claims = λ secret time t. some (access_claims service alice acme admin t time);
  sign_ticket = λ secret c. c.user_id;
  parse_ticket = λ secret time t. some (record {
    user_id = t;
    organization_ids = text "o" ∷ [];
    purpose = ticket_purpose;
    issuer = text "issuer";
    audience = text "audience";
    expires_at = time + 300;
    issued_at = time;
    not_before = time;
    id = text "ticket";
  });
  is_address = λ t. true;
  unicode = record { lower = λ c. c; upper = λ c. c; fold = λ c. c };
}

abbrev pub token : TokenType → Bool → Token
token type is_revoked = record {
  user_id = text "alice";
  organization_id = text "o";
  jti = text "j";
  token_hash = text "raw";
  type = type;
  family_id = some (text "f");
  parent_jti = none;
  is_revoked = is_revoked;
  created_at = 500;
  expires_at = 2000;
  revoked_at = none;
  last_used_at = none;
  revoke_reason = none;
}

abbrev pub invite : OrganizationInvite
invite = record {
  id = text "i";
  organization_id = text "o";
  email = text "carol@acme.io";
  role = developer;
  token_hash = text "inv";
  onboarding_flow_id = none;
  created_by_user_id = none;
  accepted_at = none;
  accepted_by_user_id = none;
  revoked_at = none;
  expires_at = 3000;
}

-- Two administrators, an open invite, and the given tokens.
abbrev pub world : List Token → World
world tokens = record {
  db = record {
    users = alice ∷ bob ∷ [];
    organizations = acme ∷ [];
    configs = [];
    members = alice_in_acme ∷ bob_in_acme ∷ [];
    invites = invite ∷ [];
    tokens = tokens;
    flows = [];
    steps = [];
    assignments = [];
    progress = [];
    coverage_tokens = [];
    repositories = [];
    teams = [];
    team_members = [];
    relationships = [];
    suppressions = [];
    package_facts = [];
    host_facts = [];
  };
  calls = 0;
  draws = 200;
  clock = 1000;
}
