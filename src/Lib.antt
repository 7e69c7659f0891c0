-- ===== src/Lib.antt =====
-- The backend of a developer portal: who may enter an organization and stay in it, what it counts of the
-- repositories, and the graph of dependencies that it derives between them. A verification library of
-- its accounts, sessions, invites, memberships, teams, onboarding flows and assignments, scorecards,
-- coverage reports, and of the derivation and the correction of the graph.
--
-- The parts, and how they meet. HTTP handlers call the services of internal/services; the services call
-- the repository of internal/storage/postgres, which keeps the tables. The auth service asks the
-- membership service whether an invite is good, and has the onboarding service assign the flow that an
-- invite names. Here:
--   * Text: Go strings as lists of code points, and what the program calls of `strings` and `unicode`.
--   * Env: the code that is not the program's, as parameters. `faults` says which calls of the repository
--     fail, in the order of the calls; uuids and random tokens come by the number of draws; the hashes,
--     JWT signing and parsing, the check of an e-mail address and the Unicode tables beyond ASCII are
--     functions.
--   * Model.Identity, Model.Onboarding: internal/models/user.go, organization.go, organization_invite.go,
--     auth.go and onboarding.go, with the columns that the modelled code reads.
--   * Storage.Action: the state (`World`: the tables, the number of calls and draws, the clock) and the
--     actions on it, which return `Outcome`. Storage.Accounts, .Members, .Tokens and .Onboarding: a
--     definition for each repository method that the services call, of postgres_repository.go,
--     organization_membership_repository.go and onboarding_repository.go. A method is one call, and a
--     write is all or nothing; `First` reads the first row in insertion order; unique indexes refuse
--     rows.
--   * Membership: internal/services/membership_service.go. Membership.Admins and .LastAdmin are about the
--     last administrator, .Invites about invites.
--   * Onboarding.Assign: the assignments of internal/services/onboarding_service.go; Onboarding.Once.
--   * Auth: internal/services/auth_service.go. Auth.Password, .Slug, .Tokens, .Session, .Login and
--     .Registration are its functions. Auth.Requests is every sequence of logins, choices of
--     organization, registrations, refreshes, validations, revocations and logouts, and of the time
--     that passes between them; the login by OAuth is not among them. Auth.Keeps is the interface
--     of an invariant of the token table, with a rule for each way to build an action and for each
--     handler; Auth.Invariants and Auth.Revoked fill it three times, by Auth.Families and
--     Auth.Rotation. Auth.Sessions, .Logout, .Refresh and the children of .Login, .Registration,
--     .Password and .Slug hold the theorems.
--   * Model.Onboarding.Life and .Valid are about assignments and steps.
--   * Scorecard: internal/scorecard/scorecard.go, with its counts in Scorecard.Counts.
--   * Int: Go's `int` of 64 bits, as the coverage parsers add it.
--   * Coverage: the LCOV parser of internal/coverage/parsers.go, with its sums in Coverage.Totals, and
--     Coverage.GoCover with its Laws: the Go parser. The lines of `bufio.Scanner` and the profiles of
--     golang.org/x/tools/cover are given.
--   * Coverage.Cobertura with its Laws, and Coverage.Jacoco: `ParseCobertura` and `ParseJaCoCo`, of the
--     documents that encoding/xml decodes.
--   * Coverage.Tokens, over Model.Coverage and Storage.Coverage: the upload tokens of
--     internal/services/coverage_service.go.
--   * Model.Architecture, .Facts and .Repositories: the rows of the graph, the facts that are extracted of
--     a repository, and repositories with their teams. Storage.Architecture, .Teams and .Flows: the
--     methods on them, of postgres_repository.go, team_repository.go and onboarding_repository.go.
--   * Derive: internal/derive, as far as the derivers below need it: outcomes and evidence (derive.go), the
--     package index (Derive.Index, over Derive.Claims), the fact of the packages with the ecosystems
--     (Derive.Packages), and the hosts (Derive.Hosts). Derive.Index.Owner says what the index answers.
--   * Architecture: what derivers return and how a stored fact is read. Architecture.Library is the deriver
--     of internal/services/architecture_packages.go and Architecture.Consume that of
--     architecture_consume.go, over the index of Architecture.Hosts; Library.Derivation and
--     Consume.Agreement are about their edges.
--     Architecture.Apply is `applyEdges` of architecture_service.go, which writes what a deriver returns
--     into the table of relationships; Apply.Rows, .Upsert and .Runs hold its theorems.
--   * Relationships: internal/services/repository_relationship_service.go. Relationships.Rows and .Tenants
--     are about other organizations, Relationships.Ownership about a derived edge that a person edits.
--   * Teams: internal/services/team_service.go and repository_authz.go, with Teams.Writers and .Joined.
--   * Onboarding.Flows: the flows of internal/services/onboarding_service.go, with Onboarding.Flows.Default,
--     over the starter templates of internal/onboarding (Onboarding.Templates) and the steps that they seed
--     (Onboarding.Seeds, with Seeds.Kept).
--   * Examples: a small organization on which each theorem and some runs are checked.
--
-- What the model takes for granted: requests follow one another (a theorem about a sequence of requests
-- says nothing of two that interleave); the clock stands still during a request and is counted in
-- nanoseconds; a wrapped error is the error that it wraps; `SignedString` and `rand.Read` do not fail,
-- and ids in the tables parse as UUIDs; rows that the database would give an id on insertion draw it
-- before. No function needs fuel: each loop of the source is structural recursion on its list, and
-- `available_copy_name` makes the 50 attempts of the source. Of machine integers, the lifetime of an
-- invite can wrap around, and it does so in `requested_ttl`, and so can the sums of Go profiles and of
-- JaCoCo counts, in `add_int`; `Atoi` keeps to 64 bits, and the lines of an LCOV or Cobertura report are
-- fewer than the characters read. No two rows of the tokens have one hash: hashes of random tokens, and of
-- signed claims with their jti, do not collide, so that the row that `First` finds by a hash is the only
-- one, and the order of the rows does not matter there.
--
-- A confidence is counted in units of 0.0001, the scale of its column. The JSON payload of a fact is its
-- decoded value: what decoding fills in of the data, and the outcome, or none where decoding fails. A Go
-- map is an association list in the order of insertion: the theorems do not rely on that order, but
-- which evidence a merged consumption edge names first does. The table of flows holds the flows that are not deleted.
--
-- Not modelled: HTTP routing and JSON, the providers' clients, OAuth, workers, migrations, the service of
-- repositories and its synchronization, coverage uploads, the onboarding run, the steps
-- of a flow as a request sets them, and the glossary. Of the architecture: the nodes that a run
-- reconciles, the derivers of APIs and resources, the reading of configuration files and DSNs, and the
-- loading of the graph.
mod Prelude
pub mod Text
pub mod Int
pub mod Env
pub mod Model
pub mod Storage
pub mod Membership
pub mod Onboarding
pub mod Auth
pub mod Examples
pub mod Scorecard
pub mod Coverage
pub mod Derive
pub mod Architecture
pub mod Relationships
pub mod Teams
