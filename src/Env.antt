-- ===== src/Env.antt =====
-- What the program uses and does not implement: PostgreSQL's failures, google/uuid, crypto/rand, the
-- hashes, golang-jwt, net/mail and the Unicode tables. Every theorem holds for each such environment.
use cuddly_lamp.Prelude.{ℕ, Bool, Option, List}
use cuddly_lamp.Text.{Text, Unicode}
use cuddly_lamp.Model.Identity.{TokenClaims}

-- `loginSelectionClaims`
pub record TicketClaims : Type 0 where
  pub user_id : Text
  pub organization_ids : List Text
  pub purpose : Text
  pub issuer : Text
  pub audience : Text
  pub expires_at : ℕ
  pub issued_at : ℕ
  pub not_before : ℕ
  pub id : Text

pub record Env : Type 0 where
  -- Whether the n-th call of the repository fails.
  pub faults : ℕ → Bool
  -- The n-th draw of `uuid.New().String()`, of a refresh token, and of 32 random bytes in hex.
  pub uuid : ℕ → Text
  pub random_token : ℕ → Text
  pub random_hex : ℕ → Text
  -- `hex.EncodeToString(sha256.Sum256(..))`, and `argon2.IDKey` of a password and a salt in hex.
  pub sha256 : Text → Text
  pub argon2 : Text → Text → Text
  -- `SignedString`, and `jwt.ParseWithClaims` at a time: `none` is an error.
  pub sign_claims : Text → TokenClaims → Text
  pub parse_claims : Text → ℕ → Text → Option TokenClaims
  pub sign_ticket : Text → TicketClaims → Text
  pub parse_ticket : Text → ℕ → Text → Option TicketClaims
  -- Whether `mail.ParseAddress` accepts an address.
  pub is_address : Text → Bool
  pub unicode : Unicode
