-- ===== src/Auth/Password/Laws.antt =====
-- Password hashes and their check.
use cuddly_lamp.Prelude.{◌≤◌, ◌&&◌, ◌≡◌, ◌↔◌, refl, true, none, arith, any, leb}
use cuddly_lamp.Text.{Text}
use cuddly_lamp.Text.Laws.{text_eq_iff}
use cuddly_lamp.Env.{Env}
use cuddly_lamp.Auth.Password.{
  byte_length, zero_salt, hash_password, verify_password_hash, contains_uppercase, contains_digit,
  validate_password_strength,
}

-- `verifyPasswordHash` accepts a password against the hash of another exactly if argon2 does not tell
-- the two apart under the salt of zeros, where argon2's result has 32 bytes at least.
pub verify-hash :
    (env : Env) (password other : Text)
    → 32 ≤ byte_length (env.argon2 password zero_salt)
    → verify_password_hash env (hash_password env password) other ≡ true
      ↔ env.argon2 other zero_salt ≡ env.argon2 password zero_salt
unfolding verify_password_hash hash_password byte_length
verify-hash env password other h = (
  λ accepted.
      (text_eq_iff (env.argon2 other zero_salt) (env.argon2 password zero_salt)).0
        (ground (arith, accepted)),
  λ same.
      ground
        (arith, (text_eq_iff (env.argon2 other zero_salt) (env.argon2 password zero_salt)).1 same),
)

-- The password that was hashed is accepted.
pub verify-own :
    (env : Env) (password : Text)
    → 32 ≤ byte_length (env.argon2 password zero_salt)
    → verify_password_hash env (hash_password env password) password ≡ true
verify-own env password h = (verify-hash env password password h).1 refl

-- `validatePasswordStrength` accepts exactly the passwords of eight bytes at least that have an
-- upper-case letter and a digit of ASCII.
strength-accepts :
    (password : Text)
    → validate_password_strength password ≡ none
      ↔ 8 ≤ byte_length password
        × any (λ c. leb b'A' c && leb c b'Z') password ≡ true
        × any (λ c. leb b'0' c && leb c b'9') password ≡ true
unfolding validate_password_strength contains_uppercase contains_digit
strength-accepts password = (λ h. (ground arith, ground arith, ground arith), λ h. ground arith)
