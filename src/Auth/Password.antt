-- ===== src/Auth/Password.antt =====
-- `hashPassword`, `verifyPasswordHash` and `validatePasswordStrength` of auth_service.go.
pub mod Laws
use cuddly_lamp.Prelude.{
  ℕ, zero, suc, ◌+◌, Bool, false, ◌&&◌, Option, none, some, [], ◌∷◌, ◌++◌, leb, ltb, any,
  if◌then◌else◌,
}
use cuddly_lamp.Text.{Text, text, text_eq}
use cuddly_lamp.Env.{Env}

-- The number of bytes of a rune and of a text in UTF-8.
unfoldable pub rune_length : ℕ → ℕ
rune_length c = if ltb c 0x80 then 1 else if ltb c 0x800 then 2 else if ltb c 0x10000 then 3 else 4

unfoldable pub byte_length : Text → ℕ
unfolding rune_length
byte_length [] = 0
byte_length (c ∷ s) = rune_length c + byte_length s

-- `password[:n]` and `password[n:]` of an ASCII text.
abbrev pub take : ℕ → Text → Text
take zero s = []
take (suc n) [] = []
take (suc n) (c ∷ s) = c ∷ take n s

abbrev pub drop : ℕ → Text → Text
drop zero s = s
drop (suc n) [] = []
drop (suc n) (c ∷ s) = drop n s

-- `make([]byte, 16)` in hex: nothing fills it.
abbrev pub zero_salt : Text
zero_salt = text "00000000000000000000000000000000"

-- `fmt.Sprintf("%x$%x", salt, hash)`
unfoldable pub hash_password : Env → Text → Text
hash_password env password = zero_salt ++ text "$" ++ env.argon2 password zero_salt

-- `fmt.Sscanf` cannot scan into an array and leaves `salt` zero; its error is dropped.
unfoldable pub verify_password_hash : Env → Text → Text → Bool
unfolding byte_length
verify_password_hash env hash password =
    if ltb (byte_length hash) 65
    then false
    else text_eq (env.argon2 password zero_salt) (drop 33 hash)

pub data PasswordError : Type 0 where
  too_short no_uppercase no_digit : PasswordError

unfoldable pub contains_uppercase : Text → Bool
contains_uppercase = any (λ c. leb b'A' c && leb c b'Z')

unfoldable pub contains_digit : Text → Bool
contains_digit = any (λ c. leb b'0' c && leb c b'9')

-- `none` accepts the password.
unfoldable pub validate_password_strength : Text → Option PasswordError
unfolding byte_length contains_uppercase contains_digit
validate_password_strength password =
    if ltb (byte_length password) 8
    then some too_short
    else if contains_uppercase password
    then (if contains_digit password then none else some no_digit)
    else some no_uppercase
