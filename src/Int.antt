-- ===== src/Int.antt =====
-- Go's `int` of 64 bits, whose sums wrap around.
use cuddly_lamp.Prelude.{ℕ, ◌+◌, ◌-◌, ◌^◌, ◌%◌, ◌<◌, ltb, ◌≡◌, arith, if◌then◌else◌}
use cuddly_lamp.Model.Onboarding.{ℤ, pos, negsuc}

-- A 64-bit integer as its residue, and back.
unfoldable pub to_word : ℤ → ℕ
to_word (pos n) = n % 2 ^ 64
to_word (negsuc n) = 2 ^ 64 - 1 - n % 2 ^ 64

unfoldable pub of_word : ℕ → ℤ
of_word n = if ltb n (2 ^ 63) then pos n else negsuc (2 ^ 64 - 1 - n)

-- `int` addition.
unfoldable pub add_int : ℤ → ℤ → ℤ
unfolding to_word of_word
add_int a b = of_word ((to_word a + to_word b) % 2 ^ 64)

pub add_int-fits : (m n : ℕ) → m + n < 2 ^ 63 → add_int (pos m) (pos n) ≡ pos (m + n)
unfolding add_int to_word of_word
add_int-fits m n h = ground arith
