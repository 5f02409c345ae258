-- ===== src/Prelude/Words.antt =====
-- Unsigned words with their wrap-around written out.
use zhuge.Prelude.{ℕ, ◌+◌, ◌-◌, ◌^◌, ◌%◌, ltb, if◌then◌else◌}
use zhuge.Prelude.Int.{ℤ, pos, negsuc}

-- a + b and a - b on a word of `w` bits. `-` on ℕ stops at 0, so the modulus is added first.
abbrev pub add_w : ℕ → ℕ → ℕ → ℕ
add_w w a b = (a + b) % 2 ^ w

abbrev pub sub_w : ℕ → ℕ → ℕ → ℕ
sub_w w a b = (a % 2 ^ w + 2 ^ w - b % 2 ^ w) % 2 ^ w

abbrev pub u8 : ℕ → ℕ
u8 a = a % 2 ^ 8

abbrev pub u16 : ℕ → ℕ
u16 a = a % 2 ^ 16

abbrev pub u32 : ℕ → ℕ
u32 a = a % 2 ^ 32

abbrev pub u64 : ℕ → ℕ
u64 a = a % 2 ^ 64

-- The conversion of a 32-bit word to `int32_t`.
abbrev pub to_int32 : ℕ → ℤ
to_int32 a = let b = u32 a in if ltb b (2 ^ 31) then pos b else negsuc (2 ^ 32 - b - 1)
