-- ===== src/Wire/BigEndian.antt =====
-- A concrete buffer of bytes, most significant first, which shows that the interface can be met.
use zhuge.Prelude.{
  ℕ, zero, suc, ◌+◌, ◌*◌, ◌/◌, ◌%◌, ◌≡◌, List, [], ◌∷◌, Option, none, some, length, arith,
}
use zhuge.Prelude.Words.{u8, u16, u32, u64}
use zhuge.Wire.{Buffer}

-- The last `n` bytes of a number, most significant first, in front of a list, and back.
unfoldable pub write : ℕ → ℕ → List ℕ → List ℕ
write zero v rest = rest
write (suc n) v rest = write n (v / 256) (v % 256 ∷ rest)

unfoldable pub read : ℕ → ℕ → List ℕ → Option (ℕ × List ℕ)
read zero acc bytes = some (acc, bytes)
read (suc n) acc [] = none
read (suc n) acc (x ∷ bytes) = read n (acc * 256 + x) bytes

-- Reading `n` bytes that were written gives the number modulo 256^n.
pub read-write8 : (v : ℕ) (rest : List ℕ) → read 1 0 (write 1 v rest) ≡ some (u8 v, rest)
unfolding read write
read-write8 v rest = ground arith

pub read-write16 : (v : ℕ) (rest : List ℕ) → read 2 0 (write 2 v rest) ≡ some (u16 v, rest)
unfolding read write
read-write16 v rest = ground arith

pub read-write32 : (v : ℕ) (rest : List ℕ) → read 4 0 (write 4 v rest) ≡ some (u32 v, rest)
unfolding read write
read-write32 v rest = ground arith

pub read-write64 : (v : ℕ) (rest : List ℕ) → read 8 0 (write 8 v rest) ≡ some (u64 v, rest)
unfolding read write
read-write64 v rest = ground arith

pub length-write : (n v : ℕ) (rest : List ℕ) → length (write n v rest) ≡ n + length rest
unfolding write
length-write zero v rest = omega arith
length-write (suc n) v rest = omega (arith, length-write n (v / 256) (v % 256 ∷ rest))

-- The bytes themselves.
unfoldable pub bytes : Buffer
bytes = record {
  write8 = write 1;
  write16 = write 2;
  write32 = write 4;
  write64 = write 8;
  read8 = read 1 0;
  read16 = read 2 0;
  read32 = read 4 0;
  read64 = read 8 0;
  read8-write8 = read-write8;
  read16-write16 = read-write16;
  read32-write32 = read-write32;
  read64-write64 = read-write64;
  length-write8 = length-write 1;
  length-write16 = length-write 2;
  length-write32 = length-write 4;
  length-write64 = length-write 8;
}
