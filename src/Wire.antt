-- ===== src/Wire.antt =====
-- ns-3.34-diff/src/bitrate-ctrl/model/network-packet-header.h and network-packet-header.cc: the
-- headers of the media protocol. Each header is a record; `Serialize` writes in front of what
-- follows in the buffer, and `Deserialize` reads from the front.
pub mod Video
pub mod Lists
pub mod NetState
pub mod BigEndian
mod Tests
use zhuge.Prelude.{ℕ, ◌+◌, ◌^◌, ◌<◌, ◌≡◌, arith, List, Option, some, length}
use zhuge.Prelude.Words.{u8, u16, u32, u64}

-- `ns3::Buffer::Iterator`, which the headers only call: words in network order, of which the value
-- is cut to the width. Writing puts a word in front; reading takes it off, and fails at the end.
pub record Buffer : Type 0 where
  pub write8 : ℕ → List ℕ → List ℕ
  pub write16 : ℕ → List ℕ → List ℕ
  pub write32 : ℕ → List ℕ → List ℕ
  pub write64 : ℕ → List ℕ → List ℕ
  pub read8 : List ℕ → Option (ℕ × List ℕ)
  pub read16 : List ℕ → Option (ℕ × List ℕ)
  pub read32 : List ℕ → Option (ℕ × List ℕ)
  pub read64 : List ℕ → Option (ℕ × List ℕ)
  pub read8-write8 : (v : ℕ) (rest : List ℕ) → read8 (write8 v rest) ≡ some (u8 v, rest)
  pub read16-write16 : (v : ℕ) (rest : List ℕ) → read16 (write16 v rest) ≡ some (u16 v, rest)
  pub read32-write32 : (v : ℕ) (rest : List ℕ) → read32 (write32 v rest) ≡ some (u32 v, rest)
  pub read64-write64 : (v : ℕ) (rest : List ℕ) → read64 (write64 v rest) ≡ some (u64 v, rest)
  pub length-write8 : (v : ℕ) (rest : List ℕ) → length (write8 v rest) ≡ 1 + length rest
  pub length-write16 : (v : ℕ) (rest : List ℕ) → length (write16 v rest) ≡ 2 + length rest
  pub length-write32 : (v : ℕ) (rest : List ℕ) → length (write32 v rest) ≡ 4 + length rest
  pub length-write64 : (v : ℕ) (rest : List ℕ) → length (write64 v rest) ≡ 8 + length rest

pub u8-id : (v : ℕ) → v < 2 ^ 8 → u8 v ≡ v
u8-id v h = omega arith

pub u16-id : (v : ℕ) → v < 2 ^ 16 → u16 v ≡ v
u16-id v h = omega arith

pub u32-id : (v : ℕ) → v < 2 ^ 32 → u32 v ≡ v
u32-id v h = omega arith

pub u64-id : (v : ℕ) → v < 2 ^ 64 → u64 v ≡ v
u64-id v h = omega arith
