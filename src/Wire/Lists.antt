-- ===== src/Wire/Lists.antt =====
-- The headers that hold lists: `FECPacketHeader` and `AckPacketHeader`. `Deserialize` appends to
-- the list that the header object holds, which is the first argument.
use zhuge.Prelude.{
  ℕ, zero, suc, ◌+◌, ◌*◌, ◌^◌, ◌<◌, ◌≡◌, List, [], ◌∷◌, ◌++◌, Option, some, ◌>>=◌, length, arith,
  All, append_assoc, append-nil,
}
use zhuge.Wire.{Buffer, u16-id, u32-id}

pub record DataPktDigest : Type 0 where
  pub pkt_id_in_batch : ℕ
  pub pkt_id_in_group : ℕ
  pub frame_id : ℕ
  pub frame_pkt_num : ℕ
  pub pkt_id_in_frame : ℕ

pub record GroupPacketInfo : Type 0 where
  pub group_id : ℕ
  pub pkt_in_group : ℕ

pub record AckPacketHeader : Type 0 where
  pub pkt_infos : List GroupPacketInfo
  pub last_pkt_id : ℕ

-- A count and so many items: the writing loop over a list, and the reading loop over a counter.
unfoldable pub write_all {ℓ} : {A : Type ℓ} → (A → List ℕ → List ℕ) → List A → List ℕ → List ℕ
write_all write [] rest = rest
write_all write (x ∷ xs) rest = write x (write_all write xs rest)

unfoldable pub read_all {ℓ} :
    {A : Type ℓ} → (List ℕ → Option (A × List ℕ)) → ℕ → List A → List ℕ → Option (List A × List ℕ)
read_all read zero out bytes = some (out, bytes)
read_all read (suc n) out bytes = read bytes >>= (λ r. read_all read n (out ++ r.0 ∷ []) r.1)

module _ {ℓ κ} {A : Type ℓ} (P : A → Type κ) (write : A → List ℕ → List ℕ)
    (read : List ℕ → Option (A × List ℕ)) where
  -- If one item can be read back, so can a list of them.
  pub read_all-write_all :
      ((x : A) (rest : List ℕ) → P x → read (write x rest) ≡ some (x, rest))
      → (xs out : List A) (rest : List ℕ) → All P xs
      → read_all read (length xs) out (write_all write xs rest) ≡ some (out ++ xs, rest)
  unfolding read_all write_all
  read_all-write_all one [] out rest h = rw append-nil
  read_all-write_all one (x ∷ xs) out rest h =
      rw (one x (write_all write xs rest) h.0)
        (rw (read_all-write_all one xs (out ++ x ∷ []) rest h.1) (rw append_assoc))

  pub length-write_all :
      (n : ℕ)
      → ((x : A) (rest : List ℕ) → length (write x rest) ≡ n + length rest)
      → (xs : List A) (rest : List ℕ)
      → length (write_all write xs rest) ≡ length xs * n + length rest
  unfolding write_all
  length-write_all n one [] rest = omega arith
  length-write_all n one (x ∷ xs) rest =
      omega (arith, one x (write_all write xs rest), length-write_all n one xs rest)

module _ (b : Buffer) where
  open b use {write16, write32, read16, read32}

  pub write_digest : DataPktDigest → List ℕ → List ℕ
  write_digest d rest = write16 d.pkt_id_in_batch (
      write16 d.pkt_id_in_group
        (write32 d.frame_id (write16 d.frame_pkt_num (write16 d.pkt_id_in_frame rest))))

  pub read_digest : List ℕ → Option (DataPktDigest × List ℕ)
  read_digest bytes = do
    (pkt_id_in_batch, bytes) ← read16 bytes
    (pkt_id_in_group, bytes) ← read16 bytes
    (frame_id, bytes) ← read32 bytes
    (frame_pkt_num, bytes) ← read16 bytes
    (pkt_id_in_frame, bytes) ← read16 bytes
    some (
      record {
        pkt_id_in_batch = pkt_id_in_batch;
        pkt_id_in_group = pkt_id_in_group;
        frame_id = frame_id;
        frame_pkt_num = frame_pkt_num;
        pkt_id_in_frame = pkt_id_in_frame;
      },
      bytes,
    )

  pub serialize_fec : List DataPktDigest → List ℕ → List ℕ
  serialize_fec data_pkts rest = write16 (length data_pkts) (write_all write_digest data_pkts rest)

  pub deserialize_fec : List DataPktDigest → List ℕ → Option (List DataPktDigest × List ℕ)
  deserialize_fec held bytes = read16 bytes >>= (λ r. read_all read_digest r.0 held r.1)

  pub write_info : GroupPacketInfo → List ℕ → List ℕ
  write_info i rest = write32 i.group_id (write16 i.pkt_in_group rest)

  pub read_info : List ℕ → Option (GroupPacketInfo × List ℕ)
  read_info bytes = do
    (group_id, bytes) ← read32 bytes
    (pkt_id, bytes) ← read16 bytes
    some (record { group_id = group_id; pkt_in_group = pkt_id }, bytes)

  pub serialize_ack : AckPacketHeader → List ℕ → List ℕ
  serialize_ack h rest =
      write32 (length h.pkt_infos) (write_all write_info h.pkt_infos (write16 h.last_pkt_id rest))

  pub deserialize_ack : List GroupPacketInfo → List ℕ → Option (AckPacketHeader × List ℕ)
  deserialize_ack held bytes = do
    (count, bytes) ← read32 bytes
    (infos, bytes) ← read_all read_info count held bytes
    (last_pkt_id, bytes) ← read16 bytes
    some (record { pkt_infos = infos; last_pkt_id = last_pkt_id }, bytes)

pub record FitsDigest (d : DataPktDigest) : Type 0 where
  pub pkt_id_in_batch : d.pkt_id_in_batch < 2 ^ 16
  pub pkt_id_in_group : d.pkt_id_in_group < 2 ^ 16
  pub frame_id : d.frame_id < 2 ^ 32
  pub frame_pkt_num : d.frame_pkt_num < 2 ^ 16
  pub pkt_id_in_frame : d.pkt_id_in_frame < 2 ^ 16

abbrev pub FitsInfo : GroupPacketInfo → Type 0
FitsInfo i = (i.group_id < 2 ^ 32) × (i.pkt_in_group < 2 ^ 16)

module _ (b : Buffer) where
  open b use {read16-write16, read32-write32, length-write16, length-write32}

  read_digest-write_digest :
      (d : DataPktDigest) (rest : List ℕ)
      → FitsDigest d
      → read_digest b (write_digest b d rest) ≡ some (d, rest)
  unfolding read_digest write_digest
  read_digest-write_digest d rest f = simp (read16-write16, read32-write32) (ground arith)

  length-write_digest :
      (d : DataPktDigest) (rest : List ℕ) → length (write_digest b d rest) ≡ 12 + length rest
  unfolding write_digest
  length-write_digest d rest = simp (length-write16, length-write32) (omega arith)

  read_info-write_info :
      (i : GroupPacketInfo) (rest : List ℕ)
      → FitsInfo i
      → read_info b (write_info b i rest) ≡ some (i, rest)
  unfolding read_info write_info
  read_info-write_info i rest f = simp (read16-write16, read32-write32) (ground arith)

  length-write_info :
      (i : GroupPacketInfo) (rest : List ℕ) → length (write_info b i rest) ≡ 6 + length rest
  unfolding write_info
  length-write_info i rest = simp (length-write16, length-write32) (omega arith)

  -- Reading the digests of an FEC packet, of which there are fewer than 2^16, with every field in
  -- range, appends them to what the object holds and leaves the rest; they take the announced
  -- 12 bytes each and 2 for the count.
  pub deserialize_fec-serialize_fec :
      (held ds : List DataPktDigest) (rest : List ℕ)
      → length ds < 2 ^ 16
      → All FitsDigest ds
      → (deserialize_fec b held (serialize_fec b ds rest) ≡ some (held ++ ds, rest))
        × (length (serialize_fec b ds rest) ≡ length ds * 12 + 2 + length rest)
  unfolding serialize_fec deserialize_fec
  deserialize_fec-serialize_fec held ds rest n f = (
    rw (read16-write16 (length ds) (write_all (write_digest b) ds rest), u16-id (length ds) n)
        (read_all-write_all FitsDigest (write_digest b) (read_digest b) read_digest-write_digest ds
          held rest f),
    omega (
      arith,
      length-write16 (length ds) (write_all (write_digest b) ds rest),
      length-write_all FitsDigest (write_digest b) (read_digest b) 12 length-write_digest ds rest,
    ),
  )

  -- Reading an acknowledgement into a new object gives it back, and it takes the announced bytes:
  -- 6 for each packet, 4 for the count and 2 for the last id.
  pub deserialize_ack-serialize_ack :
      (h : AckPacketHeader) (rest : List ℕ)
      → length h.pkt_infos < 2 ^ 32
      → All FitsInfo h.pkt_infos
      → h.last_pkt_id < 2 ^ 16
      → (deserialize_ack b [] (serialize_ack b h rest) ≡ some (h, rest))
        × (length (serialize_ack b h rest) ≡ 4 + length h.pkt_infos * 6 + 2 + length rest)
  unfolding serialize_ack deserialize_ack
  deserialize_ack-serialize_ack h rest n f l = (
    rw
        (
          read32-write32 (length h.pkt_infos) _,
          u32-id (length h.pkt_infos) n,
          read_all-write_all FitsInfo (write_info b) (read_info b) read_info-write_info h.pkt_infos
              [] (b.write16 h.last_pkt_id rest) f,
          read16-write16 h.last_pkt_id rest,
        )
        (ground arith),
    omega (
      arith,
      length-write32 (length h.pkt_infos)
          (write_all (write_info b) h.pkt_infos (b.write16 h.last_pkt_id rest)),
      length-write_all FitsInfo (write_info b) (read_info b) 6 length-write_info h.pkt_infos
          (b.write16 h.last_pkt_id rest),
      length-write16 h.last_pkt_id rest,
    ),
  )
