-- ===== src/Group.antt =====
-- `PacketGroup` and `PacketBatch` of packet-group.cc: the receiver's packets of one frame, and the
-- recovery of lost data packets. `none` is a failed assertion.
pub mod Sets
pub mod Batch
pub mod Frames
pub mod Tests
use zhuge.Prelude.{
  ℕ, zero, suc, ◌+◌, ◌^◌, ◌%◌, Bool, true, false, not, ◌&&◌, ◌||◌, List, [], ◌∷◌, ◌++◌, Option,
  none, some, ltb, leb, ◌==◌, if◌then◌else◌, length, ◌>>=◌,
}
use zhuge.Wire.Lists.{DataPktDigest}

pub data PacketType : Type 0 where
  data_pkt : PacketType
  dup_fec_pkt : PacketType
  fec_pkt : PacketType
  rtx_req_pkt : PacketType
  ack_pkt : PacketType
  frame_ack_pkt : PacketType
  netstate_pkt : PacketType

-- What the receiver reads of a `VideoPacket`; the three
-- numbers of the frame are those of a data packet, and `data_pkts` the digests of an FEC packet.
pub record VideoPacket : Type 0 where
  pub packet_type : PacketType
  pub tx_count : ℕ
  pub encode_time : ℕ
  pub rcv_time : ℕ
  pub group_id : ℕ
  pub group_data_num : ℕ
  pub group_fec_num : ℕ
  pub pkt_id_in_group : ℕ
  pub batch_id : ℕ
  pub batch_data_num : ℕ
  pub batch_fec_num : ℕ
  pub pkt_id_in_batch : ℕ
  pub frame_id : ℕ
  pub frame_pkt_num : ℕ
  pub pkt_id_in_frame : ℕ
  pub data_pkts : List DataPktDigest

-- A set of ids, and a map from ids. The order of an unordered map is not observed, but for `begin`.
unfoldable pub contains : ℕ → List ℕ → Bool
contains i [] = false
contains i (j ∷ js) = (i == j) || contains i js

unfoldable pub insert : ℕ → List ℕ → List ℕ
insert i js = if contains i js then js else i ∷ js

pub insert_all : List ℕ → List ℕ → List ℕ
insert_all [] js = js
insert_all (i ∷ is) js = insert_all is (insert i js)

module _ {ℓ} {A : Type ℓ} where
  unfoldable pub has_key : ℕ → List (ℕ × A) → Bool
  has_key i [] = false
  has_key i (e ∷ m) = (i == e.0) || has_key i m

  unfoldable pub find : ℕ → List (ℕ × A) → Option A
  find i [] = none
  find i (e ∷ m) = if i == e.0 then some e.1 else find i m

  pub put : ℕ → A → List (ℕ × A) → List (ℕ × A)
  put i a [] = (i, a) ∷ []
  put i a (e ∷ m) = let rest = put i a m in if i == e.0 then (i, a) ∷ m else e ∷ rest

  pub erase : ℕ → List (ℕ × A) → List (ℕ × A)
  erase i [] = []
  erase i (e ∷ m) = let rest = erase i m in if i == e.0 then rest else e ∷ rest
