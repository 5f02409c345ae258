-- ===== src/Group/Batch.antt =====
-- `PacketBatch` of packet-group.cc: the packets that one run of the erasure code protects.
pub mod Recover
pub mod Laws
use zhuge.Prelude.{
  ℕ, ◌+◌, Bool, true, false, not, List, [], ◌∷◌, ◌++◌, map, Option, none, some, ltb, leb, ◌==◌,
  if◌then◌else◌, length, ◌>>=◌,
}
use zhuge.Wire.Lists.{DataPktDigest}
use zhuge.Group.{
  VideoPacket, PacketType, data_pkt, dup_fec_pkt, fec_pkt, contains, insert_all, has_key, put,
}

-- Of its `PacketGroup` the batch reads three numbers when it recovers a packet. The first two never
-- change; the third is the group's at the time of the call, so that the group writes it anew with
-- every packet that it gives to the batch.
pub record PacketBatch : Type 0 where
  pub group_id : ℕ
  pub group_data_num : ℕ
  pub group_fec_num : ℕ
  pub batch_id : ℕ
  pub data_num : ℕ
  pub fec_num : ℕ
  pub decoded_pkts : List ℕ
  pub undecoded_pkts : List VideoPacket
  pub data_pkts : List (ℕ × VideoPacket)
  pub fec_pkts : List (ℕ × VideoPacket)

-- A packet is filed by its type.
unfoldable pub file_data : PacketBatch → VideoPacket → PacketBatch
file_data b p = record b {
  data_pkts = put p.pkt_id_in_batch p b.data_pkts;
  undecoded_pkts = b.undecoded_pkts ++ p ∷ [];
}

unfoldable pub file : PacketType → PacketBatch → VideoPacket → PacketBatch
file data_pkt b p = file_data b p
file dup_fec_pkt b p = file_data b p
file fec_pkt b p = record b { fec_pkts = put p.pkt_id_in_batch p b.fec_pkts }
file _ b p = b

unfoldable pub add_packet : PacketBatch → VideoPacket → PacketBatch
add_packet b p = if contains p.pkt_id_in_batch b.decoded_pkts then b else file p.packet_type b p

-- The constructor.
unfoldable pub no_packets : ℕ → ℕ → ℕ → VideoPacket → PacketBatch
no_packets group_id group_data_num group_fec_num p = record {
  group_id = group_id;
  group_data_num = group_data_num;
  group_fec_num = group_fec_num;
  batch_id = p.batch_id;
  data_num = p.batch_data_num;
  fec_num = p.batch_fec_num;
  decoded_pkts = [];
  undecoded_pkts = [];
  data_pkts = [];
  fec_pkts = [];
}

unfoldable pub new_batch : ℕ → ℕ → ℕ → VideoPacket → Option PacketBatch
new_batch group_id group_data_num group_fec_num p =
    if ltb 0 p.batch_data_num
    then some (add_packet (no_packets group_id group_data_num group_fec_num p) p)
    else none

-- The `DataPacket` that is made from a digest. A new packet has not been sent again: its count is 0.
unfoldable pub recovered : PacketBatch → ℕ → ℕ → DataPktDigest → VideoPacket
recovered b now encode_time d = record {
  packet_type = data_pkt;
  tx_count = 0;
  encode_time = encode_time;
  rcv_time = now;
  group_id = b.group_id;
  group_data_num = b.group_data_num;
  group_fec_num = b.group_fec_num;
  pkt_id_in_group = d.pkt_id_in_group;
  batch_id = b.batch_id;
  batch_data_num = b.data_num;
  batch_fec_num = b.fec_num;
  pkt_id_in_batch = d.pkt_id_in_batch;
  frame_id = d.frame_id;
  frame_pkt_num = d.frame_pkt_num;
  pkt_id_in_frame = d.pkt_id_in_frame;
  data_pkts = [];
}

-- The loop over the digests.
unfoldable pub recover : PacketBatch → ℕ → ℕ → List DataPktDigest → List VideoPacket
recover b now encode_time [] = []
recover b now encode_time (d ∷ ds) =
    let rest = recover b now encode_time ds in
    if has_key d.pkt_id_in_batch b.data_pkts then rest else recovered b now encode_time d ∷ rest

unfoldable pub recover_from : PacketBatch → ℕ → VideoPacket → PacketBatch
recover_from b now f = record b {
  undecoded_pkts = b.undecoded_pkts ++ recover b now f.encode_time f.data_pkts;
  data_pkts = [];
  fec_pkts = [];
}

-- The ids in the batch.
unfoldable pub batch_ids : List VideoPacket → List ℕ
batch_ids [] = []
batch_ids (p ∷ ps) = p.pkt_id_in_batch ∷ batch_ids ps

-- `GetUndecodedPackets`: the packets that wait are handed over and marked.
unfoldable pub get_undecoded : PacketBatch → PacketBatch × List VideoPacket
get_undecoded b = (
  record b {
    decoded_pkts = insert_all (batch_ids b.undecoded_pkts) b.decoded_pkts;
    undecoded_pkts = [];
  },
  b.undecoded_pkts,
)

-- `begin` picks the element that the unordered map of FEC packets has in front.
module _ (begin : List (ℕ × VideoPacket) → Option VideoPacket) where
  unfoldable pub check_complete : PacketBatch → ℕ → Option (PacketBatch × Bool)
  check_complete b now =
      if leb b.data_num (length b.data_pkts + length b.fec_pkts)
      then if length b.data_pkts == b.data_num
        then some (b, true)
        else begin b.fec_pkts >>= (λ f. some (recover_from b now f, true))
      else some (b, false)

  -- What `AddPacket` of the group does with a batch that has taken its packet.
  unfoldable pub hand_over : PacketBatch → ℕ → Option (PacketBatch × List VideoPacket × Bool)
  hand_over b now =
      check_complete b now >>= (λ r. let (b', out) = get_undecoded r.0 in some (b', out, r.1))
