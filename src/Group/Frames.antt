-- ===== src/Group/Frames.antt =====
-- `PacketGroup` of packet-group.cc: the packets of one frame.
pub mod Statistics
pub mod Laws
use zhuge.Prelude.{
  ℕ, ◌+◌, Bool, true, false, not, ◌&&◌, ◌||◌, List, [], ◌∷◌, ◌++◌, Option, none, some, ltb, ◌==◌,
  if◌then◌else◌, length, ◌>>=◌,
}
use zhuge.Prelude.Words.{add_w}
use zhuge.Group.{
  VideoPacket, PacketType, data_pkt, dup_fec_pkt, fec_pkt, dup_fec_pkt, fec_pkt, contains, insert,
  has_key, find, put, erase,
}
use zhuge.Group.Batch.{PacketBatch, add_packet, new_batch, hand_over}

pub record PacketGroup : Type 0 where
  pub decoded_pkts : List ℕ
  pub group_id : ℕ
  pub data_num : ℕ
  pub fec_num : ℕ
  pub encode_time : ℕ
  pub first_rcv_time : ℕ
  pub last_rcv_time_tx_0 : ℕ
  pub undecoded_pkts : List VideoPacket
  pub incomplete_batches : List (ℕ × PacketBatch)
  pub complete_batches : List (ℕ × PacketBatch)
  pub next_rtx_count : ℕ
  pub last_pkt_id_tx_0 : ℕ
  pub max_tx_count : ℕ
  pub first_tx_data_count : ℕ
  pub first_tx_fec_count : ℕ
  pub rtx_data_count : ℕ
  pub rtx_fec_count : ℕ
  pub pkt_arrive_dis : List (ℕ × ℕ)

-- The constructor of a group without packets. What it leaves unset is in `unset`, until the first
-- packet sets it.
unfoldable pub new_group : ℕ → ℕ → ℕ → ℕ → PacketGroup
new_group unset group_id data_num encode_time = record {
  decoded_pkts = [];
  group_id = group_id;
  data_num = data_num;
  fec_num = unset;
  encode_time = encode_time;
  first_rcv_time = unset;
  last_rcv_time_tx_0 = unset;
  undecoded_pkts = [];
  incomplete_batches = [];
  complete_batches = [];
  next_rtx_count = 1;
  last_pkt_id_tx_0 = unset;
  max_tx_count = 0;
  first_tx_data_count = 0;
  first_tx_fec_count = 0;
  rtx_data_count = 0;
  rtx_fec_count = 0;
  pkt_arrive_dis = [];
}

unfoldable pub init_group : PacketGroup → VideoPacket → PacketGroup
init_group g p = record g {
  fec_num = p.group_fec_num;
  first_rcv_time = p.rcv_time;
  last_rcv_time_tx_0 = p.rcv_time;
  max_tx_count = p.tx_count;
  last_pkt_id_tx_0 = p.pkt_id_in_group;
}

-- The four counters, 16 bits wide, by the type and by whether it is the first transmission.
unfoldable pub count : Bool → PacketType → PacketGroup → PacketGroup
count true data_pkt g = record g { first_tx_data_count = add_w 16 g.first_tx_data_count 1 }
count true dup_fec_pkt g = record g { first_tx_fec_count = add_w 16 g.first_tx_fec_count 1 }
count true fec_pkt g = record g { first_tx_fec_count = add_w 16 g.first_tx_fec_count 1 }
count false data_pkt g = record g { rtx_data_count = add_w 16 g.rtx_data_count 1 }
count false dup_fec_pkt g = record g { rtx_fec_count = add_w 16 g.rtx_fec_count 1 }
count false fec_pkt g = record g { rtx_fec_count = add_w 16 g.rtx_fec_count 1 }
count _ _ g = g

unfoldable pub note_times : PacketGroup → VideoPacket → PacketGroup
note_times g p = record g {
  max_tx_count = if ltb g.max_tx_count p.tx_count then p.tx_count else g.max_tx_count;
  encode_time = if ltb p.encode_time g.encode_time then p.encode_time else g.encode_time;
  last_rcv_time_tx_0 =
      if ltb g.last_rcv_time_tx_0 p.rcv_time && (p.tx_count == 0)
      then p.rcv_time
      else g.last_rcv_time_tx_0;
  last_pkt_id_tx_0 =
      if ltb g.last_pkt_id_tx_0 p.pkt_id_in_group
        && ltb p.pkt_id_in_group (g.data_num + g.fec_num)
        && (p.tx_count == 0)
      then p.pkt_id_in_group
      else g.last_pkt_id_tx_0;
}

unfoldable pub begin_group : PacketGroup → VideoPacket → PacketGroup
begin_group g p = if length g.decoded_pkts + length g.undecoded_pkts == 0 then init_group g p else g

unfoldable pub statistics : PacketGroup → VideoPacket → PacketGroup
statistics g p = note_times (count (p.tx_count == 0) p.packet_type (begin_group g p)) p

-- The batch of the packet, made of it or grown by it. It recovers packets with the group's number of
-- FEC packets as it is now, which `init_group` may have changed since the batch was made.
unfoldable pub batch_with : PacketGroup → VideoPacket → Option PacketBatch
batch_with g p = elim (find p.batch_id g.incomplete_batches) [
  | none ↦ new_batch g.group_id g.data_num g.fec_num p
  | some b ↦ some (add_packet (record b { group_fec_num = g.fec_num }) p)
]

-- What the batch hands over is stored, and a complete batch moves to the complete ones.
unfoldable pub store : PacketGroup → ℕ → PacketBatch → List VideoPacket → Bool → PacketGroup
store g id b out complete =
    if complete
    then record g {
      undecoded_pkts = g.undecoded_pkts ++ out;
      complete_batches = put id b g.complete_batches;
      incomplete_batches = erase id g.incomplete_batches;
    }
    else record g {
      undecoded_pkts = g.undecoded_pkts ++ out;
      incomplete_batches = put id b g.incomplete_batches;
    }

unfoldable pub is_useless : PacketGroup → VideoPacket → Bool
is_useless g p = has_key p.batch_id g.complete_batches || contains p.pkt_id_in_group g.decoded_pkts

module _ (begin : List (ℕ × VideoPacket) → Option VideoPacket) where
  unfoldable pub decode : PacketGroup → ℕ → VideoPacket → Option PacketGroup
  decode g now p =
      batch_with g p
      >>= (λ b. hand_over begin b now >>= (λ r. some (store g p.batch_id r.0 r.1 r.2)))

  unfoldable pub group_add : PacketGroup → ℕ → VideoPacket → Option PacketGroup
  group_add g now p =
      let g' = statistics g p in if is_useless g' p then some g' else decode g' now p

  -- The constructor of a group with its first packet.
  pub new_group_of : ℕ → ℕ → VideoPacket → Option PacketGroup
  new_group_of unset now p =
      group_add (new_group unset p.group_id p.group_data_num p.encode_time) now p

-- `GetUndecodedPackets` of the group: the packets are marked and counted by transmissions.
unfoldable pub mark : PacketGroup → List VideoPacket → PacketGroup
mark g [] = g
mark g (p ∷ ps) =
    mark
      (record g {
        decoded_pkts = insert p.pkt_id_in_group g.decoded_pkts;
        pkt_arrive_dis = elim (find p.tx_count g.pkt_arrive_dis) [
          | none ↦ put p.tx_count 1 g.pkt_arrive_dis
          | some n ↦ put p.tx_count (add_w 32 n 1) g.pkt_arrive_dis
        ];
      })
      ps

unfoldable pub group_undecoded : PacketGroup → PacketGroup × List VideoPacket
group_undecoded g = (mark (record g { undecoded_pkts = [] }) g.undecoded_pkts, g.undecoded_pkts)

unfoldable pub group_complete : PacketGroup → Bool
group_complete g = length g.decoded_pkts == g.data_num
