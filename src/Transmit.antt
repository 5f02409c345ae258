-- ===== src/Transmit.antt =====
-- `PacketSenderUdp` of packet-sender-udp.cc, with the sender's view of a `VideoPacket` of
-- network-packet.cc and the classes of packet-sender.cc. A packet is an object that the queue and the
-- history of a retransmission share: it has a reference into a store.
pub mod Fragment
pub mod Batch
pub mod History
pub mod Window
pub mod Frames
pub mod Retransmit
pub mod Bursts
pub mod Acks
pub mod Tests
use zhuge.Prelude.{ℕ, ◌+◌, Bool, true, false, List, [], ◌∷◌, ◌==◌, if◌then◌else◌}
use zhuge.Prelude.Words.{u16}
use zhuge.Wire.Lists.{DataPktDigest}
use zhuge.Group.{PacketType, data_pkt, fec_pkt}

-- Times are in nanoseconds. `data_pkts` are the digests of an FEC packet.
pub record VideoPacket : Type 0 where
  pub packet_type : PacketType
  pub payload_size : ℕ
  pub send_time : ℕ
  pub tx_count : ℕ
  pub encode_time : ℕ
  pub enqueue_time : ℕ
  pub global_id : ℕ
  pub batch_info_set_flag : Bool
  pub batch_id : ℕ
  pub batch_data_num : ℕ
  pub batch_fec_num : ℕ
  pub pkt_id_in_batch : ℕ
  pub group_info_set_flag : Bool
  pub group_id : ℕ
  pub group_data_num : ℕ
  pub group_fec_num : ℕ
  pub pkt_id_in_group : ℕ
  pub frame_id : ℕ
  pub frame_pkt_num : ℕ
  pub pkt_id_in_frame : ℕ
  pub data_pkts : List DataPktDigest

-- The constructor of the base class. The ids that it leaves unset are `unset`.
pub new_packet : ℕ → PacketType → VideoPacket
new_packet unset t = record {
  packet_type = t;
  payload_size = 0;
  send_time = 0;
  tx_count = 0;
  encode_time = 0;
  enqueue_time = 0;
  global_id = unset;
  batch_info_set_flag = false;
  batch_id = unset;
  batch_data_num = unset;
  batch_fec_num = unset;
  pkt_id_in_batch = unset;
  group_info_set_flag = false;
  group_id = unset;
  group_data_num = unset;
  group_fec_num = unset;
  pkt_id_in_group = unset;
  frame_id = unset;
  frame_pkt_num = unset;
  pkt_id_in_frame = unset;
  data_pkts = [];
}

pub set_fec_group : ℕ → ℕ → ℕ → ℕ → VideoPacket → VideoPacket
set_fec_group id data_num fec_num pkt_id p = record p {
  group_id = id;
  group_data_num = data_num;
  group_fec_num = fec_num;
  pkt_id_in_group = pkt_id;
  group_info_set_flag = true;
}

pub set_fec_batch : ℕ → ℕ → ℕ → ℕ → VideoPacket → VideoPacket
set_fec_batch id data_num fec_num pkt_id p = record p {
  batch_id = id;
  batch_data_num = data_num;
  batch_fec_num = fec_num;
  pkt_id_in_batch = pkt_id;
  batch_info_set_flag = true;
}

-- It clears the flag only.
pub clear_fec_batch : VideoPacket → VideoPacket
clear_fec_batch p = record p { batch_info_set_flag = false }

pub new_data_packet : ℕ → ℕ → ℕ → ℕ → VideoPacket
new_data_packet unset frame_id frame_pkt_num pkt_id = record (new_packet unset data_pkt) {
  frame_id = frame_id;
  frame_pkt_num = frame_pkt_num;
  pkt_id_in_frame = pkt_id;
}

pub digest : VideoPacket → DataPktDigest
digest p = record {
  frame_id = p.frame_id;
  frame_pkt_num = p.frame_pkt_num;
  pkt_id_in_frame = p.pkt_id_in_frame;
  pkt_id_in_batch = p.pkt_id_in_batch;
  pkt_id_in_group = p.pkt_id_in_group;
}

pub digests : List VideoPacket → List DataPktDigest
digests [] = []
digests (p ∷ ps) = digest p ∷ digests ps

pub new_fec_packet : ℕ → ℕ → List VideoPacket → VideoPacket
new_fec_packet unset tx_count ps = record (new_packet unset fec_pkt) {
  tx_count = tx_count;
  data_pkts = digests ps;
}

pub record SentPacketInfo : Type 0 where
  pub pkt_id : ℕ
  pub batch_id : ℕ
  pub pkt_send_time : ℕ
  pub pkt_ack_time : ℕ
  pub pkt_type : PacketType
  pub is_goodput : Bool
  pub pkt_size : ℕ

-- The constructor takes the batch id, of 32 bits, as one of 16 bits.
pub new_sent_info : ℕ → ℕ → ℕ → PacketType → Bool → ℕ → SentPacketInfo
new_sent_info id batch_id send_time t goodput size = record {
  pkt_id = id;
  batch_id = u16 batch_id;
  pkt_send_time = send_time;
  pkt_ack_time = 0;
  pkt_type = t;
  is_goodput = goodput;
  pkt_size = u16 size;
}

-- A frame, or a batch of retransmitted packets, in the sending queue.
pub record PacketFrame : Type 0 where
  pub packets_in_frame : List ℕ
  pub frame_encode_time : ℕ
  pub retransmission : Bool

-- The objects behind the references, and the next reference that is free.
pub record Store : Type 0 where
  pub at : ℕ → VideoPacket
  pub next_ref : ℕ

pub modify : ℕ → (VideoPacket → VideoPacket) → Store → Store
modify r f s = record s { at = λ q. if q == r then f (s.at q) else s.at q }

pub alloc : VideoPacket → Store → Store × ℕ
alloc p s = (
  record { at = λ q. if q == s.next_ref then p else s.at q; next_ref = s.next_ref + 1 },
  s.next_ref,
)

pub deref : Store → List ℕ → List VideoPacket
deref s [] = []
deref s (r ∷ rs) = s.at r ∷ deref s rs
