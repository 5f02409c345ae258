-- ===== src/Wire/Tests.antt =====
-- Instances of the round trips of the headers over a buffer of bytes.
use zhuge.Prelude.{ℕ, ◌+◌, ◌*◌, ◌≡◌, refl, [], ◌∷◌, some, length, arith}
use zhuge.Prelude.Int.{pos, negsuc}
use zhuge.Wire.Video.{
  VideoPacketHeader, DataPacketHeader, FrameAckPacketHeader, in_ms, serialize_video,
  deserialize_video, serialize_data, deserialize_data, serialize_frame_ack, deserialize_frame_ack,
  deserialize_video-serialize_video, deserialize_data-serialize_data,
  deserialize_frame_ack-serialize_frame_ack,
}
use zhuge.Wire.Lists.{
  DataPktDigest, AckPacketHeader, serialize_fec, deserialize_fec, serialize_ack, deserialize_ack,
  deserialize_fec-serialize_fec, deserialize_ack-serialize_ack,
}
use zhuge.Wire.NetState.{
  NetStates, serialize_net_state, deserialize_net_state, deserialize_net_state-serialize_net_state,
}
use zhuge.Wire.BigEndian.{bytes, write}

abbrev video : VideoPacketHeader
video = record {
  encode_time = 1234567;
  global_id = 65535;
  group_id = 70000;
  group_data_num = 20;
  group_fec_num = 4;
  pkt_id_in_group = 19;
  batch_id = 3;
  batch_data_num = 5;
  batch_fec_num = 1;
  pkt_id_in_batch = 4;
  tx_count = 2;
}

abbrev data_header : DataPacketHeader
data_header = record { frame_id = 9; frame_size = 30000; frame_pkt_num = 25; pkt_id_in_frame = 24 }

data_bytes :
    serialize_data bytes data_header [] ≡ 0 ∷ 0 ∷ 0 ∷ 9 ∷ 0 ∷ 0 ∷ 117 ∷ 48 ∷ 0 ∷ 25 ∷ 0 ∷ 24 ∷ []
unfolding serialize_data bytes write
data_bytes = refl

deserialize_video-serialize_video_example :
    (deserialize_video bytes (serialize_video bytes video (7 ∷ [])) ≡ some (in_ms video, 7 ∷ []))
    × (length (serialize_video bytes video (7 ∷ [])) ≡ 31 + 1)
deserialize_video-serialize_video_example =
    deserialize_video-serialize_video bytes video (7 ∷ []) (omega arith)

data_header_run :
    (deserialize_data bytes (serialize_data bytes data_header []) ≡ some (data_header, []))
    × (length (serialize_data bytes data_header []) ≡ 12 + 0)
data_header_run =
    deserialize_data-serialize_data bytes data_header [] (omega arith) (omega arith) (omega arith)
      (omega arith)

abbrev frame_ack : FrameAckPacketHeader
frame_ack = record { acked_frame = 9; frame_encode_time = 5000 }

frame_ack_run :
    (deserialize_frame_ack bytes (serialize_frame_ack bytes frame_ack []) ≡ some (frame_ack, []))
    × (length (serialize_frame_ack bytes frame_ack []) ≡ 12 + 0)
frame_ack_run =
    deserialize_frame_ack-serialize_frame_ack bytes frame_ack [] (omega arith) (omega arith)

abbrev digest : DataPktDigest
digest = record {
  pkt_id_in_batch = 1;
  pkt_id_in_group = 6;
  frame_id = 9;
  frame_pkt_num = 25;
  pkt_id_in_frame = 6;
}

deserialize_fec-serialize_fec_example :
    (deserialize_fec bytes [] (serialize_fec bytes (digest ∷ digest ∷ []) [])
      ≡ some (digest ∷ digest ∷ [], []))
    × (length (serialize_fec bytes (digest ∷ digest ∷ []) []) ≡ 2 * 12 + 2 + 0)
deserialize_fec-serialize_fec_example =
    deserialize_fec-serialize_fec bytes [] (digest ∷ digest ∷ []) [] (omega arith) (omega arith)

abbrev ack : AckPacketHeader
ack = record { pkt_infos = record { group_id = 4; pkt_in_group = 2 } ∷ []; last_pkt_id = 88 }

deserialize_ack-serialize_ack_run :
    (deserialize_ack bytes [] (serialize_ack bytes ack []) ≡ some (ack, []))
    × (length (serialize_ack bytes ack []) ≡ 4 + 1 * 6 + 2 + 0)
deserialize_ack-serialize_ack_run =
    deserialize_ack-serialize_ack bytes ack [] (omega arith) (omega arith) (omega arith)

-- Loss rates in ten thousandths, which pass unchanged.
abbrev net_state : NetStates ℕ
net_state = record {
  loss_rate = 250;
  throughput_kbps = 30000;
  fec_group_delay_us = 180;
  loss_seq = pos 12 ∷ negsuc 1 ∷ pos 3 ∷ [];
  recvtime_hist = record { pkt_id = 77; rt_us = 123456; pkt_size = 1200 } ∷ [];
}

deserialize_net_state-serialize_net_state_example :
    (deserialize_net_state bytes
        (λ n. n)
        (λ n. n)
        (serialize_net_state bytes (λ n. n) (λ (n : ℕ). n) net_state [])
      ≡ some (
        record net_state {
          recvtime_hist = record { pkt_id = 77; rt_us = 123456; pkt_size = 0 } ∷ [];
        },
        [],
      ))
    × (length (serialize_net_state bytes (λ n. n) (λ (n : ℕ). n) net_state [])
        ≡ 12 + 3 * 4 + 1 * 8 + 0)
deserialize_net_state-serialize_net_state_example =
    deserialize_net_state-serialize_net_state bytes (λ n. n) (λ n. n) net_state [] (omega arith)
