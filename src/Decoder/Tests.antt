-- ===== src/Decoder/Tests.antt =====
-- Instances of the properties of the decoder: frame 2 waits for a packet, and frame 3 is complete.
use zhuge.Prelude.{ℕ, ◌≡◌, refl, true, List, [], ◌∷◌, none, some, arith}
use zhuge.Group.{data_pkt, VideoPacket, find, insert, contains, has_key}
use zhuge.Decoder.{
  VideoFrame, is_complete, VideoDecoder, discard, decode_packet, file, add_packet, store,
}
use zhuge.Decoder.Play.{Ready, Plays}
use zhuge.Decoder.Discard.{discard-forgets}
use zhuge.Decoder.Next.{decode_packet-Plays}

abbrev frame_of : List ℕ → VideoFrame
frame_of pkts = record {
  group_ids = 1 ∷ [];
  data_pkt_num = 2;
  encode_time = 100;
  first_pkt_rcv_time = 200;
  last_pkt_rcv_time = 210;
  pkts = pkts;
}

abbrev waiting : VideoDecoder
waiting = record {
  delay_ddl_ms = 100;
  unplayed_frames = (2, frame_of (0 ∷ [])) ∷ (3, frame_of (1 ∷ 0 ∷ [])) ∷ [];
  played_frames = [];
  min_frame_id = 0;
  max_frame_id = 4;
  last_played_frame_id = 1;
  frame_interval = 33;
  exclude_ten_played_frames = [];
  acks = [];
}

abbrev missing : VideoPacket
missing = record {
  packet_type = data_pkt;
  tx_count = 0;
  encode_time = 100;
  rcv_time = 250;
  group_id = 1;
  group_data_num = 2;
  group_fec_num = 0;
  pkt_id_in_group = 1;
  batch_id = 1;
  batch_data_num = 2;
  batch_fec_num = 0;
  pkt_id_in_batch = 1;
  frame_id = 2;
  frame_pkt_num = 2;
  pkt_id_in_frame = 1;
  data_pkts = [];
}

abbrev completed : VideoFrame
completed = file missing (some (frame_of (0 ∷ [])))

completes : is_complete completed ≡ true
unfolding is_complete file add_packet insert contains
completes = refl

decode_packet-Plays_example :
    (r : VideoDecoder) × (decode_packet missing waiting ≡ some r)
    × Plays true 3 2 (store missing completed waiting) r
unfolding find store has_key
decode_packet-Plays_example =
    decode_packet-Plays missing waiting refl (omega arith) (omega arith) refl (omega arith)
      completes

third : Ready 3 waiting
unfolding find is_complete
third = record { frame = frame_of (1 ∷ 0 ∷ []); waits = refl; complete = refl }

discard-forgets_example : find 3 (discard 2 2 waiting).played_frames ≡ some none
discard-forgets_example = discard-forgets 0 2 waiting third (omega arith)
