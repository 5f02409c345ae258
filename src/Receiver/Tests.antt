-- ===== src/Receiver/Tests.antt =====
-- Instances of the properties of the receiver.
use zhuge.Prelude.{
  List, ℕ, ◌+◌, ◌-◌, ◌%◌, ◌^◌, ◌<◌, ◌≡◌, ◌↔◌, refl, true, ◌||◌, [], ◌∷◌, some, arith,
}
use zhuge.Prelude.Int.{pos, negsuc}
use zhuge.Prelude.Words.{sub_w}
use zhuge.Group.{has_key, find}
use zhuge.Group.Tests.{front, first, started, started_eq}
use zhuge.Group.Frames.{PacketGroup}
use zhuge.Receiver.{less_than, less_than_simple, less_than-age, less_than-simple}
use zhuge.Receiver.Loss.{
  step, gap, loss_loop, loss_seq, losses, last_id, total_distance, unwritten, loss_seq-distance,
  losses-wrap,
}
use zhuge.Receiver.Groups.{
  Receiver, Passed, timeouts, is_over, group_of, count_packet, by_type, receive,
}
use zhuge.Receiver.Groups.Laws.{Splits, file_all, timeouts-sorts, receive-reopens}

-- Two ids on either side of the wrap.
less_than-age_run :
    (less_than 100 65500 50 ≡ true) ↔ ((100 + 65536 - 50) % 65536 < (100 + 65536 - 65500) % 65536)
less_than-age_run =
    less_than-age 100 65500 50 (omega arith) (omega arith) (omega arith) (omega arith) (omega arith)

less_than-simple_run : less_than 100 65500 50 ≡ less_than_simple 65500 50
less_than-simple_run =
    less_than-simple 100 65500 50 (omega arith) (omega arith) (omega arith) (omega arith)
      (omega arith)

-- One packet is lost, then one at the wrap; the packet at the end stands alone.
some_losses : loss_seq (65533 ∷ 65535 ∷ 0 ∷ 2 ∷ []) ≡ pos 1 ∷ negsuc 0 ∷ pos 2 ∷ negsuc 0 ∷ []
unfolding loss_seq loss_loop step gap
some_losses = refl

loss_seq-distance_run :
    (total_distance (loss_seq (65533 ∷ 65535 ∷ 0 ∷ 2 ∷ []))
        + unwritten (sub_w 32 65533 1) (65533 ∷ 65535 ∷ 0 ∷ 2 ∷ [])
        + 65533)
      % 65536
    ≡ (last_id 65533 (65535 ∷ 0 ∷ 2 ∷ []) + 1) % 65536
unfolding step
loss_seq-distance_run =
    loss_seq-distance 65533 (65535 ∷ 0 ∷ 2 ∷ []) (omega arith, (omega arith, (omega arith, tt)))

losses-wrap_run : (losses 65535 3 (2 ∷ []) + 65536) % 2 ^ 32 ≡ 3 + (step 65535 2 - 1)
unfolding step
losses-wrap_run = losses-wrap 3 65535 2 (omega arith) (omega arith) (omega arith) (omega arith)

abbrev group : ℕ → ℕ → PacketGroup
group id encode_time = record {
  decoded_pkts = [];
  group_id = id;
  data_num = 2;
  fec_num = 0;
  encode_time = encode_time;
  first_rcv_time = encode_time + 30;
  last_rcv_time_tx_0 = encode_time + 30;
  undecoded_pkts = [];
  incomplete_batches = [];
  complete_batches = [];
  next_rtx_count = 1;
  last_pkt_id_tx_0 = 1;
  max_tx_count = 0;
  first_tx_data_count = 1;
  first_tx_fec_count = 0;
  rtx_data_count = 0;
  rtx_fec_count = 0;
  pkt_arrive_dis = [];
}

abbrev receiver : Receiver
receiver = record {
  delay_ddl = 100;
  rcvd_pkt_cnt = 3;
  rcvd_data_pkt_cnt = 3;
  rcvd_fec_pkt_cnt = 0;
  rcvd_pkt_rtx_count = (0, 3) ∷ [];
  rcvd_group_rtx_count = [];
  rcvd_datapkt_rtx_count = (0, 3) ∷ [];
  rcvd_fecpkt_rtx_count = [];
  incomplete_groups = (7, group 7 1000) ∷ (8, group 8 1020) ∷ [];
  complete_groups = (6, group 6 980) ∷ [];
  timeout_groups = [];
  one_way_dispersion = 180;
}

timeouts-sorts_example :
    ((late : List (ℕ × PacketGroup)) × Splits 100 1110 receiver.incomplete_groups
        (timeouts receiver 1110).incomplete_groups
        late
      × ((timeouts receiver 1110).timeout_groups ≡ file_all late receiver.timeout_groups))
    × ((id : ℕ)
        → has_key id receiver.incomplete_groups ≡ true
        → (has_key id (timeouts receiver 1110).incomplete_groups
            || has_key id (timeouts receiver 1110).timeout_groups)
          ≡ true)
timeouts-sorts_example = timeouts-sorts receiver 1110 (refl, (refl, tt))

-- The first packet of a group that is complete comes once more.
abbrev ended : Receiver
ended = record receiver { complete_groups = (5, group 5 1000) ∷ [] }

receive-reopens_example :
    (r' : Receiver) × (out : Passed) × (receive front 0 ended first 42 ≡ some (r', out))
    × (has_key 5 r'.incomplete_groups ≡ true)
    × (is_over r' 5 ≡ true)
    × (r'.complete_groups ≡ ended.complete_groups)
    × (r'.timeout_groups ≡ ended.timeout_groups)
unfolding group_of count_packet by_type is_over has_key find
receive-reopens_example = receive-reopens front 0 ended first 42 started refl started_eq
