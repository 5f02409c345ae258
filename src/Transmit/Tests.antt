-- ===== src/Transmit/Tests.antt =====
-- Instances of the properties of the sender.
use zhuge.Prelude.{
  ℕ, suc, ◌+◌, ◌*◌, ◌%◌, ◌/◌, ◌-◌, ◌≤◌, ◌≡◌, refl, true, false, List, [], ◌∷◌, some, arith, All,
  length, if◌then◌else◌,
}
use zhuge.Wire.Lists.{GroupPacketInfo}
use zhuge.Wire.NetState.{RcvTime}
use zhuge.Group.{PacketType, data_pkt, find}
use zhuge.Transmit.{VideoPacket, PacketFrame, SentPacketInfo, Store, new_packet, set_fec_group}
use zhuge.Transmit.Fragment.{Encoded, Shares, create_frame_packets, create_frame_packets-Shares}
use zhuge.Transmit.Batch.{Ids}
use zhuge.Transmit.Batch.Laws.{Distinct}
use zhuge.Transmit.Batch.Again.{IsOfGroup}
use zhuge.Transmit.Batch.Whole.{Batched, create_first_packet_batch-Batched}
use zhuge.Transmit.History.{look, is_data}
use zhuge.Transmit.History.Runs.{IsQueue}
use zhuge.Transmit.History.Refines.{
  Event, stored, acked, checked, run, replay, view, IsKept, run-replay,
}
use zhuge.Transmit.Window.{Window, Statistics, drop_old}
use zhuge.Transmit.Window.Goodput.{total_size, total_goodput}
use zhuge.Transmit.Window.Laws.{IsWindow, oldest_at, drop_old-early}
use zhuge.Transmit.Window.Step.{Sends, pace-total}
use zhuge.Transmit.Window.{pace}
use zhuge.Transmit.Window.Drain.{Drains, send_packet-Sends, drain-Drains}
use zhuge.Transmit.Frames.{Asked, FecParam, State}
use zhuge.Transmit.Retransmit.{NetStat, retransmit_group}
use zhuge.Transmit.Retransmit.Laws.{Resends, retransmit_group-Resends}
use zhuge.Transmit.Bursts.{Controls, Bursts, no_bursts, in_reach, on_items}
use zhuge.Transmit.Bursts.Laws.{IsCounted, on_items-Takes, on_items-stalls}
use zhuge.Transmit.Acks.{Frames, on_frame_acks}
use zhuge.Transmit.Acks.Laws.{in_time, in_time_late_start, on_frame_acks-counts}

-- A frame of 2500 bytes, in packets of at most 1000.
abbrev encoded : Encoded
encoded = record {
  frame_id = 7;
  max_payload = 1000;
  pkt_num = 3;
  data_size = 2500;
  now = 5;
  unset = 0;
}

create_frame_packets-Shares_example :
    (ps : List VideoPacket) × (create_frame_packets encoded 65535 ≡ some ps)
    × Shares encoded 2500 65535 ps
create_frame_packets-Shares_example =
    create_frame_packets-Shares encoded (omega arith) (omega arith) 65535

abbrev no_statistics : Statistics
no_statistics = record {
  init_data_pkt_count = 0;
  init_data_pkt_size = 0;
  other_pkt_count = 0;
  other_pkt_size = 0;
  first_ten_frame_group_id = [];
  exclude_head_init_data_pkt_count = 0;
  exclude_head_init_data_pkt_size = 0;
  exclude_head_other_pkt_count = 0;
  exclude_head_other_pkt_size = 0;
}

-- Three packets of group 0.
abbrev packets : Store
packets = record { at = λ q. set_fec_group 0 3 0 q (new_packet 0 data_pkt); next_ref = 3 }

abbrev window_of : List PacketFrame → Window
window_of queue = record {
  store = packets;
  queue = queue;
  pkts_history = [];
  send_wnd = [];
  goodput_wnd = [];
  goodput_pkts_inwnd = 0;
  total_pkts_inwnd = 0;
  goodput_ratio = (1, 1);
  ip_id_counter = 65535;
  pacing_interval = 0;
  statistics = no_statistics;
  socket = [];
  controller = [];
  scheduled = 1;
}

window_of-IsWindow : (queue : List PacketFrame) → IsWindow (window_of queue)
unfolding total_size total_goodput
window_of-IsWindow queue = record {
  bound = omega arith;
  aged = tt;
  short = omega arith;
  older = [];
  split = refl;
  known = tt;
  total_sum = refl;
  goodput_sum = refl;
}

abbrev frame_of : List ℕ → PacketFrame
frame_of rs = record { packets_in_frame = rs; frame_encode_time = 0; retransmission = false }

abbrev two_frames : Window
two_frames = window_of (frame_of (0 ∷ 1 ∷ []) ∷ frame_of (2 ∷ []) ∷ [])

abbrev size_on_net : VideoPacket → ℕ
size_on_net p = p.payload_size + 60

drain-Drains_example : Drains size_on_net true 16000000 5000000 two_frames (0 ∷ 1 ∷ 2 ∷ [])
drain-Drains_example =
    drain-Drains size_on_net true 16000000 5000000 two_frames (0 ∷ 1 ∷ 2 ∷ []) refl
      (window_of-IsWindow (frame_of (0 ∷ 1 ∷ []) ∷ frame_of (2 ∷ []) ∷ []))
      (omega arith, (omega arith, tt)) (omega arith)

send_packet-Sends_example : Sends size_on_net true 16000000 5000000 two_frames 0 (1 ∷ 2 ∷ [])
send_packet-Sends_example =
    send_packet-Sends size_on_net true 16000000 5000000 two_frames (frame_of (0 ∷ 1 ∷ []))
      (frame_of (2 ∷ []) ∷ []) 0 (1 ∷ []) refl refl
      (window_of-IsWindow (frame_of (0 ∷ 1 ∷ []) ∷ frame_of (2 ∷ []) ∷ [])) (omega arith, tt)
      (omega arith) (omega arith)

pace-total_run :
    (a : ℕ × ℕ) × (pace 16000000 5000000
        (frame_of (0 ∷ 1 ∷ []) ∷ frame_of (2 ∷ []) ∷ [])
        (0, 9000000)
      ≡ some a)
    × (a.1 ≤ 9000000)
pace-total_run =
    pace-total 16000000 5000000 (frame_of (0 ∷ 1 ∷ []) ∷ frame_of (2 ∷ []) ∷ []) 0 9000000
      (omega arith, (omega arith, tt)) (omega arith)

-- One packet, sent and looked at 20 milliseconds after the start.
abbrev packet_4 : SentPacketInfo
packet_4 = record {
  pkt_id = 4;
  batch_id = 0;
  pkt_send_time = 20000000;
  pkt_ack_time = 0;
  pkt_type = data_pkt;
  is_goodput = true;
  pkt_size = 700;
}

abbrev sent_early : List (ℕ × SentPacketInfo)
sent_early = (4, packet_4) ∷ []

sent_early-past : (s : SentPacketInfo) → find 4 sent_early ≡ some s → s.pkt_send_time ≤ 20000000
unfolding find
sent_early-past s e = ground (arith, e)

drop_old-early_run :
    drop_old (oldest_at 20000000) sent_early (4 ∷ []) 700 700
    ≡ some (record { wnd = []; total = 0; goodput = 0 })
unfolding find total_size total_goodput
drop_old-early_run =
    drop_old-early 20000000 sent_early (4 ∷ []) 700 700 (omega arith)
      ((packet_4, refl, omega arith), tt) (sent_early-past, tt) (omega arith) refl refl

abbrev ids_of : Ids
ids_of = record { group_id = 4294967295; batch_id = 9; send_group_cnt = 0; store = packets }

packets-data : All (λ r. is_data (packets.at r).packet_type ≡ true) (0 ∷ 1 ∷ 2 ∷ [])
unfolding is_data set_fec_group new_packet
packets-data = (refl, (refl, (refl, tt)))

packets-Distinct : Distinct (0 ∷ 1 ∷ 2 ∷ [])
unfolding zhuge.Group.contains
packets-Distinct = (refl, (refl, (refl, tt)))

create_first_packet_batch-Batched_example : Batched 0 5 (λ (n : ℕ). n / 2) (0 ∷ 1 ∷ 2 ∷ []) ids_of
create_first_packet_batch-Batched_example =
    create_first_packet_batch-Batched 0 5 (λ (n : ℕ). n / 2) 0 (1 ∷ 2 ∷ []) ids_of packets-Distinct
      packets-data (omega arith, (omega arith, (omega arith, tt))) (omega arith)

abbrev info : ℕ → ℕ → GroupPacketInfo
info g p = record { group_id = g; pkt_in_group = p }

-- Two packets of a group, of which one is acknowledged and the other too late, and one of the next.
abbrev events : List Event
events =
    stored (info 0 0) 1
    ∷ stored (info 0 1) 2
    ∷ acked (info 0 0 ∷ info 5 5 ∷ [])
    ∷ stored (info 1 0) 30
    ∷ checked 140
    ∷ []

nothing-IsKept : IsKept (λ (r : ℕ). r) 100 [] 0 (record { key = []; packets = [] })
unfolding look find
nothing-IsKept = record {
  queue = record { ordered = tt; covered = λ g p e. refl };
  known = λ g p e. refl;
  before = λ g p q e. absurd (cc (e));
}

run-replay_example :
    IsQueue (λ (r : ℕ). r) (run (λ (r : ℕ). r) 100 events (record { key = []; packets = [] }))
    × (view (λ (r : ℕ). r) 100 (run (λ (r : ℕ). r) 100 events (record { key = []; packets = [] }))
        ≡ replay
            (λ (r : ℕ). r)
            100
            events
            (view (λ (r : ℕ). r) 100 (record { key = []; packets = [] })))
run-replay_example =
    run-replay (λ (r : ℕ). r) 100 events [] 0 (record { key = []; packets = [] })
      (refl, omega arith, (refl, omega arith, (refl, omega arith, tt))) nothing-IsKept

-- Groups of two packets with an FEC packet each; a fixed size is the size asked for.
abbrev two_each : Asked → FecParam
two_each a = record {
  fec_group_size = if a.fix_group_size then a.max_group_size else 2;
  fec_count = λ (n : ℕ). n / 2;
}

two_each-fixed :
    (a : Asked) → a.fix_group_size ≡ true → (two_each a).fec_group_size ≡ a.max_group_size
two_each-fixed a e = ground (arith, e)

abbrev always_two : Asked → FecParam
always_two a = record { fec_group_size = 2; fec_count = λ (n : ℕ). n / 2 }

abbrev state : State
state = record {
  window = window_of (frame_of (2 ∷ []) ∷ []);
  kept = record { key = info 0 0 ∷ info 0 1 ∷ []; packets = (0, (0, 0) ∷ (1, 1) ∷ []) ∷ [] };
  group_id = 1;
  batch_id = 1;
  send_group_cnt = 1;
  frame_data_pkt_cnt = (0, 3) ∷ [];
}

abbrev net_stat : NetStat
net_stat = record {
  srtt = 50000000;
  rtt_sd = 1000000;
  min_rtt = 30000000;
  one_way_dispersion = 1000;
}

packets-group : (r : ℕ) → IsOfGroup 0 (packets.at r)
unfolding is_data set_fec_group new_packet
packets-group r = record { data_packet = refl; set = refl; group = refl }

retransmit_group-Resends_example :
    Resends
      (λ (m : List (ℕ × ℕ)). m)
      two_each
      two_each-fixed
      size_on_net
      true
      16000000
      100000000
      0
      90000000
      net_stat
      (0 ∷ 1 ∷ [])
      state
      (retransmit_group
        (λ (m : List (ℕ × ℕ)). m)
        two_each
        size_on_net
        true
        16000000
        100000000
        0
        90000000
        net_stat
        0
        state)
unfolding find new_packet set_fec_group
retransmit_group-Resends_example =
    retransmit_group-Resends (λ (m : List (ℕ × ℕ)). m) two_each two_each-fixed size_on_net true
      16000000 100000000 0 90000000 net_stat 0 state ((0, 0) ∷ (1, 1) ∷ []) 0 3 (1 ∷ []) refl refl
      (packets-group 0, (packets-group 1, tt)) (omega arith) (omega arith, (omega arith, tt)) refl
      (omega arith, tt) (omega arith)

-- A controller that counts what it hears; packet `id` was sent at `20000 * id`.
abbrev counting : Controls ℕ
counting = record {
  tx_timestamp = λ c id. 20000 * id;
  size = λ c id. 100;
  process = λ h c. some (suc c);
  prune = λ id c. some c;
}

abbrev arrival : ℕ → RcvTime
arrival id = record { pkt_id = id; rt_us = 20000 * id + 30000; pkt_size = 100 }

no_bursts-IsCounted : IsCounted no_bursts
no_bursts-IsCounted = record {
  current = λ e. absurd (cc (e));
  previous = λ g. absurd (omega (arith, g));
  small = omega arith;
  first = λ e. refl;
}

on_items-Takes_run :
    (s : Bursts × ℕ) × (on_items counting 16 900000
        (arrival 1 ∷ arrival 2 ∷ arrival 3 ∷ [])
        (no_bursts, 0)
      ≡ some s)
    × IsCounted s.0
on_items-Takes_run =
    on_items-Takes counting 16 900000 ((λ h c. (suc c, refl)), (λ id c. (c, refl)))
      (arrival 1 ∷ arrival 2 ∷ arrival 3 ∷ []) no_bursts 0 no_bursts-IsCounted (omega arith)

-- Packet 1 is the start of the burst; packets 20 and 21 were sent more than 320 milliseconds later.
abbrev one_packet : Bursts
one_packet = record no_bursts {
  first_feedback = false;
  groupstart_tx_time = 20000;
  curr_pkts_in_frame = 1;
}

late_items : (in_reach 16 400000 one_packet ≡ false) × (in_reach 16 420000 one_packet ≡ false)
unfolding in_reach zhuge.Sender.less_than
late_items = (refl, refl)

on_items-stalls_run :
    on_items counting 16 900000 (arrival 20 ∷ arrival 21 ∷ []) (one_packet, 0)
    ≡ some (one_packet, 0)
on_items-stalls_run =
    on_items-stalls counting 16 900000 (arrival 20 ∷ arrival 21 ∷ []) one_packet 0 refl
      (late_items.0, (late_items.1, tt))

abbrev frame_acks : List (ℕ × ℕ × ℕ)
frame_acks = (90000000, 3, 0) ∷ (200000000, 12, 0) ∷ (90000000, 12, 0) ∷ []

abbrev no_frames : Frames
no_frames = record {
  finished_frame_cnt = 0;
  timeout_frame_cnt = 0;
  exclude_ten_finished_frame_cnt = 0;
}

on_frame_acks-counts_example :
    ((on_frame_acks 100000000 frame_acks no_frames).finished_frame_cnt % 18446744073709551616
      ≡ (0 + in_time 100000000 frame_acks) % 18446744073709551616)
    × ((on_frame_acks 100000000 frame_acks no_frames).timeout_frame_cnt % 18446744073709551616
        ≡ (0 + (length frame_acks - in_time 100000000 frame_acks)) % 18446744073709551616)
    × ((on_frame_acks 100000000 frame_acks no_frames).exclude_ten_finished_frame_cnt
          % 18446744073709551616
        ≡ (0 + in_time_late_start 100000000 frame_acks) % 18446744073709551616)
on_frame_acks-counts_example = on_frame_acks-counts 100000000 frame_acks no_frames
