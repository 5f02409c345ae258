-- ===== src/Sender/Tests.antt =====
-- Instances of the properties of the sender-based controller, with numbers that wrap.
use zhuge.Prelude.{
  ℕ, ◌^◌, ◌≤◌, ◌<◌, ◌≡◌, ◌↔◌, refl, true, false, List, [], ◌∷◌, ◌++◌, take, none, some, arith,
}
use zhuge.Prelude.Words.{sub_w}
use zhuge.Sender.{PacketRecord, Controller, new_inter_loss, less_than, last_record}
use zhuge.Sender.Serial.{less_than-window}
use zhuge.Sender.Invariant.{IsValid, total_size}
use zhuge.Sender.Send.{drop_old, has_sequence, sent, next_sequence, expect, process_send}
use zhuge.Sender.Send.Laws.{process_send-accepts, process_send-IsValid}
use zhuge.Sender.Feedback.{
  grow_first, update_inter_loss, drop_before, pseudo_size, collect, is_empty, with_delays,
  with_size, base_delay, measure, acknowledge, count_lost, take_feedback, process_feedback,
}
use zhuge.Sender.Feedback.Laws.{Dropped, process_send-jams, process_feedback-stops}
use zhuge.Sender.Feedback.Kept.{process_feedback-IsValid}
use zhuge.Sender.Metrics.{min_filter, span_loop, rx_us}
use zhuge.Sender.Metrics.Laws.{least, min_filter-least, span_loop-second}

less_than-window_run : (less_than 16 65535 3 ≡ true) ↔ ((0 < 4) × (4 < 2 ^ 15))
less_than-window_run = less_than-window 65535 4 (omega arith)

abbrev record_of : ℕ → ℕ → PacketRecord
record_of n t = record { sequence = n; tx_timestamp_us = t; size = 1000; owd_us = 0; rtt_us = 0 }

-- Three packets are in transit, and the numbers have wrapped.
abbrev busy : Controller
busy = record {
  first_send = false;
  last_sequence = 0;
  base_delay_us = 0;
  in_transit_packets = record_of 65534 1000 ∷ record_of 65535 2000 ∷ record_of 0 3000 ∷ [];
  packet_transit_history = record_of 65534 1000 ∷ record_of 65535 2000 ∷ record_of 0 3000 ∷ [];
  packet_history = [];
  recv_history = [];
  pkt_size_sum = 0;
  last_recv_sequence = 65533;
  il_state = record { intervals = 0 ∷ []; expected_seq = 0; initialized = false };
  lost = 0;
  last_fraction_loss = 0;
  loss_counter = 0;
  history_length_us = 500000;
}

busy-IsValid : IsValid busy
unfolding total_size
busy-IsValid = record {
  run = (refl, (refl, refl));
  unacked = ((refl, refl), ((refl, refl), ((refl, refl), tt)));
  first = λ h. absurd cc;
  total = refl;
  intervals = (omega arith, omega arith);
}

process_send-accepts_run :
    (kept : List PacketRecord) × (process_send busy 4000 1 1200
      ≡ some (
        record busy {
          first_send = false;
          last_sequence = 1;
          in_transit_packets = kept ++ sent 1 4000 1200 ∷ [];
          packet_transit_history = busy.packet_transit_history ++ sent 1 4000 1200 ∷ [];
        },
        true,
      ))
unfolding next_sequence has_sequence
process_send-accepts_run = process_send-accepts busy 4000 1 1200 (omega arith) refl refl

abbrev busier : Controller
busier = record busy {
  last_sequence = 1;
  in_transit_packets = busy.in_transit_packets ++ record_of 1 4000 ∷ [];
  packet_transit_history = busy.packet_transit_history ++ record_of 1 4000 ∷ [];
}

process_send-IsValid_example : IsValid busier
unfolding process_send next_sequence expect has_sequence drop_old sent less_than
process_send-IsValid_example = process_send-IsValid busy 4000 1 1000 busy-IsValid refl

process_send-jams_example :
    process_send busy 4000 7 1000 ≡ some (expect busy 7, false)
    × ((now sequence rx : ℕ)
        → less_than 16 (expect busy 7).last_sequence sequence ≡ false
        → process_feedback (expect busy 7) now sequence rx ≡ none)
unfolding next_sequence
process_send-jams_example =
    process_send-jams busy 4000 7 1000 (record_of 65534 1000)
      (record_of 65535 2000 ∷ record_of 0 3000 ∷ []) busy-IsValid refl (λ e. omega (arith, e))

process_feedback-stops_example :
    (r : PacketRecord × List PacketRecord × ℕ) × (process_feedback busy 50000 65535 30000
      ≡ take_feedback busy 50000 65535 30000 r)
    × Dropped 65535 busy.in_transit_packets 0 r
unfolding less_than
process_feedback-stops_example =
    process_feedback-stops busy 50000 65535 30000 (record_of 65534 1000)
      (record_of 65535 2000 ∷ record_of 0 3000 ∷ []) busy-IsValid refl refl

-- The first packet in transit is acknowledged.
abbrev acked : PacketRecord
acked = record (record_of 65534 1000) { owd_us = 29000; rtt_us = 49000 }

abbrev less_busy : Controller
less_busy = record busy {
  base_delay_us = 29000;
  in_transit_packets = record_of 65535 2000 ∷ record_of 0 3000 ∷ [];
  packet_history = acked ∷ [];
  recv_history = acked ∷ [];
  pkt_size_sum = 1000;
  last_recv_sequence = 65534;
  il_state = record { intervals = 1 ∷ []; expected_seq = 65535; initialized = false };
}

process_feedback-IsValid_example : IsValid less_busy
unfolding process_feedback less_than is_empty last_record drop_before take_feedback acknowledge
    measure count_lost with_delays with_size base_delay pseudo_size update_inter_loss new_inter_loss
    grow_first collect
process_feedback-IsValid_example =
    process_feedback-IsValid busy 50000 65534 30000 {ok = true} busy-IsValid refl

min_filter-least_run :
    min_filter (λ p. p.tx_timestamp_us) 0 0 (record_of 2 900 ∷ record_of 1 700 ∷ [])
    ≡ least (λ p. p.tx_timestamp_us) (record_of 2 900) (take 14 (record_of 1 700 ∷ []))
min_filter-least_run =
    min_filter-least (λ p. p.tx_timestamp_us) (record_of 2 900) (record_of 1 700 ∷ [])

span_loop-second_run : (1000000 ≤ sub_w 64 3000000 1500000) × (1 ≤ 2) × (2 ≤ 3)
unfolding span_loop rx_us
span_loop-second_run =
    span_loop-second 3000000 3000000 0
      (record_of 3 1500000 ∷ record_of 2 1400000 ∷ record_of 1 1000000 ∷ []) refl
