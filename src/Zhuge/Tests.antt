-- ===== src/Zhuge/Tests.antt =====
-- Runs of network-queue-zhuge.cc at concrete inputs, and instances of its theorems.
use mathlib.Core.List.{reverse}
use zhuge.Prelude.{
  ℕ, ◌+◌, ◌*◌, ◌/◌, ◌%◌, ◌^◌, ◌≤◌, ◌<◌, ◌≡◌, ◌≢◌, ◌↔◌, ◌⊎◌, refl, inr, true, false, [], ◌∷◌, some,
  none, arith,
}
use zhuge.Prelude.Int.{pos, negsuc, ◌+ℤ◌}
use zhuge.Delay.{ms}
use zhuge.Delay.Middle.{middle}
use zhuge.Delay.Sample.{init-IsValid}
use zhuge.Zhuge.{Packet, Queue, Config, State, start, min_tx_rate_bps}
use zhuge.Zhuge.Rate.{update_tx_rate, sums, no_sums, tx_rate}
use zhuge.Zhuge.Rate.Laws
use zhuge.Zhuge.Rate.Update.{
  sent_bytes, active_slots, HasData, tx_rate-average, update_tx_rate-IsValid, update_tx_rate-total,
  update_tx_rate-mode_wifi,
}
use zhuge.Zhuge.QueueDelay.{
  Rounding, strip_tail, queue_size, queue_delay, fits_one_ampdu, calculate_total_delay_ms,
}
use zhuge.Zhuge.QueueDelay.Laws.{
  bytes, bytes_ahead, has_flow, strip_tail-eq-bytes_ahead, queue_size_exact,
  calculate_total_delay_ms-none, queue_delay_mono,
}
use zhuge.Zhuge.Acks.{forward_ack}
use zhuge.Zhuge.Acks.Order.{Forwards, forward_ack-Forwards}
use zhuge.Zhuge.Receive.{on_recv_rcvdev}
use zhuge.Zhuge.Receive.Laws.{KeptBy, on_recv_rcvdev-KeptBy}
use zhuge.Zhuge.Sendback.{report, feedback, sendback}
use zhuge.Zhuge.Sendback.Laws.{report-exact, report-stale, sendback-flag}
use zhuge.Zhuge.History.{towards_receiver, towards_sender, tick, run}
use zhuge.Zhuge.History.Order.{Runs, run-start-Runs}

abbrev media : Packet
media = record {
  is_action = false;
  size = 1000;
  src = 1;
  dst = 2;
  protocol = 17;
  ident = 7;
  payload_size = 980;
  tcp_flags = 0;
  src_port = 99;
  global_id = 5;
  is_data = true;
  app_size = 900;
}

abbrev other : Packet
other = record media { src_port = 80; size = 300 }

abbrev ack : Packet
ack = record media { src = 2; dst = 1; protocol = 6; tcp_flags = 16; payload_size = 20 }

abbrev segment : Packet
segment = record media { protocol = 6; tcp_flags = 16 }

abbrev queue : Queue
queue = record { packets = other ∷ media ∷ other ∷ []; n_bytes = 1600; total_received_bytes = 5000 }

abbrev udp_config : Config
udp_config = record {
  wirtc_enable = true;
  send_ip = 1;
  send_port = 99;
  recv_ip = 2;
  cc_create = false;
  mode = 1;
  fast_ack_rtx = false;
  tx_bytes_list_window = 0;
}

abbrev tcp_config : Config
tcp_config = record udp_config { cc_create = true }

abbrev udp_start : State
unfolding start
udp_start = start udp_config 40 0

abbrev tcp_start : State
unfolding start
tcp_start = start tcp_config 40 0

floor_delay-zero : (b : ℕ) → 1000 * 0 / b ≡ 0
floor_delay-zero b = omega arith

floor_delay_mono : (a c b : ℕ) → a ≤ c → 1000 * a / b ≤ 1000 * c / b
floor_delay_mono a c b h = grind arith

floor_delay : Rounding
floor_delay = record {
  delay_ms = λ a b. 1000 * a / b;
  delay_ms_zero = floor_delay-zero;
  delay_ms_mono = floor_delay_mono;
}

start-Rate_IsValid : Laws.IsValid udp_start
unfolding start
start-Rate_IsValid = omega arith

run-start-Runs_example : Runs (pos 0) (
    run floor_delay (start tcp_config 40 0) (
      towards_receiver (4000 * ms) 3000 queue segment
      ∷ towards_sender middle (4001 * ms) ack
      ∷ tick (4002 * ms) queue
      ∷ towards_receiver (4003 * ms) 9000 queue segment
      ∷ towards_sender middle (4004 * ms) ack
      ∷ []))
run-start-Runs_example = run-start-Runs floor_delay tcp_config 40 0 _ refl refl (omega arith)

abbrev waiting : State
unfolding start
waiting = record (start tcp_config 40 0) {
  is_first_ack = false;
  last_ack_arrv = pos (3 * ms);
  last_ack_sent = pos (9 * ms);
}

forward_ack-Forwards_example :
    Forwards (pos (9 * ms)) (5 * ms) (forward_ack middle waiting (5 * ms))
unfolding start ◌+ℤ◌
forward_ack-Forwards_example =
    forward_ack-Forwards middle waiting (5 * ms)
      (record { delta = init-IsValid; after = inr (omega arith); within = inr (omega arith) })
      (inr (omega arith))

on_recv_rcvdev-KeptBy_example :
    KeptBy tcp_start (on_recv_rcvdev floor_delay tcp_start (4000 * ms) 3000 queue segment)
unfolding start
on_recv_rcvdev-KeptBy_example =
    on_recv_rcvdev-KeptBy floor_delay tcp_start (4000 * ms) 3000 queue segment refl

update_tx_rate-total_run :
    (s : State) × (update_tx_rate udp_start queue ≡ some s) × (min_tx_rate_bps ≤ s.cur_tx_rate_bps)
unfolding start
update_tx_rate-total_run = update_tx_rate-total udp_start queue refl

abbrev after_tick : State
unfolding start
after_tick = (update_tx_rate-total udp_start queue refl).0

after_tick_eq : update_tx_rate udp_start queue ≡ some after_tick
unfolding start
after_tick_eq = (update_tx_rate-total udp_start queue refl).1

update_tx_rate-IsValid_example : Laws.IsValid after_tick
update_tx_rate-IsValid_example =
    update_tx_rate-IsValid udp_start queue start-Rate_IsValid after_tick_eq

abbrev wifi_start : State
unfolding start
wifi_start = start (record udp_config { mode = 0 }) 40 0

update_tx_rate-mode_wifi_example : (update_tx_rate wifi_start queue ≡ none) ↔ HasData queue.packets
unfolding start
update_tx_rate-mode_wifi_example = update_tx_rate-mode_wifi wifi_start queue refl

-- A full window, with one idle slot.
tx_rate-average_example :
    tx_rate 3 (sums no_sums (pos 3000 ∷ negsuc 0 ∷ pos 0 ∷ [])) ≡ 1000 * (3000 * 8 / 2)
unfolding sent_bytes active_slots
tx_rate-average_example =
    tx_rate-average 3 (pos 3000 ∷ negsuc 0 ∷ pos 0 ∷ []) (omega arith) (omega arith) (omega arith)
      (omega arith)

strip_tail-eq-bytes_ahead_example : strip_tail 99 (reverse queue.packets) 1600 ≡ 300
unfolding bytes bytes_ahead has_flow
strip_tail-eq-bytes_ahead_example = strip_tail-eq-bytes_ahead 99 queue.packets (omega arith)

queue_size_exact_run : queue_size udp_start 3000 queue 2000 ≡ some 2600
unfolding start
queue_size_exact_run =
    queue_size_exact udp_start 3000 queue 2000 (inr refl) (omega arith) (omega arith)

abbrev unknown_start : State
unfolding start
unknown_start = start (record udp_config { mode = 2 }) 40 0

aborts : calculate_total_delay_ms floor_delay unknown_start 3000 queue 0 ≡ none
unfolding start calculate_total_delay_ms queue_size
aborts = refl

calculate_total_delay_ms-none_run : (0 ≤ 3000) × (◌≢◌ {A = ℕ} 2 0) × (◌≢◌ {A = ℕ} 2 1)
unfolding start
calculate_total_delay_ms-none_run =
    calculate_total_delay_ms-none floor_delay unknown_start 3000 queue 0 aborts

queue_delay_mono_run :
    queue_delay floor_delay udp_start 3000 ≤ queue_delay floor_delay udp_start 4000
unfolding start fits_one_ampdu
queue_delay_mono_run =
    queue_delay_mono floor_delay udp_start 3000 4000 (omega arith) (omega arith) refl

report-exact_example :
    let (s', f) = report udp_start 70 8 media in
    (((0 < 5) ⊎ (5 + 32768 < 0))
      × (s'.last_id ≡ 5)
      × (f ≡ some (feedback udp_start 70 8 media))
      × ((0 + (feedback udp_start 70 8 media).loss_seq) % 2 ^ 16 ≡ 5))
    ⊎ ((5 ≤ 0) × (0 ≤ 5 + 32768) × (s'.last_id ≡ 0) × (f ≡ none))
unfolding start
report-exact_example = report-exact udp_start 70 8 media (omega arith) (omega arith)

abbrev late : Packet
late = record media { global_id = 65530 }

report-stale_run :
    ((report udp_start 70 8 late).0.last_id ≡ 65530)
    × (32768 ≤ (feedback udp_start 70 8 late).loss_seq)
unfolding start
report-stale_run = report-stale udp_start 70 8 late (omega arith) (omega arith)

sendback_run : udp_start.schedule_flag ≡ false
unfolding start sendback
sendback_run = sendback-flag floor_delay udp_start 70 3000 queue {s' = udp_start} {f = none} refl
