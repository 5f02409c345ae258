-- ===== src/Sender.antt =====
-- `SenderBasedController` of congestion-control/sender-based-controller.cc: what the sender's
-- congestion controllers keep of the packets they sent and of the feedback. `none` is a failed
-- assertion, or a use of a deque that is undefined (an element of an empty one, an iterator after
-- `erase`).
pub mod Serial
pub mod Send
pub mod Feedback
pub mod Invariant
pub mod Metrics
pub mod Tests
use zhuge.Prelude.{
  ℕ, zero, suc, ◌+◌, ◌*◌, ◌%◌, ◌^◌, Bool, true, false, List, [], ◌∷◌, ◌++◌, Option, none, some, ltb,
  ◌==◌, if◌then◌else◌, length,
}
use zhuge.Prelude.Words.{sub_w}

-- The template `lessThan` on words of `w` bits.
unfoldable pub less_than : ℕ → ℕ → ℕ → Bool
less_than w lhs rhs = ltb (sub_w w rhs lhs) (sub_w w lhs rhs)

pub record PacketRecord : Type 0 where
  pub sequence : ℕ
  pub tx_timestamp_us : ℕ
  pub size : ℕ
  pub owd_us : ℕ
  pub rtt_us : ℕ

pub record InterLossState : Type 0 where
  pub intervals : List ℕ
  pub expected_seq : ℕ
  pub initialized : Bool

pub record Controller : Type 0 where
  pub first_send : Bool
  pub last_sequence : ℕ
  pub base_delay_us : ℕ
  pub in_transit_packets : List PacketRecord
  pub packet_transit_history : List PacketRecord
  pub packet_history : List PacketRecord
  pub recv_history : List PacketRecord
  pub pkt_size_sum : ℕ
  pub last_recv_sequence : ℕ
  pub il_state : InterLossState
  pub lost : ℕ
  pub last_fraction_loss : ℕ
  pub loss_counter : ℕ
  pub history_length_us : ℕ

abbrev pub min_packet_loglen : ℕ
min_packet_loglen = 1

abbrev pub max_inter_packet_time_us : ℕ
max_inter_packet_time_us = 500 * 1000

abbrev pub default_history_length_us : ℕ
default_history_length_us = 500 * 1000

pub new_inter_loss : InterLossState
new_inter_loss = record { intervals = 0 ∷ []; expected_seq = 0; initialized = false }

-- The constructor.
pub new_controller : Controller
new_controller = record {
  first_send = true;
  last_sequence = 0;
  base_delay_us = 0;
  in_transit_packets = [];
  packet_transit_history = [];
  packet_history = [];
  recv_history = [];
  pkt_size_sum = 0;
  last_recv_sequence = 0;
  il_state = new_inter_loss;
  lost = 0;
  last_fraction_loss = 0;
  loss_counter = 0;
  history_length_us = default_history_length_us;
}

-- `reset` leaves the history of sent packets, the packet history, the last received number and
-- the loss counters as they are.
pub reset : Controller → Controller
reset s = record s {
  first_send = true;
  last_sequence = 0;
  base_delay_us = 0;
  in_transit_packets = [];
  recv_history = [];
  pkt_size_sum = 0;
  il_state = new_inter_loss;
  history_length_us = default_history_length_us;
}

pub last_record : List PacketRecord → Option PacketRecord
last_record [] = none
last_record (p ∷ []) = some p
last_record (p ∷ q ∷ ps) = last_record (q ∷ ps)
