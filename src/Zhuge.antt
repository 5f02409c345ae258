-- ===== src/Zhuge.antt =====
-- ns-3.34-diff/src/zhuge/model/network-queue-zhuge.h and network-queue-zhuge.cc: the access point
-- that estimates the queueing delay of a flow and shapes or writes its feedback. The handlers are
-- in the children; the devices, the clock and the parsed headers are arguments.
pub mod Frame
pub mod Rate
pub mod QueueDelay
pub mod Acks
pub mod Receive
pub mod Sendback
pub mod History
mod Tests
use zhuge.Prelude.{ℕ, ◌+◌, ◌*◌, ◌/◌, ◌%◌, ◌^◌, Bool, true, false, List, [], Option, none}
use zhuge.Prelude.Int.{ℤ, pos}
use zhuge.Prelude.Words.{u16, u32}
use zhuge.Delay.{DeltaDelay, ms}
use zhuge.Delay

-- A packet as the handlers see it: the fields of its parsed headers. `is_action` is of the Wi-Fi
-- frame around it, `tcp_flags` and `src_port` of the transport header, `global_id` and `is_data`
-- of the application's header, and `app_size` is what `NetworkPacket::ToInstance` leaves.
pub record Packet : Type 0 where
  pub is_action : Bool
  pub size : ℕ
  pub src : ℕ
  pub dst : ℕ
  pub protocol : ℕ
  pub ident : ℕ
  pub payload_size : ℕ
  pub tcp_flags : ℕ
  pub src_port : ℕ
  pub global_id : ℕ
  pub is_data : Bool
  pub app_size : ℕ

-- A device queue: its packets from the head on, and its two byte counters.
pub record Queue : Type 0 where
  pub packets : List Packet
  pub n_bytes : ℕ
  pub total_received_bytes : ℕ

-- The parameters of `Setup`.
pub record Config : Type 0 where
  pub wirtc_enable : Bool
  pub send_ip : ℕ
  pub send_port : ℕ
  pub recv_ip : ℕ
  pub cc_create : Bool
  pub mode : ℕ
  pub fast_ack_rtx : Bool
  pub tx_bytes_list_window : ℕ

pub record State : Type 0 where
  pub config : Config
  pub open config use *
  pub last_head_id : ℕ
  pub last_head_dst_addr : ℕ
  pub cur_q_head_time_ms : ℕ
  pub cur_q_size_byte : ℕ
  pub last_q_size_byte : ℕ
  pub last_q_delay_ms : ℕ
  pub last_total_delay_ms : ℕ
  pub last_total_tx_bytes : ℕ
  pub tx_bytes_list : List ℤ
  pub cur_tx_rate_bps : ℕ
  pub cur_tx_delay_us : ℕ
  pub delta_ack_delay : DeltaDelay
  pub is_first_ack : Bool
  pub last_ack_arrv : ℤ
  pub last_ack_sent : ℤ
  pub schedule_flag : Bool
  pub sndback_pkt : Option Packet
  pub extra_bytes : ℕ
  pub last_id : ℕ
  pub cache : List Packet

abbrev pub min_tx_rate_bps : ℕ
min_tx_rate_bps = 500 * 2 ^ 10

abbrev pub ampdu_max_wait_ms : ℕ
ampdu_max_wait_ms = 5

-- `kMaxActualDelay`, in nanoseconds.
abbrev pub max_actual_delay : ℤ
max_actual_delay = pos (10 * ms)

abbrev pub udp : ℕ
udp = 17

abbrev pub tcp : ℕ
tcp = 6

-- The flags of a segment that has ACK set and nothing else.
abbrev pub tcp_ack : ℕ
tcp_ack = 16

-- The constructor, `Setup` and `InitSocket` in one. `m_lastQSizeByte` has no initial value in the
-- code: what the memory holds is an argument. The rest of the fields is set before it is read.
unfoldable pub start : Config → ℕ → ℕ → State
start c interval garbage = record {
  config = record c { tx_bytes_list_window = u16 (5 * interval / 1) };
  last_head_id = 0;
  last_head_dst_addr = 0;
  cur_q_head_time_ms = 0;
  cur_q_size_byte = 0;
  last_q_size_byte = garbage;
  last_q_delay_ms = 0;
  last_total_delay_ms = 0;
  last_total_tx_bytes = 0;
  tx_bytes_list = [];
  cur_tx_rate_bps = min_tx_rate_bps;
  cur_tx_delay_us = 0;
  delta_ack_delay = Delay.init;
  is_first_ack = true;
  last_ack_arrv = pos 0;
  last_ack_sent = pos 0;
  schedule_flag = false;
  sndback_pkt = none;
  extra_bytes = 0;
  last_id = 0;
  cache = [];
}
