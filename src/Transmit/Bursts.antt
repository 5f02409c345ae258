-- ===== src/Transmit/Bursts.antt =====
-- The feedback of a `NETSTATE_PKT` in `OnSocketRecv_sender` of packet-sender-udp.cc: the times at
-- which packets arrived, gathered into bursts for the congestion controller. `none` is a failed
-- assertion or a division by zero, here or in the controller.
pub mod Laws
use zhuge.Prelude.{
  ℕ, zero, suc, ◌+◌, ◌-◌, ◌*◌, ◌/◌, Bool, true, false, ◌&&◌, ◌||◌, List, [], ◌∷◌, Option, none,
  some, ltb, leb, ◌==◌, if◌then◌else◌, ◌>>=◌,
}
use zhuge.Prelude.Words.{add_w, sub_w, u32}
use zhuge.Wire.NetState.{RcvTime}
use zhuge.Sender.{Controller, less_than}
use zhuge.Sender.Feedback.{process_feedback}
use zhuge.Sender.Metrics.{packet_tx_timestamp, packet_size, prune_transit_history}

-- The arguments of `processFeedback`. Signed numbers are their words.
pub record Heard : Type 0 where
  pub now_us : ℕ
  pub id : ℕ
  pub rx_time : ℕ
  pub inter_arrival : ℕ
  pub inter_departure : ℕ
  pub inter_delay_var : ℕ
  pub inter_group_size : ℕ
  pub prev_rx_time : ℕ

-- What the sender calls of its controller.
pub record Controls (C : Type 0) : Type 0 where
  pub tx_timestamp : C → ℕ → ℕ
  pub size : C → ℕ → ℕ
  pub process : Heard → C → Option C
  pub prune : ℕ → C → Option C

-- The controller's base class. Of the feedback it reads the packet and its times.
abbrev pub base_controls : Controls Controller
base_controls = record {
  tx_timestamp = packet_tx_timestamp;
  size = packet_size;
  process = λ h c. process_feedback c h.now_us h.id h.rx_time >>= (λ r. some r.0);
  prune = λ id c. prune_transit_history c id;
}

pub record Bursts : Type 0 where
  pub first_feedback : Bool
  pub group_id : ℕ
  pub group_size : ℕ
  pub groupstart_tx_time : ℕ
  pub prev_id : ℕ
  pub prev_rx_time : ℕ
  pub prev_groupend_id : ℕ
  pub prev_groupend_rx_time : ℕ
  pub prev_group_size : ℕ
  pub prev_pkts_in_frame : ℕ
  pub curr_pkts_in_frame : ℕ
  pub prev_frame_tx_time : ℕ
  pub curr_frame_tx_time : ℕ
  pub prev_frame_rx_time : ℕ
  pub curr_frame_rx_time : ℕ

-- The fields that the constructor sets.
abbrev pub no_bursts : Bursts
no_bursts = record {
  first_feedback = true;
  group_id = 0;
  group_size = 0;
  groupstart_tx_time = 0;
  prev_id = 0;
  prev_rx_time = 0;
  prev_groupend_id = 0;
  prev_groupend_rx_time = 0;
  prev_group_size = 0;
  prev_pkts_in_frame = 0;
  curr_pkts_in_frame = 0;
  prev_frame_tx_time = 0;
  curr_frame_tx_time = 0;
  prev_frame_rx_time = 0;
  curr_frame_rx_time = 0;
}

unfoldable pub first_item : ℕ → ℕ → ℕ → ℕ → Bursts → Bursts
first_item id rx tx size b = record b {
  prev_id = id;
  prev_rx_time = rx;
  group_id = 0;
  group_size = u32 size;
  groupstart_tx_time = tx;
  first_feedback = false;
  curr_pkts_in_frame = 1;
}

-- The differences between the averages of two bursts.
unfoldable pub heard : ℕ → ℕ → ℕ → Bursts → Heard
heard now id rx b =
    let arrival =
      sub_w 64 (b.curr_frame_rx_time / b.curr_pkts_in_frame)
        (b.prev_frame_rx_time / b.prev_pkts_in_frame) in
    let departure =
      sub_w 64 (b.curr_frame_tx_time / b.curr_pkts_in_frame)
        (b.prev_frame_tx_time / b.prev_pkts_in_frame) in
    record {
      now_us = now;
      id = id;
      rx_time = rx;
      inter_arrival = arrival;
      inter_departure = departure;
      inter_delay_var = sub_w 64 arrival departure;
      inter_group_size = sub_w 32 b.group_size b.prev_group_size;
      prev_rx_time = b.prev_rx_time;
    }

-- A new burst begins.
unfoldable pub next_burst : ℕ → Bursts → Bursts
next_burst tx b = record b {
  prev_group_size = b.group_size;
  prev_groupend_id = b.prev_id;
  prev_groupend_rx_time = b.prev_rx_time;
  group_id = add_w 32 b.group_id 1;
  group_size = 0;
  groupstart_tx_time = tx;
  prev_frame_tx_time = b.curr_frame_tx_time;
  prev_frame_rx_time = b.curr_frame_rx_time;
  prev_pkts_in_frame = b.curr_pkts_in_frame;
  curr_frame_tx_time = 0;
  curr_frame_rx_time = 0;
  curr_pkts_in_frame = 0;
}

unfoldable pub extend : ℕ → ℕ → ℕ → ℕ → Bursts → Bursts
extend id rx tx size b = record b {
  curr_pkts_in_frame = add_w 16 b.curr_pkts_in_frame 1;
  curr_frame_tx_time = add_w 64 b.curr_frame_tx_time tx;
  curr_frame_rx_time = add_w 64 b.curr_frame_rx_time rx;
  group_size = add_w 32 b.group_size size;
  prev_id = id;
  prev_rx_time = rx;
}

-- The packet was sent in the burst or after it, by at most 20 intervals.
unfoldable pub in_reach : ℕ → ℕ → Bursts → Bool
in_reach interval tx b =
    (less_than 64 b.groupstart_tx_time tx
      && leb (sub_w 64 tx b.groupstart_tx_time) (20 * interval * 1000))
    || (b.groupstart_tx_time == tx)

module _ {C : Type 0} (k : Controls C) (interval now : ℕ) where
  -- From the second burst on, the controller hears of each that ends.
  unfoldable pub report : ℕ → ℕ → Bursts → C → Option C
  report id rx b c =
      if b.group_id == 0
      then some c
      else if (b.prev_pkts_in_frame == 0) || (b.curr_pkts_in_frame == 0)
      then none
      else k.process (heard now id rx b) c

  unfoldable pub switch : ℕ → ℕ → ℕ → Bursts × C → Option (Bursts × C)
  switch id rx tx (b, c) = do
    c₁ ← report id rx b c
    c₂ ← k.prune b.prev_groupend_id c₁
    some (next_burst tx b, c₂)

  unfoldable pub in_burst : ℕ → ℕ → ℕ → Bursts × C → Option (Bursts × C)
  in_burst id rx tx (b, c) =
      (if ltb 10000 (sub_w 64 tx b.groupstart_tx_time) then switch id rx tx (b, c) else some (b, c))
      >>= (λ s. some (extend id rx tx (k.size s.1 id) s.0, s.1))

  unfoldable pub on_item : RcvTime → Bursts × C → Option (Bursts × C)
  on_item i (b, c) =
      let tx = k.tx_timestamp c i.pkt_id in
      if b.first_feedback
      then some (first_item i.pkt_id i.rt_us tx (k.size c i.pkt_id) b, c)
      else if in_reach interval tx b
      then in_burst i.pkt_id i.rt_us tx (b, c)
      else some (b, c)

  unfoldable pub on_items : List RcvTime → Bursts × C → Option (Bursts × C)
  on_items [] s = some s
  on_items (i ∷ is) s = on_item i s >>= on_items is
