-- ===== src/Transmit/Window.antt =====
-- `SendPacket`, `SendFrame`, `SendRtx`, `Calculate_pacing_rate` and `UpdateGoodputRatio` of
-- packet-sender-udp.cc: the queue of frames, the windows of sent packets and the statistics. `none` is
-- a failed assertion, a null pointer, a read of an empty frame or a division by zero.
pub mod Goodput
pub mod Sent
pub mod Laws
pub mod Step
pub mod Drain
use zhuge.Prelude.{
  ℕ, zero, suc, ◌+◌, ◌-◌, ◌/◌, ◌%◌, Bool, true, false, not, ◌&&◌, List, [], ◌∷◌, ◌++◌, Option, none,
  some, ltb, leb, ◌==◌, if◌then◌else◌, ◌>>=◌, length,
}
use zhuge.Prelude.Words.{add_w, sub_w, u16}
use zhuge.Group.{contains, insert, has_key, find, put, erase}
use zhuge.Transmit.{VideoPacket, SentPacketInfo, new_sent_info, PacketFrame, Store, modify}
use zhuge.Transmit.History.{is_data}

pub record Statistics : Type 0 where
  pub init_data_pkt_count : ℕ
  pub init_data_pkt_size : ℕ
  pub other_pkt_count : ℕ
  pub other_pkt_size : ℕ
  pub first_ten_frame_group_id : List ℕ
  pub exclude_head_init_data_pkt_count : ℕ
  pub exclude_head_init_data_pkt_size : ℕ
  pub exclude_head_other_pkt_count : ℕ
  pub exclude_head_other_pkt_size : ℕ

-- `goodput_ratio` is the fraction that the source divides. `socket` and `controller` are what was
-- passed to `Send` and `processSendPacket`, the last first; `scheduled` counts the calls of
-- `SendPacket` that wait, or starts of the pacing timer.
pub record Window : Type 0 where
  pub store : Store
  pub queue : List PacketFrame
  pub pkts_history : List (ℕ × SentPacketInfo)
  pub send_wnd : List ℕ
  pub goodput_wnd : List ℕ
  pub goodput_pkts_inwnd : ℕ
  pub total_pkts_inwnd : ℕ
  pub goodput_ratio : ℕ × ℕ
  pub ip_id_counter : ℕ
  pub pacing_interval : ℕ
  pub statistics : Statistics
  pub socket : List VideoPacket
  pub controller : List (ℕ × ℕ × ℕ)
  pub scheduled : ℕ

abbrev pub send_wnd_size : ℕ
send_wnd_size = 10000

abbrev pub goodput_wnd_size : ℕ
goodput_wnd_size = 50000

-- One frame of the loop, and the packets so far. No time is left where the limit has passed.
unfoldable pub pace_frame : ℕ → ℕ → PacketFrame → ℕ × ℕ → Option (ℕ × ℕ)
pace_frame limit now f (left, interval) =
    let left' = add_w 32 left (length f.packets_in_frame) in
    let before_ddl = limit + f.frame_encode_time - now in
    let most = before_ddl / left' in
    if f.retransmission
    then some (left, interval)
    else if left' == 0
    then none
    else some (left', if ltb 0 before_ddl && ltb most interval then most else interval)

unfoldable pub pace : ℕ → ℕ → List PacketFrame → ℕ × ℕ → Option (ℕ × ℕ)
pace limit now [] a = some a
pace limit now (f ∷ fs) a = pace_frame limit now f a >>= pace limit now fs

unfoldable pub calculate_pacing_rate : ℕ → ℕ → Window → Option Window
calculate_pacing_rate limit now w =
    pace limit now w.queue (0, w.pacing_interval)
    >>= (λ a. some (record w { pacing_interval = a.1 }))

-- The first packet of ten frames marks its group.
unfoldable pub note_group : VideoPacket → Statistics → Statistics
note_group p s = record s {
  first_ten_frame_group_id =
      if is_data p.packet_type && ltb p.frame_id 10
      then insert p.group_id s.first_ten_frame_group_id
      else s.first_ten_frame_group_id;
}

unfoldable pub count_goodput : Bool → ℕ → Statistics → Statistics
count_goodput head size s = record s {
  init_data_pkt_count = add_w 64 s.init_data_pkt_count 1;
  init_data_pkt_size = add_w 64 s.init_data_pkt_size size;
  exclude_head_init_data_pkt_count =
      if head
      then s.exclude_head_init_data_pkt_count
      else add_w 64 s.exclude_head_init_data_pkt_count 1;
  exclude_head_init_data_pkt_size =
      if head
      then s.exclude_head_init_data_pkt_size
      else add_w 64 s.exclude_head_init_data_pkt_size size;
}

unfoldable pub count_other : Bool → ℕ → Statistics → Statistics
count_other head size s = record s {
  other_pkt_count = add_w 64 s.other_pkt_count 1;
  other_pkt_size = add_w 64 s.other_pkt_size size;
  exclude_head_other_pkt_count =
      if head then s.exclude_head_other_pkt_count else add_w 64 s.exclude_head_other_pkt_count 1;
  exclude_head_other_pkt_size =
      if head then s.exclude_head_other_pkt_size else add_w 64 s.exclude_head_other_pkt_size size;
}

unfoldable pub count_packet : Bool → ℕ → VideoPacket → Statistics → Statistics
count_packet goodput size p s =
    let s' = note_group p s in
    let head = contains p.group_id s'.first_ten_frame_group_id in
    if goodput then count_goodput head size s' else count_other head size s'

-- The goodput window and its two sums.
pub record Sums : Type 0 where
  pub wnd : List ℕ
  pub total : ℕ
  pub goodput : ℕ

-- The first loop: the packets that were sent before `oldest` leave the goodput window.
unfoldable pub drop_old : ℕ → List (ℕ × SentPacketInfo) → List ℕ → ℕ → ℕ → Option Sums
drop_old oldest m [] total goodput = some (record { wnd = []; total = total; goodput = goodput })
drop_old oldest m (id ∷ ids) total goodput = find id m >>= (λ i.
    let rest =
      drop_old oldest m ids (sub_w 64 total i.pkt_size)
        (if i.is_goodput then sub_w 64 goodput i.pkt_size else goodput) in
    if ltb (i.pkt_send_time / 1000) oldest
    then rest
    else some (record { wnd = id ∷ ids; total = total; goodput = goodput }))

-- The second loop: the history keeps the packets of the send window.
unfoldable pub trim :
    ℕ → List ℕ → List (ℕ × SentPacketInfo) → Option (List ℕ × List (ℕ × SentPacketInfo))
trim limit [] m = some ([], m)
trim limit (id ∷ ids) m =
    let rest = trim limit ids (erase id m) in
    if leb (length (id ∷ ids)) limit
    then some (id ∷ ids, m)
    else if has_key id m
    then rest
    else none

unfoldable pub schedule : Window → Window
schedule w = record w { scheduled = w.scheduled + 1 }

-- The frame that was sent from, or the rest of the queue.
unfoldable pub shorten : ℕ → ℕ → PacketFrame → List ℕ → List PacketFrame → Window → Option Window
shorten limit now f [] fs w = calculate_pacing_rate limit now (record w { queue = fs })
shorten limit now f (r ∷ rs) fs w =
    some (record w { queue = record f { packets_in_frame = r ∷ rs } ∷ fs })

-- `net_size` is the size of the packet on the network, with its headers.
module _ (net_size : VideoPacket → ℕ) (cc_enable : Bool) (limit now : ℕ) where
  unfoldable pub sent_info : VideoPacket → ℕ → SentPacketInfo
  sent_info p id =
      new_sent_info id p.batch_id now p.packet_type (is_data p.packet_type && p.tx_count == 0)
        (net_size p)

  -- The packet goes to the socket and into the windows.
  unfoldable pub emit : ℕ → Window → Window
  emit r w =
      let s = modify r (λ q. record q { send_time = now; global_id = w.ip_id_counter }) w.store in
      let p = s.at r in
      let i = sent_info p w.ip_id_counter in
      record w {
        store = s;
        controller =
            if cc_enable
            then (now / 1000, w.ip_id_counter, net_size p) ∷ w.controller
            else w.controller;
        statistics = count_packet i.is_goodput i.pkt_size p w.statistics;
        goodput_pkts_inwnd =
            if i.is_goodput then add_w 64 w.goodput_pkts_inwnd i.pkt_size else w.goodput_pkts_inwnd;
        total_pkts_inwnd = add_w 64 w.total_pkts_inwnd i.pkt_size;
        socket = p ∷ w.socket;
        pkts_history = put w.ip_id_counter i w.pkts_history;
        send_wnd = w.send_wnd ++ w.ip_id_counter ∷ [];
        goodput_wnd = w.goodput_wnd ++ w.ip_id_counter ∷ [];
      }

  -- Both loops over the windows, and the next id.
  unfoldable pub slide : Window → Option Window
  slide w = do
    g ←
        drop_old (sub_w 64 (now / 1000) goodput_wnd_size) w.pkts_history w.goodput_wnd
          w.total_pkts_inwnd w.goodput_pkts_inwnd
    (wnd, m) ← trim send_wnd_size w.send_wnd w.pkts_history
    some (record w {
      goodput_wnd = g.wnd;
      total_pkts_inwnd = g.total;
      goodput_pkts_inwnd = g.goodput;
      send_wnd = wnd;
      pkts_history = m;
      ip_id_counter = (w.ip_id_counter + 1) % 65536;
    })

  unfoldable pub send_from : PacketFrame → List ℕ → List PacketFrame → Window → Option Window
  send_from f [] fs w = none
  send_from f (r ∷ rs) fs w = do
    w₁ ← slide (emit r w)
    w₂ ← shorten limit now f rs fs w₁
    some (schedule w₂)

  unfoldable pub send_first : List PacketFrame → Window → Option Window
  send_first [] w = some w
  send_first (f ∷ fs) w = send_from f f.packets_in_frame fs w

  unfoldable pub send_packet : Window → Option Window
  send_packet w = send_first w.queue w

  unfoldable pub update_goodput_ratio : Window → Window
  update_goodput_ratio w =
      if ltb 1 w.total_pkts_inwnd && ltb 0 w.goodput_pkts_inwnd
      then record w { goodput_ratio = (w.goodput_pkts_inwnd, w.total_pkts_inwnd) }
      else w

  unfoldable pub new_frame : Window → ℕ → List ℕ → Bool → PacketFrame
  new_frame w r rs rtx = record {
    packets_in_frame = r ∷ rs;
    frame_encode_time = (w.store.at r).encode_time;
    retransmission = rtx;
  }

  -- A frame goes to the end of the queue.
  unfoldable pub send_frame : List ℕ → Window → Option Window
  send_frame [] w = none
  send_frame (r ∷ rs) w =
      let w' = update_goodput_ratio w in
      calculate_pacing_rate limit now
        (record w' { queue = w'.queue ++ new_frame w' r rs false ∷ [] })
      >>= (λ w₂. some (schedule w₂))

  -- Retransmitted packets go to its front.
  unfoldable pub send_rtx : List ℕ → Window → Option Window
  send_rtx [] w = none
  send_rtx (r ∷ rs) w =
      calculate_pacing_rate limit now (record w { queue = new_frame w r rs true ∷ w.queue })
      >>= (λ w₂. some (schedule w₂))
