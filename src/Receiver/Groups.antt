-- ===== src/Receiver/Groups.antt =====
-- `ReceiveUdpPacket` and `ReplyACK` of packet-receiver-udp.cc: a packet goes to its group, what can be
-- decoded goes to the decoder and is acknowledged, and groups end complete or too late. `none` is a
-- failed assertion or a division by zero.
pub mod Laws
use zhuge.Prelude.{
  ℕ, ◌+◌, ◌-◌, ◌/◌, Bool, true, false, ◌||◌, List, [], ◌∷◌, ◌++◌, Option, none, some, ltb, ◌==◌,
  if◌then◌else◌, ◌>>=◌,
}
use zhuge.Prelude.Words.{add_w}
use zhuge.Wire.Lists.{GroupPacketInfo, AckPacketHeader}
use zhuge.Group.{
  VideoPacket, PacketType, data_pkt, dup_fec_pkt, fec_pkt, dup_fec_pkt, fec_pkt, has_key, find, put,
  erase,
}
use zhuge.Group.Frames.{PacketGroup, new_group, group_add, group_undecoded, group_complete}

pub record Receiver : Type 0 where
  pub delay_ddl : ℕ
  pub rcvd_pkt_cnt : ℕ
  pub rcvd_data_pkt_cnt : ℕ
  pub rcvd_fec_pkt_cnt : ℕ
  pub rcvd_pkt_rtx_count : List (ℕ × ℕ)
  pub rcvd_group_rtx_count : List (ℕ × ℕ)
  pub rcvd_datapkt_rtx_count : List (ℕ × ℕ)
  pub rcvd_fecpkt_rtx_count : List (ℕ × ℕ)
  pub incomplete_groups : List (ℕ × PacketGroup)
  pub complete_groups : List (ℕ × PacketGroup)
  pub timeout_groups : List (ℕ × PacketGroup)
  pub one_way_dispersion : ℕ

-- What a call passes on: packets to the decoder, and an acknowledgement to the sender.
pub record Passed : Type 0 where
  pub decoded : List VideoPacket
  pub ack : AckPacketHeader

pub tally : ℕ → List (ℕ × ℕ) → List (ℕ × ℕ)
tally i m = elim (find i m) [ none ↦ put i 1 m | some n ↦ put i (add_w 64 n 1) m ]

unfoldable pub count_fec : ℕ → Receiver → Receiver
count_fec tx r = record r {
  rcvd_fec_pkt_cnt = add_w 64 r.rcvd_fec_pkt_cnt 1;
  rcvd_fecpkt_rtx_count = tally tx r.rcvd_fecpkt_rtx_count;
}

unfoldable pub by_type : PacketType → ℕ → Receiver → Receiver
by_type data_pkt tx r = record r {
  rcvd_data_pkt_cnt = add_w 64 r.rcvd_data_pkt_cnt 1;
  rcvd_datapkt_rtx_count = tally tx r.rcvd_datapkt_rtx_count;
}
by_type dup_fec_pkt tx r = count_fec tx r
by_type fec_pkt tx r = count_fec tx r
by_type _ tx r = r

unfoldable pub count_packet : Receiver → VideoPacket → Receiver
count_packet r p = by_type p.packet_type p.tx_count (record r {
  rcvd_pkt_cnt = add_w 64 r.rcvd_pkt_cnt 1;
  rcvd_pkt_rtx_count = tally p.tx_count r.rcvd_pkt_rtx_count;
})

pub infos : List VideoPacket → List GroupPacketInfo
infos [] = []
infos (p ∷ ps) = record { group_id = p.group_id; pkt_in_group = p.pkt_id_in_group } ∷ infos ps

pub reply_ack : List VideoPacket → ℕ → AckPacketHeader
reply_ack ps last_pkt_id = record { pkt_infos = infos ps; last_pkt_id = last_pkt_id }

-- The group of the packet, new if there is no incomplete one.
unfoldable pub group_of : ℕ → Receiver → VideoPacket → PacketGroup
group_of unset r p = elim (find p.group_id r.incomplete_groups) [
  | none ↦ new_group unset p.group_id p.group_data_num p.encode_time
  | some g ↦ g
]

-- `GetAvgPktInterval`. The last time is never before the first one.
pub avg_pkt_interval : PacketGroup → Option ℕ
avg_pkt_interval g =
    if g.last_pkt_id_tx_0 == 0
    then some 0
    else if g.data_num + g.fec_num == 0
    then none
    else some ((g.last_rcv_time_tx_0 - g.first_rcv_time) / (g.data_num + g.fec_num))

-- Step 5: a complete group moves.
pub finish : Receiver → ℕ → PacketGroup → Option Receiver
finish r id g =
    if group_complete g
    then avg_pkt_interval g >>= (λ itvl. some (record r {
      rcvd_group_rtx_count = tally g.max_tx_count r.rcvd_group_rtx_count;
      one_way_dispersion = if ltb 0 itvl then itvl else r.one_way_dispersion;
      complete_groups = put id g r.complete_groups;
      incomplete_groups = erase id r.incomplete_groups;
    }))
    else some r

-- Step 6: the loop over the incomplete groups, which gives those that stay and the late ones.
pub expire :
    ℕ
    → ℕ
    → List (ℕ × PacketGroup)
    → List (ℕ × PacketGroup)
    → List (ℕ × PacketGroup) × List (ℕ × PacketGroup)
expire ddl rcv [] late = ([], late)
expire ddl rcv (e ∷ m) late =
    let after = expire ddl rcv m (put e.1.group_id e.1 late) in
    let before = expire ddl rcv m late in
    if ltb (e.1.encode_time + ddl) rcv then after else (e ∷ before.0, before.1)

pub timeouts : Receiver → ℕ → Receiver
timeouts r rcv =
    let m = expire r.delay_ddl rcv r.incomplete_groups r.timeout_groups in
    record r { incomplete_groups = m.0; timeout_groups = m.1 }

unfoldable pub is_over : Receiver → ℕ → Bool
is_over r id = has_key id r.complete_groups || has_key id r.timeout_groups

-- The steps after the acknowledgement.
pub conclude : Receiver → VideoPacket → PacketGroup → Option Receiver
conclude r p g =
    if is_over r p.group_id
    then some r
    else finish r p.group_id g >>= (λ r'. some (timeouts r' p.rcv_time))

module _ (begin : List (ℕ × VideoPacket) → Option VideoPacket) (unset : ℕ) where
  pub receive : Receiver → VideoPacket → ℕ → Option (Receiver × Passed)
  receive r p global_id =
      let r₁ = count_packet r p in
      group_add begin (group_of unset r₁ p) p.rcv_time p >>= (λ g.
        let (g', out) = group_undecoded g in
        conclude (record r₁ { incomplete_groups = put p.group_id g' r₁.incomplete_groups }) p g'
        >>= (λ r₂. some (r₂, record { decoded = out; ack = reply_ack out global_id })))
