-- ===== src/Transmit/Acks.antt =====
-- `ACK_PKT` and `FRAME_ACK_PKT` in `OnSocketRecv_sender` of packet-sender-udp.cc. Times are in
-- nanoseconds.
pub mod Laws
use zhuge.Prelude.{
  ℕ, zero, suc, ◌+◌, ◌-◌, Bool, true, false, not, ◌&&◌, ◌||◌, List, [], ◌∷◌, Option, none, some,
  ltb, leb, ◌==◌, if◌then◌else◌, ◌>>=◌,
}
use zhuge.Prelude.Words.{add_w, sub_w}
use zhuge.Wire.Lists.{AckPacketHeader}
use zhuge.Group.{find, put}
use zhuge.Transmit.{SentPacketInfo}
use zhuge.Transmit.History.{Kept, rcv_ack}

-- `rtts` are the arguments of `UpdateRTT`, the last first.
pub record Acked : Type 0 where
  pub kept : Kept
  pub pkts_history : List (ℕ × SentPacketInfo)
  pub last_acked_global_id : ℕ
  pub rtts : List ℕ
  pub rt_dispersion : ℕ

-- The packet before is of the same batch and was sent at the same time, and was acknowledged, no
-- later.
unfoldable pub is_pair : ℕ → SentPacketInfo → SentPacketInfo → Bool
is_pair now last current =
    (last.batch_id == current.batch_id)
    && (last.pkt_send_time == current.pkt_send_time)
    && not (last.pkt_ack_time == 0)
    && leb last.pkt_ack_time now

-- `smooth` weighs a new delay against the dispersion.
module _ (smooth : ℕ → ℕ → ℕ) (trace_set : Bool) (now : ℕ) where
  unfoldable pub disperse : SentPacketInfo → ℕ → ℕ
  disperse last d = if d == 0 then now - last.pkt_ack_time else smooth (now - last.pkt_ack_time) d

  -- The id before is one of 16 bits.
  unfoldable pub pair : ℕ → SentPacketInfo → Acked → Acked
  pair id current s = elim (find (sub_w 16 id 1) s.pkts_history) [
    | none ↦ s
    | some last ↦
        if is_pair now last current
        then record s { rt_dispersion = disperse last s.rt_dispersion }
        else s
  ]

  -- The packet of the acknowledgement is in the history.
  unfoldable pub note_ack : ℕ → SentPacketInfo → Acked → Acked
  note_ack id p s =
      let current = record p { pkt_ack_time = now } in
      pair id current (record s {
        pkts_history = put id current s.pkts_history;
        rtts =
            if leb s.last_acked_global_id id && not trace_set
            then (now - p.pkt_send_time) ∷ s.rtts
            else s.rtts;
        last_acked_global_id = id;
      })

  unfoldable pub on_ack : AckPacketHeader → Acked → Acked
  on_ack h s =
      let s₁ = record s { kept = rcv_ack h.pkt_infos s.kept } in
      elim (find h.last_pkt_id s.pkts_history) [ none ↦ s₁ | some p ↦ note_ack h.last_pkt_id p s₁ ]

pub record Frames : Type 0 where
  pub finished_frame_cnt : ℕ
  pub timeout_frame_cnt : ℕ
  pub exclude_ten_finished_frame_cnt : ℕ

-- A frame is in time up to a millisecond after its deadline.
unfoldable pub on_frame_ack : ℕ → ℕ → ℕ → ℕ → Frames → Frames
on_frame_ack delay_ddl now frame_id encode_time s =
    if leb now (encode_time + (delay_ddl + 1000000))
    then record s {
      finished_frame_cnt = add_w 64 s.finished_frame_cnt 1;
      exclude_ten_finished_frame_cnt =
          if leb 10 frame_id
          then add_w 64 s.exclude_ten_finished_frame_cnt 1
          else s.exclude_ten_finished_frame_cnt;
    }
    else record s { timeout_frame_cnt = add_w 64 s.timeout_frame_cnt 1 }

-- Frame acknowledgements in sequence: the time, the frame and its encoding time.
unfoldable pub on_frame_acks : ℕ → List (ℕ × ℕ × ℕ) → Frames → Frames
on_frame_acks delay_ddl [] s = s
on_frame_acks delay_ddl (a ∷ acks) s =
    on_frame_acks delay_ddl acks (on_frame_ack delay_ddl a.0 a.1 a.2 s)
