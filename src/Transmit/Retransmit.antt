-- ===== src/Transmit/Retransmit.antt =====
-- `RetransmitGroup`, `IsRtxTimeout` and `CheckRetransmission` of packet-sender-udp.cc. `none` is a
-- failed assertion.
pub mod Again
pub mod Laws
use zhuge.Prelude.{
  ℕ, zero, suc, ◌+◌, ◌*◌, Bool, true, false, ◌&&◌, List, [], ◌∷◌, ◌++◌, Option, none, some, ltb,
  ◌==◌, if◌then◌else◌, ◌>>=◌, length, map,
}
use zhuge.Prelude.Int.{ℤ, pos, ◌-ℤ◌, ◌+ℤ◌}
use zhuge.Prelude.Words.{u8}
use zhuge.Wire.Lists.{GroupPacketInfo}
use zhuge.Group.{contains, insert, find}
use zhuge.Transmit.{VideoPacket, Store, modify, clear_fec_batch}
use zhuge.Transmit.History.{Kept, look, drop_late}
use zhuge.Transmit.Frames.{Asked, FecParam, State, send_packets}

-- The network statistics that the timer reads; `rtt_sd` is the deviation in nanoseconds.
pub record NetStat : Type 0 where
  pub srtt : ℕ
  pub rtt_sd : ℕ
  pub min_rtt : ℕ
  pub one_way_dispersion : ℕ

unfoldable pub is_rtx_timeout : NetStat → ℕ → VideoPacket → Bool
is_rtx_timeout n now p =
    ltb p.enqueue_time now
    && ltb
        (p.send_time
          + (n.srtt + n.rtt_sd * 4 + (p.batch_data_num + p.batch_fec_num) * n.one_way_dispersion))
        now

-- What the loop over a group does to a packet.
unfoldable pub again : ℕ → ℕ → VideoPacket → VideoPacket
again tx_count now p = clear_fec_batch (record p { tx_count = u8 tx_count; enqueue_time = now })

unfoldable pub again_all : ℕ → ℕ → List ℕ → Store → Store
again_all tx_count now [] s = s
again_all tx_count now (r ∷ rs) s = again_all tx_count now rs (modify r (again tx_count now) s)

-- The first encoding time that is not zero.
unfoldable pub first_encode_time : Store → List ℕ → ℕ
first_encode_time s [] = 0
first_encode_time s (r ∷ rs) =
    let t = (s.at r).encode_time in let rest = first_encode_time s rs in if t == 0 then rest else t

-- `iterate` is the order in which the map of a group is read.
module _ (iterate : List (ℕ × ℕ) → List (ℕ × ℕ)) (policy : Asked → FecParam)
    (net_size : VideoPacket → ℕ) (cc_enable : Bool) (limit delay_ddl unset now : ℕ)
    (n : NetStat) where
  unfoldable pub retransmit_refs : List ℕ → State → Option State
  retransmit_refs [] s = some s
  retransmit_refs (r ∷ rs) s =
      let store = s.window.store in
      let tx_count = (store.at r).tx_count + 1 in
      send_packets policy net_size cc_enable limit delay_ddl n.one_way_dispersion unset now (r ∷ rs)
        (pos delay_ddl -ℤ (pos now -ℤ pos (first_encode_time store (r ∷ rs)))) (store.at r).frame_id
        true
        (record s { window = record s.window { store = again_all tx_count now (r ∷ rs) store } })

  unfoldable pub retransmit_group : ℕ → State → Option State
  retransmit_group g s = elim (find g s.kept.packets) [
    | none ↦ some s
    | some inner ↦ retransmit_refs (map (λ (e : ℕ × ℕ). e.1) (iterate inner)) s
  ]

  -- A key stays, and the loop goes on.
  unfoldable pub keep_key :
      GroupPacketInfo
      → Option (List GroupPacketInfo × State)
      → Option (List GroupPacketInfo × State)
  keep_key k m = m >>= (λ r. some (k ∷ r.0, r.1))

  -- The second loop: the keys that stay, and the state. `done` are the groups that were sent again.
  unfoldable pub check_timers :
      List GroupPacketInfo → List ℕ → State → Option (List GroupPacketInfo × State)
  check_timers [] done s = some ([], s)
  check_timers (k ∷ ks) done s =
      let dropped = check_timers ks done s in
      let skipped = check_timers ks done s in
      elim (look k.group_id k.pkt_in_group s.kept.packets) [
        | none ↦ dropped
        | some r ↦
            let p = s.window.store.at r in
            let resent =
              retransmit_group p.group_id s >>= check_timers ks (insert p.group_id done) in
            if ltb now (p.encode_time + n.min_rtt)
            then some (k ∷ ks, s)
            else if contains p.group_id done
            then keep_key k skipped
            else if is_rtx_timeout n now p
            then keep_key k resent
            else keep_key k skipped
      ]

  unfoldable pub check_retransmission : State → Option State
  check_retransmission s =
      let h =
        drop_late (λ r. (s.window.store.at r).encode_time) delay_ddl now s.kept.key
          s.kept.packets in
      check_timers h.key [] (record s { kept = h })
      >>= (λ r. some (record r.1 { kept = record r.1.kept { key = r.0 } }))
