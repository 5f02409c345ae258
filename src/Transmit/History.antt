-- ===== src/Transmit/History.antt =====
-- The history of `PacketSenderUdp` for retransmissions, in packet-sender-udp.cc: `StorePackets`,
-- `RcvACKPacket`, `MissesDdl` and the first loop of `CheckRetransmission`. `key` is
-- `data_pkt_history_key`, in time order, and `packets` the map `data_pkt_history` of maps.
pub mod Laws
pub mod Runs
pub mod Stored
pub mod Refines
use zhuge.Prelude.{
  ℕ, ◌+◌, Bool, true, false, ◌&&◌, ◌||◌, List, [], ◌∷◌, ◌++◌, Option, none, some, ltb, ◌==◌,
  if◌then◌else◌, ◌>>=◌,
}
use zhuge.Wire.Lists.{GroupPacketInfo}
use zhuge.Group.{PacketType, data_pkt, find, put, erase}
use zhuge.Transmit.{VideoPacket, Store}

pub record Kept : Type 0 where
  pub key : List GroupPacketInfo
  pub packets : List (ℕ × List (ℕ × ℕ))

-- The look-up in both maps.
unfoldable pub look : ℕ → ℕ → List (ℕ × List (ℕ × ℕ)) → Option ℕ
look g p m = find g m >>= find p

-- `operator[]` of the outer map: a missing group is an empty one.
unfoldable pub group_or_empty : ℕ → List (ℕ × List (ℕ × ℕ)) → List (ℕ × ℕ)
group_or_empty g m = elim (find g m) [ none ↦ [] | some inner ↦ inner ]

unfoldable pub store : GroupPacketInfo → ℕ → Kept → Kept
store k r h = record {
  key = h.key ++ k ∷ [];
  packets = put k.group_id (put k.pkt_in_group r (group_or_empty k.group_id h.packets)) h.packets;
}

unfoldable pub is_data : PacketType → Bool
is_data data_pkt = true
is_data _ = false

abbrev pub info_of : VideoPacket → GroupPacketInfo
info_of p = record { group_id = p.group_id; pkt_in_group = p.pkt_id_in_group }

-- Only data packets that were never sent are kept.
unfoldable pub store_packets : Store → List ℕ → Kept → Kept
store_packets s [] h = h
store_packets s (r ∷ rs) h = store_packets s rs (
    if is_data (s.at r).packet_type && (s.at r).tx_count == 0
    then store (info_of (s.at r)) r h
    else h)

unfoldable pub put_or_erase : ℕ → List (ℕ × ℕ) → List (ℕ × List (ℕ × ℕ)) → List (ℕ × List (ℕ × ℕ))
put_or_erase g [] m = erase g m
put_or_erase g (e ∷ inner) m = put g (e ∷ inner) m

-- A packet goes, and its group with the last packet.
unfoldable pub remove : GroupPacketInfo → List (ℕ × List (ℕ × ℕ)) → List (ℕ × List (ℕ × ℕ))
remove k m = elim (find k.group_id m) [
  | none ↦ m
  | some inner ↦ put_or_erase k.group_id (erase k.pkt_in_group inner) m
]

-- The keys of the acknowledged packets stay until the next check.
unfoldable pub rcv_ack : List GroupPacketInfo → Kept → Kept
rcv_ack [] h = h
rcv_ack (k ∷ ks) h = rcv_ack ks (record h { packets = remove k h.packets })

pub misses_ddl : ℕ → ℕ → ℕ → Bool
misses_ddl ddl now encode_time = ltb (encode_time + ddl) now

-- The packets that are too late go, from the front of the keys to the first that is not.
module _ (encode : ℕ → ℕ) (ddl now : ℕ) where
  unfoldable pub drop_late : List GroupPacketInfo → List (ℕ × List (ℕ × ℕ)) → Kept
  drop_late [] m = record { key = []; packets = m }
  drop_late (k ∷ ks) m =
      let gone = drop_late ks m in
      let after = drop_late ks (remove k m) in
      elim (look k.group_id k.pkt_in_group m) [
        | none ↦ gone
        | some r ↦
            if misses_ddl ddl now (encode r) then after else record { key = k ∷ ks; packets = m }
      ]
