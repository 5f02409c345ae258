-- ===== src/Sender/Send.antt =====
-- `processSendPacket` of sender-based-controller.cc.
pub mod Laws
use zhuge.Prelude.{
  ℕ, ◌+◌, ◌*◌, ◌%◌, ◌^◌, Bool, true, false, not, ◌||◌, List, [], ◌∷◌, ◌++◌, Option, none, some, ltb,
  ◌==◌, if◌then◌else◌, ◌>>=◌,
}
use zhuge.Prelude.Words.{u16, u64, add_w, sub_w}
use zhuge.Sender.{less_than, PacketRecord, Controller, max_inter_packet_time_us}

-- The loop at the end: records that are too old leave. It reads the front without asking whether
-- there is one.
unfoldable pub drop_old : ℕ → List PacketRecord → Option (List PacketRecord)
drop_old now [] = none
drop_old now (p ∷ ps) =
    let rest = drop_old now ps in
    if less_than 64 (u64 (p.tx_timestamp_us + 10 * max_inter_packet_time_us)) now
    then rest
    else some (p ∷ ps)

unfoldable pub has_sequence : ℕ → List PacketRecord → Bool
has_sequence n [] = false
has_sequence n (p ∷ ps) = (p.sequence == n) || has_sequence n ps

unfoldable pub sent : ℕ → ℕ → ℕ → PacketRecord
sent sequence tx_timestamp_us size = record {
  sequence = sequence;
  tx_timestamp_us = tx_timestamp_us;
  size = size;
  owd_us = 0;
  rtt_us = 0;
}

-- The number that is expected: the first one sent sets it.
unfoldable pub next_sequence : Controller → ℕ → ℕ
next_sequence s sequence =
    add_w 16 (if s.first_send then sub_w 16 sequence 1 else s.last_sequence) 1

unfoldable pub expect : Controller → ℕ → Controller
expect s sequence = record s { first_send = false; last_sequence = next_sequence s sequence }

-- A record of the same number in the history is erased inside the loop over it, whose iterator is
-- then used again.
unfoldable pub process_send : Controller → ℕ → ℕ → ℕ → Option (Controller × Bool)
process_send s tx_timestamp_us sequence size =
    let s' = expect s sequence in
    let p = sent s'.last_sequence tx_timestamp_us size in
    if not (sequence == s'.last_sequence)
    then some (s', false)
    else if has_sequence s'.last_sequence s.packet_transit_history
    then none
    else drop_old tx_timestamp_us (s.in_transit_packets ++ p ∷ []) >>= (λ kept. some (
      record s' {
        in_transit_packets = kept;
        packet_transit_history = s.packet_transit_history ++ p ∷ [];
      },
      true,
    ))
