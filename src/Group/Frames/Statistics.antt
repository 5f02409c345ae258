-- ===== src/Group/Frames/Statistics.antt =====
-- The statistics of a `PacketGroup` of packet-group.cc.
use zhuge.Prelude.{
  ℕ, ◌+◌, ◌%◌, ◌^◌, ◌≡◌, refl, ap, sym, ◌∙◌, Bool, true, false, ◌||◌, List, Option, some, ◌==◌,
  if◌then◌else◌, arith, length, some_inj, if_both,
}
use zhuge.Group.{
  VideoPacket, PacketType, data_pkt, dup_fec_pkt, fec_pkt, rtx_req_pkt, ack_pkt, frame_ack_pkt,
  netstate_pkt, contains, has_key,
}
use zhuge.Group.Batch.{PacketBatch}
use zhuge.Group.Frames.{
  PacketGroup, init_group, begin_group, count, note_times, statistics, is_useless, decode,
  group_add,
}

-- What decoding works on, which the statistics leave alone.
pub record Core : Type 0 where
  pub decoded : List ℕ
  pub undecoded : List VideoPacket
  pub incomplete : List (ℕ × PacketBatch)
  pub complete : List (ℕ × PacketBatch)
  pub data_num : ℕ

abbrev pub core : PacketGroup → Core
core g = record {
  decoded = g.decoded_pkts;
  undecoded = g.undecoded_pkts;
  incomplete = g.incomplete_batches;
  complete = g.complete_batches;
  data_num = g.data_num;
}

pub counters : PacketGroup → ℕ
counters g = g.first_tx_data_count + g.first_tx_fec_count + g.rtx_data_count + g.rtx_fec_count

count-core : (first : Bool) (k : PacketType) (g : PacketGroup) → core (count first k g) ≡ core g
unfolding count
count-core true data_pkt g = refl
count-core true dup_fec_pkt g = refl
count-core true fec_pkt g = refl
count-core true rtx_req_pkt g = refl
count-core true ack_pkt g = refl
count-core true frame_ack_pkt g = refl
count-core true netstate_pkt g = refl
count-core false data_pkt g = refl
count-core false dup_fec_pkt g = refl
count-core false fec_pkt g = refl
count-core false rtx_req_pkt g = refl
count-core false ack_pkt g = refl
count-core false frame_ack_pkt g = refl
count-core false netstate_pkt g = refl

begin_group-core : (g : PacketGroup) (p : VideoPacket) → core (begin_group g p) ≡ core g
unfolding begin_group init_group
begin_group-core g p =
    if_both (λ h. core h ≡ core g) (length g.decoded_pkts + length g.undecoded_pkts == 0) refl refl

pub statistics-core : (g : PacketGroup) (p : VideoPacket) → core (statistics g p) ≡ core g
unfolding statistics note_times
statistics-core g p =
    count-core (p.tx_count == 0) p.packet_type (begin_group g p) ∙ begin_group-core g p

-- The types of packets that the receiver lets in.
abbrev pub IsMedia : PacketType → Type 0
IsMedia data_pkt = Unit {0}
IsMedia dup_fec_pkt = Unit {0}
IsMedia fec_pkt = Unit {0}
IsMedia _ = ⊥

count-counters :
    (first : Bool) (k : PacketType) (g : PacketGroup)
    → IsMedia k
    → counters (count first k g) % 2 ^ 16 ≡ (counters g + 1) % 2 ^ 16
unfolding count counters
count-counters true data_pkt g m = omega arith
count-counters true dup_fec_pkt g m = omega arith
count-counters true fec_pkt g m = omega arith
count-counters false data_pkt g m = omega arith
count-counters false dup_fec_pkt g m = omega arith
count-counters false fec_pkt g m = omega arith
count-counters true rtx_req_pkt g m = absurd m
count-counters true ack_pkt g m = absurd m
count-counters true frame_ack_pkt g m = absurd m
count-counters true netstate_pkt g m = absurd m
count-counters false rtx_req_pkt g m = absurd m
count-counters false ack_pkt g m = absurd m
count-counters false frame_ack_pkt g m = absurd m
count-counters false netstate_pkt g m = absurd m

-- Every data or FEC packet that a group takes is counted once: the sum of its four counters grows
-- by one, modulo 2^16.
pub statistics-counters :
    (g : PacketGroup) (p : VideoPacket)
    → IsMedia p.packet_type
    → counters (statistics g p) % 2 ^ 16 ≡ (counters g + 1) % 2 ^ 16
unfolding statistics note_times counters init_group begin_group
statistics-counters g p m =
    count-counters (p.tx_count == 0) p.packet_type (begin_group g p) m
    ∙ ap (λ n. (n + 1) % 2 ^ 16) (begun (length g.decoded_pkts + length g.undecoded_pkts == 0))
  where
    begun : (b : Bool) → counters (if b then init_group g p else g) ≡ counters g
    begun true = refl
    begun false = refl

-- A packet of a batch that is complete changes nothing of what decoding works on: the packets
-- decoded and waiting, the batches and the number of data packets.
pub group_add-core :
    (begin : List (ℕ × VideoPacket) → Option VideoPacket) (g : PacketGroup) (now : ℕ)
    (p : VideoPacket) {g' : PacketGroup}
    → has_key p.batch_id g.complete_batches ≡ true
    → group_add begin g now p ≡ some g'
    → core g' ≡ core g
unfolding group_add is_useless
group_add-core begin g now p {g'} h e = sym (ap core (some_inj e')) ∙ statistics-core g p
  where
    useless : has_key p.batch_id (statistics g p).complete_batches ≡ true
    useless = ap (λ c. has_key p.batch_id c.complete) (statistics-core g p) ∙ h

    e' : some (statistics g p) ≡ some g'
    e' =
        sym (
          ap
            (λ b.
              if b || contains p.pkt_id_in_group (statistics g p).decoded_pkts
              then some (statistics g p)
              else decode begin (statistics g p) now p)
            useless)
        ∙ e
