-- ===== src/Group/Tests.antt =====
-- Instances of the properties of packet groups: a frame of three data packets and one FEC packet.
use mathlib.Core.Path.{subst}
use zhuge.Prelude.{
  ◌>>=◌, if◌then◌else◌, ap, ◌∙◌, some_inj, ◌||◌, arith, ℕ, ◌+◌, ◌%◌, ◌^◌, ◌==◌, ◌≡◌, refl, Bool,
  true, false, List, [], ◌∷◌, Option, none, some, length,
}
use zhuge.Wire.Lists.{DataPktDigest}
use zhuge.Group.{
  VideoPacket, PacketType, data_pkt, fec_pkt, contains, insert, insert_all, has_key, find, put,
  erase,
}
use zhuge.Group.Sets.{Unique}
use zhuge.Group.Batch.{
  file, file_data, new_batch, recovered, recover, recover_from, get_undecoded, check_complete,
  PacketBatch, no_packets, add_packet, hand_over, batch_ids,
}
use zhuge.Group.Batch.Recover.{IsSettled, DigestsDiffer, digest_ids, add_packet-IsIncomplete}
use zhuge.Group.Batch.Laws.{IsBegin, hand_over-Unique, hand_over-recovers}
use zhuge.Group.Frames.{
  init_group, count, begin_group, note_times, batch_with, store, is_useless, decode, PacketGroup,
  new_group, statistics, group_add,
}
use zhuge.Group.Frames.Laws.{IsValid, group_add-IsValid}
use zhuge.Group.Frames.Statistics.{core, counters, group_add-core, statistics-counters}

-- The first entry is in front.
abbrev pub front : List (ℕ × VideoPacket) → Option VideoPacket
front [] = none
front (e ∷ m) = some e.1

abbrev digest : ℕ → DataPktDigest
digest i = record {
  pkt_id_in_batch = i;
  pkt_id_in_group = i;
  frame_id = 5;
  frame_pkt_num = 3;
  pkt_id_in_frame = i;
}

abbrev packet : PacketType → ℕ → List DataPktDigest → VideoPacket
packet k i ds = record {
  packet_type = k;
  tx_count = 0;
  encode_time = 1000;
  rcv_time = 30000 + i;
  group_id = 5;
  group_data_num = 3;
  group_fec_num = 1;
  pkt_id_in_group = i;
  batch_id = 0;
  batch_data_num = 3;
  batch_fec_num = 1;
  pkt_id_in_batch = i;
  frame_id = 5;
  frame_pkt_num = 3;
  pkt_id_in_frame = i;
  data_pkts = ds;
}

abbrev pub first : VideoPacket
first = packet data_pkt 0 []

abbrev last : VideoPacket
last = packet data_pkt 2 []

abbrev fec : VideoPacket
fec = packet fec_pkt 3 (digest 0 ∷ digest 1 ∷ digest 2 ∷ [])

-- `front` gives the value of the first key.
front-IsBegin : IsBegin front
unfolding find
front-IsBegin [] f e = absurd cc
front-IsBegin (e ∷ m) f q = (e.0, (rw (same e.0) q))
  where
    same : (n : ℕ) → (n == n) ≡ true
    same n = ground arith

-- The batch after the first and the last packet have been handed over.
abbrev batch : PacketBatch
batch = record {
  group_id = 5;
  group_data_num = 3;
  group_fec_num = 1;
  batch_id = 0;
  data_num = 3;
  fec_num = 1;
  decoded_pkts = 2 ∷ 0 ∷ [];
  undecoded_pkts = [];
  data_pkts = (0, first) ∷ (2, last) ∷ [];
  fec_pkts = [];
}

batch-IsSettled : IsSettled batch
unfolding batch_ids contains insert_all has_key find
batch-IsSettled = (
  record { waiting = tt; known = λ i. swap (i == 0) (i == 2); differ = λ i f e. absurd cc },
  refl,
)
  where
    swap : (a b : Bool) → (a || (b || false)) ≡ (b || (a || false))
    swap true true = refl
    swap true false = refl
    swap false true = refl
    swap false false = refl

fec-DigestsDiffer : DigestsDiffer fec
unfolding digest_ids contains insert
fec-DigestsDiffer = (refl, (refl, (refl, tt)))

-- The batch with the FEC packet.
abbrev full : PacketBatch
full = record batch { fec_pkts = (3, fec) ∷ [] }

abbrev done : PacketBatch
done = record batch { decoded_pkts = 1 ∷ 2 ∷ 0 ∷ []; data_pkts = []; fec_pkts = [] }

-- The middle packet, made of its digest.
abbrev middle_packet : VideoPacket
middle_packet = record (packet data_pkt 1 []) { rcv_time = 30003 }

full_eq : add_packet batch fec ≡ full
unfolding add_packet file file_data contains put
full_eq = refl

abbrev handed : PacketBatch × List VideoPacket × Bool
handed = (done, middle_packet ∷ [], true)

handed_eq : hand_over front full 30003 ≡ some handed
unfolding hand_over check_complete recover_from recover recovered get_undecoded batch_ids insert_all
    insert contains has_key
handed_eq = refl

hand_over-Unique_example :
    Unique (add_packet batch fec).decoded_pkts (batch_ids (middle_packet ∷ []))
    × (done.decoded_pkts
        ≡ insert_all (batch_ids (middle_packet ∷ [])) (add_packet batch fec).decoded_pkts)
    × (true ≡ false → IsSettled done)
hand_over-Unique_example =
    hand_over-Unique front front-IsBegin batch 30003 fec batch-IsSettled fec-DigestsDiffer
      (ap (λ b. hand_over front b 30003) full_eq ∙ handed_eq)

hand_over-recovers_example :
    (f : VideoPacket) × ((i : ℕ) × (find i (add_packet batch fec).fec_pkts ≡ some f))
    × ((i : ℕ) → contains i (digest_ids f.data_pkts) ≡ true → contains i done.decoded_pkts ≡ true)
hand_over-recovers_example =
    hand_over-recovers front front-IsBegin (add_packet batch fec) 30003
      (add_packet-IsIncomplete batch fec batch-IsSettled fec-DigestsDiffer)
      (ap (λ b. length b.data_pkts == b.data_num) full_eq)
      (ap (λ b. hand_over front b 30003) full_eq ∙ handed_eq)

-- The group with these two packets, before and after the FEC packet.
abbrev group : PacketGroup
group = record {
  decoded_pkts = [];
  group_id = 5;
  data_num = 3;
  fec_num = 1;
  encode_time = 1000;
  first_rcv_time = 30000;
  last_rcv_time_tx_0 = 30002;
  undecoded_pkts = first ∷ last ∷ [];
  incomplete_batches = (0, batch) ∷ [];
  complete_batches = [];
  next_rtx_count = 1;
  last_pkt_id_tx_0 = 2;
  max_tx_count = 0;
  first_tx_data_count = 2;
  first_tx_fec_count = 0;
  rtx_data_count = 0;
  rtx_fec_count = 0;
  pkt_arrive_dis = [];
}

abbrev whole_group : PacketGroup
whole_group = record group {
  last_rcv_time_tx_0 = 30003;
  last_pkt_id_tx_0 = 3;
  undecoded_pkts = first ∷ last ∷ middle_packet ∷ [];
  incomplete_batches = [];
  complete_batches = (0, done) ∷ [];
  first_tx_fec_count = 1;
}

abbrev counted : PacketGroup
counted = record group { last_rcv_time_tx_0 = 30003; last_pkt_id_tx_0 = 3; first_tx_fec_count = 1 }

counted_eq : statistics group fec ≡ counted
unfolding statistics begin_group count note_times
counted_eq = refl

decode_eq : decode front counted 30003 fec ≡ some whole_group
unfolding decode batch_with find store put erase
decode_eq =
    ap (λ b. hand_over front b 30003 >>= (λ r. some (store counted 0 r.0 r.1 r.2))) full_eq
    ∙ ap (λ o. o >>= (λ r. some (store counted 0 r.0 r.1 r.2))) handed_eq

group_eq : group_add front group 30003 fec ≡ some whole_group
unfolding group_add is_useless has_key contains
group_eq =
    ap (λ g. if is_useless g fec then some g else decode front g 30003 fec) counted_eq ∙ decode_eq

group-IsValid : IsValid group
unfolding find has_key
group-IsValid = record { settled = λ id b q. pick (id == 0) b q; disjoint = λ id q. absurd cc }
  where
    pick : (x : Bool) (b : PacketBatch) → (if x then some batch else none) ≡ some b → IsSettled b
    pick true b q = subst IsSettled (some_inj q) batch-IsSettled
    pick false b q = absurd cc

group_add-IsValid_example : IsValid whole_group
group_add-IsValid_example =
    group_add-IsValid front front-IsBegin group 30003 fec fec-DigestsDiffer group-IsValid group_eq

-- A late packet of the batch that is complete.
abbrev late_group : PacketGroup
late_group = record whole_group { first_tx_data_count = 3 }

late_counted : statistics whole_group (packet data_pkt 1 []) ≡ late_group
unfolding statistics begin_group count note_times
late_counted = refl

late_eq : group_add front whole_group 30004 (packet data_pkt 1 []) ≡ some late_group
unfolding group_add is_useless has_key
late_eq =
    ap
      (λ g.
        if is_useless g (packet data_pkt 1 [])
        then some g
        else decode front g 30004 (packet data_pkt 1 []))
      late_counted

group_add-core_run : core late_group ≡ core whole_group
unfolding has_key
group_add-core_run = group_add-core front whole_group 30004 (packet data_pkt 1 []) refl late_eq

statistics-counters_run : counters (statistics group fec) % 2 ^ 16 ≡ (counters group + 1) % 2 ^ 16
statistics-counters_run = statistics-counters group fec tt

abbrev empty_group_record : PacketGroup
empty_group_record = record {
  decoded_pkts = [];
  group_id = 5;
  data_num = 3;
  fec_num = 0;
  encode_time = 1000;
  first_rcv_time = 0;
  last_rcv_time_tx_0 = 0;
  undecoded_pkts = [];
  incomplete_batches = [];
  complete_batches = [];
  next_rtx_count = 1;
  last_pkt_id_tx_0 = 0;
  max_tx_count = 0;
  first_tx_data_count = 0;
  first_tx_fec_count = 0;
  rtx_data_count = 0;
  rtx_fec_count = 0;
  pkt_arrive_dis = [];
}

-- The first packet of a group.
abbrev pub started : PacketGroup
started = record empty_group_record {
  fec_num = 1;
  first_rcv_time = 30000;
  last_rcv_time_tx_0 = 30000;
  last_pkt_id_tx_0 = 0;
  first_tx_data_count = 1;
  undecoded_pkts = first ∷ [];
  incomplete_batches =
      (0, record batch { decoded_pkts = 0 ∷ []; data_pkts = (0, first) ∷ [] }) ∷ [];
}

pub started_eq : group_add front (new_group 0 5 3 1000) 30000 first ≡ some started
unfolding new_group group_add statistics begin_group init_group count note_times is_useless decode
    batch_with new_batch no_packets add_packet file file_data hand_over check_complete get_undecoded
    batch_ids store insert_all insert contains has_key find put
started_eq = refl
