-- ===== src/Group/Batch/Recover.antt =====
-- The packets that a `PacketBatch` of packet-group.cc holds, and those that it recovers.
use zhuge.Prelude.{
  ==_iff, ℕ, ◌≡◌, refl, ap, sym, ◌∙◌, Bool, true, false, ◌||◌, List, [], ◌∷◌, ◌++◌, none, some, ltb,
  ◌==◌, if◌then◌else◌, arith, Bool-cases, inl, inr, some_inj,
}
use mathlib.Core.Path.{subst}
use zhuge.Wire.Lists.{DataPktDigest}
use zhuge.Group.{
  VideoPacket, PacketType, data_pkt, dup_fec_pkt, fec_pkt, rtx_req_pkt, ack_pkt, frame_ack_pkt,
  netstate_pkt, contains, insert, insert_all, has_key, find, put,
}
use zhuge.Group.Sets.{Unique, contains-insert, has_key-put, find-put}
use zhuge.Group.Batch.{
  PacketBatch, file, file_data, add_packet, no_packets, new_batch, recovered, recover, batch_ids,
}

unfoldable pub digest_ids : List DataPktDigest → List ℕ
digest_ids [] = []
digest_ids (d ∷ ds) = d.pkt_id_in_batch ∷ digest_ids ds

-- The digests of an FEC packet name different packets.
abbrev pub DigestsDiffer : VideoPacket → Type 0
DigestsDiffer p = Unique [] (digest_ids p.data_pkts)

abbrev pub AllDiffer : List (ℕ × VideoPacket) → Type 0
AllDiffer m = (i : ℕ) (f : VideoPacket) → find i m ≡ some f → DigestsDiffer f

-- The data packets that the batch holds are those it has handed over and those that wait, and none
-- waits that has been handed over.
pub record IsIncomplete (b : PacketBatch) : Type 0 where
  pub waiting : Unique b.decoded_pkts (batch_ids b.undecoded_pkts)
  pub known :
      (i : ℕ)
      → has_key i b.data_pkts ≡ contains i (insert_all (batch_ids b.undecoded_pkts) b.decoded_pkts)
  pub differ : AllDiffer b.fec_pkts

-- Between two packets nothing waits.
abbrev pub IsSettled : PacketBatch → Type 0
IsSettled b = IsIncomplete b × (b.undecoded_pkts ≡ [])

pub batch_ids-append :
    (ps qs : List VideoPacket) → batch_ids (ps ++ qs) ≡ batch_ids ps ++ batch_ids qs
unfolding batch_ids
batch_ids-append [] qs = refl
batch_ids-append (p ∷ ps) qs = ap (λ l. p.pkt_id_in_batch ∷ l) (batch_ids-append ps qs)

AllDiffer-put :
    (i : ℕ) (p : VideoPacket) (m : List (ℕ × VideoPacket))
    → DigestsDiffer p
    → AllDiffer m
    → AllDiffer (put i p m)
AllDiffer-put i p m h k j f e = pick (j == i) (sym (find-put j i p m) ∙ e)
  where
    pick : (b : Bool) → (if b then some p else find j m) ≡ some f → DigestsDiffer f
    pick true q = subst DigestsDiffer (some_inj q) h
    pick false q = k j f q

data-IsIncomplete :
    (b : PacketBatch) (p : VideoPacket)
    → contains p.pkt_id_in_batch b.decoded_pkts ≡ false
    → IsSettled b
    → IsIncomplete (record b {
      data_pkts = put p.pkt_id_in_batch p b.data_pkts;
      undecoded_pkts = b.undecoded_pkts ++ p ∷ [];
    })
unfolding batch_ids insert_all
data-IsIncomplete b p new v = rw v.1 (record {
  waiting = (new, tt);
  known = λ i.
      has_key-put i p.pkt_id_in_batch p b.data_pkts
      ∙ ap (λ x. (i == p.pkt_id_in_batch) || x) (known₀ i)
      ∙ sym (contains-insert i p.pkt_id_in_batch b.decoded_pkts);
  differ = v.0.differ;
})
  where
    known₀ : (i : ℕ) → has_key i b.data_pkts ≡ contains i b.decoded_pkts
    known₀ i = v.0.known i ∙ ap (λ l. contains i (insert_all (batch_ids l) b.decoded_pkts)) v.1

pub add_packet-IsIncomplete :
    (b : PacketBatch) (p : VideoPacket)
    → IsSettled b
    → DigestsDiffer p
    → IsIncomplete (add_packet b p)
unfolding add_packet file file_data
add_packet-IsIncomplete b p v d = elim (Bool-cases (contains p.pkt_id_in_batch b.decoded_pkts)) [
  | inl old ↦ rw old v.0
  | inr new ↦ rw new (added new p.packet_type)
]
  where
    added :
        contains p.pkt_id_in_batch b.decoded_pkts ≡ false
        → (k : PacketType) → IsIncomplete (file k b p)
    added new data_pkt = data-IsIncomplete b p new v
    added new dup_fec_pkt = data-IsIncomplete b p new v
    added new fec_pkt = record {
      waiting = v.0.waiting;
      known = v.0.known;
      differ = AllDiffer-put p.pkt_id_in_batch p b.fec_pkts d v.0.differ;
    }
    added new rtx_req_pkt = v.0
    added new ack_pkt = v.0
    added new frame_ack_pkt = v.0
    added new netstate_pkt = v.0

-- The constructor adds its packet to a batch in which nothing waits.
pub new_batch-IsSettled :
    (i n m : ℕ) (p : VideoPacket) {b : PacketBatch}
    → new_batch i n m p ≡ some b
    → (b₀ : PacketBatch) × IsSettled b₀ × (add_packet b₀ p ≡ b)
unfolding new_batch no_packets batch_ids contains insert_all has_key find
new_batch-IsSettled i n m p {b} e = go (ltb 0 p.batch_data_num) e
  where
    b₀ : PacketBatch
    b₀ = no_packets i n m p

    go :
        (x : Bool)
        → (if x then some (add_packet b₀ p) else none) ≡ some b
        → (b₀ : PacketBatch) × IsSettled b₀ × (add_packet b₀ p ≡ b)
    go true q = (
      b₀,
      (record { waiting = tt; known = λ j. refl; differ = λ j f k. absurd cc }, refl),
      some_inj q,
    )
    go false q = absurd cc

-- The recovered packets have different ids, none of them among the data packets of the batch.
pub recover-Unique :
    (b : PacketBatch) (now t : ℕ) (seen acc : List ℕ) (ds : List DataPktDigest)
    → ((i : ℕ) → contains i seen ≡ true → (contains i acc || has_key i b.data_pkts) ≡ true)
    → Unique acc (digest_ids ds)
    → Unique seen (batch_ids (recover b now t ds))
unfolding recover recovered batch_ids digest_ids contains
recover-Unique b now t seen acc [] h u = tt
recover-Unique b now t seen acc (d ∷ ds) h u =
    elim (Bool-cases (has_key d.pkt_id_in_batch b.data_pkts)) [
      | inl has ↦ rw has (
          recover-Unique b now t seen (insert d.pkt_id_in_batch acc) ds
            (λ j e.
              rw (contains-insert j d.pkt_id_in_batch acc)
                (wider _ _ (j == d.pkt_id_in_batch) (h j e)))
            u.1)
      | inr hasnt ↦ rw hasnt (
        fresh hasnt,
        recover-Unique b now t (insert d.pkt_id_in_batch seen) (insert d.pkt_id_in_batch acc) ds
            (λ j e. rw (contains-insert j d.pkt_id_in_batch acc) (
              both _ _ (j == d.pkt_id_in_batch) (contains j seen) (h j)
                (sym (contains-insert j d.pkt_id_in_batch seen) ∙ e)))
            u.1,
      )
    ]
  where
    wider : (y z x : Bool) → (y || z) ≡ true → ((x || y) || z) ≡ true
    wider y z true e = refl
    wider y z false e = e

    both :
        (y z x w : Bool) → (w ≡ true → (y || z) ≡ true) → (x || w) ≡ true → ((x || y) || z) ≡ true
    both y z true w k e = refl
    both y z false w k e = k e

    fresh : has_key d.pkt_id_in_batch b.data_pkts ≡ false → contains d.pkt_id_in_batch seen ≡ false
    fresh hasnt = elim (Bool-cases (contains d.pkt_id_in_batch seen)) [
      | inl old ↦ let k = h d.pkt_id_in_batch old in ground (arith, u.0)
      | inr new ↦ new
    ]

-- Every digest is of a packet that the batch holds or that is recovered.
pub recover-All :
    (b : PacketBatch) (now t : ℕ) (ds : List DataPktDigest)
    → (i : ℕ) → contains i (digest_ids ds) ≡ true
    → (has_key i b.data_pkts || contains i (batch_ids (recover b now t ds))) ≡ true
unfolding recover recovered batch_ids digest_ids contains
recover-All b now t [] i h = absurd (ground arith)
recover-All b now t (d ∷ ds) i h =
    let ih = recover-All b now t ds i in
    elim (Bool-cases (i == d.pkt_id_in_batch)) [
      | inl same ↦ rw ((==_iff i d.pkt_id_in_batch).0 same) (ground arith)
      | inr other ↦ ground arith
    ]
