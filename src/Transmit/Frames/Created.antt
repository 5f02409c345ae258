-- ===== src/Transmit/Frames/Created.antt =====
-- `CreateFrame` of packet-sender-udp.cc as a whole: from the encoded frame to the queue.
use zhuge.Prelude.{
  ℕ, ◌+◌, ◌<◌, ◌≤◌, ◌≡◌, Bool, false, List, [], ◌∷◌, ◌++◌, Option, some, length, All,
}
use zhuge.Transmit.{VideoPacket, Store, PacketFrame, deref}
use zhuge.Transmit.Fragment.{Encoded, payload_total}
use zhuge.Transmit.Batch.Laws.{Distinct, AllData}
use zhuge.Transmit.Batch.First.{Below}
use zhuge.Transmit.History.{store_packets}
use zhuge.Transmit.Frames.{Asked, FecParam, State, alloc_all}
use zhuge.Transmit.Frames.Parts.{below}
use zhuge.Transmit.Frames.Blocks.{packets_of, data_of, Blocks}

-- New packets in the store, under references that were free.
record Allocated (ps : List VideoPacket) (s : Store) : Type 0 where
  contents : deref (alloc_all ps s).0 (alloc_all ps s).1 ≡ ps
  distinct : Distinct (alloc_all ps s).1
  fresh : All (λ (r : ℕ). s.next_ref ≤ r) (alloc_all ps s).1
  taken : Below (alloc_all ps s).0.next_ref (alloc_all ps s).1
  count : length (alloc_all ps s).1 ≡ length ps
  grows : (alloc_all ps s).0.next_ref ≡ s.next_ref + length ps
  others : (q : ℕ) → q < s.next_ref → (alloc_all ps s).0.at q ≡ s.at q

module _ (policy : Asked → FecParam)
    (sized : (a : Asked) → (0 < (policy a).fec_group_size) × ((policy a).fec_group_size < 32768))
    (rated : (a : Asked) (k : ℕ) → k < 32768 → k + (policy a).fec_count k < 65536)
    (net_size : VideoPacket → ℕ) (cc_enable : Bool)
    (limit delay_ddl one_way_dispersion unset now : ℕ) where
  -- A frame in the queue, in groups of data packets with their FEC packets. The data packets are new,
  -- and the FEC packets are newer still: they stand from `fecs` on in the store.
  pub record Creates (f : Encoded) (s : State) (m : Option State) : Type 0 where
    pub next : State
    pub frame : PacketFrame
    pub fecs : ℕ
    pub refs : List ℕ
    pub creates : m ≡ some next
    pub queue : next.window.queue ≡ s.window.queue ++ frame ∷ []
    pub refs_lem : below fecs frame.packets_in_frame ≡ refs
    pub fresh : All (λ (r : ℕ). s.window.store.next_ref ≤ r) refs
    pub distinct : Distinct refs
    pub groups : List (List ℕ × List ℕ)
    pub packets : frame.packets_in_frame ≡ packets_of groups
    pub data_parts : data_of groups ≡ refs
    pub formed : Blocks policy now next.window.store groups
    pub all_data : AllData next.window.store refs
    pub bytes : payload_total (deref next.window.store refs) ≡ f.data_size
    pub unmarked : frame.retransmission ≡ false
    pub kept : next.kept ≡ store_packets next.window.store frame.packets_in_frame s.kept
    pub scheduled : next.window.scheduled ≡ s.window.scheduled + 1
