-- ===== src/Transmit/History/Refines.antt =====
-- `StorePackets`, `RcvACKPacket` and the first loop of `CheckRetransmission` of packet-sender-udp.cc
-- in any sequence, beside the set of packets that wait for an acknowledgement.
use mathlib.Core.Path.{fun_ext}
use zhuge.Prelude.{
  ℕ, ◌≤◌, ◌≡◌, refl, ap, ◌∙◌, false, ◌&&◌, List, [], ◌∷◌, Option, none, some, ◌==◌, if◌then◌else◌,
  arith, Bool-cases, inl, inr,
}
use zhuge.Wire.Lists.{GroupPacketInfo}
use zhuge.Transmit.{Store}
use zhuge.Transmit.History.{
  Kept, look, store, remove, rcv_ack, drop_late, is_data, info_of, store_packets,
}
use zhuge.Transmit.History.Laws.{is_key, member, look-store, look-remove}
use zhuge.Transmit.History.Runs.{Packets, Ordered-Fewer, IsQueue, in_time, drop_late-Drops}
use zhuge.Transmit.History.Stored.{store-IsQueue, member-append}

-- A data packet is stored, an acknowledgement arrives, and the timer checks the deadlines.
pub data Event : Type 0 where
  stored : GroupPacketInfo → ℕ → Event
  acked : List GroupPacketInfo → Event
  checked : ℕ → Event

-- The abstract state: the packet, if there is one, that waits under a group and an id.
abbrev pub Waiting : Type 0
Waiting = ℕ → ℕ → Option ℕ

module _ (encode : ℕ → ℕ) (ddl : ℕ) where
  unfoldable pub step : Event → Kept → Kept
  step (stored k r) h = store k r h
  step (acked ks) h = rcv_ack ks h
  step (checked now) h = drop_late encode ddl now h.key h.packets

  unfoldable pub run : List Event → Kept → Kept
  run [] h = h
  run (e ∷ es) h = run es (step e h)

  -- What an event does to the set.
  abbrev pub change : Event → Waiting → Waiting
  change (stored k r) w = λ g p. if is_key k g p then some r else w g p
  change (acked ks) w = λ g p. if member g p ks then none else w g p
  change (checked now) w = λ g p. in_time encode ddl now (w g p)

  abbrev pub replay : List Event → Waiting → Waiting
  replay [] w = w
  replay (e ∷ es) w = replay es (change e w)

  -- Packets are stored under new keys, in the order of their encoding.
  abbrev pub Timely : List GroupPacketInfo → ℕ → List Event → Type 0
  Timely seen last [] = Unit {0}
  Timely seen last (stored k r ∷ es) =
      (member k.group_id k.pkt_in_group seen ≡ false)
      × (last ≤ encode r)
      × Timely (k ∷ seen) (encode r) es
  Timely seen last (acked ks ∷ es) = Timely seen last es
  Timely seen last (checked now ∷ es) = Timely seen last es

  pub record IsKept (seen : List GroupPacketInfo) (last : ℕ) (h : Kept) : Type 0 where
    pub queue : IsQueue encode h
    pub known : (g p : ℕ) → member g p seen ≡ false → member g p h.key ≡ false
    pub before : (g p q : ℕ) → look g p h.packets ≡ some q → encode q ≤ last

  abbrev pub view : Kept → Waiting
  view h = λ g p. look g p h.packets

  look-rcv_ack :
      (ks : List GroupPacketInfo) (h : Kept) (g p : ℕ)
      → look g p (rcv_ack ks h).packets ≡ (if member g p ks then none else look g p h.packets)
  unfolding rcv_ack
  look-rcv_ack [] h g p = refl
  look-rcv_ack (k ∷ ks) h g p = ground (
    arith,
    look-rcv_ack ks (record h { packets = remove k h.packets }) g p,
    look-remove k h.packets g p,
  )

  key-rcv_ack : (ks : List GroupPacketInfo) (h : Kept) → (rcv_ack ks h).key ≡ h.key
  unfolding rcv_ack
  key-rcv_ack [] h = refl
  key-rcv_ack (k ∷ ks) h = key-rcv_ack ks (record h { packets = remove k h.packets })

  drop_late-member :
      (now : ℕ) (ks : List GroupPacketInfo) (m : Packets) (g p : ℕ)
      → member g p ks ≡ false
      → member g p (drop_late encode ddl now ks m).key ≡ false
  unfolding drop_late
  drop_late-member now [] m g p h = refl
  drop_late-member now (k ∷ ks) m g p h =
      ground (arith, drop_late-member now ks m g p, drop_late-member now ks (remove k m) g p, h)

  step-stored :
      (seen : List GroupPacketInfo) (last : ℕ) (k : GroupPacketInfo) (r : ℕ) (h : Kept)
      → member k.group_id k.pkt_in_group seen ≡ false
      → last ≤ encode r
      → IsKept seen last h
      → IsKept (k ∷ seen) (encode r) (store k r h)
  unfolding store
  step-stored seen last k r h new l v = record {
    queue =
        store-IsQueue encode k r h (v.known k.group_id k.pkt_in_group new)
          (λ g p q e. omega (arith, v.before g p q e, l)) v.queue;
    known = λ g p e. ground (arith, member-append g p h.key (k ∷ []), v.known g p, e);
    before = λ g p q e. ground (arith, look-store k r h g p, v.before g p q, e, l);
  }

  step-acked :
      (seen : List GroupPacketInfo) (last : ℕ) (ks : List GroupPacketInfo) (h : Kept)
      → IsKept seen last h
      → IsKept seen last (rcv_ack ks h)
  step-acked seen last ks h v = record {
    queue = record {
      ordered = rw (key-rcv_ack ks h) (
          Ordered-Fewer encode h.key h.packets (rcv_ack ks h).packets
            (λ g p r e. ground (arith, look-rcv_ack ks h g p, e)) v.queue.ordered);
      covered = λ g p e. ground (
        arith,
        look-rcv_ack ks h g p,
        v.queue.covered g p,
        ap (member g p) (key-rcv_ack ks h),
        e,
      );
    };
    known = λ g p e. rw (key-rcv_ack ks h) (v.known g p e);
    before = λ g p q e. ground (arith, look-rcv_ack ks h g p, v.before g p q, e);
  }

  step-checked :
      (seen : List GroupPacketInfo) (last : ℕ) (now : ℕ) (h : Kept)
      → IsKept seen last h
      → IsKept seen last (drop_late encode ddl now h.key h.packets)
  step-checked seen last now h v =
      let d = drop_late-Drops encode ddl now h.key h.packets v.queue.ordered v.queue.covered in
      record {
        queue = d.kept;
        known = λ g p e. drop_late-member now h.key h.packets g p (v.known g p e);
        before = λ g p q e. ground (arith, d.exact g p, v.before g p q, e);
      }

  -- From a queue of keys in order, any sequence of stored packets, acknowledgements and deadline
  -- checks leaves waiting exactly the packets of the abstract set: those stored, less those
  -- acknowledged and less those that missed their deadline at a check; and the queue of keys stays in
  -- order and has the key of each packet that waits. The packets are stored under new keys and in the
  -- order of their encoding times.
  pub run-replay :
      (es : List Event) (seen : List GroupPacketInfo) (last : ℕ) (h : Kept)
      → Timely seen last es
      → IsKept seen last h
      → IsQueue encode (run es h) × (view (run es h) ≡ replay es (view h))
  unfolding run step
  run-replay [] seen last h t v = (v.queue, refl)
  run-replay (stored k r ∷ es) seen last h t v =
      let ih =
        run-replay es (k ∷ seen) (encode r) (store k r h) t.2
          (step-stored seen last k r h t.0 t.1 v) in
      (ih.0, ih.1 ∙ ap (replay es) (fun_ext λ g. fun_ext λ p. look-store k r h g p))
  run-replay (acked ks ∷ es) seen last h t v =
      let ih = run-replay es seen last (rcv_ack ks h) t (step-acked seen last ks h v) in
      (ih.0, ih.1 ∙ ap (replay es) (fun_ext λ g. fun_ext λ p. look-rcv_ack ks h g p))
  run-replay (checked now ∷ es) seen last h t v =
      let ih =
        run-replay es seen last (drop_late encode ddl now h.key h.packets) t
          (step-checked seen last now h v) in
      let d = drop_late-Drops encode ddl now h.key h.packets v.queue.ordered v.queue.covered in
      (ih.0, ih.1 ∙ ap (replay es) (fun_ext λ g. fun_ext λ p. d.exact g p))

-- The packets that `StorePackets` keeps, as events.
abbrev pub stores : Store → List ℕ → List Event
stores s [] = []
stores s (r ∷ rs) =
    if is_data (s.at r).packet_type && (s.at r).tx_count == 0
    then stored (info_of (s.at r)) r ∷ stores s rs
    else stores s rs

-- `StorePackets` is the sequence of `store` for the data packets that were never sent.
pub store_packets-run :
    (encode : ℕ → ℕ) (ddl : ℕ) (s : Store) (rs : List ℕ) (h : Kept)
    → store_packets s rs h ≡ run encode ddl (stores s rs) h
unfolding store_packets run step
store_packets-run encode ddl s [] h = refl
store_packets-run encode ddl s (r ∷ rs) h =
    elim (Bool-cases (is_data (s.at r).packet_type && (s.at r).tx_count == 0)) [
      | inl keep ↦ rw keep (store_packets-run encode ddl s rs (store (info_of (s.at r)) r h))
      | inr skip ↦ rw skip (store_packets-run encode ddl s rs h)
    ]
