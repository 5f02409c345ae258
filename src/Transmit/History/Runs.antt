-- ===== src/Transmit/History/Runs.antt =====
-- The first loop of `CheckRetransmission` of packet-sender-udp.cc, and
-- the order of the keys that it relies on.
use zhuge.Prelude.{
  ℕ, ◌≤◌, ◌≡◌, refl, sym, ◌∙◌, true, false, List, [], ◌∷◌, Option, none, some, if◌then◌else◌, arith,
  Bool-cases, Option-cases, inl, inr, some_inj,
}
use zhuge.Wire.Lists.{GroupPacketInfo}
use zhuge.Transmit.History.{Kept, look, remove, misses_ddl, drop_late}
use zhuge.Transmit.History.Laws.{is_key, member, look-remove}

abbrev pub Packets : Type 0
Packets = List (ℕ × List (ℕ × ℕ))

module _ (encode : ℕ → ℕ) where
  -- No packet behind the keys was encoded before time `t`.
  abbrev pub NoneBefore : ℕ → List GroupPacketInfo → Packets → Type 0
  NoneBefore t [] m = Unit {0}
  NoneBefore t (k ∷ ks) m =
      ((r : ℕ) → look k.group_id k.pkt_in_group m ≡ some r → t ≤ encode r) × NoneBefore t ks m

  -- The keys are in the order of the packets' encoding.
  abbrev pub Ordered : List GroupPacketInfo → Packets → Type 0
  Ordered [] m = Unit {0}
  Ordered (k ∷ ks) m =
      ((r : ℕ) → look k.group_id k.pkt_in_group m ≡ some r → NoneBefore (encode r) ks m)
      × Ordered ks m

  -- Every packet that is kept has its key in the queue of keys.
  abbrev pub Covered : List GroupPacketInfo → Packets → Type 0
  Covered ks m = (g p : ℕ) → member g p ks ≡ false → look g p m ≡ none

  pub record IsQueue (h : Kept) : Type 0 where
    pub ordered : Ordered h.key h.packets
    pub covered : Covered h.key h.packets

  abbrev pub Fewer : Packets → Packets → Type 0
  Fewer m' m = (g p r : ℕ) → look g p m' ≡ some r → look g p m ≡ some r

  NoneBefore-Fewer :
      (t : ℕ) (ks : List GroupPacketInfo) (m m' : Packets)
      → Fewer m' m
      → NoneBefore t ks m
      → NoneBefore t ks m'
  NoneBefore-Fewer t [] m m' f h = tt
  NoneBefore-Fewer t (k ∷ ks) m m' f h =
      (λ r e. h.0 r (f k.group_id k.pkt_in_group r e), NoneBefore-Fewer t ks m m' f h.1)

  pub Ordered-Fewer :
      (ks : List GroupPacketInfo) (m m' : Packets) → Fewer m' m → Ordered ks m → Ordered ks m'
  Ordered-Fewer [] m m' f h = tt
  Ordered-Fewer (k ∷ ks) m m' f h = (
    λ r e. NoneBefore-Fewer (encode r) ks m m' f (h.0 r (f k.group_id k.pkt_in_group r e)),
    Ordered-Fewer ks m m' f h.1,
  )

  pub remove-Fewer : (k : GroupPacketInfo) (m : Packets) → Fewer (remove k m) m
  remove-Fewer k m g p r e = ground (arith, look-remove k m g p, e)

  -- Behind a key that no packet has, or whose packet is removed.
  Covered-tail :
      (k : GroupPacketInfo) (ks : List GroupPacketInfo) (m : Packets)
      → Covered (k ∷ ks) m
      → Covered ks (remove k m)
  Covered-tail k ks m c g p h = ground (arith, look-remove k m g p, c g p)

  look-key :
      (k : GroupPacketInfo) (m : Packets) (g p : ℕ)
      → is_key k g p ≡ true
      → look g p m ≡ look k.group_id k.pkt_in_group m
  look-key k m g p h = ground (arith, h)

  Covered-none :
      (k : GroupPacketInfo) (ks : List GroupPacketInfo) (m : Packets)
      → look k.group_id k.pkt_in_group m ≡ none
      → Covered (k ∷ ks) m
      → Covered ks m
  Covered-none k ks m gone c g p h = ground (arith, gone, h, c g p, look-key k m g p)

  NoneBefore-member :
      (t : ℕ) (ks : List GroupPacketInfo) (m : Packets) (g p r : ℕ)
      → NoneBefore t ks m
      → member g p ks ≡ true
      → look g p m ≡ some r
      → t ≤ encode r
  NoneBefore-member t [] m g p r h e l = absurd (cc)
  NoneBefore-member t (k ∷ ks) m g p r h e l = elim (Bool-cases (is_key k g p)) [
    | inl same ↦ h.0 r (sym (look-key k m g p same) ∙ l)
    | inr other ↦ NoneBefore-member t ks m g p r h.1 (ground (arith, e, other)) l
  ]

  first-least :
      (k : GroupPacketInfo) (ks : List GroupPacketInfo) (m : Packets) (r g p q : ℕ)
      → look k.group_id k.pkt_in_group m ≡ some r
      → Ordered (k ∷ ks) m
      → Covered (k ∷ ks) m
      → look g p m ≡ some q
      → encode r ≤ encode q
  first-least k ks m r g p q e o c l = elim (Bool-cases (is_key k g p)) [
    | inl same ↦ let eq = some_inj (sym e ∙ sym (look-key k m g p same) ∙ l) in rw eq (omega arith)
    | inr other ↦ elim (Bool-cases (member g p ks)) [
      | inl has ↦ NoneBefore-member (encode r) ks m g p q (o.0 r e) has l
      | inr hasnt ↦ absurd (ground (arith, c g p, other, hasnt, l))
    ]
  ]

  module _ (ddl now : ℕ) where
    -- A packet, unless it misses its deadline.
    abbrev pub in_time : Option ℕ → Option ℕ
    in_time o = elim o [
      | none ↦ none
      | some r ↦ if misses_ddl ddl now (encode r) then none else some r
    ]

    pub record Drops (m : Packets) (h : Kept) : Type 0 where
      pub kept : IsQueue h
      pub exact : (g p : ℕ) → look g p h.packets ≡ in_time (look g p m)

    -- The first packet in time: all the others are.
    Drops-stop :
        (k : GroupPacketInfo) (ks : List GroupPacketInfo) (m : Packets) (r : ℕ)
        → look k.group_id k.pkt_in_group m ≡ some r
        → misses_ddl ddl now (encode r) ≡ false
        → Ordered (k ∷ ks) m
        → Covered (k ∷ ks) m
        → (g p : ℕ) → look g p m ≡ in_time (look g p m)
    unfolding misses_ddl
    Drops-stop k ks m r e live o c g p = elim (Option-cases (look g p m)) [
      | inl gone ↦ rw gone refl
      | inr found ↦ ground (arith, found.1, live, first-least k ks m r g p found.0 e o c found.1)
    ]

    Drops-go :
        (k : GroupPacketInfo) (ks : List GroupPacketInfo) (m : Packets) (r : ℕ) (h : Kept)
        → look k.group_id k.pkt_in_group m ≡ some r
        → misses_ddl ddl now (encode r) ≡ true
        → Drops (remove k m) h
        → Drops m h
    Drops-go k ks m r h e late d = record {
      kept = d.kept;
      exact = λ g p. ground (arith, d.exact g p, look-remove k m g p, look-key k m g p, e, late);
    }

    pub drop_late-step :
        (k : GroupPacketInfo) (ks : List GroupPacketInfo) (m : Packets) (o : Option ℕ)
        → look k.group_id k.pkt_in_group m ≡ o
        → drop_late encode ddl now (k ∷ ks) m ≡ elim o [
          | none ↦ drop_late encode ddl now ks m
          | some r ↦
              if misses_ddl ddl now (encode r)
              then drop_late encode ddl now ks (remove k m)
              else record { key = k ∷ ks; packets = m }
        ]
    unfolding drop_late
    drop_late-step k ks m none e = ground (arith, e)
    drop_late-step k ks m (some r) e = ground (arith, e)

    pub drop_late-Drops :
        (ks : List GroupPacketInfo) (m : Packets)
        → Ordered ks m
        → Covered ks m
        → Drops m (drop_late encode ddl now ks m)
    unfolding drop_late
    drop_late-Drops [] m o c = record {
      kept = record { ordered = tt; covered = c };
      exact = λ g p. ground (arith, c g p refl);
    }
    drop_late-Drops (k ∷ ks) m o c = elim (Option-cases (look k.group_id k.pkt_in_group m)) [
      | inl gone ↦
          rw (drop_late-step k ks m none gone)
            (drop_late-Drops ks m o.1 (Covered-none k ks m gone c))
      | inr found ↦ elim (Bool-cases (misses_ddl ddl now (encode found.0))) [
        | inl late ↦
            rw (drop_late-step k ks m (some found.0) found.1, late)
              (Drops-go k ks m found.0 (drop_late encode ddl now ks (remove k m)) found.1 late (
                drop_late-Drops ks (remove k m)
                  (Ordered-Fewer ks m (remove k m) (remove-Fewer k m) o.1) (Covered-tail k ks m c)))
        | inr live ↦
            rw (drop_late-step k ks m (some found.0) found.1, live)
              (record {
                kept = record { ordered = o; covered = c };
                exact = Drops-stop k ks m found.0 found.1 live o c;
              })
      ]
    ]
