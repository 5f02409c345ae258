-- ===== src/Receiver/Groups/Laws.antt =====
-- Where the groups of packet-receiver-udp.cc go.
use mathlib.Core.Path.{subst}
use zhuge.Prelude.{
  ℕ, ◌+◌, ◌≤◌, ◌<◌, ◌≡◌, refl, ap, ◌∙◌, Bool, true, false, ◌||◌, List, [], ◌∷◌, Option, some, ltb,
  ◌==◌, arith, All, Bool-cases, inl, inr,
}
use zhuge.Prelude.Words.{add_w}
use zhuge.Group.{
  VideoPacket, PacketType, data_pkt, dup_fec_pkt, fec_pkt, rtx_req_pkt, ack_pkt, frame_ack_pkt,
  netstate_pkt, has_key, put,
}
use zhuge.Group.Sets.{has_key-put}
use zhuge.Group.Frames.{PacketGroup, group_add, group_undecoded}
use zhuge.Receiver.Groups.{
  Receiver, Passed, tally, group_of, by_type, count_fec, count_packet, is_over, conclude, receive,
  reply_ack, expire, timeouts,
}

-- A group that is not late at a time.
abbrev pub InTime : ℕ → ℕ → ℕ × PacketGroup → Type 0
InTime ddl rcv e = rcv ≤ e.1.encode_time + ddl

-- A group is filed under its own id.
abbrev pub IsFiled : ℕ × PacketGroup → Type 0
IsFiled e = e.1.group_id ≡ e.0

expire-late :
    (ddl rcv id : ℕ) (m late : List (ℕ × PacketGroup))
    → has_key id late ≡ true
    → has_key id (expire ddl rcv m late).1 ≡ true
unfolding expire
expire-late ddl rcv id [] late h = h
expire-late ddl rcv id (e ∷ m) late h = elim (Bool-cases (ltb (e.1.encode_time + ddl) rcv)) [
  | inl old ↦ rw old (
      expire-late ddl rcv id m (put e.1.group_id e.1 late)
        (has_key-put id e.1.group_id e.1 late ∙ rw h (ground arith)))
  | inr new ↦ rw new (expire-late ddl rcv id m late h)
]

expire-kept :
    (ddl rcv id : ℕ) (m late : List (ℕ × PacketGroup))
    → All IsFiled m
    → has_key id m ≡ true
    → (has_key id (expire ddl rcv m late).0 || has_key id (expire ddl rcv m late).1) ≡ true
unfolding expire has_key
expire-kept ddl rcv id [] late f h = absurd cc
expire-kept ddl rcv id (e ∷ m) late f h =
    let after = expire-kept ddl rcv id m (put e.1.group_id e.1 late) f.1 in
    let before = expire-kept ddl rcv id m late f.1 in
    elim (Bool-cases (ltb (e.1.encode_time + ddl) rcv)) [
      | inl old ↦ elim (Bool-cases (id == e.0)) [
        | inl same ↦ rw old (late_true _ _ (filed same))
        | inr other ↦ rw old (after (rest other h))
      ]
      | inr new ↦ elim (Bool-cases (id == e.0)) [
        | inl same ↦ rw (new, same) refl
        | inr other ↦ rw (new, other) (before (rest other h))
      ]
    ]
  where
    rest : (id == e.0) ≡ false → ((id == e.0) || has_key id m) ≡ true → has_key id m ≡ true
    rest o k = subst (λ b. (b || has_key id m) ≡ true) o k

    filed : (id == e.0) ≡ true → has_key id (expire ddl rcv m (put e.1.group_id e.1 late)).1 ≡ true
    filed same =
        expire-late ddl rcv id m (put e.1.group_id e.1 late)
          (has_key-put id e.1.group_id e.1 late ∙ rw (f.0, same) refl)

    late_true : (b a : Bool) → a ≡ true → (b || a) ≡ true
    late_true b a h = ground arith

-- A group whose deadline has passed.
abbrev pub IsLate : ℕ → ℕ → ℕ × PacketGroup → Type 0
IsLate ddl rcv e = e.1.encode_time + ddl < rcv

-- A list of groups in two parts, each in the order of the list: those in time and those late.
pub data Splits (ddl rcv : ℕ)
    : List (ℕ × PacketGroup) → List (ℕ × PacketGroup) → List (ℕ × PacketGroup) → Type 0 where
  split_end : Splits ddl rcv [] [] []
  stays :
      {e : ℕ × PacketGroup} {m kept late : List (ℕ × PacketGroup)}
      → InTime ddl rcv e
      → Splits ddl rcv m kept late
      → Splits ddl rcv (e ∷ m) (e ∷ kept) late
  times_out :
      {e : ℕ × PacketGroup} {m kept late : List (ℕ × PacketGroup)}
      → IsLate ddl rcv e
      → Splits ddl rcv m kept late
      → Splits ddl rcv (e ∷ m) kept (e ∷ late)

-- Groups are filed under their own ids, in order.
abbrev pub file_all : List (ℕ × PacketGroup) → List (ℕ × PacketGroup) → List (ℕ × PacketGroup)
file_all [] m = m
file_all (e ∷ es) m = file_all es (put e.1.group_id e.1 m)

expire-Splits :
    (ddl rcv : ℕ) (m filed : List (ℕ × PacketGroup))
    → (late : List (ℕ × PacketGroup)) × Splits ddl rcv m (expire ddl rcv m filed).0 late
      × ((expire ddl rcv m filed).1 ≡ file_all late filed)
unfolding expire
expire-Splits ddl rcv [] filed = ([], split_end, refl)
expire-Splits ddl rcv (e ∷ m) filed = elim (Bool-cases (ltb (e.1.encode_time + ddl) rcv)) [
  | inl old ↦
      let r = expire-Splits ddl rcv m (put e.1.group_id e.1 filed) in
      rw old (e ∷ r.0, times_out (ground (arith, old)) r.1, r.2)
  | inr new ↦
      let r = expire-Splits ddl rcv m filed in rw new (r.0, stays (ground (arith, new)) r.1, r.2)
]

-- If every incomplete group is filed under its own id: the loop over the deadlines divides the
-- incomplete groups. A group stays, in its place, if the packet came no later than the group's
-- encoding time and the deadline together, and is late otherwise. The late groups are filed, in order,
-- among those that timed out; none is forgotten, so that each is incomplete still or has timed out.
pub timeouts-sorts :
    (r : Receiver) (rcv : ℕ)
    → All IsFiled r.incomplete_groups
    → ((late : List (ℕ × PacketGroup)) × Splits r.delay_ddl rcv r.incomplete_groups
          (timeouts r rcv).incomplete_groups
          late
        × ((timeouts r rcv).timeout_groups ≡ file_all late r.timeout_groups))
      × ((id : ℕ)
          → has_key id r.incomplete_groups ≡ true
          → (has_key id (timeouts r rcv).incomplete_groups
              || has_key id (timeouts r rcv).timeout_groups)
            ≡ true)
unfolding timeouts
timeouts-sorts r rcv f = (
  expire-Splits r.delay_ddl rcv r.incomplete_groups r.timeout_groups,
  λ id h. expire-kept r.delay_ddl rcv id r.incomplete_groups r.timeout_groups f h,
)

counted :
    (r : Receiver) (p : VideoPacket)
    → ((count_packet r p).complete_groups ≡ r.complete_groups)
      × ((count_packet r p).timeout_groups ≡ r.timeout_groups)
unfolding count_packet by_type count_fec
counted r p = go p.packet_type
  where
    r₀ : Receiver
    r₀ = record r {
      rcvd_pkt_cnt = add_w 64 r.rcvd_pkt_cnt 1;
      rcvd_pkt_rtx_count = tally p.tx_count r.rcvd_pkt_rtx_count;
    }

    go :
        (k : PacketType)
        → ((by_type k p.tx_count r₀).complete_groups ≡ r.complete_groups)
          × ((by_type k p.tx_count r₀).timeout_groups ≡ r.timeout_groups)
    go data_pkt = (refl, refl)
    go dup_fec_pkt = (refl, refl)
    go fec_pkt = (refl, refl)
    go rtx_req_pkt = (refl, refl)
    go ack_pkt = (refl, refl)
    go frame_ack_pkt = (refl, refl)
    go netstate_pkt = (refl, refl)

conclude-over :
    (r : Receiver) (p : VideoPacket) (g : PacketGroup)
    → is_over r p.group_id ≡ true
    → conclude r p g ≡ some r
unfolding conclude
conclude-over r p g h = rw h refl

-- A packet of a group that is over opens the group a second time: the test for it comes after the
-- group has been made, and the call then returns, with no group ended. It holds wherever the group
-- takes the packet.
pub receive-reopens :
    (begin : List (ℕ × VideoPacket) → Option VideoPacket) (unset : ℕ) (r : Receiver)
    (p : VideoPacket) (global_id : ℕ) (g : PacketGroup)
    → is_over r p.group_id ≡ true
    → group_add begin (group_of unset (count_packet r p) p) p.rcv_time p ≡ some g
    → (r' : Receiver) × (out : Passed) × (receive begin unset r p global_id ≡ some (r', out))
      × (has_key p.group_id r'.incomplete_groups ≡ true)
      × (is_over r' p.group_id ≡ true)
      × (r'.complete_groups ≡ r.complete_groups)
      × (r'.timeout_groups ≡ r.timeout_groups)
unfolding receive is_over
receive-reopens begin unset r p global_id g₀ over e =
    let g = (group_undecoded g₀).0 in
    let out = (group_undecoded g₀).1 in
    (
      with g,
      record { decoded = out; ack = reply_ack out global_id },
      rw (e, conclude-over (with g) p g (still g)) refl,
      (reopened g).0,
      (reopened g).1,
      (reopened g).2,
      (reopened g).3,
    )
  where
    with : PacketGroup → Receiver
    with g = record (count_packet r p) {
      incomplete_groups = put p.group_id g (count_packet r p).incomplete_groups;
    }

    still : (g : PacketGroup) → is_over (with g) p.group_id ≡ true
    still g =
        ap (λ m. has_key p.group_id m || has_key p.group_id (count_packet r p).timeout_groups)
          (counted r p).0
        ∙ ap (λ m. has_key p.group_id r.complete_groups || has_key p.group_id m) (counted r p).1
        ∙ over

    Reopened : Receiver → Type 0
    Reopened s =
        (has_key p.group_id s.incomplete_groups ≡ true)
        × (is_over s p.group_id ≡ true)
        × (s.complete_groups ≡ r.complete_groups)
        × (s.timeout_groups ≡ r.timeout_groups)

    reopened : (g : PacketGroup) → Reopened (with g)
    reopened g = (
      has_key-put p.group_id p.group_id g (count_packet r p).incomplete_groups ∙ own,
      still g,
      (counted r p).0,
      (counted r p).1,
    )
      where
        own :
            ((p.group_id == p.group_id) || has_key p.group_id (count_packet r p).incomplete_groups)
            ≡ true
        own = rw (same_number p.group_id) refl
          where
            same_number : (n : ℕ) → (n == n) ≡ true
            same_number n = ground arith
