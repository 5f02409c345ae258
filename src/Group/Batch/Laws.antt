-- ===== src/Group/Batch/Laws.antt =====
-- What a `PacketBatch` of packet-group.cc hands over, and when it recovers packets.
use zhuge.Prelude.{
  ℕ, ◌+◌, ◌≡◌, refl, ap, Bool, true, false, ◌||◌, List, [], ◌++◌, Option, some, leb, ◌==◌,
  if◌then◌else◌, length, ◌>>=◌, >>=-eq-some, some_inj,
}
use mathlib.Core.Path.{subst}
use zhuge.Group.{VideoPacket, contains, insert_all, has_key, find}
use zhuge.Group.Sets.{Unique, contains-insert_all, insert_all-append, Unique-append}
use zhuge.Group.Batch.{
  PacketBatch, add_packet, recover, recover_from, check_complete, batch_ids, get_undecoded,
  hand_over,
}
use zhuge.Group.Batch.Recover.{
  digest_ids, DigestsDiffer, IsIncomplete, IsSettled, batch_ids-append, add_packet-IsIncomplete,
  recover-Unique, recover-All,
}

-- `begin` gives the value of an entry of the map.
abbrev pub IsBegin : (List (ℕ × VideoPacket) → Option VideoPacket) → Type 0
IsBegin begin =
    (m : List (ℕ × VideoPacket)) (f : VideoPacket)
    → begin m ≡ some f
    → (i : ℕ) × (find i m ≡ some f)

module _ (begin : List (ℕ × VideoPacket) → Option VideoPacket) (law : IsBegin begin) where
  recover_from-Unique :
      (b : PacketBatch) (now : ℕ) (f : VideoPacket)
      → IsIncomplete b
      → DigestsDiffer f
      → Unique b.decoded_pkts (batch_ids (recover_from b now f).undecoded_pkts)
  unfolding recover_from contains
  recover_from-Unique b now f v d =
      rw (batch_ids-append b.undecoded_pkts (recover b now f.encode_time f.data_pkts)) (
        Unique-append (batch_ids b.undecoded_pkts) _ b.decoded_pkts v.waiting
          (recover-Unique b now f.encode_time _ [] f.data_pkts (λ i e. rw (v.known i, e) refl) d))

  -- What `CheckComplete` leaves.
  abbrev Checked : PacketBatch → PacketBatch × Bool → Type 0
  Checked b r =
      Unique b.decoded_pkts (batch_ids r.0.undecoded_pkts)
      × (r.0.decoded_pkts ≡ b.decoded_pkts)
      × (r.1 ≡ false → IsIncomplete r.0)

  check_complete-Checked :
      (b : PacketBatch) (now : ℕ) (r : PacketBatch × Bool)
      → IsIncomplete b
      → check_complete begin b now ≡ some r
      → Checked b r
  unfolding check_complete recover_from
  check_complete-Checked b now r v e =
      go (leb b.data_num (length b.data_pkts + length b.fec_pkts))
        (length b.data_pkts == b.data_num) e
    where
      go :
          (x y : Bool)
          → (if x
              then if y
                then some (b, true)
                else begin b.fec_pkts >>= (λ f. some (recover_from b now f, true))
              else some (b, false))
            ≡ some r
          → Checked b r
      go true true q = subst (Checked b) (some_inj q) (v.waiting, refl, λ h. cc)
      go true false q =
          let m = >>=-eq-some (begin b.fec_pkts) _ q in
          let i = law b.fec_pkts m.0 m.1 in
          subst (Checked b) (some_inj m.2)
            (recover_from-Unique b now m.0 v (v.differ i.0 m.0 i.1), refl, λ h. cc)
      go false y q = subst (Checked b) (some_inj q) (v.waiting, refl, λ h. v)

  get_undecoded-IsSettled : (b : PacketBatch) → IsIncomplete b → IsSettled (get_undecoded b).0
  unfolding get_undecoded batch_ids insert_all
  get_undecoded-IsSettled b v = (record { waiting = tt; known = v.known; differ = v.differ }, refl)

  -- A batch in which nothing waits takes a packet, whose digests, if it has any, name different
  -- packets: what the batch then hands over has different ids, and it had handed over none of them
  -- before, recovered packets included. All of them are marked, and unless the batch is complete
  -- nothing waits in it afterwards.
  pub hand_over-Unique :
      (b : PacketBatch) (now : ℕ) (p : VideoPacket) {b' : PacketBatch} {out : List VideoPacket}
      {complete : Bool}
      → IsSettled b
      → DigestsDiffer p
      → hand_over begin (add_packet b p) now ≡ some (b', out, complete)
      → Unique (add_packet b p).decoded_pkts (batch_ids out)
        × (b'.decoded_pkts ≡ insert_all (batch_ids out) (add_packet b p).decoded_pkts)
        × (complete ≡ false → IsSettled b')
  unfolding hand_over get_undecoded
  hand_over-Unique b now p {b'} {out} {complete} v d e =
      let m = >>=-eq-some (check_complete begin (add_packet b p) now) _ e in
      let c =
        check_complete-Checked (add_packet b p) now m.0 (add_packet-IsIncomplete b p v d) m.1 in
      subst Handed (some_inj m.2) (
        c.0,
        ap (insert_all (batch_ids m.0.0.undecoded_pkts)) c.1,
        λ h. get_undecoded-IsSettled m.0.0 (c.2 h),
      )
    where
      Handed : PacketBatch × List VideoPacket × Bool → Type 0
      Handed t =
          Unique (add_packet b p).decoded_pkts (batch_ids t.1)
          × (t.0.decoded_pkts ≡ insert_all (batch_ids t.1) (add_packet b p).decoded_pkts)
          × (t.2 ≡ false → IsSettled t.0)

  -- When a batch, of which the data packets that it holds are known and wait once, becomes
  -- complete with a data packet missing, an FEC packet that it holds gives the rest: afterwards
  -- every packet that is named in its digests has been handed over.
  pub hand_over-recovers :
      (b : PacketBatch) (now : ℕ) {b' : PacketBatch} {out : List VideoPacket}
      → IsIncomplete b
      → (length b.data_pkts == b.data_num) ≡ false
      → hand_over begin b now ≡ some (b', out, true)
      → (f : VideoPacket) × ((i : ℕ) × (find i b.fec_pkts ≡ some f))
        × ((i : ℕ) → contains i (digest_ids f.data_pkts) ≡ true → contains i b'.decoded_pkts ≡ true)
  unfolding hand_over check_complete get_undecoded recover_from
  hand_over-recovers b now {b'} {out} v short e =
      let m = >>=-eq-some (check_complete begin b now) _ e in
      go (leb b.data_num (length b.data_pkts + length b.fec_pkts))
        (length b.data_pkts == b.data_num) short m.1 m.2 refl
    where
      Whole : PacketBatch × List VideoPacket × Bool → Type 0
      Whole t =
          (t.2 ≡ true)
          → (f : VideoPacket) × ((i : ℕ) × (find i b.fec_pkts ≡ some f))
            × ((i : ℕ)
                → contains i (digest_ids f.data_pkts) ≡ true
                → contains i t.0.decoded_pkts ≡ true)

      known_or :
          (f : VideoPacket) (i : ℕ)
          → contains i (digest_ids f.data_pkts) ≡ true
          → contains i (
              insert_all
                (batch_ids (b.undecoded_pkts ++ recover b now f.encode_time f.data_pkts))
                b.decoded_pkts)
            ≡ true
      known_or f i h =
          let c = recover-All b now f.encode_time f.data_pkts i h in
          rw
            (
              batch_ids-append b.undecoded_pkts (recover b now f.encode_time f.data_pkts),
              insert_all-append (batch_ids b.undecoded_pkts)
                  (batch_ids (recover b now f.encode_time f.data_pkts)) b.decoded_pkts,
              contains-insert_all i (batch_ids (recover b now f.encode_time f.data_pkts))
                  (insert_all (batch_ids b.undecoded_pkts) b.decoded_pkts),
              ← v.known i,
            )
            (turn (has_key i b.data_pkts) _ c)
        where
          turn : (x y : Bool) → (x || y) ≡ true → (y || x) ≡ true
          turn true true h = refl
          turn true false h = refl
          turn false true h = refl
          turn false false h = h

      after : PacketBatch × Bool → PacketBatch × List VideoPacket × Bool
      after r = ((get_undecoded r.0).0, (get_undecoded r.0).1, r.1)

      go :
          (x y : Bool) {r : PacketBatch × Bool}
          → y ≡ false
          → (if x
              then if y
                then some (b, true)
                else begin b.fec_pkts >>= (λ f. some (recover_from b now f, true))
              else some (b, false))
            ≡ some r
          → some (after r) ≡ some (b', out, true)
          → Whole (b', out, true)
      go true true s q q' = absurd cc
      go true false s q q' =
          let m = >>=-eq-some (begin b.fec_pkts) _ q in
          subst Whole (some_inj q') (
            subst (λ r. Whole (after r)) (some_inj m.2)
              (λ h. (m.0, law b.fec_pkts m.0 m.1, known_or m.0)))
      go false y s q q' =
          subst Whole (some_inj q') (subst (λ r. Whole (after r)) (some_inj q) (λ h. absurd cc))
