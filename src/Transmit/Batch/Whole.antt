-- ===== src/Transmit/Batch/Whole.antt =====
-- `CreateFirstPacketBatch` of packet-sender-udp.cc as a whole.
use mathlib.Core.Path.{subst}
use zhuge.Prelude.{
  ℕ, ◌+◌, ◌<◌, ◌≤◌, ◌≡◌, refl, sym, ap, ◌∙◌, true, false, List, ◌∷◌, ◌++◌, some, length, arith, All,
}
use zhuge.Prelude.Words.{add_w, u16}
use zhuge.Group.{contains}
use zhuge.Transmit.{VideoPacket, deref, digests}
use zhuge.Transmit.Batch.{Ids, Numbers, numbers, create_packet_batch, create_first_packet_batch}
use zhuge.Transmit.Batch.Laws.{Distinct, Placed, AllData, IsSame, assign-Assigned}
use zhuge.Transmit.Batch.First.{
  Below, Covers, deref-same, Placed-same, Placed-append, add_fec-Added,
}

-- The numbers of a first batch of `d` data packets and `m` FEC packets.
abbrev pub first_numbers : Ids → ℕ → ℕ → Numbers
first_numbers i d m = record {
  batch = i.batch_id;
  batch_data_num = d;
  batch_fec_num = m;
  group = i.group_id;
  group_data_num = d;
  group_fec_num = m;
}

module _ (unset now : ℕ) (fec_count : ℕ → ℕ) where
  -- A first batch of the data packets `rs`: it has them in order, and then its FEC packets.
  pub record Batched (rs : List ℕ) (i : Ids) : Type 0 where
    pub next : Ids
    pub fecs : List ℕ
    pub creates : create_first_packet_batch unset now fec_count rs i ≡ some (next, rs ++ fecs)
    pub count : length fecs ≡ fec_count (length rs)
    pub placed :
        Placed next.store.at (first_numbers i (length rs) (fec_count (length rs))) 0 (rs ++ fecs)
    pub covers : All (λ r. Covers now (digests (deref next.store rs)) (next.store.at r)) fecs
    pub fresh : All (λ (r : ℕ). i.store.next_ref ≤ r) fecs
    pub grows : next.store.next_ref ≡ i.store.next_ref + length fecs
    pub taken : Below next.store.next_ref fecs
    pub others :
        (q : ℕ) → q < i.store.next_ref → contains q rs ≡ false → next.store.at q ≡ i.store.at q
    pub same : (q : ℕ) → q < i.store.next_ref → IsSame (next.store.at q) (i.store.at q)
    pub next_group : next.group_id ≡ add_w 32 i.group_id 1
    pub next_batch : next.batch_id ≡ add_w 32 i.batch_id 1

  u16-small : (d : ℕ) → d < 65536 → u16 d ≡ d
  u16-small d l = omega arith

  numbers-first :
      (p : VideoPacket) (d : ℕ) (i : Ids)
      → d + fec_count d < 65536
      → numbers unset now fec_count true 0 p d i ≡ first_numbers i d (fec_count d)
  unfolding numbers
  numbers-first p d i l =
      let e : u16 d ≡ d = omega (arith, l) in
      let f : u16 (fec_count (u16 d)) ≡ fec_count d =
        ap (λ n. u16 (fec_count n)) e ∙ u16-small (fec_count d) (omega (arith, l)) in
      cc (e, f)

  -- A first batch of at least one data packet, with at most 2^16 - 1 packets in all, has its data
  -- packets in order and then the FEC packets that the rate asks for, which are new. Each packet
  -- has the batch's and the group's numbers, and its place as its id in the batch and in the group;
  -- each FEC packet has the digests of all the data packets, with these numbers, and was encoded
  -- now. The batch takes the next batch id and the next group id, and no other packet changes.
  pub create_first_packet_batch-Batched :
      (r : ℕ) (rs : List ℕ) (i : Ids)
      → Distinct (r ∷ rs)
      → AllData i.store (r ∷ rs)
      → Below i.store.next_ref (r ∷ rs)
      → length (r ∷ rs) + fec_count (length (r ∷ rs)) < 65536
      → Batched (r ∷ rs) i
  unfolding create_first_packet_batch create_packet_batch
  create_first_packet_batch-Batched r rs i u d b l =
      let n = first_numbers i (length (r ∷ rs)) (fec_count (length (r ∷ rs))) in
      let a =
        assign-Assigned n 0 (r ∷ rs) (record { store = i.store; in_batch = 0; in_group = 0 }) u d
          refl refl (omega (arith, l)) in
      let below = subst (λ m. Below m (r ∷ rs)) (sym a.next_ref) b in
      let f =
        add_fec-Added unset now n (i.store.at r).tx_count (r ∷ rs)
          (digests (deref a.next.store (r ∷ rs))) (fec_count (length (r ∷ rs))) (length (r ∷ rs))
          a.next below refl (omega (arith, a.in_batch)) (omega (arith, a.in_group))
          (omega (arith, l)) in
      let derefs = deref-same a.next.store f.next.store (r ∷ rs) f.others below in
      record {
        next = record i {
          group_id = add_w 32 i.group_id 1;
          batch_id = add_w 32 i.batch_id 1;
          store = f.next.store;
          send_group_cnt = add_w 64 i.send_group_cnt 1;
        };
        fecs = f.fecs;
        creates = rw (numbers-first (i.store.at r) (length (r ∷ rs)) i l, a.assigns, f.adds) refl;
        count = f.count;
        placed =
            Placed-append f.next.store.at n 0 (length (r ∷ rs)) (r ∷ rs) f.fecs (omega arith)
              (Placed-same a.next.store f.next.store n 0 (r ∷ rs) f.others below a.placed) f.placed;
        covers =
            subst (λ ds. All (λ q. Covers now ds (f.next.store.at q)) f.fecs)
              (sym (ap digests derefs)) f.covers;
        fresh = subst (λ m. All (λ (q : ℕ). m ≤ q) f.fecs) a.next_ref f.fresh;
        grows = omega (arith, f.grows, f.count, a.next_ref);
        taken = f.taken;
        others = λ q h k. f.others q (omega (arith, h, a.next_ref)) ∙ a.others q k;
        same = λ q h.
            subst (λ p. IsSame p (i.store.at q)) (sym (f.others q (omega (arith, h, a.next_ref))))
              (a.same q);
        next_group = refl;
        next_batch = refl;
      }
