-- ===== src/Transmit/Batch/Extra.antt =====
-- The FEC packets of a retransmission in `CreatePacketBatch` of packet-sender-udp.cc.
use mathlib.Core.Path.{subst}
use zhuge.Prelude.{
  ℕ, zero, suc, ◌+◌, ◌<◌, ◌≤◌, ◌≡◌, refl, sym, ap, ◌∙◌, true, List, [], ◌∷◌, length, arith, All,
}
use zhuge.Prelude.Words.{add_w, u16}
use zhuge.Wire.Lists.{DataPktDigest}
use zhuge.Transmit.{
  VideoPacket, alloc, deref, digests, set_fec_group, set_fec_batch, new_fec_packet, new_packet,
}
use zhuge.Transmit.Batch.{Numbers, Next, rtx_fec_group_id, fec_packet, add_fec}
use zhuge.Transmit.Batch.First.{Below, Covers, deref-same}

-- An FEC packet of a retransmission: it covers the data packets, has the batch's and the group's
-- numbers, the id `k` in its batch, in 16 bits, and the id in its group that says what it is.
pub record IsExtra (now : ℕ) (ds : List DataPktDigest) (n : Numbers) (tx_count k : ℕ)
    (p : VideoPacket) : Type 0 where
  pub covers : Covers now ds p
  pub tx_count_lem : p.tx_count ≡ tx_count
  pub batch_id : p.batch_id ≡ n.batch
  pub batch_data_num : p.batch_data_num ≡ n.batch_data_num
  pub batch_fec_num : p.batch_fec_num ≡ n.batch_fec_num
  pub pkt_id_in_batch : p.pkt_id_in_batch ≡ u16 k
  pub group_id : p.group_id ≡ n.group
  pub group_data_num : p.group_data_num ≡ n.group_data_num
  pub group_fec_num : p.group_fec_num ≡ n.group_fec_num
  pub pkt_id_in_group : p.pkt_id_in_group ≡ rtx_fec_group_id

-- The ids in the batch count on from `k`.
abbrev pub AllExtra : ℕ → List DataPktDigest → Numbers → ℕ → (ℕ → VideoPacket) → ℕ → List ℕ → Type 0
AllExtra now ds n tx_count at k [] = Unit {0}
AllExtra now ds n tx_count at k (r ∷ rs) =
    IsExtra now ds n tx_count k (at r) × AllExtra now ds n tx_count at (suc k) rs

module _ (unset now : ℕ) (n : Numbers) (tx_count : ℕ) (rs : List ℕ) (ds : List DataPktDigest) where
  -- The FEC packets of a retransmission: new ones, and nothing else changes.
  pub record Extra (i k : ℕ) (x : Next) : Type 0 where
    pub next : Next
    pub fecs : List ℕ
    pub adds : add_fec unset now n true tx_count rs i x ≡ (next, fecs)
    pub count : length fecs ≡ i
    pub extra : AllExtra now ds n tx_count next.store.at k fecs
    pub fresh : All (λ (r : ℕ). x.store.next_ref ≤ r) fecs
    pub others : (q : ℕ) → q < x.store.next_ref → next.store.at q ≡ x.store.at q

  one : Next → Next
  one x = record {
    store = (alloc (fec_packet unset now n true tx_count (deref x.store rs) x) x.store).0;
    in_batch = add_w 16 x.in_batch 1;
    in_group = x.in_group;
  }

  one-others :
      (x : Next)
      → ((one x).store.next_ref ≡ x.store.next_ref + 1)
        × ((q : ℕ) → q < x.store.next_ref → (one x).store.at q ≡ x.store.at q)
  unfolding one alloc
  one-others x = (refl, λ q l. ground (arith, l))

  fresh-weaken :
      (a b : ℕ) (fs : List ℕ) → a ≤ b → All (λ (r : ℕ). b ≤ r) fs → All (λ (r : ℕ). a ≤ r) fs
  fresh-weaken a b [] l h = tt
  fresh-weaken a b (f ∷ fs) l h = (omega (arith, l, h.0), fresh-weaken a b fs l h.1)

  add_fec-step :
      (i : ℕ) (x x' : Next) (fs : List ℕ)
      → add_fec unset now n true tx_count rs i (one x) ≡ (x', fs)
      → add_fec unset now n true tx_count rs (suc i) x ≡ (x', x.store.next_ref ∷ fs)
  unfolding add_fec one alloc
  add_fec-step i x x' fs e = rw e refl

  one-new :
      (x : Next)
      → (one x).store.at x.store.next_ref
        ≡ fec_packet unset now n true tx_count (deref x.store rs) x
  unfolding one alloc
  one-new x = ground arith

  fec-IsExtra :
      (k : ℕ) (x : Next)
      → x.in_batch ≡ u16 k
      → digests (deref x.store rs) ≡ ds
      → IsExtra now ds n tx_count k (fec_packet unset now n true tx_count (deref x.store rs) x)
  unfolding fec_packet set_fec_group set_fec_batch new_fec_packet new_packet
  fec-IsExtra k x b e = record {
    covers = (refl, e, refl);
    tx_count_lem = refl;
    batch_id = refl;
    batch_data_num = refl;
    batch_fec_num = refl;
    pkt_id_in_batch = b;
    group_id = refl;
    group_data_num = refl;
    group_fec_num = refl;
    pkt_id_in_group = refl;
  }

  one-in_batch : (k : ℕ) (x : Next) → x.in_batch ≡ u16 k → (one x).in_batch ≡ u16 (suc k)
  unfolding one
  one-in_batch k x b = omega (arith, b)

  Below-one : (x : Next) (qs : List ℕ) → Below x.store.next_ref qs → Below (one x).store.next_ref qs
  Below-one x [] h = tt
  Below-one x (q ∷ qs) h = (omega (arith, h.0, (one-others x).0), Below-one x qs h.1)

  pub add_fec-Extra :
      (i k : ℕ) (x : Next)
      → Below x.store.next_ref rs
      → digests (deref x.store rs) ≡ ds
      → x.in_batch ≡ u16 k
      → Extra i k x
  unfolding add_fec
  add_fec-Extra zero k x below e b = record {
    next = x;
    fecs = [];
    adds = refl;
    count = refl;
    extra = tt;
    fresh = tt;
    others = λ q l. refl;
  }
  add_fec-Extra (suc i) k x below e b =
      let o = one-others x in
      let r =
        add_fec-Extra i (suc k) (one x) (Below-one x rs below)
          (ap digests (deref-same x.store (one x).store rs o.1 below) ∙ e) (one-in_batch k x b) in
      let same = r.others x.store.next_ref (omega (arith, o.0)) ∙ one-new x in
      record {
        next = r.next;
        fecs = x.store.next_ref ∷ r.fecs;
        adds = add_fec-step i x r.next r.fecs r.adds;
        count = omega (arith, r.count);
        extra = (subst (IsExtra now ds n tx_count k) (sym same) (fec-IsExtra k x b e), r.extra);
        fresh = (
          omega arith,
          fresh-weaken x.store.next_ref (one x).store.next_ref r.fecs (omega (arith, o.0)) r.fresh,
        );
        others = λ q l. r.others q (omega (arith, l, o.0)) ∙ o.1 q l;
      }
