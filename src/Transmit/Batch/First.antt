-- ===== src/Transmit/Batch/First.antt =====
-- The first batch of a group in packet-sender-udp.cc, with its FEC packets.
use mathlib.Core.Path.{subst}
use zhuge.Prelude.{
  ℕ, zero, suc, ◌+◌, ◌<◌, ◌≤◌, ◌≡◌, refl, sym, ap, ◌∙◌, false, List, [], ◌∷◌, ◌++◌, length, arith,
  All,
}
use zhuge.Prelude.Words.{add_w}
use zhuge.Wire.Lists.{DataPktDigest}
use zhuge.Group.{fec_pkt}
use zhuge.Transmit.{
  VideoPacket, Store, alloc, deref, digests, set_fec_group, set_fec_batch, new_fec_packet,
  new_packet,
}
use zhuge.Transmit.Batch.{Numbers, Next, fec_packet, add_fec}
use zhuge.Transmit.Batch.Laws.{IsNumbered, Placed}

-- The references are taken.
abbrev pub Below : ℕ → List ℕ → Type 0
Below n rs = All (λ (r : ℕ). r < n) rs

-- An FEC packet that covers the data packets with these digests, encoded when it was made.
abbrev pub Covers : ℕ → List DataPktDigest → VideoPacket → Type 0
Covers now ds p = (p.packet_type ≡ fec_pkt) × (p.data_pkts ≡ ds) × (p.encode_time ≡ now)

pub deref-same :
    (s t : Store) (rs : List ℕ)
    → ((q : ℕ) → q < s.next_ref → t.at q ≡ s.at q)
    → Below s.next_ref rs
    → deref t rs ≡ deref s rs
unfolding deref
deref-same s t [] same b = refl
deref-same s t (r ∷ rs) same b = rw (same r b.0, deref-same s t rs same b.1) refl

pub Placed-same :
    (s t : Store) (n : Numbers) (k : ℕ) (rs : List ℕ)
    → ((q : ℕ) → q < s.next_ref → t.at q ≡ s.at q)
    → Below s.next_ref rs
    → Placed s.at n k rs
    → Placed t.at n k rs
Placed-same s t n k [] same b h = tt
Placed-same s t n k (r ∷ rs) same b h =
    (subst (IsNumbered n k) (sym (same r b.0)) h.0, Placed-same s t n (suc k) rs same b.1 h.1)

pub Placed-append :
    (at : ℕ → VideoPacket) (n : Numbers) (k j : ℕ) (rs fs : List ℕ)
    → j ≡ k + length rs
    → Placed at n k rs
    → Placed at n j fs
    → Placed at n k (rs ++ fs)
Placed-append at n k j [] fs e h i =
    let same : j ≡ k = omega (arith, e) in subst (λ m. Placed at n m fs) same i
Placed-append at n k j (r ∷ rs) fs e h i =
    (h.0, Placed-append at n (suc k) j rs fs (omega (arith, e)) h.1 i)

module _ (unset now : ℕ) (n : Numbers) (tx_count : ℕ) (rs : List ℕ) (ds : List DataPktDigest) where
  -- The FEC packets from the `k`th on.
  pub record Added (i k : ℕ) (x : Next) : Type 0 where
    pub next : Next
    pub fecs : List ℕ
    pub adds : add_fec unset now n false tx_count rs i x ≡ (next, fecs)
    pub count : length fecs ≡ i
    pub placed : Placed next.store.at n k fecs
    pub covers : All (λ r. Covers now ds (next.store.at r)) fecs
    pub fresh : All (λ (r : ℕ). x.store.next_ref ≤ r) fecs
    pub grows : next.store.next_ref ≡ x.store.next_ref + i
    pub taken : Below next.store.next_ref fecs
    pub others : (q : ℕ) → q < x.store.next_ref → next.store.at q ≡ x.store.at q

  one : Next → Next
  one x = record {
    store = (alloc (fec_packet unset now n false tx_count (deref x.store rs) x) x.store).0;
    in_batch = add_w 16 x.in_batch 1;
    in_group = add_w 16 x.in_group 1;
  }

  one-others : (x : Next) (q : ℕ) → q < x.store.next_ref → (one x).store.at q ≡ x.store.at q
  unfolding one alloc
  one-others x q l = ground (arith, l)

  one-new :
      (x : Next)
      → (one x).store.at x.store.next_ref
        ≡ fec_packet unset now n false tx_count (deref x.store rs) x
  unfolding one alloc
  one-new x = ground arith

  fec-IsNumbered :
      (k : ℕ) (x : Next)
      → x.in_batch ≡ k
      → x.in_group ≡ k
      → IsNumbered n k (fec_packet unset now n false tx_count (deref x.store rs) x)
  unfolding fec_packet set_fec_group set_fec_batch
  fec-IsNumbered k x b g = record {
    batch_id = refl;
    batch_data_num = refl;
    batch_fec_num = refl;
    pkt_id_in_batch = b;
    group_id = refl;
    group_data_num = refl;
    group_fec_num = refl;
    pkt_id_in_group = g;
  }

  fec-Covers :
      (x : Next)
      → digests (deref x.store rs) ≡ ds
      → Covers now ds (fec_packet unset now n false tx_count (deref x.store rs) x)
  unfolding fec_packet set_fec_group set_fec_batch new_fec_packet new_packet
  fec-Covers x e = (refl, e, refl)

  one-next_ref : (x : Next) → (one x).store.next_ref ≡ x.store.next_ref + 1
  unfolding one alloc
  one-next_ref x = refl

  one-ids :
      (k : ℕ) (x : Next)
      → x.in_batch ≡ k
      → x.in_group ≡ k
      → k < 65535
      → ((one x).in_batch ≡ suc k) × ((one x).in_group ≡ suc k)
  unfolding one
  one-ids k x b g l = (omega (arith, b, l), omega (arith, g, l))

  add_fec-step :
      (i : ℕ) (x : Next) (x' : Next) (fs : List ℕ)
      → add_fec unset now n false tx_count rs i (one x) ≡ (x', fs)
      → add_fec unset now n false tx_count rs (suc i) x ≡ (x', x.store.next_ref ∷ fs)
  unfolding add_fec one alloc
  add_fec-step i x x' fs e = rw e refl

  fresh-weaken :
      (a b : ℕ) (fs : List ℕ) → a ≤ b → All (λ (r : ℕ). b ≤ r) fs → All (λ (r : ℕ). a ≤ r) fs
  fresh-weaken a b [] l h = tt
  fresh-weaken a b (f ∷ fs) l h = (omega (arith, l, h.0), fresh-weaken a b fs l h.1)

  Below-one : (x : Next) (qs : List ℕ) → Below x.store.next_ref qs → Below (one x).store.next_ref qs
  Below-one x [] h = tt
  Below-one x (q ∷ qs) h = (omega (arith, h.0, one-next_ref x), Below-one x qs h.1)

  pub add_fec-Added :
      (i k : ℕ) (x : Next)
      → Below x.store.next_ref rs
      → digests (deref x.store rs) ≡ ds
      → x.in_batch ≡ k
      → x.in_group ≡ k
      → k + i < 65536
      → Added i k x
  unfolding add_fec
  add_fec-Added zero k x below e b g l = record {
    next = x;
    fecs = [];
    adds = refl;
    count = refl;
    placed = tt;
    covers = tt;
    fresh = tt;
    grows = omega arith;
    taken = tt;
    others = λ q h. refl;
  }
  add_fec-Added (suc i) k x below e b g l =
      let ids = one-ids k x b g (omega (arith, l)) in
      let r =
        add_fec-Added i (suc k) (one x) (Below-one x rs below)
          (ap digests (deref-same x.store (one x).store rs (one-others x) below) ∙ e) ids.0 ids.1
          (omega (arith, l)) in
      let same = r.others x.store.next_ref (omega (arith, one-next_ref x)) ∙ one-new x in
      record {
        next = r.next;
        fecs = x.store.next_ref ∷ r.fecs;
        adds = add_fec-step i x r.next r.fecs r.adds;
        count = omega (arith, r.count);
        placed = (subst (IsNumbered n k) (sym same) (fec-IsNumbered k x b g), r.placed);
        covers = (subst (Covers now ds) (sym same) (fec-Covers x e), r.covers);
        fresh = (
          omega arith,
          fresh-weaken x.store.next_ref (one x).store.next_ref r.fecs
              (omega (arith, one-next_ref x)) r.fresh,
        );
        grows = omega (arith, r.grows, one-next_ref x);
        taken = (omega (arith, r.grows, one-next_ref x), r.taken);
        others = λ q h. r.others q (omega (arith, h, one-next_ref x)) ∙ one-others x q h;
      }
