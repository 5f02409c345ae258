-- ===== src/Transmit/Batch/Again.antt =====
-- `CreateRTXPacketBatch` of packet-sender-udp.cc: a batch of packets whose group is known.
use mathlib.Core.Path.{subst}
use zhuge.Prelude.{
  ℕ, suc, ◌+◌, ◌<◌, ◌≤◌, ◌≡◌, refl, sym, ap, ◌∙◌, true, false, List, [], ◌∷◌, ◌++◌, some, length,
  arith, All, ==_iff,
}
use zhuge.Prelude.Words.{add_w, u16}
use zhuge.Transmit.{VideoPacket, Store, modify, deref, digests, set_fec_batch}
use zhuge.Transmit.Batch.First.{Below, deref-same}
use zhuge.Transmit.Batch.Extra.{AllExtra, add_fec-Extra}
use zhuge.Transmit.History.{is_data}
use zhuge.Transmit.Batch.{
  Ids, Numbers, Next, assign_one, assign, numbers, create_packet_batch, create_rtx_packet_batch,
}

-- A data packet that was sent in the group `g`.
pub record IsOfGroup (g : ℕ) (p : VideoPacket) : Type 0 where
  pub data_packet : is_data p.packet_type ≡ true
  pub set : p.group_info_set_flag ≡ true
  pub group : p.group_id ≡ g

abbrev pub AllOfGroup : ℕ → Store → List ℕ → Type 0
AllOfGroup g s rs = All (λ r. IsOfGroup g (s.at r)) rs

batched : Numbers → ℕ → Next → Next
batched n r x = record x {
  store = modify r (set_fec_batch n.batch n.batch_data_num n.batch_fec_num x.in_batch) x.store;
  in_batch = add_w 16 x.in_batch 1;
}

assign_one-known :
    (n : Numbers) (r : ℕ) (x : Next)
    → IsOfGroup n.group (x.store.at r)
    → assign_one n false r x ≡ some (batched n r x)
unfolding assign_one batched
assign_one-known n r x h =
    rw (h.data_packet, h.set, (==_iff (x.store.at r).group_id n.group).1 h.group) refl

batched-IsOfGroup :
    (n : Numbers) (r q : ℕ) (x : Next)
    → IsOfGroup n.group (x.store.at q)
    → IsOfGroup n.group ((batched n r x).store.at q)
unfolding batched modify set_fec_batch
batched-IsOfGroup n r q x h = record {
  data_packet = ground (arith, h.data_packet);
  set = ground (arith, h.set);
  group = ground (arith, h.group);
}

batched-AllOfGroup :
    (n : Numbers) (r : ℕ) (x : Next) (rs : List ℕ)
    → AllOfGroup n.group x.store rs
    → AllOfGroup n.group (batched n r x).store rs
batched-AllOfGroup n r x [] h = tt
batched-AllOfGroup n r x (q ∷ rs) h =
    (batched-IsOfGroup n r q x h.0, batched-AllOfGroup n r x rs h.1)

batched-next_ref :
    (n : Numbers) (r : ℕ) (x : Next) → (batched n r x).store.next_ref ≡ x.store.next_ref
unfolding batched modify
batched-next_ref n r x = refl

batched-in_batch :
    (n : Numbers) (r : ℕ) (x : Next) (k : ℕ)
    → x.in_batch ≡ u16 k
    → (batched n r x).in_batch ≡ u16 (suc k)
unfolding batched
batched-in_batch n r x k b = omega (arith, b)

-- A field of a packet that the ids of a batch are not.
abbrev pub Fields : VideoPacket → VideoPacket → Type 0
Fields p q = (p.tx_count ≡ q.tx_count) × (p.encode_time ≡ q.encode_time) × (p.frame_id ≡ q.frame_id)

batched-Fields :
    (n : Numbers) (r q : ℕ) (x : Next) → Fields ((batched n r x).store.at q) (x.store.at q)
unfolding batched modify set_fec_batch
batched-Fields n r q x = (ground arith, ground arith, ground arith)

pub record Known (n : Numbers) (rs : List ℕ) (x : Next) : Type 0 where
  pub next : Next
  pub assigns : assign n false rs x ≡ some next
  pub next_ref : next.store.next_ref ≡ x.store.next_ref
  pub in_batch : (k : ℕ) → x.in_batch ≡ u16 k → next.in_batch ≡ u16 (k + length rs)
  pub fields : (q : ℕ) → Fields (next.store.at q) (x.store.at q)

assign-Known : (n : Numbers) (rs : List ℕ) (x : Next) → AllOfGroup n.group x.store rs → Known n rs x
unfolding assign
assign-Known n [] x h = record {
  next = x;
  assigns = refl;
  next_ref = refl;
  in_batch = λ k b. b ∙ omega arith;
  fields = λ q. (refl, refl, refl);
}
assign-Known n (r ∷ rs) x h =
    let k = assign-Known n rs (batched n r x) (batched-AllOfGroup n r x rs h.1) in
    record {
      next = k.next;
      assigns = rw (assign_one-known n r x h.0) k.assigns;
      next_ref = k.next_ref ∙ batched-next_ref n r x;
      in_batch = λ j b. k.in_batch (suc j) (batched-in_batch n r x j b) ∙ omega arith;
      fields = λ q.
          let a = k.fields q in let b = batched-Fields n r q x in (a.0 ∙ b.0, a.1 ∙ b.1, a.2 ∙ b.2);
    }

-- The numbers of a retransmission of `d` packets, the first of which is `p`, with `m` FEC packets.
abbrev pub rtx_numbers : ℕ → VideoPacket → ℕ → ℕ → Numbers
rtx_numbers batch p d m = record {
  batch = batch;
  batch_data_num = u16 d;
  batch_fec_num = m;
  group = p.group_id;
  group_data_num = p.group_data_num;
  group_fec_num = p.batch_fec_num;
}

module _ (unset now : ℕ) (fec_count : ℕ → ℕ) where
  -- A batch of the packets `rs` that were sent before, and its FEC packets.
  pub record Resent (size : ℕ) (p : VideoPacket) (rs : List ℕ) (i : Ids) : Type 0 where
    pub next : Ids
    pub fecs : List ℕ
    pub creates : create_rtx_packet_batch unset now fec_count size rs i ≡ some (next, rs ++ fecs)
    pub few : length fecs < 65536
    pub count : length fecs ≡ u16 (fec_count (u16 (length rs)))
    pub extra :
        AllExtra now
          (digests (deref next.store rs))
          (rtx_numbers i.batch_id p (length rs) (length fecs))
          p.tx_count
          next.store.at
          (length rs)
          fecs
    pub fresh : All (λ (r : ℕ). i.store.next_ref ≤ r) fecs
    pub fields : (q : ℕ) → q < i.store.next_ref → Fields (next.store.at q) (i.store.at q)

  pub create_rtx_packet_batch-Resent :
      (size r : ℕ) (rs : List ℕ) (i : Ids)
      → size ≡ length (r ∷ rs)
      → AllOfGroup (i.store.at r).group_id i.store (r ∷ rs)
      → Below i.store.next_ref (r ∷ rs)
      → Resent size (i.store.at r) (r ∷ rs) i
  unfolding create_rtx_packet_batch create_packet_batch numbers
  create_rtx_packet_batch-Resent size r rs i e h below =
      let n =
        numbers unset now fec_count false (i.store.at r).group_id (i.store.at r) (length (r ∷ rs))
          i in
      let k = assign-Known n (r ∷ rs) (record { store = i.store; in_batch = 0; in_group = 0 }) h in
      let old = subst (λ m. Below m (r ∷ rs)) (sym k.next_ref) below in
      let f =
        add_fec-Extra unset now n (i.store.at r).tx_count (r ∷ rs)
          (digests (deref k.next.store (r ∷ rs))) n.batch_fec_num (length (r ∷ rs)) k.next old refl
          (k.in_batch 0 refl ∙ ap u16 (omega arith)) in
      let numbered : n ≡ rtx_numbers i.batch_id (i.store.at r) (length (r ∷ rs)) (length f.fecs) =
        ap (rtx_numbers i.batch_id (i.store.at r) (length (r ∷ rs))) (sym f.count) in
      record {
        next = record i { batch_id = add_w 32 i.batch_id 1; store = f.next.store };
        fecs = f.fecs;
        creates = rw ((==_iff (length (r ∷ rs)) size).1 (sym e), k.assigns, f.adds) refl;
        few = omega (arith, f.count);
        count = f.count;
        extra =
            subst
              (λ m.
                AllExtra now (digests (deref f.next.store (r ∷ rs))) m (i.store.at r).tx_count
                  f.next.store.at (length (r ∷ rs)) f.fecs)
              numbered
              (subst
                (λ ds.
                  AllExtra now ds n (i.store.at r).tx_count f.next.store.at (length (r ∷ rs))
                    f.fecs)
                (sym (ap digests (deref-same k.next.store f.next.store (r ∷ rs) f.others old)))
                f.extra);
        fresh = subst (λ m. All (λ (q : ℕ). m ≤ q) f.fecs) k.next_ref f.fresh;
        fields = λ q l.
            subst (λ p. Fields p (i.store.at q)) (sym (f.others q (omega (arith, l, k.next_ref))))
              (k.fields q);
      }
