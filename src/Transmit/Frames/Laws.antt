-- ===== src/Transmit/Frames/Laws.antt =====
-- The loop of `SendPackets` of packet-sender-udp.cc that divides the packets of a frame into groups.
use mathlib.Core.Path.{subst}
use zhuge.Prelude.{
  ℕ, zero, suc, ◌+◌, ◌*◌, ◌<◌, ◌≤◌, ◌≡◌, refl, sym, ap, ◌∙◌, Bool, false, List, [], ◌∷◌, ◌++◌,
  Option, some, ◌>>=◌, ltb, length, length-append, length-drop, append-nil, arith, All, Bool-cases,
  inl, inr, take, drop, ltb→lt, append_assoc,
}
use zhuge.Group.{contains}
use zhuge.Transmit.{VideoPacket}
use zhuge.Transmit.Batch.{Ids}
use zhuge.Transmit.Batch.Laws.{IsSame, IsSame-refl, IsSame-trans}
use zhuge.Transmit.Batch.First.{Below}
use zhuge.Transmit.Batch.Whole.{Batched, first_numbers, create_first_packet_batch-Batched}
use zhuge.Transmit.Frames.{Asked, FecParam, send_groups}
use zhuge.Transmit.Frames.Ready.{IsReady, IsReady-left, IsReady-right}
use zhuge.Transmit.Frames.Parts.{
  below, Below-mono, below-append, below-old, below-new, ltb→ge, take-drop, length-take,
  contains-append, All-left, All-right, All-append, Apart, Apart-Distinct, Apart-fresh,
  Apart-suffix,
}
use zhuge.Transmit.Frames.Blocks.{Block, Block-Agrees, Blocks, AllAgree-Apart, packets_of, data_of}

module _ (policy : Asked → FecParam) (net_size : VideoPacket → ℕ) (cc_enable : Bool)
    (limit delay_ddl one_way_dispersion unset now : ℕ) (n : ℕ) (fp : FecParam) (question : Asked)
    (answer : policy question ≡ fp) (some_size : 0 < fp.fec_group_size)
    (room : fp.fec_group_size + fp.fec_count fp.fec_group_size < 65536) where
  -- Whole groups of the packets `rs`, and what is left of them.
  pub record Groups (rs : List ℕ) (i : Ids) (m : Option (Ids × List ℕ × List ℕ)) : Type 0 where
    pub next : Ids
    pub batches : List ℕ
    pub rest : List ℕ
    pub groups : m ≡ some (next, batches, rest)
    pub parts : below n batches ++ rest ≡ rs
    pub short : length rest < fp.fec_group_size
    pub ready : IsReady n next.store rest
    pub same : (q : ℕ) → q < n → IsSame (next.store.at q) (i.store.at q)
    pub larger : i.store.next_ref ≤ next.store.next_ref
    pub few : length batches ≤ 65536 * length rs
    pub blocks : List (List ℕ × List ℕ)
    pub packets : batches ≡ packets_of blocks
    pub data_parts : data_of blocks ++ rest ≡ rs
    pub formed : Blocks policy now next.store blocks
    pub apart : Apart next.store.next_ref rest batches
    pub others :
        (q : ℕ) → q < i.store.next_ref → contains q rs ≡ false → next.store.at q ≡ i.store.at q

  one_group :
      (rs : List ℕ) (i : Ids)
      → IsReady n i.store rs
      → length rs ≡ fp.fec_group_size
      → Batched unset now fp.fec_count rs i
  one_group [] i h l = absurd (omega (arith, l, some_size))
  one_group (r ∷ rs) i h l =
      create_first_packet_batch-Batched unset now fp.fec_count r rs i h.distinct h.all_data
        (Below-mono n i.store.next_ref (r ∷ rs) h.room h.old)
        (subst (λ k. k + fp.fec_count k < 65536) (sym l) room)

  IsReady-take :
      (rs : List ℕ) (i : Ids)
      → IsReady n i.store rs
      → IsReady n i.store (take fp.fec_group_size rs ++ drop fp.fec_group_size rs)
  IsReady-take rs i h = subst (IsReady n i.store) (sym (take-drop fp.fec_group_size rs)) h

  parts_next :
      (rs fecs batches rest : List ℕ) (m : ℕ)
      → n ≤ m
      → Below n (take fp.fec_group_size rs)
      → All (λ (r : ℕ). m ≤ r) fecs
      → below n batches ++ rest ≡ drop fp.fec_group_size rs
      → below n ((take fp.fec_group_size rs ++ fecs) ++ batches) ++ rest ≡ rs
  parts_next rs fecs batches rest m l old fresh e =
      let t = take fp.fec_group_size rs in
      let f : below n (t ++ fecs) ≡ t =
        below-append n t fecs ∙ rw (below-old n t old, below-new n m fecs l fresh) (append-nil t) in
      ap (λ qs. qs ++ rest)
        (below-append n (t ++ fecs) batches ∙ ap (λ qs. qs ++ below n batches) f)
      ∙ append_assoc t (below n batches) rest
      ∙ ap (λ qs. t ++ qs) e
      ∙ take-drop fp.fec_group_size rs

  few_next :
      (rs fecs batches : List ℕ)
      → fp.fec_group_size ≤ length rs
      → length fecs ≡ fp.fec_count (length (take fp.fec_group_size rs))
      → length batches ≤ 65536 * length (drop fp.fec_group_size rs)
      → length ((take fp.fec_group_size rs ++ fecs) ++ batches) ≤ 65536 * length rs
  few_next rs fecs batches l c f =
      let t = take fp.fec_group_size rs in
      let e = length-take fp.fec_group_size rs l in
      let c' : length fecs ≡ fp.fec_count fp.fec_group_size = c ∙ ap fp.fec_count e in
      omega (
        arith,
        length-append (t ++ fecs) batches,
        length-append t fecs,
        e,
        c',
        f,
        l,
        length-drop fp.fec_group_size rs,
        room,
        some_size,
      )

  -- A first batch is a group of its data packets.
  pub Batched-Block :
      (rs : List ℕ) (i : Ids)
      → (b : Batched unset now fp.fec_count rs i) → Block policy now b.next.store rs b.fecs
  Batched-Block rs i b = record {
    asked = question;
    count = b.count ∙ ap (λ (p : FecParam). p.fec_count (length rs)) (sym answer);
    numbers = first_numbers i (length rs) (fp.fec_count (length rs));
    batch_data_num = refl;
    batch_fec_num = sym b.count;
    group_data_num = refl;
    group_fec_num = sym b.count;
    placed = b.placed;
    covers = b.covers;
  }

  -- The packets of a batch are apart from those that wait after it.
  batch-Apart :
      (ts ds fecs : List ℕ) (i : Ids) (m : ℕ)
      → IsReady n i.store (ts ++ ds)
      → i.store.next_ref ≤ m
      → All (λ (r : ℕ). i.store.next_ref ≤ r) fecs
      → Below m fecs
      → Apart m ds (ts ++ fecs)
  batch-Apart ts ds fecs i m h l fresh taken =
      All-append (λ (r : ℕ). (r < m) × (contains r ds ≡ false)) ts fecs
        (Apart-Distinct m ts ds h.distinct
          (Below-mono n m ts (omega (arith, h.room, l)) (All-left (λ r. r < n) ts ds h.old)))
        (Apart-fresh m n i.store.next_ref fecs ds h.room fresh taken
          (All-right (λ r. r < n) ts ds h.old))

  contains-parts :
      (q : ℕ) (rs : List ℕ)
      → contains q rs ≡ false
      → (contains q (take fp.fec_group_size rs) ≡ false)
        × (contains q (drop fp.fec_group_size rs) ≡ false)
  contains-parts q rs h =
      let e =
        sym (contains-append q (take fp.fec_group_size rs) (drop fp.fec_group_size rs))
        ∙ ap (contains q) (take-drop fp.fec_group_size rs)
        ∙ h in
      (ground (arith, e), ground (arith, e))

  -- A first batch before the groups of the packets after it.
  one_more :
      (rs : List ℕ) (i : Ids)
      → IsReady n i.store rs
      → fp.fec_group_size ≤ length rs
      → (b : Batched unset now fp.fec_count (take fp.fec_group_size rs) i)
      → (m : Option (Ids × List ℕ × List ℕ)) → Groups (drop fp.fec_group_size rs) b.next m
      → Groups rs i (
          m >>= (λ (x : Ids × List ℕ × List ℕ).
            some (x.0, (take fp.fec_group_size rs ++ b.fecs) ++ x.1, x.2)))
  one_more rs i h l b m g =
      let k = fp.fec_group_size in
      let h' = IsReady-take rs i h in
      let ready = IsReady-left n i.store (take k rs) (drop k rs) h' in
      let same = λ (q : ℕ) (u : q < n). b.same q (omega (arith, u, h.room)) in
      let apart =
        batch-Apart (take k rs) (drop k rs) b.fecs i b.next.store.next_ref h'
          (omega (arith, b.grows)) b.fresh b.taken in
      record {
        next = g.next;
        batches = (take k rs ++ b.fecs) ++ g.batches;
        rest = g.rest;
        groups = rw g.groups refl;
        parts =
            parts_next rs b.fecs g.batches g.rest i.store.next_ref h.room ready.old b.fresh g.parts;
        short = g.short;
        ready = g.ready;
        same = λ q u.
            IsSame-trans (g.next.store.at q) (b.next.store.at q) (i.store.at q) (g.same q u)
              (same q u);
        larger = omega (arith, g.larger, b.grows);
        few = few_next rs b.fecs g.batches l b.count g.few;
        blocks = (take k rs, b.fecs) ∷ g.blocks;
        packets = ap (λ qs. (take k rs ++ b.fecs) ++ qs) g.packets;
        data_parts =
            append_assoc (take k rs) (data_of g.blocks) g.rest
            ∙ ap (λ qs. take k rs ++ qs) g.data_parts
            ∙ take-drop k rs;
        formed = (
          Block-Agrees policy now b.next.store g.next.store (take k rs) b.fecs
              (AllAgree-Apart b.next.store g.next.store b.next.store.next_ref (drop k rs)
                (take k rs ++ b.fecs) g.others apart)
              (Batched-Block (take k rs) i b),
          g.formed,
        );
        apart =
            All-append (λ (r : ℕ). (r < g.next.store.next_ref) × (contains r g.rest ≡ false))
              (take k rs ++ b.fecs) g.batches
              (Apart-suffix b.next.store.next_ref g.next.store.next_ref (data_of g.blocks) g.rest
                (take k rs ++ b.fecs) g.larger
                (subst (λ qs. Apart b.next.store.next_ref qs (take k rs ++ b.fecs))
                  (sym g.data_parts) apart))
              g.apart;
        others = λ q u c.
            let cs = contains-parts q rs c in
            g.others q (omega (arith, u, b.grows)) cs.1 ∙ b.others q u cs.0;
      }

  -- The loop ends for every list of packets that wait, when the group size is positive. Its batches
  -- have the packets in order, and less than a group is left.
  pub send_groups-Groups :
      (fuel : ℕ) (rs : List ℕ) (i : Ids)
      → length rs < fuel
      → IsReady n i.store rs
      → Groups rs i (
          send_groups policy net_size cc_enable limit delay_ddl one_way_dispersion unset now fuel fp
            rs i)
  unfolding send_groups
  send_groups-Groups zero rs i l h = absurd (omega (arith, l))
  send_groups-Groups (suc fuel) rs i l h = elim (Bool-cases (ltb (length rs) fp.fec_group_size)) [
    | inl short ↦ record {
      next = i;
      batches = [];
      rest = rs;
      groups = rw short refl;
      parts = refl;
      short = ltb→lt _ _ short;
      ready = h;
      same = λ q k. IsSame-refl (i.store.at q);
      larger = omega arith;
      few = omega arith;
      blocks = [];
      packets = refl;
      data_parts = refl;
      formed = tt;
      apart = tt;
      others = λ q u c. refl;
    }
    | inr long ↦
        let k = fp.fec_group_size in
        let h' = IsReady-take rs i h in
        let ready = IsReady-left n i.store (take k rs) (drop k rs) h' in
        let b = one_group (take k rs) i ready (length-take k rs (ground (arith, long))) in
        let same = λ (q : ℕ) (u : q < n). b.same q (omega (arith, u, h.room)) in
        rw (long, b.creates)
          (one_more rs i h (ltb→ge (length rs) k long) b _ (
            send_groups-Groups fuel (drop k rs) b.next
              (omega (arith, length-drop k rs, some_size, l, ltb→ge (length rs) k long))
              (IsReady-right n i.store b.next.store (take k rs) (drop k rs) same
                (omega (arith, b.grows)) h')))
  ]
