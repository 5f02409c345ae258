-- ===== src/Transmit/Frames/Divide.antt =====
-- `SendPackets` of packet-sender-udp.cc for the packets of a new frame: how the policy's answers divide
-- them into groups, the last of which has what is left.
use zhuge.Prelude.{
  ℕ, suc, ◌+◌, ◌*◌, ◌<◌, ◌≤◌, ◌≡◌, refl, sym, ◌∙◌, Bool, true, false, List, [], ◌∷◌, ◌++◌, Option,
  some, length, length-append, arith, append-nil,
}
use zhuge.Prelude.Int.{ℤ}
use zhuge.Prelude.Words.{u16}
use zhuge.Transmit.{VideoPacket}
use zhuge.Transmit.Batch.Laws.{IsSame, IsSame-refl}
use zhuge.Transmit.Batch.Whole.{create_first_packet_batch-Batched}
use zhuge.Transmit.Frames.{
  Asked, FecParam, State, ids, with_ids, get_fec_param, first_groups, last_batch, last_group,
}
use zhuge.Transmit.Frames.Laws.{send_groups-Groups, Batched-Block}
use zhuge.Transmit.Frames.Ready.{IsReady}
use zhuge.Transmit.Frames.Parts.{below, below-append, below-old, below-new, Below-mono, Apart}
use zhuge.Transmit.Frames.Blocks.{packets_of, data_of, Blocks}
use zhuge.Group.{find, contains}

module _ (policy : Asked → FecParam)
    (sized : (a : Asked) → (0 < (policy a).fec_group_size) × ((policy a).fec_group_size < 32768))
    (rated : (a : Asked) (k : ℕ) → k < 32768 → k + (policy a).fec_count k < 65536)
    (net_size : VideoPacket → ℕ) (cc_enable : Bool)
    (limit delay_ddl one_way_dispersion unset now : ℕ) (n : ℕ) where
  asked : ℕ → ℤ → Bool → ℕ → Asked
  asked size d fix c = record {
    max_group_size = u16 size;
    ddl_left = d;
    fix_group_size = fix;
    is_rtx = false;
    frame_size = c;
  }

  -- A part of the frame in batches, and what is left of it.
  pub record Batches (rs : List ℕ) (s : State) (m : Option (State × List ℕ × List ℕ)) : Type 0 where
    pub next : State
    pub batches : List ℕ
    pub rest : List ℕ
    pub sends : m ≡ some (next, batches, rest)
    pub parts : below n batches ++ rest ≡ rs
    pub short : length rest < 32768
    pub ready : IsReady n next.window.store rest
    pub same : (q : ℕ) → q < n → IsSame (next.window.store.at q) (s.window.store.at q)
    pub few : length batches ≤ 65536 * length rs
    pub blocks : List (List ℕ × List ℕ)
    pub packets : batches ≡ packets_of blocks
    pub data_parts : data_of blocks ++ rest ≡ rs
    pub formed : Blocks policy now next.window.store blocks
    pub apart : Apart next.window.store.next_ref rest batches
    pub queue : next.window.queue ≡ s.window.queue
    pub kept : next.kept ≡ s.kept
    pub counts : next.frame_data_pkt_cnt ≡ s.frame_data_pkt_cnt
    pub scheduled : next.window.scheduled ≡ s.window.scheduled

  pub first_groups-Batches :
      (rs : List ℕ) (d : ℤ) (frame_id c : ℕ) (s : State)
      → find frame_id s.frame_data_pkt_cnt ≡ some c
      → IsReady n s.window.store rs
      → Batches rs s (
          first_groups policy net_size cc_enable limit delay_ddl one_way_dispersion unset now rs d
            frame_id s)
  unfolding first_groups get_fec_param ids with_ids asked
  first_groups-Batches rs d frame_id c s e h =
      let fp = policy (asked (length rs) d false c) in
      let z = sized (asked (length rs) d false c) in
      let g =
        send_groups-Groups policy net_size cc_enable limit delay_ddl one_way_dispersion unset now n
          fp (asked (length rs) d false c) refl z.0
          (rated (asked (length rs) d false c) fp.fec_group_size z.1) (suc (length rs)) rs (ids s)
          (omega arith) h in
      record {
        next = with_ids g.next s;
        batches = g.batches;
        rest = g.rest;
        sends = rw (e, g.groups) refl;
        parts = g.parts;
        short = omega (arith, g.short, z.1);
        ready = g.ready;
        same = g.same;
        few = g.few;
        blocks = g.blocks;
        packets = g.packets;
        data_parts = g.data_parts;
        formed = g.formed;
        apart = g.apart;
        queue = refl;
        kept = refl;
        counts = refl;
        scheduled = refl;
      }

  pub record Last (rs : List ℕ) (s : State) (m : Option (State × List ℕ)) : Type 0 where
    pub next : State
    pub batch : List ℕ
    pub sends : m ≡ some (next, batch)
    pub parts : below n batch ≡ rs
    pub same : (q : ℕ) → q < n → IsSame (next.window.store.at q) (s.window.store.at q)
    pub few : length batch < 65536
    pub blocks : List (List ℕ × List ℕ)
    pub packets : batch ≡ packets_of blocks
    pub data_parts : data_of blocks ≡ rs
    pub formed : Blocks policy now next.window.store blocks
    pub others :
        (q : ℕ)
        → q < s.window.store.next_ref
        → contains q rs ≡ false
        → next.window.store.at q ≡ s.window.store.at q
    pub queue : next.window.queue ≡ s.window.queue
    pub kept : next.kept ≡ s.kept
    pub scheduled : next.window.scheduled ≡ s.window.scheduled

  pub last_group-Last :
      (rs : List ℕ) (d : ℤ) (frame_id c : ℕ) (s : State)
      → find frame_id s.frame_data_pkt_cnt ≡ some c
      → length rs < 32768
      → IsReady n s.window.store rs
      → Last rs s (
          last_group policy net_size cc_enable limit delay_ddl one_way_dispersion unset now rs d
            frame_id false s)
  unfolding last_group last_batch get_fec_param ids with_ids asked
  last_group-Last [] d frame_id c s e l h = record {
    next = s;
    batch = [];
    sends = refl;
    parts = refl;
    same = λ q k. IsSame-refl (s.window.store.at q);
    few = omega arith;
    blocks = [];
    packets = refl;
    data_parts = refl;
    formed = tt;
    others = λ q u c. refl;
    queue = refl;
    kept = refl;
    scheduled = refl;
  }
  last_group-Last (r ∷ rs) d frame_id c s e l h =
      let a = asked (length (r ∷ rs)) d true c in
      let b =
        create_first_packet_batch-Batched unset now (policy a).fec_count r rs (ids s) h.distinct
          h.all_data (Below-mono n s.window.store.next_ref (r ∷ rs) h.room h.old)
          (rated a (length (r ∷ rs)) l) in
      record {
        next = with_ids b.next s;
        batch = (r ∷ rs) ++ b.fecs;
        sends = rw (e, b.creates) refl;
        parts =
            below-append n (r ∷ rs) b.fecs
            ∙ rw
                (
                  below-old n (r ∷ rs) h.old,
                  below-new n s.window.store.next_ref b.fecs h.room b.fresh,
                )
                (append-nil (r ∷ rs));
        same = λ q k. b.same q (omega (arith, k, h.room));
        few = omega (arith, length-append (r ∷ rs) b.fecs, b.count, rated a (length (r ∷ rs)) l);
        blocks = (r ∷ rs, b.fecs) ∷ [];
        packets = sym (append-nil ((r ∷ rs) ++ b.fecs));
        data_parts = append-nil (r ∷ rs);
        formed = (
          Batched-Block policy net_size cc_enable limit delay_ddl one_way_dispersion unset now n
              (policy a) a refl (sized a).0 (rated a (policy a).fec_group_size (sized a).1) (r ∷ rs)
              (ids s) b,
          tt,
        );
        others = b.others;
        queue = refl;
        kept = refl;
        scheduled = refl;
      }
