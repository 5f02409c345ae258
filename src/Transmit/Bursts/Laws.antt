-- ===== src/Transmit/Bursts/Laws.antt =====
-- The bursts of feedback in packet-sender-udp.cc.
use zhuge.Prelude.{
  ℕ, ◌+◌, ◌<◌, ◌≤◌, ◌≡◌, refl, ap, ap₂, ◌∙◌, Bool, true, false, ◌||◌, List, [], ◌∷◌, Option, some,
  ltb, ◌==◌, if◌then◌else◌, ◌>>=◌, length, All, arith, Bool-cases, inl, inr,
}
use zhuge.Prelude.Words.{sub_w}
use zhuge.Wire.NetState.{RcvTime}
use zhuge.Transmit.Bursts.{
  Heard, Controls, Bursts, first_item, heard, next_burst, extend, in_reach, report, switch,
  in_burst, on_item, on_items,
}

-- No burst that counts is empty.
pub record IsCounted (b : Bursts) : Type 0 where
  pub current : b.first_feedback ≡ false → 0 < b.curr_pkts_in_frame
  pub previous : 0 < b.group_id → 0 < b.prev_pkts_in_frame
  pub small : b.curr_pkts_in_frame < 65536
  pub first : b.first_feedback ≡ true → b.curr_pkts_in_frame ≡ 0

module _ {C : Type 0} (k : Controls C) (interval now : ℕ) where
  -- The calls of the controller that the sender makes succeed.
  abbrev pub Answers : Type 0
  Answers =
      ((h : Heard) (c : C) → (d : C) × (k.process h c ≡ some d))
      × ((id : ℕ) (c : C) → (d : C) × (k.prune id c ≡ some d))

  -- An item is processed, and the counts of the bursts stay sound.
  pub record Takes (b : Bursts) (m : Option (Bursts × C)) : Type 0 where
    pub next : Bursts × C
    pub takes : m ≡ some next
    pub counted : IsCounted next.0
    pub growth : next.0.curr_pkts_in_frame ≤ b.curr_pkts_in_frame + 1

  report-some :
      (a : Answers) (id rx : ℕ) (b : Bursts) (c : C)
      → IsCounted b
      → b.first_feedback ≡ false
      → (d : C) × (report k interval now id rx b c ≡ some d)
  unfolding report
  report-some a id rx b c v f = elim (Bool-cases (b.group_id == 0)) [
    | inl e ↦ (c, rw e refl)
    | inr e ↦
        let r = a.0 (heard now id rx b) c in
        let p : ((b.prev_pkts_in_frame == 0) || (b.curr_pkts_in_frame == 0)) ≡ false =
          ground (arith, v.previous, v.current f, e) in
        (r.0, rw (e, p) r.1)
  ]

  switch-some :
      (a : Answers) (id rx tx : ℕ) (b : Bursts) (c : C)
      → IsCounted b
      → b.first_feedback ≡ false
      → (d : C) × (switch k interval now id rx tx (b, c) ≡ some (next_burst tx b, d))
  unfolding switch
  switch-some a id rx tx b c v f =
      let r = report-some a id rx b c v f in
      let q = a.1 b.prev_groupend_id r.0 in (q.0, rw (r.1, q.1) refl)

  extend-IsCounted :
      (id rx tx size : ℕ) (b : Bursts)
      → IsCounted b
      → b.first_feedback ≡ false
      → b.curr_pkts_in_frame < 65535
      → IsCounted (extend id rx tx size b)
  unfolding extend
  extend-IsCounted id rx tx size b v f l = record {
    current = λ e. omega (arith, l);
    previous = v.previous;
    small = omega arith;
    first = λ e. absurd (cc (f, e));
  }

  switch-IsCounted :
      (id rx tx size : ℕ) (b : Bursts)
      → IsCounted b
      → b.first_feedback ≡ false
      → IsCounted (extend id rx tx size (next_burst tx b))
  unfolding extend next_burst
  switch-IsCounted id rx tx size b v f = record {
    current = λ e. omega arith;
    previous = λ g. v.current f;
    small = omega arith;
    first = λ e. absurd (cc (f, e));
  }

  small_burst :
      (id rx tx size : ℕ) (b : Bursts)
      → (extend id rx tx size (next_burst tx b)).curr_pkts_in_frame ≤ b.curr_pkts_in_frame + 1
  unfolding extend next_burst
  small_burst id rx tx size b = omega arith

  grown :
      (id rx tx size : ℕ) (b : Bursts)
      → b.curr_pkts_in_frame < 65535
      → (extend id rx tx size b).curr_pkts_in_frame ≤ b.curr_pkts_in_frame + 1
  unfolding extend
  grown id rx tx size b l = omega (arith, l)

  first-IsCounted : (id rx tx size : ℕ) (b : Bursts) → IsCounted (first_item id rx tx size b)
  unfolding first_item
  first-IsCounted id rx tx size b = record {
    current = λ e. omega arith;
    previous = λ g. absurd (omega (arith, g));
    small = omega arith;
    first = λ e. absurd (cc (e));
  }

  first-growth :
      (id rx tx size : ℕ) (b : Bursts)
      → (first_item id rx tx size b).curr_pkts_in_frame ≤ b.curr_pkts_in_frame + 1
  unfolding first_item
  first-growth id rx tx size b = omega arith

  in_burst-Takes :
      (a : Answers) (id rx tx : ℕ) (b : Bursts) (c : C)
      → IsCounted b
      → b.first_feedback ≡ false
      → b.curr_pkts_in_frame < 65535
      → Takes b (in_burst k interval now id rx tx (b, c))
  unfolding in_burst
  in_burst-Takes a id rx tx b c v f l =
      elim (Bool-cases (ltb 10000 (sub_w 64 tx b.groupstart_tx_time))) [
        | inl new ↦
            let s = switch-some a id rx tx b c v f in
            record {
              next = (extend id rx tx (k.size s.0 id) (next_burst tx b), s.0);
              takes = rw (new, s.1) refl;
              counted = switch-IsCounted id rx tx (k.size s.0 id) b v f;
              growth = small_burst id rx tx (k.size s.0 id) b;
            }
        | inr old ↦ record {
          next = (extend id rx tx (k.size c id) b, c);
          takes = rw old refl;
          counted = extend-IsCounted id rx tx (k.size c id) b v f l;
          growth = grown id rx tx (k.size c id) b l;
        }
      ]

  on_item-cases :
      (i : RcvTime) (b : Bursts) (c : C) (f r : Bool)
      → b.first_feedback ≡ f
      → in_reach interval (k.tx_timestamp c i.pkt_id) b ≡ r
      → on_item k interval now i (b, c) ≡ (
          if f
          then some
              (first_item i.pkt_id i.rt_us (k.tx_timestamp c i.pkt_id) (k.size c i.pkt_id) b, c)
          else if r
          then in_burst k interval now i.pkt_id i.rt_us (k.tx_timestamp c i.pkt_id) (b, c)
          else some (b, c))
  unfolding on_item
  on_item-cases i b c f r e d =
      ap₂
        (λ (x y : Bool).
          if x
          then some
              (first_item i.pkt_id i.rt_us (k.tx_timestamp c i.pkt_id) (k.size c i.pkt_id) b, c)
          else if y
          then in_burst k interval now i.pkt_id i.rt_us (k.tx_timestamp c i.pkt_id) (b, c)
          else some (b, c))
        e d

  on_item-Takes :
      (a : Answers) (i : RcvTime) (b : Bursts) (c : C)
      → IsCounted b
      → b.curr_pkts_in_frame < 65535
      → Takes b (on_item k interval now i (b, c))
  on_item-Takes a i b c v l = elim (Bool-cases b.first_feedback) [
    | inl f ↦ record {
      next = (first_item i.pkt_id i.rt_us (k.tx_timestamp c i.pkt_id) (k.size c i.pkt_id) b, c);
      takes = on_item-cases i b c true (in_reach interval (k.tx_timestamp c i.pkt_id) b) f refl;
      counted = first-IsCounted i.pkt_id i.rt_us (k.tx_timestamp c i.pkt_id) (k.size c i.pkt_id) b;
      growth = first-growth i.pkt_id i.rt_us (k.tx_timestamp c i.pkt_id) (k.size c i.pkt_id) b;
    }
    | inr f ↦ elim (Bool-cases (in_reach interval (k.tx_timestamp c i.pkt_id) b)) [
      | inl r ↦
          let t = in_burst-Takes a i.pkt_id i.rt_us (k.tx_timestamp c i.pkt_id) b c v f l in
          record {
            next = t.next;
            takes = on_item-cases i b c false true f r ∙ t.takes;
            counted = t.counted;
            growth = t.growth;
          }
      | inr r ↦ record {
        next = (b, c);
        takes = on_item-cases i b c false false f r;
        counted = v;
        growth = omega arith;
      }
    ]
  ]

  -- The feedback of a packet is processed without a failed assertion or a division by zero: no burst
  -- that is averaged is empty, and that stays so. Before, no burst is empty, the current burst and the
  -- feedback have fewer than 2^16 packets, and the controller answers every call.
  pub on_items-Takes :
      (a : Answers) (is : List RcvTime) (b : Bursts) (c : C)
      → IsCounted b
      → b.curr_pkts_in_frame + length is < 65536
      → (s : Bursts × C) × (on_items k interval now is (b, c) ≡ some s) × IsCounted s.0
  unfolding on_items
  on_items-Takes a [] b c v l = ((b, c), refl, v)
  on_items-Takes a (i ∷ is) b c v l =
      let t = on_item-Takes a i b c v (omega (arith, l)) in
      let r = on_items-Takes a is t.next.0 t.next.1 t.counted (omega (arith, l, t.growth)) in
      (r.0, rw t.takes r.1, r.2)

  -- Once packets are sent more than 20 intervals after the start of the current burst, or before it,
  -- their feedback is dropped: whatever feedback of such packets follows, nothing is processed and the
  -- start of the burst does not move.
  pub on_items-stalls :
      (is : List RcvTime) (b : Bursts) (c : C)
      → b.first_feedback ≡ false
      → All (λ (i : RcvTime). in_reach interval (k.tx_timestamp c i.pkt_id) b ≡ false) is
      → on_items k interval now is (b, c) ≡ some (b, c)
  unfolding on_items
  on_items-stalls [] b c f h = refl
  on_items-stalls (i ∷ is) b c f h =
      ap (λ m. m >>= on_items k interval now is) (on_item-cases i b c false false f h.0)
      ∙ on_items-stalls is b c f h.1
