-- ===== src/Transmit/Window/Laws.antt =====
-- One call of `SendPacket` of packet-sender-udp.cc: the windows, the history and the sums.
use mathlib.Core.Path.{subst}
use zhuge.Prelude.{
  ℕ, ◌+◌, ◌/◌, ◌%◌, ◌<◌, ◌≤◌, ◌≡◌, refl, sym, ap, ◌∙◌, Bool, true, false, List, [], ◌∷◌, ◌++◌, some,
  leb, if◌then◌else◌, length, length-append, arith, Bool-cases, inl, inr, lt→ltb, leb→le, All,
  append_assoc,
}
use zhuge.Prelude.Words.{add_w, sub_w}
use zhuge.Group.{contains, has_key, find, put, erase}
use zhuge.Transmit.{SentPacketInfo, VideoPacket, new_sent_info}
use zhuge.Transmit.Window.{Window, Sums, drop_old, trim, emit, sent_info, goodput_wnd_size}
use zhuge.Transmit.Window.Goodput.{
  History, Known, total_size, total_goodput, Leaves, FrontInTime, is_old, drop_old-Leaves,
  total_size-le, total_goodput-le,
}
use zhuge.Transmit.Window.Sent.{
  Aged, Aged-next, contains-counter, contains-first, contains-append, Known-put, total_size-put,
  total_goodput-put, Known-erase, total_size-erase, total_goodput-erase, find-has_key,
}

-- The ids of the send window count up to the counter, the history has their packets, the goodput
-- window is the end of the send window, and the sums are those of its packets.
pub record Holds (limit counter : ℕ) (m : History) (send good : List ℕ) (total goodput : ℕ)
    : Type 0 where
  pub bound : counter < 65536
  pub aged : Aged counter send
  pub short : length send ≤ limit
  pub older : List ℕ
  pub split : send ≡ older ++ good
  pub known : All (Known m) send
  pub total_sum : total ≡ total_size m good
  pub goodput_sum : goodput ≡ total_goodput m good

abbrev pub IsWindow : Window → Type 0
IsWindow w =
    Holds 10000 w.ip_id_counter w.pkts_history w.send_wnd w.goodput_wnd w.total_pkts_inwnd
      w.goodput_pkts_inwnd

All-suffix : (m : History) (is ks : List ℕ) → All (Known m) (is ++ ks) → All (Known m) ks
All-suffix m [] ks k = k
All-suffix m (i ∷ is) ks k = All-suffix m is ks k.1

module _ {limit counter : ℕ} {m : History} {send good : List ℕ} {total goodput : ℕ}
    (h : Holds limit counter m send good total goodput) where
  Known-good : All (Known m) good
  Known-good = All-suffix m h.older good (rw (← h.split) h.known)

  length_good : length good ≤ length send
  length_good = omega (arith, ap length h.split, length-append h.older good)

  contains_good : contains counter good ≡ false
  contains_good = ground (
    arith,
    contains-counter counter send h.bound h.aged,
    ap (contains counter) h.split,
    contains-append counter h.older good,
  )

  add_total :
      (s : SentPacketInfo)
      → s.pkt_size < 65536
      → limit ≤ 10000
      → add_w 64 total s.pkt_size ≡ total_size (put counter s m) (good ++ counter ∷ [])
  add_total s small l = omega (
    arith,
    total_size-put m counter s good contains_good,
    total_size-le m good Known-good,
    length_good,
    h.total_sum,
    h.short,
  )

  add_goodput :
      (s : SentPacketInfo)
      → s.pkt_size < 65536
      → limit ≤ 10000
      → (if s.is_goodput then add_w 64 goodput s.pkt_size else goodput)
        ≡ total_goodput (put counter s m) (good ++ counter ∷ [])
  add_goodput s small l = ground (
    arith,
    total_goodput-put m counter s good contains_good,
    total_goodput-le m good Known-good,
    length_good,
    h.goodput_sum,
    h.short,
  )

  pub Holds-put :
      (s : SentPacketInfo)
      → s.pkt_size < 65536
      → limit ≤ 10000
      → Holds
          (limit + 1)
          ((counter + 1) % 65536)
          (put counter s m)
          (send ++ counter ∷ [])
          (good ++ counter ∷ [])
          (add_w 64 total s.pkt_size)
          (if s.is_goodput then add_w 64 goodput s.pkt_size else goodput)
  Holds-put s small l = record {
    bound = omega arith;
    aged = Aged-next counter send h.bound (omega (arith, h.short)) h.aged;
    short = omega (arith, length-append send (counter ∷ []), h.short);
    older = h.older;
    split = ap (λ is. is ++ counter ∷ []) h.split ∙ append_assoc h.older good (counter ∷ []);
    known = Known-put m counter s send (contains-counter counter send h.bound h.aged) small h.known;
    total_sum = add_total s small l;
    goodput_sum = add_goodput s small l;
  }

  pub Holds-drop :
      (oldest : ℕ)
      → limit ≤ 100000
      → (g : Sums) × (drop_old oldest m good total goodput ≡ some g)
        × Leaves oldest m good g
        × Holds limit counter m send g.wnd g.total g.goodput
  Holds-drop oldest l =
      let r =
        drop_old-Leaves oldest m good total goodput Known-good (omega (arith, length_good, h.short))
          h.total_sum h.goodput_sum in
      (
        r.0,
        r.1,
        r.2,
        record {
          bound = h.bound;
          aged = h.aged;
          short = h.short;
          older = h.older ++ r.2.dropped;
          split =
              h.split
              ∙ ap (λ is. h.older ++ is) r.2.split
              ∙ sym (append_assoc h.older r.2.dropped r.0.wnd);
          known = h.known;
          total_sum = r.2.total;
          goodput_sum = r.2.goodput;
        },
      )

-- The second loop, on a window that is at most one too long.
Holds-tail :
    {limit counter : ℕ} {m : History} {good : List ℕ} {total goodput : ℕ} (i : ℕ)
    (is older : List ℕ)
    → Holds (limit + 1) counter m (i ∷ is) good total goodput
    → i ∷ is ≡ older ++ good
    → length good ≤ limit
    → length (i ∷ is) ≡ limit + 1
    → Holds limit counter (erase i m) is good total goodput
Holds-tail i is [] h e l n = absurd (omega (arith, ap length e, l, n))
Holds-tail {m} {good} i is (j ∷ older) h e l n =
    let gone = contains-first _ i is h.aged in
    let split : is ≡ older ++ good = cc (e) in
    let gone_good : contains i good ≡ false =
      ground (arith, gone, ap (contains i) split, contains-append i older good) in
    record {
      bound = h.bound;
      aged = h.aged.2;
      short = omega (arith, n);
      older = older;
      split = split;
      known = Known-erase m i is gone h.known.1;
      total_sum = h.total_sum ∙ sym (total_size-erase m i good gone_good);
      goodput_sum = h.goodput_sum ∙ sym (total_goodput-erase m i good gone_good);
    }

trim-short :
    (limit : ℕ) (is : List ℕ) (m : History) → length is ≤ limit → trim limit is m ≡ some (is, m)
unfolding trim
trim-short limit [] m l = refl
trim-short limit (i ∷ is) m l = ground (arith, l)

trim-long :
    (limit i : ℕ) (is : List ℕ) (m : History)
    → has_key i m ≡ true
    → length (i ∷ is) ≡ limit + 1
    → trim limit (i ∷ is) m ≡ some (is, erase i m)
unfolding trim
trim-long limit i is m has n =
    ground (arith, n, has, trim-short limit is (erase i m) (omega (arith, n)))

Holds-fits :
    {more limit counter : ℕ} {m : History} {send good : List ℕ} {total goodput : ℕ}
    → Holds more counter m send good total goodput
    → length send ≤ limit
    → Holds limit counter m send good total goodput
Holds-fits h l = record {
  bound = h.bound;
  aged = h.aged;
  short = l;
  older = h.older;
  split = h.split;
  known = h.known;
  total_sum = h.total_sum;
  goodput_sum = h.goodput_sum;
}

pub Holds-trim :
    {limit counter : ℕ} {m : History} {good : List ℕ} {total goodput : ℕ} (send : List ℕ)
    → Holds (limit + 1) counter m send good total goodput
    → length good ≤ limit
    → (r : List ℕ × History) × (trim limit send m ≡ some r)
      × Holds limit counter r.1 r.0 good total goodput
Holds-trim {limit} {m} [] h l =
    (([], m), trim-short limit [] m (omega arith), Holds-fits h (omega arith))
Holds-trim {limit} {m} (i ∷ is) h l = elim (Bool-cases (leb (length (i ∷ is)) limit)) [
  | inl fits ↦
      ((i ∷ is, m), trim-short limit (i ∷ is) m (leb→le _ _ fits), Holds-fits h (leb→le _ _ fits))
  | inr long ↦
      let n : length (i ∷ is) ≡ limit + 1 = ground (arith, long, h.short) in
      (
        (is, erase i m),
        trim-long limit i is m (find-has_key i m h.known.0.0 h.known.0.1) n,
        Holds-tail i is h.older h h.split l n,
      )
]

-- The state after both loops, from what they give.
abbrev pub slid : Window → Sums → List ℕ × History → Window
slid w g r = record w {
  goodput_wnd = g.wnd;
  total_pkts_inwnd = g.total;
  goodput_pkts_inwnd = g.goodput;
  send_wnd = r.0;
  pkts_history = r.1;
  ip_id_counter = (w.ip_id_counter + 1) % 65536;
}

abbrev pub oldest_at : ℕ → ℕ
oldest_at now = sub_w 64 (now / 1000) goodput_wnd_size

module _ (net_size : VideoPacket → ℕ) (cc_enable : Bool) (limit now r : ℕ) (w : Window)
    (v : IsWindow w) where
  abbrev pub emitted : Window
  emitted = emit net_size cc_enable limit now r w

  pub emit-Holds :
      Holds 10001
        ((w.ip_id_counter + 1) % 65536)
        emitted.pkts_history
        emitted.send_wnd
        emitted.goodput_wnd
        emitted.total_pkts_inwnd
        emitted.goodput_pkts_inwnd
  unfolding emit sent_info new_sent_info
  emit-Holds =
      Holds-put v (sent_info net_size cc_enable limit now _ w.ip_id_counter) (omega arith)
        (omega arith)

All-suffix_first :
    (P : ℕ → Type 0) (is : List ℕ) (i : ℕ) (js ks : List ℕ) → ks ≡ is ++ i ∷ js → All P ks → P i
All-suffix_first P [] i js ks e h = let a : All P (i ∷ js) = subst (All P) e h in a.0
All-suffix_first P (j ∷ is) i js [] e h = absurd (cc)
All-suffix_first P (j ∷ is) i js (k ∷ ks) e h = All-suffix_first P is i js ks (cc (e)) h.1

module _ (now : ℕ) (m : History) (ids : List ℕ) (early : now / 1000 < 50000) (k : All (Known m) ids)
    (past : All
      (λ (i : ℕ). (s : SentPacketInfo) → find i m ≡ some s → s.pkt_send_time ≤ now)
      ids) where
  -- A packet of the window counts as old.
  early-old :
      (i : ℕ)
      → Known m i
      → ((s : SentPacketInfo) → find i m ≡ some s → s.pkt_send_time ≤ now)
      → is_old (oldest_at now) (find i m) ≡ true
  early-old i s p = ap (is_old (oldest_at now)) s.1 ∙ lt→ltb _ _ (omega (arith, p s.0 s.1, early))

  Leaves-empty : (g : Sums) → Leaves (oldest_at now) m ids g → g.wnd ≡ []
  Leaves-empty g l = go g.wnd l.split l.front
    where
      go : (is : List ℕ) → ids ≡ l.dropped ++ is → FrontInTime (oldest_at now) m is → is ≡ []
      go [] e f = refl
      go (i ∷ is) e f = absurd (
          ground (
            arith,
            f,
            early-old i (All-suffix_first (Known m) l.dropped i is ids e k) (
                All-suffix_first
                  (λ (i : ℕ). (s : SentPacketInfo) → find i m ≡ some s → s.pkt_send_time ≤ now)
                  l.dropped i is ids e past),
          ))

-- In the first 50 milliseconds the loop over the goodput window of `SendPacket` subtracts the
-- window's length from a smaller time, modulo 2^64: every packet of the window then counts as
-- older, the window is emptied and both sums are zero, whenever its packets were sent. Before, the
-- history knows the packets, none of them was sent later than now, there are at most 100000, and
-- the sums are theirs.
pub drop_old-early :
    (now : ℕ) (m : History) (ids : List ℕ) (total goodput : ℕ)
    → now / 1000 < 50000
    → All (Known m) ids
    → All (λ (i : ℕ). (s : SentPacketInfo) → find i m ≡ some s → s.pkt_send_time ≤ now) ids
    → length ids ≤ 100000
    → total ≡ total_size m ids
    → goodput ≡ total_goodput m ids
    → drop_old (oldest_at now) m ids total goodput
      ≡ some (record { wnd = []; total = 0; goodput = 0 })
unfolding total_size total_goodput
drop_old-early now m ids total goodput early k past short t u =
    let d = drop_old-Leaves (oldest_at now) m ids total goodput k short t u in
    let e = Leaves-empty now m ids early k past d.0 d.2 in
    let a : d.0.total ≡ 0 = d.2.total ∙ ap (total_size m) e in
    let b : d.0.goodput ≡ 0 = d.2.goodput ∙ ap (total_goodput m) e in d.1 ∙ ap some (cc (e, a, b))
