-- ===== src/Transmit/Window/Goodput.antt =====
-- The loops over the windows in `SendPacket` of packet-sender-udp.cc.
use zhuge.Prelude.{
  ℕ, ◌+◌, ◌*◌, ◌/◌, ◌<◌, ◌≤◌, ◌≡◌, refl, ap, ◌∙◌, Bool, true, false, List, [], ◌∷◌, ◌++◌, Option,
  none, some, ltb, if◌then◌else◌, length, arith, Bool-cases, inl, inr, All,
}
use zhuge.Prelude.Words.{sub_w}
use zhuge.Group.{find}
use zhuge.Transmit.{SentPacketInfo}
use zhuge.Transmit.Window.{Sums, drop_old}

abbrev pub History : Type 0
History = List (ℕ × SentPacketInfo)

-- The history has the packet, and its size is one of 16 bits.
abbrev pub Known : History → ℕ → Type 0
Known m i = (s : SentPacketInfo) × (find i m ≡ some s) × (s.pkt_size < 65536)

abbrev pub size_of : Option SentPacketInfo → ℕ
size_of none = 0
size_of (some s) = s.pkt_size

abbrev pub goodput_of : Option SentPacketInfo → ℕ
goodput_of none = 0
goodput_of (some s) = if s.is_goodput then s.pkt_size else 0

unfoldable pub total_size : History → List ℕ → ℕ
total_size m [] = 0
total_size m (i ∷ is) = size_of (find i m) + total_size m is

unfoldable pub total_goodput : History → List ℕ → ℕ
total_goodput m [] = 0
total_goodput m (i ∷ is) = goodput_of (find i m) + total_goodput m is

abbrev pub is_old : ℕ → Option SentPacketInfo → Bool
is_old oldest none = false
is_old oldest (some s) = ltb (s.pkt_send_time / 1000) oldest

-- The first packet of a window was not sent before `oldest`.
abbrev pub FrontInTime : ℕ → History → List ℕ → Type 0
FrontInTime oldest m [] = Unit {0}
FrontInTime oldest m (i ∷ is) = is_old oldest (find i m) ≡ false

-- What the first loop leaves of the window `ids`.
pub record Leaves (oldest : ℕ) (m : History) (ids : List ℕ) (g : Sums) : Type 0 where
  pub dropped : List ℕ
  pub split : ids ≡ dropped ++ g.wnd
  pub old : All (λ i. is_old oldest (find i m) ≡ true) dropped
  pub front : FrontInTime oldest m g.wnd
  pub total : g.total ≡ total_size m g.wnd
  pub goodput : g.goodput ≡ total_goodput m g.wnd

pub total_size-le :
    (m : History) (is : List ℕ) → All (Known m) is → total_size m is ≤ 65535 * length is
unfolding total_size
total_size-le m [] k = omega arith
total_size-le m (i ∷ is) k = ground (arith, total_size-le m is k.1, k.0.1)

pub total_goodput-le :
    (m : History) (is : List ℕ) → All (Known m) is → total_goodput m is ≤ 65535 * length is
unfolding total_goodput
total_goodput-le m [] k = omega arith
total_goodput-le m (i ∷ is) k = ground (arith, total_goodput-le m is k.1, k.0.1)

sub_sum : (a b : ℕ) → a + b < 18446744073709551616 → sub_w 64 (a + b) a ≡ b
sub_sum a b h = omega arith

sub_goodput :
    (b : Bool) (a t : ℕ)
    → (if b then a else 0) + t < 18446744073709551616
    → (if b then sub_w 64 ((if b then a else 0) + t) a else (if b then a else 0) + t) ≡ t
sub_goodput true a t h = sub_sum a t h
sub_goodput false a t h = omega arith

module _ (m : History) (i : ℕ) (is : List ℕ) (sum : ℕ) (s : SentPacketInfo) (e : find i m ≡ some s)
    (small : s.pkt_size < 65536) (k : All (Known m) is) (short : length (i ∷ is) ≤ 100000) where
  rest_total : sum ≡ total_size m (i ∷ is) → sub_w 64 sum s.pkt_size ≡ total_size m is
  unfolding total_size
  rest_total t =
      ap (λ n. sub_w 64 n s.pkt_size) (t ∙ ap (λ o. size_of o + total_size m is) e)
      ∙ sub_sum s.pkt_size (total_size m is) (omega (arith, total_size-le m is k, small, short))

  rest_goodput :
      sum ≡ total_goodput m (i ∷ is)
      → (if s.is_goodput then sub_w 64 sum s.pkt_size else sum) ≡ total_goodput m is
  unfolding total_goodput
  rest_goodput t =
      ap (λ n. if s.is_goodput then sub_w 64 n s.pkt_size else n)
        (t ∙ ap (λ o. goodput_of o + total_goodput m is) e)
      ∙ sub_goodput s.is_goodput s.pkt_size (total_goodput m is)
          (ground (arith, total_goodput-le m is k, small, short))

-- The first packet leaves, and the loop goes on with `g`.
Leaves-old :
    (oldest : ℕ) (m : History) (i : ℕ) (is : List ℕ) (g : Sums)
    → is_old oldest (find i m) ≡ true
    → Leaves oldest m is g
    → Leaves oldest m (i ∷ is) g
Leaves-old oldest m i is g old l = record {
  dropped = i ∷ l.dropped;
  split = ap (λ js. i ∷ js) l.split;
  old = (old, l.old);
  front = l.front;
  total = l.total;
  goodput = l.goodput;
}

Leaves-stop :
    (oldest : ℕ) (m : History) (i : ℕ) (is : List ℕ) (total goodput : ℕ)
    → is_old oldest (find i m) ≡ false
    → total ≡ total_size m (i ∷ is)
    → goodput ≡ total_goodput m (i ∷ is)
    → Leaves oldest m (i ∷ is) (record { wnd = i ∷ is; total = total; goodput = goodput })
Leaves-stop oldest m i is total goodput live t u = record {
  dropped = [];
  split = refl;
  old = tt;
  front = live;
  total = t;
  goodput = u;
}

-- The loop over a window whose packets the history knows.
pub drop_old-Leaves :
    (oldest : ℕ) (m : History) (ids : List ℕ) (total goodput : ℕ)
    → All (Known m) ids
    → length ids ≤ 100000
    → total ≡ total_size m ids
    → goodput ≡ total_goodput m ids
    → (g : Sums) × (drop_old oldest m ids total goodput ≡ some g) × Leaves oldest m ids g
unfolding drop_old total_size total_goodput
drop_old-Leaves oldest m [] total goodput k short t u = (
  record { wnd = []; total = total; goodput = goodput },
  refl,
  record { dropped = []; split = refl; old = tt; front = tt; total = t; goodput = u },
)
drop_old-Leaves oldest m (i ∷ is) total goodput k short t u =
    elim (Bool-cases (ltb ((k.0.0).pkt_send_time / 1000) oldest)) [
      | inl old ↦
          let r =
            drop_old-Leaves oldest m is (sub_w 64 total (k.0.0).pkt_size)
              (if (k.0.0).is_goodput then sub_w 64 goodput (k.0.0).pkt_size else goodput) k.1
              (omega (arith, short)) (rest_total m i is total (k.0.0) (k.0.1) k.0.2 k.1 short t)
              (rest_goodput m i is goodput (k.0.0) (k.0.1) k.0.2 k.1 short u) in
          (r.0, rw (k.0.1, old) r.1, Leaves-old oldest m i is r.0 (ground (arith, k.0.1, old)) r.2)
      | inr live ↦ (
        record { wnd = i ∷ is; total = total; goodput = goodput },
        rw (k.0.1, live) refl,
        Leaves-stop oldest m i is total goodput (ground (arith, k.0.1, live)) t u,
      )
    ]
