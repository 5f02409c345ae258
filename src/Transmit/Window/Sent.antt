-- ===== src/Transmit/Window/Sent.antt =====
-- The ids of the packets in the send window of packet-sender-udp.cc, and the history of those packets.
use zhuge.Prelude.{
  ℕ, ◌+◌, ◌-◌, ◌%◌, ◌<◌, ◌≤◌, ◌≡◌, refl, ◌∙◌, true, false, ◌||◌, List, [], ◌∷◌, ◌++◌, some, ◌==◌,
  length, length-append, arith, Bool-cases, inl, inr, All, All-append, ==_iff,
}
use zhuge.Group.{contains, has_key, find, put, erase}
use zhuge.Group.Sets.{find-put, find-erase}
use zhuge.Transmit.{SentPacketInfo}
use zhuge.Transmit.Window.Goodput.{History, Known, goodput_of, total_size, total_goodput}

-- How many packets ago the counter gave the id.
abbrev pub age : ℕ → ℕ → ℕ
age counter i = (counter + 65536 - i) % 65536

-- The ids were given one after another, the last before the counter.
abbrev pub Aged : ℕ → List ℕ → Type 0
Aged counter [] = Unit {0}
Aged counter (i ∷ is) = (i < 65536) × (age counter i ≡ length (i ∷ is)) × Aged counter is

age-next :
    (counter i n : ℕ)
    → counter < 65536
    → i < 65536
    → n < 65535
    → age counter i ≡ n
    → age ((counter + 1) % 65536) i ≡ n + 1
age-next counter i n c l s e = omega arith

pub Aged-next :
    (counter : ℕ) (is : List ℕ)
    → counter < 65536
    → length is < 65535
    → Aged counter is
    → Aged ((counter + 1) % 65536) (is ++ counter ∷ [])
Aged-next counter [] c s a = (c, omega arith, tt)
Aged-next counter (i ∷ is) c s a = (
  a.0,
  age-next counter i (length (i ∷ is)) c a.0 s a.1 ∙ omega (arith, length-append is (counter ∷ [])),
  Aged-next counter is c (omega (arith, s)) a.2,
)

Aged-contains :
    (counter j : ℕ) (is : List ℕ)
    → Aged counter is
    → contains j is ≡ true
    → (0 < age counter j) × (age counter j ≤ length is)
unfolding contains
Aged-contains counter j [] a h = absurd (cc)
Aged-contains counter j (i ∷ is) a h = elim (Bool-cases (j == i)) [
  | inl same ↦ rw ((==_iff j i).0 same) (omega (arith, a.1), omega (arith, a.1))
  | inr other ↦
      let r = Aged-contains counter j is a.2 (ground (arith, h, other)) in (r.0, omega (arith, r.1))
]

-- The counter is no id of the window.
pub contains-counter :
    (counter : ℕ) (is : List ℕ) → counter < 65536 → Aged counter is → contains counter is ≡ false
contains-counter counter is c a = elim (Bool-cases (contains counter is)) [
  | inl has ↦ absurd (omega (arith, Aged-contains counter counter is a has))
  | inr hasnt ↦ hasnt
]

-- The first id of the window stands there once.
pub contains-first : (counter i : ℕ) (is : List ℕ) → Aged counter (i ∷ is) → contains i is ≡ false
contains-first counter i is a = elim (Bool-cases (contains i is)) [
  | inl has ↦ absurd (omega (arith, a.1, Aged-contains counter i is a.2 has))
  | inr hasnt ↦ hasnt
]

-- A change of the history at one id that the window does not have.
module _ (m m' : History) (j : ℕ) (same : (i : ℕ) → (i == j) ≡ false → find i m' ≡ find i m) where
  Known-elsewhere : (is : List ℕ) → contains j is ≡ false → All (Known m) is → All (Known m') is
  unfolding contains
  Known-elsewhere [] h k = tt
  Known-elsewhere (i ∷ is) h k = (
    (k.0.0, same i (ground (arith, h)) ∙ k.0.1, k.0.2),
    Known-elsewhere is (ground (arith, h)) k.1,
  )

  total_size-elsewhere : (is : List ℕ) → contains j is ≡ false → total_size m' is ≡ total_size m is
  unfolding contains total_size
  total_size-elsewhere [] h = refl
  total_size-elsewhere (i ∷ is) h =
      rw (same i (ground (arith, h)), total_size-elsewhere is (ground (arith, h))) refl

  total_goodput-elsewhere :
      (is : List ℕ) → contains j is ≡ false → total_goodput m' is ≡ total_goodput m is
  unfolding contains total_goodput
  total_goodput-elsewhere [] h = refl
  total_goodput-elsewhere (i ∷ is) h =
      rw (same i (ground (arith, h)), total_goodput-elsewhere is (ground (arith, h))) refl

pub contains-append :
    (j : ℕ) (is ks : List ℕ) → contains j (is ++ ks) ≡ (contains j is || contains j ks)
unfolding contains
contains-append j [] ks = refl
contains-append j (i ∷ is) ks = ground (arith, contains-append j is ks)

total_size-append :
    (m : History) (is ks : List ℕ) → total_size m (is ++ ks) ≡ total_size m is + total_size m ks
unfolding total_size
total_size-append m [] ks = omega arith
total_size-append m (i ∷ is) ks = omega (arith, total_size-append m is ks)

total_goodput-append :
    (m : History) (is ks : List ℕ)
    → total_goodput m (is ++ ks) ≡ total_goodput m is + total_goodput m ks
unfolding total_goodput
total_goodput-append m [] ks = omega arith
total_goodput-append m (i ∷ is) ks = omega (arith, total_goodput-append m is ks)

-- A new packet in the history, at the end of a window that does not have its id.
module _ (m : History) (j : ℕ) (s : SentPacketInfo) (is : List ℕ)
    (new : contains j is ≡ false) where
  put-elsewhere : (i : ℕ) → (i == j) ≡ false → find i (put j s m) ≡ find i m
  put-elsewhere i h = ground (arith, find-put i j s m, h)

  put_self : find j (put j s m) ≡ some s
  put_self = ground (arith, find-put j j s m)

  pub Known-put : s.pkt_size < 65536 → All (Known m) is → All (Known (put j s m)) (is ++ j ∷ [])
  Known-put small k =
      All-append (Known (put j s m)) is (j ∷ [])
        (Known-elsewhere m (put j s m) j put-elsewhere is new k) ((s, put_self, small), tt)

  pub total_size-put : total_size (put j s m) (is ++ j ∷ []) ≡ total_size m is + s.pkt_size
  unfolding total_size
  total_size-put =
      total_size-append (put j s m) is (j ∷ [])
      ∙ rw (total_size-elsewhere m (put j s m) j put-elsewhere is new, put_self) (omega arith)

  pub total_goodput-put :
      total_goodput (put j s m) (is ++ j ∷ []) ≡ total_goodput m is + goodput_of (some s)
  unfolding total_goodput
  total_goodput-put =
      total_goodput-append (put j s m) is (j ∷ [])
      ∙ rw (total_goodput-elsewhere m (put j s m) j put-elsewhere is new, put_self) (omega arith)

-- The oldest packet leaves the history, and the window does not have its id.
module _ (m : History) (j : ℕ) (is : List ℕ) (gone : contains j is ≡ false) where
  erase-elsewhere : (i : ℕ) → (i == j) ≡ false → find i (erase j m) ≡ find i m
  erase-elsewhere i h = ground (arith, find-erase i j m, h)

  pub Known-erase : All (Known m) is → All (Known (erase j m)) is
  Known-erase k = Known-elsewhere m (erase j m) j erase-elsewhere is gone k

  pub total_size-erase : total_size (erase j m) is ≡ total_size m is
  total_size-erase = total_size-elsewhere m (erase j m) j erase-elsewhere is gone

  pub total_goodput-erase : total_goodput (erase j m) is ≡ total_goodput m is
  total_goodput-erase = total_goodput-elsewhere m (erase j m) j erase-elsewhere is gone

pub find-has_key :
    (i : ℕ) (m : History) (s : SentPacketInfo) → find i m ≡ some s → has_key i m ≡ true
unfolding find has_key
find-has_key i [] s e = absurd (cc)
find-has_key i (x ∷ m) s e = ground (arith, find-has_key i m s, e)
