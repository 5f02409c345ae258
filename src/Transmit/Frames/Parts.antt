-- ===== src/Transmit/Frames/Parts.antt =====
-- Lists of references to packets: what is below a reference, what is apart from other packets, and the
-- two parts that the loop of `SendPackets` takes and leaves.
use zhuge.Prelude.{
  ℕ, zero, suc, ◌<◌, ◌≤◌, ◌≡◌, refl, ap, false, ◌||◌, List, [], ◌∷◌, ◌++◌, ltb, if◌then◌else◌,
  length, arith, All, take, drop, lt→ltb,
}
use zhuge.Group.{contains}
use zhuge.Transmit.Batch.Laws.{Distinct}
use zhuge.Transmit.Batch.First.{Below}

-- The packets of a list that were there before the reference `n`: all but the FEC packets.
abbrev pub below : ℕ → List ℕ → List ℕ
below n [] = []
below n (r ∷ rs) = if ltb r n then r ∷ below n rs else below n rs

pub below-append : (n : ℕ) (rs qs : List ℕ) → below n (rs ++ qs) ≡ below n rs ++ below n qs
below-append n [] qs = refl
below-append n (r ∷ rs) qs = ground (arith, below-append n rs qs)

pub below-old : (n : ℕ) (rs : List ℕ) → Below n rs → below n rs ≡ rs
below-old n [] h = refl
below-old n (r ∷ rs) h = rw (lt→ltb r n h.0, below-old n rs h.1) refl

pub below-new : (n m : ℕ) (rs : List ℕ) → n ≤ m → All (λ (r : ℕ). m ≤ r) rs → below n rs ≡ []
below-new n m [] l h = refl
below-new n m (r ∷ rs) l h = ground (arith, below-new n m rs l h.1, h.0, l)

pub ltb→ge : (a b : ℕ) → ltb a b ≡ false → b ≤ a
ltb→ge a b h = ground arith

pub take-drop : (k : ℕ) (rs : List ℕ) → take k rs ++ drop k rs ≡ rs
take-drop zero rs = refl
take-drop (suc k) [] = refl
take-drop (suc k) (r ∷ rs) = ap (λ qs. r ∷ qs) (take-drop k rs)

pub length-take : (k : ℕ) (rs : List ℕ) → k ≤ length rs → length (take k rs) ≡ k
length-take zero rs l = refl
length-take (suc k) [] l = absurd (omega arith)
length-take (suc k) (r ∷ rs) l = omega (arith, length-take k rs (omega arith))

pub contains-append :
    (j : ℕ) (is ks : List ℕ) → contains j (is ++ ks) ≡ (contains j is || contains j ks)
unfolding contains
contains-append j [] ks = refl
contains-append j (i ∷ is) ks = ground (arith, contains-append j is ks)

pub Distinct-left : (rs qs : List ℕ) → Distinct (rs ++ qs) → Distinct rs
Distinct-left [] qs h = tt
Distinct-left (r ∷ rs) qs h =
    (ground (arith, contains-append r rs qs, h.0), Distinct-left rs qs h.1)

pub Distinct-right : (rs qs : List ℕ) → Distinct (rs ++ qs) → Distinct qs
Distinct-right [] qs h = h
Distinct-right (r ∷ rs) qs h = Distinct-right rs qs h.1

module _ (P : ℕ → Type 0) where
  pub All-left : (rs qs : List ℕ) → All P (rs ++ qs) → All P rs
  All-left [] qs h = tt
  All-left (r ∷ rs) qs h = (h.0, All-left rs qs h.1)

  pub All-right : (rs qs : List ℕ) → All P (rs ++ qs) → All P qs
  All-right [] qs h = h
  All-right (r ∷ rs) qs h = All-right rs qs h.1

pub Below-mono : (n m : ℕ) (rs : List ℕ) → n ≤ m → Below n rs → Below m rs
Below-mono n m [] l h = tt
Below-mono n m (r ∷ rs) l h = (omega (arith, h.0), Below-mono n m rs l h.1)

module _ (P : ℕ → Type 0) where
  pub All-append : (rs qs : List ℕ) → All P rs → All P qs → All P (rs ++ qs)
  All-append [] qs h k = k
  All-append (r ∷ rs) qs h k = (h.0, All-append rs qs h.1 k)

-- The packets are below `m` and none of `qs`.
abbrev pub Apart : ℕ → List ℕ → List ℕ → Type 0
Apart m qs rs = All (λ (r : ℕ). (r < m) × (contains r qs ≡ false)) rs

-- Of packets that are there once, the first ones are apart from the others.
pub Apart-Distinct : (m : ℕ) (rs qs : List ℕ) → Distinct (rs ++ qs) → Below m rs → Apart m qs rs
Apart-Distinct m [] qs u b = tt
Apart-Distinct m (r ∷ rs) qs u b =
    ((b.0, ground (arith, contains-append r rs qs, u.0)), Apart-Distinct m rs qs u.1 b.1)

contains-Below : (n q : ℕ) (qs : List ℕ) → n ≤ q → Below n qs → contains q qs ≡ false
unfolding contains
contains-Below n q [] l b = refl
contains-Below n q (r ∷ rs) l b = ground (arith, l, b.0, contains-Below n q rs l b.1)

-- New packets are apart from old ones.
pub Apart-fresh :
    (m n k : ℕ) (rs qs : List ℕ)
    → n ≤ k
    → All (λ (r : ℕ). k ≤ r) rs
    → Below m rs
    → Below n qs
    → Apart m qs rs
Apart-fresh m n k [] qs l h b o = tt
Apart-fresh m n k (r ∷ rs) qs l h b o =
    ((b.0, contains-Below n r qs (omega (arith, l, h.0)) o), Apart-fresh m n k rs qs l h.1 b.1 o)

-- Packets that are apart from a list are apart from its end.
pub Apart-suffix : (m k : ℕ) (ps qs rs : List ℕ) → m ≤ k → Apart m (ps ++ qs) rs → Apart k qs rs
Apart-suffix m k ps qs [] l a = tt
Apart-suffix m k ps qs (r ∷ rs) l a = (
  (omega (arith, l, a.0.0), ground (arith, contains-append r ps qs, a.0.1)),
  Apart-suffix m k ps qs rs l a.1,
)
