-- ===== src/Copa/Detect/Range.antt =====
-- The loop of `tcp_detected`, by the round trips of the recent samples.
use mathlib.Core.Path.{subst}
use mathlib.Core.Path.{subst}
use zhuge.Prelude.{
  ℕ, ◌-◌, ◌^◌, ◌<◌, ◌≤◌, ◌≡◌, refl, ap, ◌↔◌, ◌⊎◌, inl, inr, ◌⊎◌, inl, inr, false, List, [], ◌∷◌,
  ltb, if◌then◌else◌, length, All, arith, lt→ltb, min, max, Bool-cases, if_both,
}
use zhuge.Copa.{back, rtt_range}

-- The round trips of the samples after a time.
unfoldable pub recent : ℕ → List ℕ → List ℕ → List ℕ
recent since [] rs = []
recent since (t ∷ ts) [] = []
recent since (t ∷ ts) (r ∷ rs) =
    let rest = recent since ts rs in if ltb since t then r ∷ rest else rest

le_max : (a b : ℕ) → a ≤ b → b ≡ max a b
le_max a b h = omega arith

ge_max : (a b : ℕ) → b ≤ a → a ≡ max a b
ge_max a b h = omega arith

≤-cases : (a b : ℕ) → (a ≤ b) ⊎ (b ≤ a)
≤-cases a b = omega arith

max-both : (P : ℕ → Type 0) (a b : ℕ) → P a → P b → P (max a b)
max-both P a b p q = elim (≤-cases a b) [
  | inl le ↦ subst P (le_max a b le) q
  | inr ge ↦ subst P (ge_max a b ge) p
]

pub rtt_range-below :
    (k since : ℕ) (ts rs : List ℕ) (a b : ℕ)
    → (k < (rtt_range since ts rs a b).0) ↔ ((k < a) × All (λ (r : ℕ). k < r) (recent since ts rs))
unfolding rtt_range recent
rtt_range-below k since [] rs a b = (λ h. (h, tt), λ h. h.0)
rtt_range-below k since (t ∷ ts) [] a b = (λ h. (h, tt), λ h. h.0)
rtt_range-below k since (t ∷ ts) (r ∷ rs) a b = elim (Bool-cases (ltb since t)) [
  | inl new ↦
      let ih = rtt_range-below k since ts rs (min a r) (max b r) in
      rw new (
        λ h. (omega (arith, (ih.0 h).0), (omega (arith, (ih.0 h).0), (ih.0 h).1)),
        λ h. ih.1 (omega (arith, h.0, h.1.0), h.1.1),
      )
  | inr old ↦ rw old (rtt_range-below k since ts rs a b)
]

pub rtt_range-above :
    (since : ℕ) (ts rs : List ℕ) (a b : ℕ)
    → (b ≤ (rtt_range since ts rs a b).1)
      × All (λ (r : ℕ). r ≤ (rtt_range since ts rs a b).1) (recent since ts rs)
unfolding rtt_range recent
rtt_range-above since [] rs a b = (omega arith, tt)
rtt_range-above since (t ∷ ts) [] a b = (omega arith, tt)
rtt_range-above since (t ∷ ts) (r ∷ rs) a b = elim (Bool-cases (ltb since t)) [
  | inl new ↦
      let ih = rtt_range-above since ts rs (min a r) (max b r) in
      rw new (omega (arith, ih.0), (omega (arith, ih.0), ih.1))
  | inr old ↦ rw old (rtt_range-above since ts rs a b)
]

-- The largest is the start or a recent round trip.
pub rtt_range-at :
    (P : ℕ → Type 0) (since : ℕ) (ts rs : List ℕ) (a b : ℕ)
    → P b
    → All P (recent since ts rs)
    → P (rtt_range since ts rs a b).1
unfolding rtt_range recent
rtt_range-at P since [] rs a b p h = p
rtt_range-at P since (t ∷ ts) [] a b p h = p
rtt_range-at P since (t ∷ ts) (r ∷ rs) a b p h = elim (Bool-cases (ltb since t)) [
  | inl new ↦
      let k : All P (r ∷ recent since ts rs) =
        subst (All P) (ap (λ c. if c then r ∷ recent since ts rs else recent since ts rs) new) h in
      rw new (rtt_range-at P since ts rs (min a r) (max b r) (max-both P b r p k.0) k.1)
  | inr old ↦ rw old (
      rtt_range-at P since ts rs a b p
        (subst (All P) (ap (λ c. if c then r ∷ recent since ts rs else recent since ts rs) old) h))
]

not_after : (a b : ℕ) → b ≤ a → ltb a b ≡ false
not_after a b h = ground arith

-- A time that the last sample is after: the largest is no less than a bound of all round trips.
pub rtt_range-least :
    (m since : ℕ) (ts rs : List ℕ) (a b : ℕ)
    → length rs ≡ length ts
    → since < back ts
    → All (λ (r : ℕ). m ≤ r) rs
    → m ≤ (rtt_range since ts rs a b).1
unfolding rtt_range back
rtt_range-least m since [] rs a b e l h = absurd (omega (arith, l))
rtt_range-least m since (t ∷ ts) [] a b e l h = absurd (omega (arith, e))
rtt_range-least m since (t ∷ []) (r ∷ rs) a b e l h = rw (lt→ltb since t l) (omega (arith, h.0))
rtt_range-least m since (t ∷ t' ∷ ts) (r ∷ rs) a b e l h =
    if_both (λ (x : ℕ × ℕ). m ≤ x.1) (ltb since t)
      (rtt_range-least m since (t' ∷ ts) rs (min a r) (max b r) (omega (arith, e)) l h.1)
      (rtt_range-least m since (t' ∷ ts) rs a b (omega (arith, e)) l h.1)

pub recent-none :
    (since : ℕ) (ts rs : List ℕ)
    → All (λ (t : ℕ). t ≤ since) ts
    → rtt_range since ts rs (2 ^ 64 - 1) 0 ≡ (2 ^ 64 - 1, 0)
unfolding rtt_range
recent-none since [] rs h = refl
recent-none since (t ∷ ts) [] h = refl
recent-none since (t ∷ ts) (r ∷ rs) h = rw (not_after since t h.0) (recent-none since ts rs h.1)

pub All-weaken : (P Q : ℕ → Type 0) (xs : List ℕ) → ((x : ℕ) → P x → Q x) → All P xs → All Q xs
All-weaken P Q [] f h = tt
All-weaken P Q (x ∷ xs) f h = (f x h.0, All-weaken P Q xs f h.1)

pub recent-All :
    (P : ℕ → Type 0) (since : ℕ) (ts rs : List ℕ) → All P rs → All P (recent since ts rs)
unfolding recent
recent-All P since [] rs h = tt
recent-All P since (t ∷ ts) [] h = tt
recent-All P since (t ∷ ts) (r ∷ rs) h =
    let rest = recent-All P since ts rs h.1 in if_both (All P) (ltb since t) (h.0, rest) rest
