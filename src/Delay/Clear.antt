-- ===== src/Delay/Clear.antt =====
-- The ageing of the histories of delta-delay.cc.
use zhuge.Prelude.{
  ℕ, ◌-◌, ◌≤◌, ◌<◌, ◌≡◌, refl, List, [], ◌∷◌, ◌++◌, arith, append_assoc, append-nil, All,
  Bool-cases, inl, inr, ltb,
}
use zhuge.Delay.{Entry, pop_aged}

abbrev pub IsAged : ℕ → ℕ → Entry → Type 0
IsAged window now e = window < now - e.stamp

abbrev pub IsFresh : ℕ → ℕ → Entry → Type 0
IsFresh window now e = now - e.stamp ≤ window

-- The entry at the front, if there is one, is within the window.
abbrev pub HeadIsFresh : ℕ → ℕ → List Entry → Type 0
HeadIsFresh window now [] = Unit {0}
HeadIsFresh window now (e ∷ es) = IsFresh window now e

-- Stamps do not fall along the deque, and start at `n` or later.
abbrev pub Since : ℕ → List Entry → Type 0
Since n [] = Unit {0}
Since n (e ∷ es) = (n ≤ e.stamp) × Since e.stamp es

-- A pass splits the deque: what leaves is aged and is appended to the second deque, in order, and
-- what stays is the rest, whose front is within the window.
pub pop_aged_splits :
    (window now : ℕ) (es out : List Entry)
    → (removed : List Entry) × (removed ++ (pop_aged window now es out).0 ≡ es)
      × ((pop_aged window now es out).1 ≡ out ++ removed)
      × All (IsAged window now) removed
      × HeadIsFresh window now (pop_aged window now es out).0
unfolding pop_aged
pop_aged_splits window now [] out = ([], refl, simp append-nil, tt, tt)
pop_aged_splits window now (e ∷ es) out = elim (Bool-cases (ltb window (now - e.stamp))) [
  | inl old ↦
      let ih = pop_aged_splits window now es (out ++ e ∷ []) in
      (
        e ∷ ih.0,
        rw old (ap_cons e ih.1),
        rw (old, ih.2) (append_assoc out (e ∷ []) ih.0),
        (ground arith, ih.3),
        rw old ih.4,
      )
  | inr fresh ↦ ([], rw fresh, rw fresh (simp append-nil), tt, rw fresh (ground arith))
]
  where
    ap_cons : (x : Entry) {xs ys : List Entry} → xs ≡ ys → x ∷ xs ≡ x ∷ ys
    ap_cons x p = λ i. x ∷ p i

Since-IsFresh :
    (window now n : ℕ) (es : List Entry)
    → Since n es
    → now - n ≤ window
    → All (IsFresh window now) es
Since-IsFresh window now n [] h k = tt
Since-IsFresh window now n (e ∷ es) h k =
    (omega arith, Since-IsFresh window now e.stamp es h.1 (omega arith))

-- Over a deque in the order of its stamps one pass leaves no aged entry anywhere.
pub pop_aged-IsFresh :
    (window now n : ℕ) (es out : List Entry)
    → Since n es
    → All (IsFresh window now) (pop_aged window now es out).0
unfolding pop_aged
pop_aged-IsFresh window now n [] out h = tt
pop_aged-IsFresh window now n (e ∷ es) out h = elim (Bool-cases (ltb window (now - e.stamp))) [
  | inl old ↦ rw old (pop_aged-IsFresh window now e.stamp es (out ++ e ∷ []) h.1)
  | inr fresh ↦ rw fresh (ground arith, Since-IsFresh window now e.stamp es h.1 (ground arith))
]

-- A property of all entries of both deques is kept.
pub pop_aged-All {ℓ} :
    (P : Entry → Type ℓ) (window now : ℕ) (es out : List Entry)
    → All P es
    → All P (pop_aged window now es out).0
unfolding pop_aged
pop_aged-All P window now [] out h = tt
pop_aged-All P window now (e ∷ es) out h = elim (Bool-cases (ltb window (now - e.stamp))) [
  | inl old ↦ rw old (pop_aged-All P window now es (out ++ e ∷ []) h.1)
  | inr fresh ↦ rw fresh h
]
