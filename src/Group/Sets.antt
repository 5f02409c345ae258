-- ===== src/Group/Sets.antt =====
-- The sets of ids and the maps from ids of packet-group.cc.
use zhuge.Prelude.{
  ℕ, ◌≡◌, refl, ap, ◌∙◌, Bool, true, false, ◌||◌, List, [], ◌∷◌, ◌++◌, none, some, ◌==◌,
  if◌then◌else◌, ==_iff, arith, Bool-cases, inl, inr,
}
use zhuge.Group.{contains, insert, insert_all, has_key, find, put, erase}

-- Each id of the second list is missing from the first, and from the ids of the second before it.
abbrev pub Unique : List ℕ → List ℕ → Type 0
Unique seen [] = Unit {0}
Unique seen (i ∷ is) = (contains i seen ≡ false) × Unique (insert i seen) is

contains-equal : (i j : ℕ) (s : List ℕ) → (j == i) ≡ true → contains j s ≡ contains i s
contains-equal i j s h = rw ((==_iff j i).0 h) refl

pub contains-insert : (j i : ℕ) (s : List ℕ) → contains j (insert i s) ≡ ((j == i) || contains j s)
unfolding insert contains
contains-insert j i s = elim (Bool-cases (contains i s)) [
  | inl has ↦ elim (Bool-cases (j == i)) [
    | inl same ↦ rw (has, same) (contains-equal i j s same ∙ has)
    | inr other ↦ rw (has, other) refl
  ]
  | inr hasnt ↦ rw hasnt refl
]

pub contains-insert_all :
    (j : ℕ) (is s : List ℕ) → contains j (insert_all is s) ≡ (contains j is || contains j s)
unfolding insert_all contains
contains-insert_all j [] s = refl
contains-insert_all j (i ∷ is) s =
    contains-insert_all j is (insert i s)
    ∙ ap (λ b. contains j is || b) (contains-insert j i s)
    ∙ swap (contains j is) (j == i) (contains j s)
  where
    swap : (a b c : Bool) → (a || (b || c)) ≡ ((b || a) || c)
    swap true true c = refl
    swap true false c = refl
    swap false true c = refl
    swap false false c = refl

pub insert_all-append :
    (is js s : List ℕ) → insert_all (is ++ js) s ≡ insert_all js (insert_all is s)
unfolding insert_all
insert_all-append [] js s = refl
insert_all-append (i ∷ is) js s = insert_all-append is js (insert i s)

pub Unique-append :
    (is js s : List ℕ) → Unique s is → Unique (insert_all is s) js → Unique s (is ++ js)
unfolding insert_all
Unique-append [] js s h k = k
Unique-append (i ∷ is) js s h k = (h.0, Unique-append is js (insert i s) h.1 k)

module _ {ℓ} {A : Type ℓ} where
  pub has_key-put :
      (j i : ℕ) (a : A) (m : List (ℕ × A)) → has_key j (put i a m) ≡ ((j == i) || has_key j m)
  unfolding has_key put
  has_key-put j i a [] = refl
  has_key-put j i a (e ∷ m) = elim (Bool-cases (i == e.0)) [
    | inl same ↦ rw ((==_iff i e.0).0 same) (ground arith)
    | inr other ↦ rw (other, has_key-put j i a m) (swap (j == e.0) (j == i) (has_key j m))
  ]
    where
      swap : (a b c : Bool) → (a || (b || c)) ≡ (b || (a || c))
      swap true true c = refl
      swap true false c = refl
      swap false b c = refl

  pub find-put :
      (j i : ℕ) (a : A) (m : List (ℕ × A))
      → find j (put i a m) ≡ (if j == i then some a else find j m)
  unfolding find put
  find-put j i a [] = refl
  find-put j i a (e ∷ m) = elim (Bool-cases (i == e.0)) [
    | inl same ↦ rw ((==_iff i e.0).0 same) (ground arith)
    | inr other ↦ rw (other, find-put j i a m) (ground arith)
  ]

  pub find-erase :
      (j i : ℕ) (m : List (ℕ × A)) → find j (erase i m) ≡ (if j == i then none else find j m)
  unfolding find erase
  find-erase j i [] = ground arith
  find-erase j i (e ∷ m) = elim (Bool-cases (i == e.0)) [
    | inl same ↦ rw (same, find-erase j i m) (ground arith)
    | inr other ↦ rw (other, find-erase j i m) (ground arith)
  ]
