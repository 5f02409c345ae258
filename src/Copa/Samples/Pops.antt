-- ===== src/Copa/Samples/Pops.antt =====
-- The loops of `clear_old_hist`.
use zhuge.Prelude.{
  ℕ, zero, suc, ◌+◌, ◌-◌, ◌<◌, ◌≤◌, ◌≡◌, refl, ◌∙◌, inl, inr, Bool, true, false, ◌&&◌, List, [],
  ◌∷◌, ◌++◌, ltb, length, drop, take, length-append, All, All-append, Bool-cases, arith,
}
use zhuge.Prelude.Int.{ℤ, pos, ◌+ℤ◌, ◌-ℤ◌}
use zhuge.Copa.{copa_max_time, back, pop_old, pop_increase}

abbrev pub IsAscending : List ℕ → Type 0
IsAscending [] = Unit
IsAscending (t ∷ ts) = All (λ (x : ℕ). t ≤ x) ts × IsAscending ts

pub IsAscending-append :
    (xs : List ℕ) (b : ℕ) → IsAscending xs → All (λ (t : ℕ). t ≤ b) xs → IsAscending (xs ++ b ∷ [])
IsAscending-append [] b h p = (tt, tt)
IsAscending-append (x ∷ xs) b h p =
    (All-append (λ t. x ≤ t) xs (b ∷ []) h.0 (p.0, tt), IsAscending-append xs b h.1 p.1)

pub IsAscending-drop : (n : ℕ) (xs : List ℕ) → IsAscending xs → IsAscending (drop n xs)
IsAscending-drop zero xs h = h
IsAscending-drop (suc n) [] h = h
IsAscending-drop (suc n) (x ∷ xs) h = IsAscending-drop n xs h.1

pub back-append : (xs : List ℕ) (b : ℕ) → back (xs ++ b ∷ []) ≡ b
unfolding back
back-append [] b = refl
back-append (x ∷ []) b = refl
back-append (x ∷ y ∷ xs) b = back-append (y ∷ xs) b

pub All-le : (a b : ℕ) (xs : List ℕ) → a ≤ b → All (λ (t : ℕ). t ≤ a) xs → All (λ (t : ℕ). t ≤ b) xs
All-le a b [] l h = tt
All-le a b (x ∷ xs) l h = (omega (arith, h.0), All-le a b xs l h.1)

All-fresh :
    (now t : ℕ) (ts : List ℕ)
    → now ≤ t + copa_max_time
    → All (λ (x : ℕ). t ≤ x) ts
    → All (λ (x : ℕ). now ≤ x + copa_max_time) ts
All-fresh now t [] l h = tt
All-fresh now t (x ∷ xs) l h = (omega (arith, h.0), All-fresh now t xs l h.1)

-- What the first loop leaves of times that end in a fresh one.
pub record Popped (now : ℕ) (ts rs : List ℕ) (p : List ℕ × List ℕ) : Type 0 where
  pub n : ℕ
  pub times : p.0 ≡ drop n ts
  pub rtts : p.1 ≡ drop n rs
  pub aged : All (λ (t : ℕ). t + copa_max_time < now) (take n ts)
  pub fresh : All (λ (t : ℕ). now ≤ t + copa_max_time) p.0
  pub newest : back p.0 ≡ back ts

Popped-none :
    (now t : ℕ) (ts rs : List ℕ)
    → now ≤ t + copa_max_time
    → IsAscending (t ∷ ts)
    → Popped now (t ∷ ts) rs (t ∷ ts, rs)
Popped-none now t ts rs l h = record {
  n = 0;
  times = refl;
  rtts = refl;
  aged = tt;
  fresh = (l, All-fresh now t ts l h.0);
  newest = refl;
}

unfoldable is_old : ℕ → ℕ → ℕ → Bool
is_old now t n = ltb copa_max_time now && ltb 1 n && ltb t (now - copa_max_time)

not_old : (now t n : ℕ) → now ≤ t + copa_max_time → is_old now t n ≡ false
unfolding is_old
not_old now t n h = ground arith

not_alone : (now t n : ℕ) → 1 < n → is_old now t n ≡ false → now ≤ t + copa_max_time
unfolding is_old
not_alone now t n l h = ground arith

old_lem : (now t n : ℕ) → is_old now t n ≡ true → t + copa_max_time < now
unfolding is_old
old_lem now t n h = ground arith

drop-drop : (n : ℕ) (rs : List ℕ) → drop n (drop 1 rs) ≡ drop (suc n) rs
drop-drop zero [] = refl
drop-drop (suc n) [] = refl
drop-drop n (r ∷ rs) = refl

pop_old-Popped :
    (now t : ℕ) (ts rs : List ℕ)
    → IsAscending (t ∷ ts)
    → now ≤ back (t ∷ ts) + copa_max_time
    → Popped now (t ∷ ts) rs (pop_old now (t ∷ ts) rs)
unfolding pop_old back is_old
pop_old-Popped now t [] rs h l = rw (not_old now t 1 l) (Popped-none now t [] rs l h)
pop_old-Popped now t (t' ∷ ts) rs h l =
    let n = length (t ∷ t' ∷ ts) in
    elim (Bool-cases (is_old now t n)) [
      | inl old ↦
          let p = pop_old-Popped now t' ts (drop 1 rs) h.1 l in
          rw old (record {
            n = suc p.n;
            times = p.times;
            rtts = p.rtts ∙ drop-drop p.n rs;
            aged = (old_lem now t n old, p.aged);
            fresh = p.fresh;
            newest = p.newest;
          })
      | inr new ↦ rw new (Popped-none now t (t' ∷ ts) rs (not_alone now t n (omega arith) new) h)
    ]

minus_one : (n : ℤ) (k : ℕ) → n ≡ pos (suc k) → n -ℤ pos 1 ≡ pos k
unfolding ◌-ℤ◌
minus_one n k h = ground (arith, h)

pub plus_one :
    (n : ℤ) (xs : List ℕ) (x : ℕ) → n ≡ pos (length xs) → n +ℤ pos 1 ≡ pos (length (xs ++ x ∷ []))
unfolding ◌+ℤ◌
plus_one n xs x h = ground (arith, h, length-append xs (x ∷ []))

-- What the second loop leaves.
pub pop_increase_lem :
    (ts : List ℕ) (n : ℤ)
    → n ≡ pos (length ts)
    → ((pop_increase ts n).1 ≡ pos (length (pop_increase ts n).0))
      × (length (pop_increase ts n).0 ≤ 40)
unfolding pop_increase
pop_increase_lem [] n h = (h, omega arith)
pop_increase_lem (t ∷ ts) n h =
    let rest = pop_increase_lem ts (n -ℤ pos 1) (minus_one n (length ts) h) in
    elim (Bool-cases (ltb 40 (length (t ∷ ts)))) [
      | inl more ↦ rw more rest
      | inr fits ↦ rw fits (h, ground (arith, fits))
    ]

pub pop_append-Popped :
    (now t : ℕ) (ts rs : List ℕ)
    → IsAscending (ts ++ t ∷ [])
    → now ≤ back (ts ++ t ∷ []) + copa_max_time
    → Popped now (ts ++ t ∷ []) rs (pop_old now (ts ++ t ∷ []) rs)
pop_append-Popped now t [] rs h l = pop_old-Popped now t [] rs h l
pop_append-Popped now t (x ∷ xs) rs h l = pop_old-Popped now x (xs ++ t ∷ []) rs h l
