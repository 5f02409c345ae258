-- ===== src/Delay/Tokens.antt =====
-- The payment of a delay by tokens, in delta-delay.cc.
use zhuge.Prelude.{◌≡◌, refl, ◌⊎◌, inl, inr, List, [], ◌∷◌, ◌++◌, arith, All, Bool-cases}
use zhuge.Prelude.Int.{ℤ, pos, ◌+ℤ◌, ◌-ℤ◌, ◌≤ℤ◌, ltb_ℤ, int_laws, -ℤ_parts, parts_of_eq}
use zhuge.Delay.{Entry, take_tokens, max_delay}

-- 0 ≤ delay ≤ 10 ms.
abbrev pub InRange : Entry → Type 0
InRange e = (pos 0 ≤ℤ e.delay) × (e.delay ≤ℤ max_delay)

pub total : List Entry → ℤ
total [] = pos 0
total (e ∷ es) = e.delay +ℤ total es

-- What the delay loses is exactly what the tokens lose.
take_tokens-total :
    (ts : List Entry) (res : ℤ) (popped : List Entry)
    → let (ts', res', popped') = take_tokens ts res popped in total ts +ℤ res' ≡ total ts' +ℤ res
unfolding take_tokens total
take_tokens-total [] res popped = refl
take_tokens-total (t ∷ ts) res popped = elim (Bool-cases (ltb_ℤ t.delay res)) [
  | inl more ↦
      let ih = parts_of_eq _ _ (take_tokens-total ts (res -ℤ t.delay) (popped ++ t ∷ [])) in
      rw more (omega (int_laws, ih))
  | inr last ↦ rw last (omega int_laws)
]

-- Either the delay is paid in full or no token is left.
take_tokens-spent :
    (ts : List Entry) (res : ℤ) (popped : List Entry)
    → let (ts', res', popped') = take_tokens ts res popped in (res' ≡ pos 0) ⊎ (ts' ≡ [])
unfolding take_tokens
take_tokens-spent [] res popped = inr refl
take_tokens-spent (t ∷ ts) res popped = elim (Bool-cases (ltb_ℤ t.delay res)) [
  | inl more ↦ rw more (take_tokens-spent ts (res -ℤ t.delay) (popped ++ t ∷ []))
  | inr last ↦ rw last (inl refl)
]

-- A delay that is not negative stays so and does not grow, and tokens stay in their range.
pub take_tokens-range :
    (ts : List Entry) (res : ℤ) (popped : List Entry)
    → All InRange ts
    → pos 0 ≤ℤ res
    → let (ts', res', popped') = take_tokens ts res popped in
      (pos 0 ≤ℤ res') × (res' ≤ℤ res) × All InRange ts'
unfolding take_tokens
take_tokens-range [] res popped h k = (k, omega arith, tt)
take_tokens-range (t ∷ ts) res popped h k = elim (Bool-cases (ltb_ℤ t.delay res)) [
  | inl more ↦
      let ih =
        take_tokens-range ts (res -ℤ t.delay) (popped ++ t ∷ []) h.1
          (ground (arith, -ℤ_parts res t.delay)) in
      rw more (ih.0, omega (arith, ih.1, -ℤ_parts res t.delay, h.0.0), ih.2)
  | inr last ↦ rw last (
    omega arith,
    k,
    ((ground (arith, -ℤ_parts t.delay res), ground (arith, -ℤ_parts t.delay res)), h.1),
  )
]

-- Tokens pay a delay that is not negative, exactly: what the delay loses is what the tokens lose
-- in total, a delay is left only if no token is, the delay does not grow or fall below 0, and the
-- tokens that are left stay between 0 and 10 ms, if all were.
pub take_tokens-account :
    (ts : List Entry) (res : ℤ) (popped : List Entry)
    → All InRange ts
    → pos 0 ≤ℤ res
    → let (ts', res', popped') = take_tokens ts res popped in
      (total ts +ℤ res' ≡ total ts' +ℤ res)
      × ((res' ≡ pos 0) ⊎ (ts' ≡ []))
      × (pos 0 ≤ℤ res')
      × (res' ≤ℤ res)
      × All InRange ts'
take_tokens-account ts res popped h k =
    let r = take_tokens-range ts res popped h k in
    (take_tokens-total ts res popped, take_tokens-spent ts res popped, r.0, r.1, r.2)
