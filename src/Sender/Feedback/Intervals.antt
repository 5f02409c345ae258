-- ===== src/Sender/Feedback/Intervals.antt =====
-- The loss intervals of `updateInterLossData` of sender-based-controller.cc.
use mathlib.Core.Path.{subst}
use zhuge.Prelude.{
  ℕ, zero, suc, ◌≤◌, ◌≡◌, refl, ap, Bool, true, false, List, [], ◌∷◌, take, none, some, arith, ltb,
  ◌==◌, if◌then◌else◌, length, Bool-cases, inl, inr, ◌>>=◌, >>=-eq-some, some_inj,
}
use zhuge.Prelude.Words.{add_w}
use zhuge.Sender.{less_than, PacketRecord, InterLossState, new_inter_loss}
use zhuge.Sender.Feedback.{grow_first, push_interval, update_inter_loss}

-- One to nine intervals are kept.
abbrev pub Bounded : List ℕ → Type 0
Bounded ns = (1 ≤ length ns) × (length ns ≤ 9)

take-length : (n : ℕ) (ns : List ℕ) → n ≤ length ns → length (take n ns) ≡ n
take-length zero ns h = refl
take-length (suc n) [] h = absurd (omega arith)
take-length (suc n) (m ∷ ns) h = ap suc (take-length n ns (omega arith))

push_interval-Bounded : (ns : List ℕ) → Bounded ns → Bounded (push_interval ns)
unfolding push_interval
push_interval-Bounded ns b = elim (Bool-cases (ltb 9 (length (1 ∷ ns)))) [
  | inl long ↦ rw (long, take-length (length ns) (1 ∷ ns) (omega arith)) b
  | inr short ↦ rw short (omega arith, ground arith)
]

grow_first-Bounded : (ns : List ℕ) {ms : List ℕ} → grow_first ns ≡ some ms → Bounded ns → Bounded ms
unfolding grow_first
grow_first-Bounded [] e b = absurd cc
grow_first-Bounded (n ∷ ns) e b = subst Bounded (some_inj e) b

pub update_inter_loss-Bounded :
    (empty : Bool) (il : InterLossState) (p : PacketRecord) {il' : InterLossState}
    → update_inter_loss empty il p ≡ some il'
    → Bounded il.intervals
    → Bounded il'.intervals
unfolding update_inter_loss new_inter_loss
update_inter_loss-Bounded empty il p {il'} e b =
    go (p.sequence == start.expected_seq) (less_than 16 start.expected_seq p.sequence) e
  where
    start : InterLossState
    start = if empty then record new_inter_loss { expected_seq = p.sequence } else il

    bounded : Bounded start.intervals
    bounded = elim (Bool-cases empty) [ inl y ↦ rw y (omega arith, omega arith) | inr n ↦ rw n b ]

    go :
        (x y : Bool)
        → (if x
            then grow_first start.intervals >>= (λ ns.
              some (record start { intervals = ns; expected_seq = add_w 16 start.expected_seq 1 }))
            else if y
            then some (record {
              intervals = push_interval start.intervals;
              expected_seq = add_w 16 p.sequence 1;
              initialized = true;
            })
            else none)
          ≡ some il'
        → Bounded il'.intervals
    go true y q =
        let m = >>=-eq-some (grow_first start.intervals) _ q in
        subst (λ i. Bounded i.intervals) (some_inj m.2)
          (grow_first-Bounded start.intervals m.1 bounded)
    go false true q =
        subst (λ i. Bounded i.intervals) (some_inj q)
          (push_interval-Bounded start.intervals bounded)
    go false false q = absurd cc
