-- ===== src/Copa/Samples.antt =====
-- What a new sample leaves of Copa's deques.
pub mod Pops
use mathlib.Core.Path.{subst}
use zhuge.Prelude.{
  ℕ, zero, suc, ◌+◌, ◌-◌, ◌*◌, ◌<◌, ◌≤◌, ◌≡◌, refl, sym, ap, ap₂, ◌∙◌, ◌⊎◌, inl, inr, Bool, true,
  false, ◌&&◌, List, [], ◌∷◌, ◌++◌, Option, some, ltb, ◌==◌, if◌then◌else◌, length, drop, take,
  length-append, length-drop, All, All-append, All-drop, Bool-cases, if_both, arith,
}
use zhuge.Prelude.Int.{ℤ, pos, ◌+ℤ◌, ◌-ℤ◌}
use zhuge.Copa.{
  RttWindow, us, copa_max_time, back, pop_old, pop_increase, is_increase, clear_old_hist,
  note_increase, push_sample, new_rtt_sample,
}
use zhuge.Copa.Samples.Pops.{
  IsAscending, IsAscending-append, IsAscending-drop, back-append, All-le, Popped, pop_append-Popped,
  pop_increase_lem, plus_one,
}

pub record IsValid (now : ℕ) (s : RttWindow) : Type 0 where
  pub even : length s.copa_rtts ≡ length s.copa_times
  pub ascending : IsAscending s.copa_times
  pub past : All (λ (t : ℕ). t ≤ now) s.copa_times
  pub count : s.copa_num_increase ≡ pos (length s.copa_increase)
  pub few : length s.copa_increase ≤ 40

drop_even :
    (n : ℕ) (xs ys : List ℕ) → length xs ≡ length ys → length (drop n xs) ≡ length (drop n ys)
drop_even n xs ys h = length-drop n xs ∙ ap (λ k. k - n) h ∙ sym (length-drop n ys)

eq_lem : (a b : ℕ) → a ≡ b → (a == b) ≡ true
eq_lem a b h = ground arith

module _ (rtt rtt_min now : ℕ) (s : RttWindow) where
  abbrev pub all_times : List ℕ
  all_times = s.copa_times ++ us now ∷ []

  abbrev pub all_rtts : List ℕ
  all_rtts = s.copa_rtts ++ us rtt ∷ []

  -- The deques after a sample: what is left of the old samples and the new one.
  pub record Sampled (m : Option RttWindow) : Type 0 where
    pub next : RttWindow
    pub samples : m ≡ some next
    pub n : ℕ
    pub times : next.copa_times ≡ drop n all_times
    pub rtts : next.copa_rtts ≡ drop n all_rtts
    pub aged : All (λ (t : ℕ). t + copa_max_time < us now) (take n all_times)
    pub fresh : All (λ (t : ℕ). us now ≤ t + copa_max_time) next.copa_times
    pub newest : back next.copa_times ≡ us now
    pub valid : IsValid (us now) next

  unfoldable noted : RttWindow
  noted = note_increase rtt_min now (push_sample rtt now s)

  noted_times : noted.copa_times ≡ all_times
  unfolding noted note_increase push_sample
  noted_times =
      if_both (λ (x : RttWindow). x.copa_times ≡ all_times)
        (is_increase rtt_min now (push_sample rtt now s)) refl refl

  noted_rtts : noted.copa_rtts ≡ all_rtts
  unfolding noted note_increase push_sample
  noted_rtts =
      if_both (λ (x : RttWindow). x.copa_rtts ≡ all_rtts)
        (is_increase rtt_min now (push_sample rtt now s)) refl refl

  noted_count :
      s.copa_num_increase ≡ pos (length s.copa_increase)
      → noted.copa_num_increase ≡ pos (length noted.copa_increase)
  unfolding noted note_increase push_sample
  noted_count h = elim (Bool-cases (is_increase rtt_min now (push_sample rtt now s))) [
    | inl more ↦ rw more (plus_one s.copa_num_increase s.copa_increase (us now) h)
    | inr same ↦ rw same h
  ]

  unfoldable left : List ℕ × List ℕ
  left = pop_old (us now) all_times all_rtts

  unfoldable increases : List ℕ × ℤ
  increases = pop_increase noted.copa_increase noted.copa_num_increase

  unfoldable after : RttWindow
  after = record {
    copa_rtts = left.1;
    copa_times = left.0;
    copa_increase = increases.0;
    copa_num_increase = increases.1;
  }

  module _ (even : length s.copa_rtts ≡ length s.copa_times) where
    all_even : length all_rtts ≡ length all_times
    all_even = omega (
      arith,
      even,
      length-append s.copa_rtts (us rtt ∷ []),
      length-append s.copa_times (us now ∷ []),
    )

    clear-after : clear_old_hist now noted ≡ some after
    unfolding clear_old_hist after left increases
    clear-after = rw (noted_times, noted_rtts, eq_lem _ _ all_even) refl

    new_rtt_sample-after : new_rtt_sample rtt rtt_min now s ≡ some after
    unfolding new_rtt_sample noted
    new_rtt_sample-after = rw (eq_lem _ _ even) clear-after

  -- From deques of the same length whose times rise up to now, and whose count of increases is right
  -- and at most 40, a new sample is recorded without a failed assertion: what leaves is older than ten
  -- seconds, what stays is not, times and round trips leave together, the new sample is the last, and
  -- the deques are again as supposed.
  pub new_rtt_sample-Samples :
      (before : ℕ) → IsValid before s → before ≤ us now → Sampled (new_rtt_sample rtt rtt_min now s)
  unfolding after left increases
  new_rtt_sample-Samples before v l =
      let past =
        All-append (λ t. t ≤ us now) s.copa_times (us now ∷ [])
          (All-le before (us now) s.copa_times l v.past) (omega arith, tt) in
      let ascending =
        IsAscending-append s.copa_times (us now) v.ascending
          (All-le before (us now) s.copa_times l v.past) in
      let last = back-append s.copa_times (us now) in
      let p =
        pop_append-Popped (us now) (us now) s.copa_times all_rtts ascending (omega (arith, last)) in
      let q = pop_increase_lem noted.copa_increase noted.copa_num_increase (noted_count v.count) in
      record {
        next = after;
        samples = new_rtt_sample-after v.even;
        n = p.n;
        times = p.times;
        rtts = p.rtts;
        aged = p.aged;
        fresh = p.fresh;
        newest = p.newest ∙ last;
        valid = record {
          even =
              ap length p.rtts
              ∙ drop_even p.n all_rtts all_times (all_even v.even)
              ∙ sym (ap length p.times);
          ascending = subst IsAscending (sym p.times) (IsAscending-drop p.n all_times ascending);
          past =
              subst (All (λ t. t ≤ us now)) (sym p.times)
                (All-drop (λ t. t ≤ us now) p.n all_times past);
          count = q.0;
          few = q.1;
        };
      }
