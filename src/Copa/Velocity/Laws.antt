-- ===== src/Copa/Velocity/Laws.antt =====
-- How Copa's velocity moves over the reports of a connection.
use zhuge.Prelude.{
  ℕ, suc, ◌+◌, ◌-◌, ◌*◌, ◌%◌, ◌^◌, ◌<◌, ◌≤◌, ◌≡◌, refl, ap, ◌∙◌, inl, inr, false, List, [], ◌∷◌,
  Option, some, ltb, leb, ◌==◌, if◌then◌else◌, ◌>>=◌, Bool-cases, arith, ltb→lt,
}
use zhuge.Prelude.Words.{add_w}
use zhuge.Copa.Velocity.{
  VelocityState, is_same, new_direction, end_window, check_and_update_direction,
}

pub record Report : Type 0 where
  pub time : ℕ
  pub cwnd : ℕ
  pub acked : ℕ

-- A connection whose round trips are `srtt`.
module _ (srtt : ℕ) where
  abbrev pub run : List Report → VelocityState → Option VelocityState
  run [] v = some v
  run (r ∷ rs) v = check_and_update_direction r.time srtt r.cwnd r.acked v >>= run rs

  -- The velocity is 1, or it has been doubled, which takes three round trips in one direction.
  pub data IsPaced (v : VelocityState) : Type 0 where
    slow : v.velocity ≡ 1 → IsPaced v
    fast :
        (n : ℕ)
        → v.velocity ≡ 2 ^ suc n % 2 ^ 64
        → v.time_since_direction + 3 * srtt < v.last_cwnd_record_time
        → IsPaced v

  double_pow : (n k : ℕ) → k ≡ 2 ^ n % 2 ^ 64 → 2 * k % 2 ^ 64 ≡ 2 ^ suc n % 2 ^ 64
  double_pow n k h = omega (arith, h)

  -- The times of the reports do not go back.
  abbrev pub IsLater : ℕ → List Report → Type 0
  IsLater t [] = Unit
  IsLater t (r ∷ rs) = (t ≤ r.time) × IsLater r.time rs

  -- The velocity at the end of a window in the same direction.
  kept : ℕ → VelocityState → ℕ
  kept t v =
      if ltb (3 * srtt) (t - v.time_since_direction) then 2 * v.velocity % 2 ^ 64 else v.velocity

  kept-IsPaced :
      (t : ℕ) (v w : VelocityState)
      → v.last_cwnd_record_time ≤ t
      → IsPaced v
      → w.velocity ≡ kept t v
      → w.time_since_direction ≡ v.time_since_direction
      → w.last_cwnd_record_time ≡ t
      → IsPaced w
  unfolding kept
  kept-IsPaced t v w l p ve si la =
      elim (Bool-cases (ltb (3 * srtt) (t - v.time_since_direction))) [
        | inl long ↦
            let k : kept t v ≡ 2 * v.velocity % 2 ^ 64 = rw long refl in
            elim p [
              | slow e ↦ fast 0 (omega (arith, ve, k, e)) (omega (arith, ltb→lt _ _ long, si, la))
              | fast n e b ↦
                  fast (suc n) (ve ∙ (k ∙ double_pow (suc n) v.velocity e))
                    (omega (arith, ltb→lt _ _ long, si, la))
            ]
        | inr short ↦
            let k : kept t v ≡ v.velocity = rw short refl in
            elim p [
              | slow e ↦ slow (ve ∙ (k ∙ e))
              | fast n e b ↦ fast n (ve ∙ (k ∙ e)) (omega (arith, si, la, b))
            ]
      ]

  kept_lem :
      (t : ℕ) (v : VelocityState)
      → (if ltb (3 * srtt) (t - v.time_since_direction)
          then 2 * v.velocity % 2 ^ 64
          else v.velocity)
        ≡ kept t v
  unfolding kept
  kept_lem t v = refl

  IsLater-mono : (a b : ℕ) (rs : List Report) → a ≤ b → IsLater b rs → IsLater a rs
  IsLater-mono a b [] l h = tt
  IsLater-mono a b (r ∷ rs) l h = (omega (arith, h.0), h.1)

  end_window-IsPaced :
      (t cwnd : ℕ) (v : VelocityState)
      → v.last_cwnd_record_time ≤ t
      → IsPaced v
      → IsPaced (end_window t srtt cwnd v)
  unfolding end_window kept
  end_window-IsPaced t cwnd v l p = elim (Bool-cases (is_same (new_direction cwnd v) v.direction)) [
    | inr other ↦ rw other (slow refl)
    | inl same ↦
        kept-IsPaced t v (end_window t srtt cwnd v) l p (rw same (kept_lem t v)) (rw same refl) refl
  ]

  end_window_time :
      (t cwnd : ℕ) (v : VelocityState) → (end_window t srtt cwnd v).last_cwnd_record_time ≤ t
  unfolding end_window
  end_window_time t cwnd v = omega arith

  not_before : (a b : ℕ) → b ≤ a → ltb a b ≡ false
  not_before a b h = ground arith

  -- The times of a state and of the one after a report.
  record Reported (r : Report) (m : Option VelocityState) : Type 0 where
    next : VelocityState
    reports : m ≡ some next
    time : next.last_cwnd_record_time ≤ r.time
    paced : IsPaced next

  same_times :
      (v w : VelocityState)
      → w.velocity ≡ v.velocity
      → w.time_since_direction ≡ v.time_since_direction
      → v.last_cwnd_record_time ≤ w.last_cwnd_record_time
      → IsPaced v
      → IsPaced w
  same_times v w a b c (slow e) = slow (a ∙ e)
  same_times v w a b c (fast n e l) = fast n (a ∙ e) (omega (arith, b, c, l))

  check-Reported :
      (r : Report) (v : VelocityState)
      → v.last_cwnd_record_time ≤ r.time
      → IsPaced v
      → Reported r (check_and_update_direction r.time srtt r.cwnd r.acked v)
  unfolding check_and_update_direction
  check-Reported r v l p =
      let acked = record v { total_acked_bytes = add_w 32 v.total_acked_bytes r.acked } in
      let stays = same_times v acked refl refl (omega arith) p in
      let recorded = record v {
        last_cwnd_record_time = r.time;
        last_recorded_cwnd_bytes = r.cwnd;
      } in
      let first = same_times v recorded refl refl l p in
      let ends = end_window-IsPaced r.time r.cwnd acked l stays in
      elim (Bool-cases (v.last_cwnd_record_time == 0)) [
        | inl zero ↦
            rw zero (record { next = recorded; reports = refl; time = omega arith; paced = first })
        | inr started ↦ elim (Bool-cases (leb r.cwnd (add_w 32 v.total_acked_bytes r.acked))) [
          | inl full ↦
              rw (started, not_before r.time v.last_cwnd_record_time l, full)
                (record {
                  next = end_window r.time srtt r.cwnd acked;
                  reports = refl;
                  time = end_window_time r.time r.cwnd acked;
                  paced = ends;
                })
          | inr more ↦
              rw (started, not_before r.time v.last_cwnd_record_time l, more)
                (record { next = acked; reports = refl; time = l; paced = stays })
        ]
      ]

  -- From a velocity that is paced, reports at times that do not go back, with round trips of `srtt`,
  -- never fail and leave it paced: it is 1, or it is a power of 2 on a word of 64 bits and the
  -- direction has been kept for more than three round trips.
  pub run-IsPaced :
      (rs : List Report) (v : VelocityState)
      → IsLater v.last_cwnd_record_time rs
      → IsPaced v
      → (w : VelocityState) × (run rs v ≡ some w) × IsPaced w
  run-IsPaced [] v l p = (v, refl, p)
  run-IsPaced (r ∷ rs) v l p =
      let c = check-Reported r v l.0 p in
      let rest = run-IsPaced rs c.next (IsLater-mono _ _ rs c.time l.1) c.paced in
      (rest.0, ap (λ m. m >>= run rs) c.reports ∙ rest.1, rest.2)
