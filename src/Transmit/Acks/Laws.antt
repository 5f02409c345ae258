-- ===== src/Transmit/Acks/Laws.antt =====
-- Acknowledgements at the sender in packet-sender-udp.cc.
use zhuge.Prelude.{
  ℕ, ◌+◌, ◌-◌, ◌%◌, ◌≤◌, ◌≡◌, ◌&&◌, List, [], ◌∷◌, leb, if◌then◌else◌, length, arith,
}
use zhuge.Transmit.Acks.{Frames, on_frame_ack, on_frame_acks}

-- How many of the frames were acknowledged in time.
abbrev pub in_time : ℕ → List (ℕ × ℕ × ℕ) → ℕ
in_time delay_ddl [] = 0
in_time delay_ddl (a ∷ acks) =
    (if leb a.0 (a.2 + (delay_ddl + 1000000)) then 1 else 0) + in_time delay_ddl acks

abbrev pub in_time_late_start : ℕ → List (ℕ × ℕ × ℕ) → ℕ
in_time_late_start delay_ddl [] = 0
in_time_late_start delay_ddl (a ∷ acks) =
    (if leb a.0 (a.2 + (delay_ddl + 1000000)) && leb 10 a.1 then 1 else 0)
    + in_time_late_start delay_ddl acks

pub in_time-le : (d : ℕ) (acks : List (ℕ × ℕ × ℕ)) → in_time d acks ≤ length acks
in_time-le d [] = omega arith
in_time-le d (a ∷ acks) = ground (arith, in_time-le d acks)

-- One acknowledgement: `t` is in time, and `l` of a frame from 10 on.
one_ack :
    (d now id enc : ℕ) (s : Frames)
    → let t = leb now (enc + (d + 1000000)) in
      ((on_frame_ack d now id enc s).finished_frame_cnt % 18446744073709551616
        ≡ (s.finished_frame_cnt + (if t then 1 else 0)) % 18446744073709551616)
      × ((on_frame_ack d now id enc s).timeout_frame_cnt % 18446744073709551616
          ≡ (s.timeout_frame_cnt + (1 - (if t then 1 else 0))) % 18446744073709551616)
      × ((on_frame_ack d now id enc s).exclude_ten_finished_frame_cnt % 18446744073709551616
          ≡ (s.exclude_ten_finished_frame_cnt + (if t && leb 10 id then 1 else 0))
            % 18446744073709551616)
unfolding on_frame_ack
one_ack d now id enc s = (ground arith, ground arith, ground arith)

-- The frames that are acknowledged are counted, each once: those up to a millisecond after their
-- deadline as finished, the others as timed out, and of the finished ones those from frame 10 on a
-- second time. The three counters hold the numbers modulo 2^64.
pub on_frame_acks-counts :
    (d : ℕ) (acks : List (ℕ × ℕ × ℕ)) (s : Frames)
    → ((on_frame_acks d acks s).finished_frame_cnt % 18446744073709551616
        ≡ (s.finished_frame_cnt + in_time d acks) % 18446744073709551616)
      × ((on_frame_acks d acks s).timeout_frame_cnt % 18446744073709551616
          ≡ (s.timeout_frame_cnt + (length acks - in_time d acks)) % 18446744073709551616)
      × ((on_frame_acks d acks s).exclude_ten_finished_frame_cnt % 18446744073709551616
          ≡ (s.exclude_ten_finished_frame_cnt + in_time_late_start d acks) % 18446744073709551616)
unfolding on_frame_acks
on_frame_acks-counts d [] s = (omega arith, omega arith, omega arith)
on_frame_acks-counts d (a ∷ acks) s =
    let r = on_frame_acks-counts d acks (on_frame_ack d a.0 a.1 a.2 s) in
    let o = one_ack d a.0 a.1 a.2 s in
    (omega (arith, r.0, o.0), ground (arith, r.1, o.1, in_time-le d acks), omega (arith, r.2, o.2))
