-- ===== src/Delay/Middle.antt =====
-- A concrete environment for delta-delay.cc, which shows that its assumptions can be met.
use zhuge.Prelude.{ℕ, ◌*◌, ◌/◌, ◌≤◌, ◌<◌, arith}
use zhuge.Prelude.Int.{ℤ, pos, negsuc, ◌≤ℤ◌}
use zhuge.Delay.{Env}

unfoldable pub scale_down : ℕ → ℕ → ℤ → ℤ
scale_down a b (pos n) = pos (n * a / b)
scale_down a b (negsuc n) = negsuc n

div-mul-le : (n a b : ℕ) → a < b → n * a / b ≤ n
div-mul-le n a b h = grind arith

pub scale_down-pos : (a b : ℕ) (t : ℤ) → a < b → pos 0 ≤ℤ t → pos 0 ≤ℤ scale_down a b t
unfolding scale_down
scale_down-pos a b (pos n) h k = omega arith
scale_down-pos a b (negsuc n) h k = absurd (omega arith)

pub scale_down-le : (a b : ℕ) (t : ℤ) → a < b → pos 0 ≤ℤ t → scale_down a b t ≤ℤ t
unfolding scale_down
scale_down-le a b (pos n) h k = omega (arith, div-mul-le n a b h)
scale_down-le a b (negsuc n) h k = absurd (omega arith)

pub get_middle : (n : ℕ) → n / 2 ≤ n
get_middle n = omega arith

-- An environment that draws the middle and scales in whole nanoseconds.
abbrev pub middle : Env
middle = record {
  get_integer = λ n. n / 2;
  get_integer_le = get_middle;
  scale = scale_down;
  scale_pos = scale_down-pos;
  scale_le = scale_down-le;
}
