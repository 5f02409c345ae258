-- ===== src/Sender/Serial.antt =====
-- The order of wrapping numbers that `lessThan` of sender-based-controller.h gives.
use zhuge.Prelude.{ℕ, ◌+◌, ◌%◌, ◌^◌, ◌<◌, ◌≡◌, ◌↔◌, true, false, arith}
use zhuge.Sender.{less_than}

-- On sequence numbers, a number precedes another exactly if the other is one to 32767 steps ahead
-- of it, modulo 2^16.
pub less_than-window :
    (a d : ℕ) → d < 2 ^ 16 → (less_than 16 a ((a + d) % 2 ^ 16) ≡ true) ↔ ((0 < d) × (d < 2 ^ 15))
unfolding less_than
less_than-window a d h = ground arith

-- A number does not precede itself, nor two numbers each other.
pub less_than-asym : (a b : ℕ) → less_than 16 a b ≡ true → less_than 16 b a ≡ false
unfolding less_than
less_than-asym a b h = ground arith

-- A timestamp does not precede an earlier one.
pub less_than-later :
    (now d : ℕ) → d < 2 ^ 63 → now < 2 ^ 64 → less_than 64 ((now + d) % 2 ^ 64) now ≡ false
unfolding less_than
less_than-later now d h k = ground arith

pub less_than_irrefl : (a : ℕ) → less_than 16 a a ≡ false
unfolding less_than
less_than_irrefl a = ground arith
