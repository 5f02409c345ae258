-- ===== src/Receiver.antt =====
-- `PacketReceiverUdp` of packet-receiver-udp.cc: the order of packet ids, the loss sequence that is
-- fed back, and the groups of packets.
pub mod Loss
pub mod Groups
pub mod Tests
use zhuge.Prelude.{
  ℕ, ◌+◌, ◌-◌, ◌%◌, ◌^◌, ◌≤◌, ◌<◌, ◌≡◌, ◌↔◌, Bool, true, false, ◌&&◌, ◌||◌, List, [], ◌∷◌, ltb, leb,
  if◌then◌else◌, arith,
}
use zhuge.Prelude.Words.{sub_w}

abbrev pub wnd_size : ℕ
wnd_size = 1000

-- `lessThan`: against the last id, with the window before it.
pub less_than : ℕ → ℕ → ℕ → Bool
less_than last id1 id2 =
    let start = 65536 - wnd_size + last in
    if leb wnd_size last && ltb id1 id2
    then true
    else if ltb last wnd_size
    then (leb id2 last && leb start id1)
      || (ltb id1 id2 && ((leb start id1 && leb start id2) || (leb id1 last && leb id2 last)))
    else false

pub less_than_simple : ℕ → ℕ → Bool
less_than_simple id1 id2 = ltb (sub_w 16 id2 id1) (sub_w 16 id1 id2)

-- For two ids of the window of 1000 before the last id, `lessThan` is the order of arrival: an id
-- is less exactly if it is further behind the last one, counted modulo 2^16.
pub less_than-age :
    (last id1 id2 : ℕ)
    → last < 2 ^ 16
    → id1 < 2 ^ 16
    → id2 < 2 ^ 16
    → (last + 65536 - id1) % 65536 ≤ wnd_size
    → (last + 65536 - id2) % 65536 ≤ wnd_size
    → (less_than last id1 id2 ≡ true)
      ↔ ((last + 65536 - id2) % 65536 < (last + 65536 - id1) % 65536)
unfolding less_than
less_than-age last id1 id2 h h1 h2 w1 w2 = ground arith

-- For two ids of the window, `lessThan` agrees with `lessThan_simple`, which needs no last id.
pub less_than-simple :
    (last id1 id2 : ℕ)
    → last < 2 ^ 16
    → id1 < 2 ^ 16
    → id2 < 2 ^ 16
    → (last + 65536 - id1) % 65536 ≤ wnd_size
    → (last + 65536 - id2) % 65536 ≤ wnd_size
    → less_than last id1 id2 ≡ less_than_simple id1 id2
unfolding less_than less_than_simple
less_than-simple last id1 id2 h h1 h2 w1 w2 = ground arith
