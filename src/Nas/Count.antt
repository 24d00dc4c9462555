-- ===== src/Nas/Count.antt =====
-- NAS/src/NAS.c: the NAS COUNT of each direction, and the check of a received sequence number. A
-- COUNT is a uint32_t whose low octet is the sequence number.
use aalto_mme.Prelude.{
  ℕ, ◌+◌, ◌-◌, ◌%◌, Bool, true, false, List, ltb, if◌then◌else◌, bit_and, bit_or,
}

pub data Direction : Type 0 where
  up_link : Direction
  down_link : Direction

pub record NasHandler : Type 0 where
  pub is_valid : Bool
  pub i : ℕ
  pub ikey : List ℕ
  pub e : ℕ
  pub ekey : List ℕ
  pub up_count : ℕ
  pub down_count : ℕ

-- `n->nas_count[direction]`.
unfoldable pub nas_count : NasHandler → Direction → ℕ
nas_count n Direction.up_link = n.up_count
nas_count n Direction.down_link = n.down_count

unfoldable pub put_count : NasHandler → Direction → ℕ → NasHandler
put_count n Direction.up_link c = record n { up_count = c }
put_count n Direction.down_link c = record n { down_count = c }

-- What the three functions that move a COUNT return: 0 from five before the overflow on.
unfoldable pub room_left : ℕ → Bool
room_left c = if ltb 0xfffffa c then false else true

unfoldable pub increment_nas_count : NasHandler → Direction → NasHandler × Bool
unfolding nas_count put_count room_left
increment_nas_count n direction =
    let c : ℕ = (nas_count n direction + 1) % 4294967296 in (put_count n direction c, room_left c)

-- The COUNT of a received sequence number: the upper octets of the stored COUNT, and `recv`.
unfoldable pub received_count : ℕ → ℕ → ℕ
received_count c recv = bit_or (bit_and c 0xffff00) recv

unfoldable pub received_count_short : ℕ → ℕ → ℕ
received_count_short c recv = bit_or (bit_and c 0xffffe0) recv

unfoldable pub set_count : NasHandler → Direction → ℕ → NasHandler × Bool
unfolding nas_count put_count room_left received_count
set_count n direction recv =
    let c : ℕ = received_count (nas_count n direction) recv + 1 in
    (put_count n direction c, room_left c)

unfoldable pub set_count_short : NasHandler → Direction → ℕ → NasHandler × Bool
unfolding nas_count put_count room_left received_count_short
set_count_short n direction recv =
    let c : ℕ = received_count_short (nas_count n direction) recv + 1 in
    (put_count n direction c, room_left c)

-- `recv - (last & 0xFF)` is unsigned, so it wraps at 2 ^ 32.
unfoldable pub check_count : ℕ → ℕ → Bool
check_count last recv = ltb ((recv + (4294967296 - bit_and last 0xff)) % 4294967296) 10

unfoldable pub check_count_short : ℕ → ℕ → Bool
check_count_short last recv = ltb ((recv + (4294967296 - bit_and last 0x1f)) % 4294967296) 10

-- `-1` on a uint32_t.
unfoldable pub get_last_count : NasHandler → Direction → ℕ
unfolding nas_count
get_last_count n direction = (nas_count n direction + 4294967295) % 4294967296
