-- ===== src/Prelude/Bits.antt =====
-- `&` and `|` at variables: with a mask, or of fields that do not meet, they are arithmetic.
use Prim.Native.Nat.{
  ℕ, zero, suc, ◌+◌, ◌-◌, ◌*◌, ◌/◌, ◌%◌, ◌^◌, ◌≤◌, ◌<◌, min, max, bit_and, bit_or, digits,
  bit_and-bitwise, bit_or-bitwise,
}
use mathlib.Core.Path.{◌≡◌, refl, ap, ◌∙◌}
use native.Mathlib.Nat.{pow-suc, one-le-pow, div-add-mod', mod-lt}
use native.Mathlib.Omega.{arith}

-- Digit by digit, enough fuel for one number is as good as any other amount.
settled :
    (end : ℕ → ℕ) (digit : ℕ → ℕ → ℕ) (fuel more x y : ℕ)
    → x ≤ more
    → x ≤ fuel
    → digits end digit more x y ≡ digits end digit fuel x y
settled end digit (suc fuel) (suc more) (suc x) y l r =
    omega (arith, settled end digit fuel more (suc x / 2) (y / 2) (omega arith) (omega arith))
settled end digit (suc fuel) (suc more) zero y l r = refl
settled end digit zero (suc more) zero y l r = refl
settled end digit (suc fuel) zero zero y l r = refl
settled end digit zero zero zero y l r = refl
settled end digit fuel zero (suc x) y l r = absurd (omega arith)
settled end digit zero (suc more) (suc x) y l r = absurd (omega arith)

-- The lowest digits apart, for `&` and for `|`.
and_lowest : (x y : ℕ) → bit_and x y ≡ min (x % 2) (y % 2) + 2 * bit_and (x / 2) (y / 2)
and_lowest zero y = omega (arith, bit_and-bitwise zero y, bit_and-bitwise zero (y / 2))
and_lowest (suc x) y =
    let half = suc x / 2 in
    let same = settled (λ _. 0) min half x half (y / 2) (omega arith) (omega arith) in
    omega (arith, same, bit_and-bitwise half (y / 2), bit_and-bitwise (suc x) y)

or_lowest : (x y : ℕ) → bit_or x y ≡ max (x % 2) (y % 2) + 2 * bit_or (x / 2) (y / 2)
or_lowest zero y = omega (arith, bit_or-bitwise zero y, bit_or-bitwise zero (y / 2))
or_lowest (suc x) y =
    let half = suc x / 2 in
    let same = settled (λ d. d) max half x half (y / 2) (omega arith) (omega arith) in
    omega (arith, same, bit_or-bitwise half (y / 2), bit_or-bitwise (suc x) y)

-- Nothing on the right.
and_nothing : (bound x : ℕ) → x ≤ bound → bit_and x 0 ≡ 0
and_nothing zero x h = let e : x ≡ 0 = omega arith in rw e refl
and_nothing (suc bound) zero h = refl
and_nothing (suc bound) (suc x) h =
    omega (arith, and_nothing bound (suc x / 2) (omega arith), and_lowest (suc x) 0)

or_nothing : (bound x : ℕ) → x ≤ bound → bit_or x 0 ≡ x
or_nothing zero x h = let e : x ≡ 0 = omega arith in rw e refl
or_nothing (suc bound) zero h = refl
or_nothing (suc bound) (suc x) h =
    omega (arith, or_nothing bound (suc x / 2) (omega arith), or_lowest (suc x) 0)

twice_pow : (q k : ℕ) → q * 2 ^ suc k ≡ 2 * (q * 2 ^ k)
twice_pow q k = omega (arith, ap (λ (t : ℕ). q * t) (pow-suc 2 k))

ones_of_fields : (k q r : ℕ) → r < 2 ^ k → bit_and (q * 2 ^ k + r) (2 ^ k - 1) ≡ r
ones_of_fields zero q r h = omega (arith, and_nothing (q * 1 + r) (q * 1 + r) (omega arith))
ones_of_fields (suc k) q r h = ground (
  arith,
  and_lowest (q * 2 ^ suc k + r) (2 ^ suc k - 1),
  twice_pow q k,
  pow-suc 2 k,
  ones_of_fields k q (r / 2) (omega (arith, pow-suc 2 k)),
)

shifted_of_fields :
    (k q r m : ℕ) → r < 2 ^ k → bit_and (q * 2 ^ k + r) (m * 2 ^ k) ≡ bit_and q m * 2 ^ k
shifted_of_fields zero q r m h =
    let e : q * 2 ^ 0 + r ≡ q = omega arith in
    let f : m * 2 ^ 0 ≡ m = omega arith in rw (e, f) (omega arith)
shifted_of_fields (suc k) q r m h = ground (
  arith,
  and_lowest (q * 2 ^ suc k + r) (m * 2 ^ suc k),
  twice_pow q k,
  twice_pow m k,
  twice_pow (bit_and q m) k,
  shifted_of_fields k q (r / 2) m (omega (arith, pow-suc 2 k)),
)

-- A mask of ones at the bottom is a remainder.
pub bit_and_ones : (k a : ℕ) → bit_and a (2 ^ k - 1) ≡ a % 2 ^ k
bit_and_ones k a = ground (
  arith,
  div-add-mod' a (2 ^ k),
  ones_of_fields k (a / 2 ^ k) (a % 2 ^ k) (mod-lt a (one-le-pow k 2 (omega arith))),
)

-- A shifted mask looks at the shifted number.
pub bit_and_shift : (k a m : ℕ) → bit_and a (m * 2 ^ k) ≡ bit_and (a / 2 ^ k) m * 2 ^ k
bit_and_shift k a m = ground (
  arith,
  div-add-mod' a (2 ^ k),
  shifted_of_fields k (a / 2 ^ k) (a % 2 ^ k) m (mod-lt a (one-le-pow k 2 (omega arith))),
)

-- Fields that do not meet add up.
pub bit_or_fields : (k q r : ℕ) → r < 2 ^ k → bit_or (q * 2 ^ k) r ≡ q * 2 ^ k + r
bit_or_fields zero q r h = ground (arith, or_nothing q q (omega arith))
bit_or_fields (suc k) q r h = ground (
  arith,
  or_lowest (q * 2 ^ suc k) r,
  twice_pow q k,
  pow-suc 2 k,
  bit_or_fields k q (r / 2) (omega (arith, pow-suc 2 k)),
)

or_zero : (bound y : ℕ) → y ≤ bound → bit_or 0 y ≡ y
or_zero zero y h = let e : y ≡ 0 = omega arith in rw e refl
or_zero (suc bound) zero h = refl
or_zero (suc bound) (suc y) h =
    omega (arith, or_zero bound (suc y / 2) (omega arith), or_lowest 0 (suc y))

pub bit_or_below : (k q r : ℕ) → r < 2 ^ k → bit_or r (q * 2 ^ k) ≡ q * 2 ^ k + r
bit_or_below zero q r h =
    let e : r ≡ 0 = omega arith in rw e (ground (arith, or_zero q q (omega arith)))
bit_or_below (suc k) q r h = ground (
  arith,
  or_lowest r (q * 2 ^ suc k),
  twice_pow q k,
  pow-suc 2 k,
  bit_or_below k q (r / 2) (omega (arith, pow-suc 2 k)),
)

-- The masks of the protocol headers, on any number.
pub low_nibble : (a : ℕ) → bit_and a 0x0f ≡ a % 16
low_nibble a = bit_and_ones 4 a

pub low_byte : (a : ℕ) → bit_and a 0xff ≡ a % 256
low_byte a = bit_and_ones 8 a

pub high_nibble : (a : ℕ) → bit_and a 0xf0 ≡ a / 16 % 16 * 16
high_nibble a = bit_and_shift 4 a 0x0f ∙ ap (λ n. n * 16) (bit_and_ones 4 (a / 16))
