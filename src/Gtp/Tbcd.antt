-- ===== src/Gtp/Tbcd.antt =====
-- libgtp/gtpie.c: `tbcd2dec` and `dec2tbcd`, the telephony BCD of IMSI and MSISDN.
use aalto_mme.Prelude.{
  ℕ, zero, suc, ◌+◌, ◌*◌, ◌/◌, ◌%◌, ◌^◌, ◌<◌, ◌≤◌, ◌≡◌, Option, some, none, ltb, false, ap, ◌∙◌,
  arith, List, [], ◌∷◌, length, ◌==◌, if◌then◌else◌, bit_and, All, IsByte,
}
use native.Mathlib.Nat.{
  mod-one, pow-suc, one-le-pow, div-add-mod, mul-add-mod_self_left, mod-eq_of_lt, mod-lt,
}
use mathlib.Core.Path.{ap₂}
use aalto_mme.Prelude.Bits.{low_nibble, high_nibble}

-- `memcpy(&bcd, tbcd, length)` on a little-endian machine: the bytes land in the low end of the
-- 64-bit word, of which at most eight are written; above them stays what the word held.
unfoldable pub load_bcd : ℕ → List ℕ → ℕ
load_bcd stale [] = stale
load_bcd stale (b ∷ bs) = b + 256 * load_bcd (stale / 256) bs

-- One round, on the low octet: two digits, or one where the high nibble is the filler 0xF.
unfoldable pub tbcd_round : ℕ → ℕ → ℕ
tbcd_round bcd decimal =
    if bit_and bcd 0xf0 == 0xf0
    then (decimal * 10 + bit_and bcd 0x0f) % 18446744073709551616
    else (decimal * 100 + bit_and bcd 0x0f * 10 + bit_and (bcd / 16) 0x0f) % 18446744073709551616

-- `while(len--)`.
unfoldable pub tbcd_loop : ℕ → ℕ → ℕ → ℕ
tbcd_loop zero bcd decimal = decimal
tbcd_loop (suc len) bcd decimal = tbcd_loop len (bcd / 256) (tbcd_round bcd decimal)

-- `length` is that of the list. More than eight octets are copied over what lies behind the word:
-- `none`.
unfoldable pub tbcd2dec : ℕ → List ℕ → Option ℕ
unfolding load_bcd tbcd_loop
tbcd2dec stale tbcd =
    if ltb 8 (length tbcd) then none else some (tbcd_loop (length tbcd) (load_bcd stale tbcd) 0)

-- `(aux % 10 << 4) + (aux / 10)` for the two lowest digits.
unfoldable pub tbcd_octet : ℕ → ℕ
tbcd_octet imsi64 = imsi64 % 100 % 10 * 16 + imsi64 % 100 / 10

-- Fills the octets from the last to the first.
unfoldable pub octets_loop : ℕ → ℕ → List ℕ → List ℕ
unfolding tbcd_octet
octets_loop zero imsi64 bcd = bcd
octets_loop (suc i) imsi64 bcd = octets_loop i (imsi64 / 100) (tbcd_octet imsi64 ∷ bcd)

unfoldable pub dec2tbcd : ℕ → List ℕ
unfolding octets_loop
dec2tbcd dec = octets_loop 7 (dec / 10) (bit_and (dec % 10) 0xf0 ∷ [])

-- The digits of an octet behind those read so far: the low nibble first, then the high one unless
-- it is the filler.
unfoldable pub digit_round : ℕ → ℕ → ℕ
digit_round b acc = if b / 16 == 15 then acc * 10 + b % 16 else acc * 100 + b % 16 * 10 + b / 16

-- The decimal value of the digits, read from the first octet on.
unfoldable pub digits_value : ℕ → List ℕ → ℕ
digits_value acc [] = acc
digits_value acc (b ∷ bs) = digits_value (digit_round b acc) bs

octet-tbcd_round :
    (b above acc : ℕ)
    → b < 256
    → tbcd_round (b + 256 * above) acc ≡ digit_round b acc % 18446744073709551616
unfolding tbcd_round digit_round
octet-tbcd_round b above acc h = ground (
  arith,
  high_nibble (b + 256 * above),
  low_nibble (b + 256 * above),
  low_nibble ((b + 256 * above) / 16),
)

digit_round_congr :
    (b acc acc' : ℕ)
    → acc % 18446744073709551616 ≡ acc' % 18446744073709551616
    → digit_round b acc % 18446744073709551616 ≡ digit_round b acc' % 18446744073709551616
unfolding digit_round
digit_round_congr b acc acc' h = ground arith

digits_value_congr :
    (acc acc' : ℕ) (bs : List ℕ)
    → acc % 18446744073709551616 ≡ acc' % 18446744073709551616
    → digits_value acc bs % 18446744073709551616 ≡ digits_value acc' bs % 18446744073709551616
unfolding digits_value
digits_value_congr acc acc' [] h = h
digits_value_congr acc acc' (b ∷ bs) h =
    digits_value_congr (digit_round b acc) (digit_round b acc') bs (digit_round_congr b acc acc' h)

tbcd_loop-digits_value :
    (stale acc : ℕ) (bs : List ℕ)
    → All IsByte bs
    → acc < 18446744073709551616
    → tbcd_loop (length bs) (load_bcd stale bs) acc ≡ digits_value acc bs % 18446744073709551616
unfolding tbcd_loop load_bcd digits_value
tbcd_loop-digits_value stale acc [] h small = omega arith
tbcd_loop-digits_value stale acc (b ∷ bs) (hb, hbs) small =
    let shifted : (b + 256 * load_bcd (stale / 256) bs) / 256 ≡ load_bcd (stale / 256) bs =
      omega arith in
    ap₂ (tbcd_loop (length bs)) shifted (octet-tbcd_round b (load_bcd (stale / 256) bs) acc hb)
    ∙ tbcd_loop-digits_value (stale / 256) (digit_round b acc % 18446744073709551616) bs hbs
        (omega arith)
    ∙ digits_value_congr (digit_round b acc % 18446744073709551616) (digit_round b acc) bs
        (omega arith)

-- Decoding at most eight octets reads the digits in order, the low nibble of each octet first and
-- the high one unless it is the filler, whatever the 64-bit word held before; the value is taken
-- modulo 2 ^ 64.
pub tbcd2dec-digits_value :
    (stale : ℕ) (bs : List ℕ)
    → All IsByte bs
    → length bs ≤ 8
    → tbcd2dec stale bs ≡ some (digits_value 0 bs % 18446744073709551616)
unfolding tbcd2dec
tbcd2dec-digits_value stale bs h short =
    let fits : ltb 8 (length bs) ≡ false = ground arith in
    rw fits (ap some (tbcd_loop-digits_value stale 0 bs h (omega arith)))

digits_value-octet :
    (acc m : ℕ) (bs : List ℕ)
    → digits_value acc (tbcd_octet m ∷ bs) ≡ digits_value (acc * 100 + m % 100) bs
unfolding digits_value digit_round tbcd_octet
digits_value-octet acc m bs = ap (λ n. digits_value n bs) (ground arith)

IsByte-octets : (i m : ℕ) (bs : List ℕ) → All IsByte bs → All IsByte (octets_loop i m bs)
unfolding octets_loop
IsByte-octets zero m bs h = h
IsByte-octets (suc i) m bs h = IsByte-octets i (m / 100) _ (omega arith, h)

-- The lowest pair of digits apart from the others.
mod_pair : (m q : ℕ) → 0 < q → m % (100 * q) ≡ m / 100 % q * 100 + m % 100
mod_pair m q h =
    ap (λ (k : ℕ). k % (100 * q)) (omega (arith, ap (λ (t : ℕ). 100 * t) (div-add-mod (m / 100) q)))
    ∙ mul-add-mod_self_left (100 * q) (m / 100 / q) (m / 100 % q * 100 + m % 100)
    ∙ mod-eq_of_lt (omega (arith, mod-lt (m / 100) h))

-- The octets that the loop puts in front carry the lowest pairs of digits of the number.
octets_loop-digits_value :
    (i acc m : ℕ) (bs : List ℕ)
    → digits_value acc (octets_loop i m bs) ≡ digits_value (acc * 100 ^ i + m % 100 ^ i) bs
unfolding octets_loop
octets_loop-digits_value zero acc m bs = ap (λ n. digits_value n bs) (omega (arith, mod-one m))
octets_loop-digits_value (suc i) acc m bs =
    let pow : 100 ^ suc i ≡ 100 * 100 ^ i = omega (arith, pow-suc 100 i) in
    octets_loop-digits_value i acc (m / 100) (tbcd_octet m ∷ bs)
    ∙ digits_value-octet (acc * 100 ^ i + m / 100 % 100 ^ i) m bs
    ∙ ap (λ n. digits_value n bs)
        (omega (
          arith,
          ap (λ (t : ℕ). acc * t) pow,
          ap (λ (t : ℕ). m % t) pow,
          mod_pair m (100 ^ i) (one-le-pow i 100 (omega arith)),
        ))

last_octet : (n : ℕ) → bit_and (n % 10) 0xf0 ≡ 0
last_octet n = omega (arith, high_nibble (n % 10))

-- Encoding and decoding a number of at most fifteen digits gives its first fourteen digits and two
-- zeros: the last digit is masked away.
tbcd2dec-dec2tbcd :
    (stale n : ℕ) → n < 1000000000000000 → tbcd2dec stale (dec2tbcd n) ≡ some (n / 10 * 100)
unfolding dec2tbcd octets_loop
tbcd2dec-dec2tbcd stale n h =
    tbcd2dec-digits_value stale _
      (IsByte-octets 7 (n / 10) (bit_and (n % 10) 0xf0 ∷ []) (omega (arith, last_octet n), tt))
      (omega arith)
    ∙ ap some (
        ap (λ k. k % 18446744073709551616)
          (octets_loop-digits_value 7 0 (n / 10) (bit_and (n % 10) 0xf0 ∷ []))
        ∙ unfold digits_value digit_round in ground (arith, last_octet n))
