-- ===== src/Emm/Identity.antt =====
-- mme/S1/NAS/NAS_EMM.c: the IMSI in a mobile identity, against the digits it is written from.
use aalto_mme.Prelude.{ℕ, ◌+◌, ◌*◌, ◌/◌, ◌%◌, ◌<◌, ◌≤◌, ◌≡◌, arith, List, [], ◌∷◌, bit_and}
use aalto_mme.Prelude.Bits.{bit_and_ones, bit_and_shift}
use aalto_mme.Emm.Requests.{digits_from, imsi_of, id_type, id_parity}

-- The number that a list of digits spells, in front of it `n`.
unfoldable pub spelled : ℕ → List ℕ → ℕ
spelled n [] = n
spelled n (d ∷ ds) = spelled (n * 10 + d) ds

-- Digits behind the first one, two in an octet, the earlier one low; one without a partner stands
-- with the filler 15.
unfoldable pub packed : List ℕ → List ℕ
packed [] = []
packed (d ∷ []) = (15 * 16 + d) ∷ []
packed (d ∷ e ∷ ds) = (e * 16 + d) ∷ packed ds

abbrev pub AreDigits : List ℕ → Type 0
AreDigits [] = Unit
AreDigits (d ∷ ds) = (d ≤ 9) × AreDigits ds

-- 1 for an odd number of digits, the first one counted.
unfoldable pub parity_of : List ℕ → ℕ
parity_of [] = 1
parity_of (d ∷ []) = 0
parity_of (d ∷ e ∷ ds) = parity_of ds

-- The mobile identity of an IMSI.
unfoldable pub imsi_identity : ℕ → List ℕ → List ℕ
imsi_identity d ds = (d * 16 + parity_of ds * 8 + 1) ∷ packed ds

spelled_grows : (n : ℕ) (ds : List ℕ) → n ≤ spelled n ds
unfolding spelled
spelled_grows n [] = omega arith
spelled_grows n (d ∷ ds) = omega (arith, spelled_grows (n * 10 + d) ds)

digits_from-packed :
    (n a m : ℕ) (ds : List ℕ)
    → n * 10 + a / 16 ≡ m
    → AreDigits ds
    → spelled m ds < 18446744073709551616
    → digits_from (parity_of ds) n (a ∷ packed ds) ≡ spelled m ds
unfolding digits_from packed parity_of spelled
digits_from-packed n a m [] h digits room = omega arith
digits_from-packed n a m (e ∷ []) h digits room = omega arith
digits_from-packed n a m (e ∷ f ∷ ds) h digits room =
    let small : (m * 10 + e) * 10 + f < 18446744073709551616 =
      omega (arith, spelled_grows ((m * 10 + e) * 10 + f) ds) in
    let next : ((n * 10 + a / 16) * 10 + (f * 16 + e) % 16) % 18446744073709551616 ≡ m * 10 + e =
      omega (arith, digits.0) in
    rw next (
      digits_from-packed (m * 10 + e) (f * 16 + e) ((m * 10 + e) * 10 + f) ds
        (omega (arith, digits.0)) digits.1.1 room)

parity_bound : (ds : List ℕ) → parity_of ds ≤ 1
unfolding parity_of
parity_bound [] = omega arith
parity_bound (d ∷ []) = omega arith
parity_bound (d ∷ e ∷ ds) = parity_bound ds

-- An IMSI of decimal digits, written into a mobile identity, is identified as an IMSI and read back
-- as the number that its digits spell, for an odd or an even number of them, as long as that number
-- fits into 64 bits.
pub imsi_of-imsi_identity :
    (d : ℕ) (ds : List ℕ)
    → d ≤ 9
    → AreDigits ds
    → spelled d ds < 18446744073709551616
    → (id_type (imsi_identity d ds) ≡ 1) × (imsi_of (imsi_identity d ds) ≡ spelled d ds)
unfolding imsi_of id_type id_parity imsi_identity
imsi_of-imsi_identity d ds h digits room =
    let head : ℕ = d * 16 + parity_of ds * 8 + 1 in
    let parity : bit_and head 8 / 8 ≡ parity_of ds =
      omega (arith, bit_and_shift 3 head 1, bit_and_ones 1 (head / 8), parity_bound ds) in
    (
      omega (arith, bit_and_ones 3 head),
      rw parity (digits_from-packed 0 head d ds (omega (arith, parity_bound ds)) digits room),
    )
