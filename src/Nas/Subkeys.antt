-- ===== src/Nas/Subkeys.antt =====
-- The subkeys of RFC 4493, 2.3, and those that make_kn of NAS/src/eia2.c computes.
use aalto_mme.Prelude.{
  ℕ, zero, suc, ◌+◌, ◌*◌, ◌/◌, ◌%◌, ◌^◌, ◌<◌, ◌≡◌, refl, sym, ◌∙◌, ap, arith, Bool, true, false,
  List, [], ◌∷◌, ◌++◌, length, replicate, ◌&&◌, ◌==◌, if◌then◌else◌, bit_or, bit_xor, All,
  Bool-cases, inl, inr, ==_iff,
}
use aalto_mme.Prelude.Bits.{bit_or_fields}
use aalto_mme.Nas.Eia2.{kn_loop, make_kn, xor_octets}

abbrev pub IsOctet : ℕ → Type 0
IsOctet c = c < 256

-- Octet by octet.
unfoldable pub exclusive_or : List ℕ → List ℕ → List ℕ
exclusive_or (a ∷ xs) (b ∷ ys) = bit_xor a b ∷ exclusive_or xs ys
exclusive_or _ _ = []

-- Twice the number that the octets spell, the high one first: what is carried out of it, and the
-- octets of the rest.
unfoldable pub twice : List ℕ → ℕ × List ℕ
twice [] = (0, [])
twice (c ∷ l) = ((c * 2 + (twice l).0) / 256, (c * 2 + (twice l).0) % 256 ∷ (twice l).1)

-- A block shifted to the left by one bit; if a bit is lost, the last octet is combined with 0x87.
unfoldable pub subkey : List ℕ → List ℕ
subkey b =
    if (twice b).0 == 0
    then (twice b).1
    else exclusive_or (twice b).1 (replicate 15 0 ++ (0x87 ∷ []))

pub xor_octets-exclusive_or : (xs ys : List ℕ) → xor_octets xs ys ≡ exclusive_or xs ys
unfolding xor_octets exclusive_or
xor_octets-exclusive_or [] [] = refl
xor_octets-exclusive_or [] (b ∷ ys) = refl
xor_octets-exclusive_or (a ∷ xs) [] = refl
xor_octets-exclusive_or (a ∷ xs) (b ∷ ys) =
    ap (λ zs. bit_xor a b ∷ zs) (xor_octets-exclusive_or xs ys)

-- A test that holds of every number below a bound.
unfoldable holds_below : ℕ → (ℕ → Bool) → Bool
holds_below zero p = true
holds_below (suc n) p = p n && holds_below n p

below : (n : ℕ) (p : ℕ → Bool) (k : ℕ) → holds_below n p ≡ true → k < n → p k ≡ true
unfolding holds_below
below zero p k h small = absurd (omega (arith, small))
below (suc n) p k h small = elim (Bool-cases (k == n)) [
  | inl e ↦ let at : k ≡ n = (==_iff k n).0 e in rw at (ground (arith, h))
  | inr e ↦ below n p k (ground (arith, h)) (ground (arith, e, small))
]

-- Of an octet that is doubled.
xor_unchanged : (c : ℕ) → c < 256 → bit_xor c 0 ≡ c
unfolding holds_below
xor_unchanged c small = (==_iff (bit_xor c 0) c).0 (below 256 (λ k. bit_xor k 0 == k) c refl small)

last_unchanged : (c : ℕ) → c < 256 → bit_xor (c * 2) 0 % 256 ≡ c * 2 % 256
unfolding holds_below
last_unchanged c small =
    (==_iff (bit_xor (c * 2) 0 % 256) (c * 2 % 256)).0
      (below 256 (λ k. bit_xor (k * 2) 0 % 256 == k * 2 % 256) c refl small)

last_combined : (c : ℕ) → c < 256 → bit_xor (c * 2) 0x87 % 256 ≡ bit_xor (c * 2 % 256) 0x87
unfolding holds_below
last_combined c small =
    (==_iff (bit_xor (c * 2) 0x87 % 256) (bit_xor (c * 2 % 256) 0x87)).0
      (below 256 (λ k. bit_xor (k * 2) 0x87 % 256 == bit_xor (k * 2 % 256) 0x87) c refl small)

-- The bit that is carried into an octet is the top one of the next.
twice_carry : (c : ℕ) (l : List ℕ) → All IsOctet (c ∷ l) → (twice (c ∷ l)).0 ≡ c / 128
unfolding twice
twice_carry c [] (small, all) = omega (arith, small)
twice_carry c (d ∷ l) (small, all) =
    let low : d < 256 = all.0 in
    let next : (twice (d ∷ l)).0 ≡ d / 128 = twice_carry d l all in omega (arith, small, next, low)

shifted_octet : (c d : ℕ) → d < 256 → bit_or (c * 2 % 256) (d / 128) ≡ (c * 2 + d / 128) % 256
shifted_octet c d low =
    let even : c * 2 % 256 ≡ c % 128 * 2 ^ 1 = omega arith in
    rw even (bit_or_fields 1 (c % 128) (d / 128) (omega (arith, low)) ∙ omega (arith, low))

kn_loop-twice : (c : ℕ) (l : List ℕ) → All IsOctet (c ∷ l) → kn_loop 0 c l ≡ (twice (c ∷ l)).1
unfolding kn_loop twice
kn_loop-twice c [] (small, all) = rw (last_unchanged c small) (ground arith)
kn_loop-twice c (d ∷ l) (small, all) =
    let next : (twice (d ∷ l)).0 ≡ d / 128 = twice_carry d l all in
    ap (λ x. x ∷ kn_loop 0 d l) (shifted_octet c d all.0 ∙ ap (λ k. (c * 2 + k) % 256) (sym next))
    ∙ ap (λ xs. (c * 2 + (twice (d ∷ l)).0) % 256 ∷ xs) (kn_loop-twice d l all)

kn_loop-combined :
    (k c : ℕ) (l : List ℕ)
    → All IsOctet (c ∷ l)
    → kn_loop (suc k) c l ≡ exclusive_or (twice (c ∷ l)).1 (replicate (length l) 0 ++ (0x87 ∷ []))
unfolding kn_loop twice exclusive_or
kn_loop-combined k c [] (small, all) =
    let even : (c * 2 + 0) % 256 ≡ c * 2 % 256 = omega arith in
    let no : (suc k == 0) ≡ false = ground arith in
    rw even (rw no (ap (λ x. x ∷ []) (last_combined c small)))
kn_loop-combined k c (d ∷ l) (small, all) =
    let next : (twice (d ∷ l)).0 ≡ d / 128 = twice_carry d l all in
    let octet : ℕ = (c * 2 + (twice (d ∷ l)).0) % 256 in
    let head : bit_or (c * 2 % 256) (d / 128) ≡ bit_xor octet 0 =
      shifted_octet c d all.0
      ∙ ap (λ n. (c * 2 + n) % 256) (sym next)
      ∙ sym (xor_unchanged octet (omega arith)) in
    ap (λ x. x ∷ kn_loop (suc k) d l) head
    ∙ ap (λ xs. bit_xor octet 0 ∷ xs) (kn_loop-combined k d l all)

-- The subkey of a block of sixteen octets is that of the standard.
pub make_kn-subkey : (b : List ℕ) → length b ≡ 16 → All IsOctet b → make_kn b ≡ subkey b
unfolding make_kn subkey
make_kn-subkey [] size all = absurd (omega (arith, size))
make_kn-subkey (c ∷ l) size all =
    let carried : (twice (c ∷ l)).0 ≡ c / 128 = twice_carry c l all in
    let rest : length l ≡ 15 = omega (arith, size) in
    let lower : List ℕ = (twice (c ∷ l)).1 in
    let combined : List ℕ = exclusive_or lower (replicate 15 0 ++ (0x87 ∷ [])) in
    elim (Bool-cases (c / 128 == 0)) [
      | inl e ↦
          let clear : c / 128 ≡ 0 = (==_iff (c / 128) 0).0 e in
          let kept : (if (twice (c ∷ l)).0 == 0 then lower else combined) ≡ lower =
            ap (λ n. if n == 0 then lower else combined) (carried ∙ clear) in
          ap (λ k. kn_loop k c l) clear ∙ kn_loop-twice c l all ∙ sym kept
      | inr e ↦
          let top : c / 128 ≡ 1 = ground (arith, e, all.0) in
          let lost : (if (twice (c ∷ l)).0 == 0 then lower else combined) ≡ combined =
            ap (λ n. if n == 0 then lower else combined) (carried ∙ top) in
          ap (λ k. kn_loop k c l) top
          ∙ kn_loop-combined 0 c l all
          ∙ ap (λ n. exclusive_or lower (replicate n 0 ++ (0x87 ∷ []))) rest
          ∙ sym lost
    ]

length-kn_loop : (k c : ℕ) (l : List ℕ) → length (kn_loop k c l) ≡ suc (length l)
unfolding kn_loop
length-kn_loop k c [] = refl
length-kn_loop k c (d ∷ l) = ap suc (length-kn_loop k d l)

kn_loop-IsOctet : (k c : ℕ) (l : List ℕ) → All IsOctet (c ∷ l) → All IsOctet (kn_loop k c l)
unfolding kn_loop
kn_loop-IsOctet k c [] all = (omega arith, tt)
kn_loop-IsOctet k c (d ∷ l) (small, all) =
    (rw (shifted_octet c d all.0) (omega arith), kn_loop-IsOctet k d l all)

-- It is a block of sixteen octets again.
pub make_kn-IsOctet :
    (b : List ℕ)
    → length b ≡ 16
    → All IsOctet b
    → (length (make_kn b) ≡ 16) × All IsOctet (make_kn b)
unfolding make_kn
make_kn-IsOctet [] size all = absurd (omega (arith, size))
make_kn-IsOctet (c ∷ l) size all =
    (length-kn_loop (c / 128) c l ∙ size, kn_loop-IsOctet (c / 128) c l all)
