-- ===== src/S1ap/Number.antt =====
-- S1AP/src/rt_per_bin.c: `eint` writes the octets of a number, the highest first.
use aalto_mme.Prelude.{
  ℕ, zero, suc, ◌+◌, ◌*◌, ◌/◌, ◌^◌, ◌<◌, ◌≤◌, ◌≡◌, ◌∙◌, refl, ap, arith, true, List, [], ◌∷◌, ◌++◌,
  length, length-append, ◌==◌, false, inl, inr, Bool-cases,
}
use native.Mathlib.Nat.{pow-suc}
use aalto_mme.S1ap.Encode.{eint_loop, reversed, eint}

-- The number that octets spell, the highest first, behind `n`.
unfoldable pub big_value : ℕ → List ℕ → ℕ
big_value n [] = n
big_value n (x ∷ xs) = big_value (n * 256 + x) xs

-- The same, the lowest first.
little_value : List ℕ → ℕ
little_value [] = 0
little_value (x ∷ xs) = little_value xs * 256 + x

big_value-append : (n : ℕ) (xs ys : List ℕ) → big_value n (xs ++ ys) ≡ big_value (big_value n xs) ys
unfolding big_value
big_value-append n [] ys = refl
big_value-append n (x ∷ xs) ys = big_value-append (n * 256 + x) xs ys

big_value-reversed : (xs : List ℕ) → big_value 0 (reversed xs) ≡ little_value xs
unfolding big_value reversed little_value
big_value-reversed [] = refl
big_value-reversed (x ∷ xs) =
    big_value-append 0 (reversed xs) (x ∷ []) ∙ ap (λ n. n * 256 + x) (big_value-reversed xs)

length-reversed : (xs : List ℕ) → length (reversed xs) ≡ length xs
unfolding reversed
length-reversed [] = refl
length-reversed (x ∷ xs) = omega (arith, length-append (reversed xs) (x ∷ []), length-reversed xs)

eint_loop-value : (fuel n : ℕ) → n < 256 ^ fuel → little_value (eint_loop fuel n) ≡ n
unfolding eint_loop little_value
eint_loop-value zero n h = omega arith
eint_loop-value (suc fuel) n h = elim (Bool-cases (n == 0)) [
  | inl e ↦ rw e (ground (arith, e))
  | inr e ↦
      let rest = eint_loop-value fuel (n / 256) (omega (arith, pow-suc 256 fuel)) in
      rw e (omega (arith, rest))
]

-- The loop stops at the octets that the number has.
eint_loop-length : (fuel k n : ℕ) → n < 256 ^ k → length (eint_loop fuel n) ≤ k
unfolding eint_loop
eint_loop-length zero k n h = omega arith
eint_loop-length (suc fuel) zero n h = let e : (n == 0) ≡ true = ground arith in rw e (omega arith)
eint_loop-length (suc fuel) (suc k) n h = elim (Bool-cases (n == 0)) [
  | inl e ↦ rw e (omega arith)
  | inr e ↦
      let rest = eint_loop-length fuel k (n / 256) (omega (arith, pow-suc 256 k)) in
      rw e (omega (arith, rest))
]

eint_loop-some : (fuel n : ℕ) → (n == 0) ≡ false → 1 ≤ length (eint_loop (suc fuel) n)
unfolding eint_loop
eint_loop-some fuel n e = rw e (omega arith)

-- The octets that `eint` writes for a 64-bit number spell that number; they are one at least, for 0
-- as well, and eight at most.
pub eint-big_value :
    (n : ℕ)
    → n < 18446744073709551616
    → (big_value 0 (eint n) ≡ n) × (1 ≤ length (eint n)) × (length (eint n) ≤ 8)
unfolding eint big_value
eint-big_value n h = elim (Bool-cases (n == 0)) [
  | inl e ↦ rw e (ground (arith, e), omega arith, omega arith)
  | inr e ↦
      let loop = eint_loop-value 9 n (omega arith) in
      let value : big_value 0 (reversed (eint_loop 9 n)) ≡ n =
        big_value-reversed (eint_loop 9 n) ∙ loop in
      let size = length-reversed (eint_loop 9 n) in
      rw e (
        value,
        omega (arith, size, eint_loop-some 8 n e),
        omega (arith, size, eint_loop-length 9 8 n (omega arith)),
      )
]

pub length-eint : (k n : ℕ) → 1 ≤ k → n < 256 ^ k → length (eint n) ≤ k
unfolding eint
length-eint k n some_ h = elim (Bool-cases (n == 0)) [
  | inl e ↦ rw e some_
  | inr e ↦
      let size = length-reversed (eint_loop 9 n) in
      rw e (omega (arith, size, eint_loop-length 9 k n h))
]
