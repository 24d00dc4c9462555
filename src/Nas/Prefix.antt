-- ===== src/Nas/Prefix.antt =====
-- NAS/src/eia2.c: what stands in front of a message under 128-EIA2.
use aalto_mme.Prelude.{
  ℕ, ◌+◌, ◌*◌, ◌%◌, ◌<◌, ◌≡◌, refl, ◌∙◌, ap, arith, List, [], ◌∷◌, ◌++◌, take, length,
  length-append, bit_or,
}
use aalto_mme.Prelude.Bits.{bit_or_fields}
use aalto_mme.Nas.Count.{Direction}
use aalto_mme.Nas.Eia2.{direction_bit, eia2_input}

-- What 128-EIA2 puts in front of a message, of TS 33.401, B.2.3: the COUNT, the bearer in five bits,
-- the direction in one, and zeros.
unfoldable pub prefixed : List ℕ → ℕ → Direction → List ℕ → List ℕ
prefixed count bearer Direction.up_link msg = count ++ ((bearer * 8) ∷ 0 ∷ 0 ∷ 0 ∷ msg)
prefixed count bearer Direction.down_link msg = count ++ ((bearer * 8 + 4) ∷ 0 ∷ 0 ∷ 0 ∷ msg)

bearer_octet :
    (bearer bit : ℕ)
    → bearer < 32
    → bit < 2
    → bit_or (bearer * 8) (bit * 4) % 256 ≡ bearer * 8 + bit * 4
bearer_octet bearer bit few one =
    ap (λ n. n % 256) (bit_or_fields 3 bearer (bit * 4) (omega (arith, one)))
    ∙ omega (arith, few, one)

take-four : (count rest : List ℕ) → length count ≡ 4 → take 4 count ++ rest ≡ count ++ rest
take-four [] rest h = absurd (omega (arith, h))
take-four (a ∷ []) rest h = absurd (omega (arith, h))
take-four (a ∷ b ∷ []) rest h = absurd (omega (arith, h))
take-four (a ∷ b ∷ c ∷ []) rest h = absurd (omega (arith, h))
take-four (a ∷ b ∷ c ∷ e ∷ []) rest h = refl
take-four (a ∷ b ∷ c ∷ e ∷ x ∷ xs) rest h = absurd (omega (arith, h))

pub eia2_input-prefixed :
    (count : List ℕ) (bearer : ℕ) (d : Direction) (msg : List ℕ)
    → length count ≡ 4
    → bearer < 32
    → eia2_input count bearer d msg ≡ prefixed count bearer d msg
unfolding eia2_input direction_bit prefixed
eia2_input-prefixed count bearer Direction.up_link msg four few =
    let octet : bit_or (bearer * 8) (0 * 4) % 256 ≡ bearer * 8 =
      bearer_octet bearer 0 few (omega arith) ∙ omega arith in
    take-four count _ four ∙ ap (λ c. count ++ (c ∷ 0 ∷ 0 ∷ 0 ∷ msg)) octet
eia2_input-prefixed count bearer Direction.down_link msg four few =
    let octet : bit_or (bearer * 8) (1 * 4) % 256 ≡ bearer * 8 + 4 =
      bearer_octet bearer 1 few (omega arith) ∙ omega arith in
    take-four count _ four ∙ ap (λ c. count ++ (c ∷ 0 ∷ 0 ∷ 0 ∷ msg)) octet

pub length-prefixed :
    (count : List ℕ) (bearer : ℕ) (d : Direction) (msg : List ℕ)
    → length count ≡ 4
    → length (prefixed count bearer d msg) ≡ 8 + length msg
unfolding prefixed
length-prefixed count bearer Direction.up_link msg h =
    omega (arith, h, length-append count ((bearer * 8) ∷ 0 ∷ 0 ∷ 0 ∷ msg))
length-prefixed count bearer Direction.down_link msg h =
    omega (arith, h, length-append count ((bearer * 8 + 4) ∷ 0 ∷ 0 ∷ 0 ∷ msg))
