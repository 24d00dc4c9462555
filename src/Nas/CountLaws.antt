-- ===== src/Nas/CountLaws.antt =====
-- NAS/src/NAS.c: the laws of the COUNT and of its check.
use aalto_mme.Prelude.{
  ℕ, ◌+◌, ◌*◌, ◌/◌, ◌%◌, ◌≤◌, ◌<◌, ◌≡◌, refl, ◌∙◌, ap, ◌↔◌, arith, true, false, bit_and, bit_or,
  IsByte, Bool-cases, inl, inr, ◌⊎◌,
}
use aalto_mme.Prelude.Bits.{low_byte, bit_and_ones, bit_and_shift, bit_or_fields}
use aalto_mme.Nas.Count.{
  Direction, NasHandler, nas_count, put_count, received_count, received_count_short, set_count,
  set_count_short, check_count, check_count_short, get_last_count,
}

pub nas_count-put_count :
    (n : NasHandler) (d : Direction) (c : ℕ) → nas_count (put_count n d c) d ≡ c
unfolding nas_count put_count
nas_count-put_count n Direction.up_link c = refl
nas_count-put_count n Direction.down_link c = refl

-- The masks as arithmetic.
pub received_count-value :
    (c recv : ℕ) → IsByte recv → received_count c recv ≡ c / 256 % 65536 * 256 + recv
unfolding received_count
received_count-value c recv h =
    ap (λ x. bit_or x recv)
      (bit_and_shift 8 c 0xffff ∙ ap (λ x. x * 256) (bit_and_ones 16 (c / 256)))
    ∙ bit_or_fields 8 (c / 256 % 65536) recv h

pub received_count_short-value :
    (c recv : ℕ) → recv < 32 → received_count_short c recv ≡ c / 32 % 524288 * 32 + recv
unfolding received_count_short
received_count_short-value c recv h =
    ap (λ x. bit_or x recv)
      (bit_and_shift 5 c 0x7ffff ∙ ap (λ x. x * 32) (bit_and_ones 19 (c / 32)))
    ∙ bit_or_fields 5 (c / 32 % 524288) recv h

pub low_five : (a : ℕ) → bit_and a 0x1f ≡ a % 32
low_five a = bit_and_ones 5 a

-- A sequence number is taken exactly when it is at most nine past the stored one, without a wrap
-- of the octet.
pub check_count-window :
    (last recv : ℕ)
    → IsByte recv
    → (check_count last recv ≡ true) ↔ ((last % 256 ≤ recv) × (recv < last % 256 + 10))
unfolding check_count
check_count-window last recv h = ground (arith, low_byte last)

pub check_count_short-window :
    (last recv : ℕ)
    → recv < 32
    → (check_count_short last recv ≡ true) ↔ ((last % 32 ≤ recv) × (recv < last % 32 + 10))
unfolding check_count_short
check_count_short-window last recv h = ground (arith, low_five last)

pub nas_count-set_count :
    (n : NasHandler) (d : Direction) (recv : ℕ)
    → IsByte recv
    → nas_count n d < 16777216
    → nas_count (set_count n d recv).0 d ≡ nas_count n d / 256 * 256 + recv + 1
unfolding set_count
nas_count-set_count n d recv h small =
    let c = received_count (nas_count n d) recv in
    nas_count-put_count n d (c + 1) ∙ omega (arith, received_count-value (nas_count n d) recv h)

get_last_count-value :
    (n : NasHandler) (d : Direction) (c : ℕ)
    → nas_count n d ≡ c + 1
    → c < 4294967295
    → get_last_count n d ≡ c
unfolding get_last_count
get_last_count-value n d c eq h = omega arith

-- For every stored COUNT below 2 ^ 24 and every sequence number that is taken, the stored COUNT
-- grows by at least one and at most ten, the last count reported is that of the message, and the
-- same sequence number is refused from then on, unless it is 255.
pub set_count-check_count :
    (n : NasHandler) (d : Direction) (recv : ℕ)
    → IsByte recv
    → nas_count n d < 16777216
    → check_count (nas_count n d) recv ≡ true
    → (nas_count n d < nas_count (set_count n d recv).0 d)
      × (nas_count (set_count n d recv).0 d ≤ nas_count n d + 10)
      × (get_last_count (set_count n d recv).0 d ≡ nas_count n d / 256 * 256 + recv)
      × ((recv ≡ 255) ⊎ (check_count (nas_count (set_count n d recv).0 d) recv ≡ false))
set_count-check_count n d recv h small ok =
    let last : ℕ = nas_count n d in
    let n' : NasHandler = (set_count n d recv).0 in
    let (low, high) = (check_count-window last recv h).0 ok in
    let new : nas_count n' d ≡ last / 256 * 256 + recv + 1 = nas_count-set_count n d recv h small in
    (
      omega (arith, new),
      omega (arith, new),
      get_last_count-value n' d (last / 256 * 256 + recv) new (omega arith),
      elim (Bool-cases (check_count (nas_count n' d) recv)) [
        | inl taken ↦
            let (l, u) = (check_count-window (nas_count n' d) recv h).0 taken in
            inl (omega (arith, new))
        | inr refused ↦ inr refused
      ],
    )

-- The same of the short sequence number of a service request, five bits wide.
pub nas_count-set_count_short :
    (n : NasHandler) (d : Direction) (recv : ℕ)
    → recv < 32
    → nas_count n d < 16777216
    → nas_count (set_count_short n d recv).0 d ≡ nas_count n d / 32 * 32 + recv + 1
unfolding set_count_short
nas_count-set_count_short n d recv h small =
    let c = received_count_short (nas_count n d) recv in
    nas_count-put_count n d (c + 1)
    ∙ omega (arith, received_count_short-value (nas_count n d) recv h)
