-- ===== src/S1ap/Length.antt =====
-- S1AP/src/rt_per_bin.c: the length in front of an open type, and octets that are read back.
use aalto_mme.Prelude.{
  ℕ, ◌+◌, ◌*◌, ◌/◌, ◌%◌, ◌<◌, ◌≤◌, ◌≡◌, ◌∙◌, refl, sym, ap, arith, true, false, some, List, [], ◌∷◌,
  length, ltb, ◌==◌, if◌then◌else◌, ltb→lt, bit_and, bit_or, Mem, read, Holds, write, write-Holds,
  inl, inr, ◌⊎◌, Bool-cases,
}
use aalto_mme.Prelude.Bits.{bit_and_ones, bit_and_shift, bit_or_below, low_byte}
use aalto_mme.S1ap.Encode.{BinaryData, setoctets, encode_unconstrained_number}
use aalto_mme.S1ap.Decode.{align_dec, getoctets, minus_length, decode_length_undef}
use aalto_mme.S1ap.Octets.{
  AreOctets, IsClear, Wrote, aligned, behind, setoctets-Wrote, align_dec-facts, getoctets-Holds,
}

-- A reader that starts where the writer `b` did, over what was left by `e`.
abbrev pub reader : BinaryData → BinaryData → ℕ → BinaryData
reader b e l = record { mem = e.mem; offset = b.offset; pos = b.pos; length = l }

-- The octets of a length.
unfoldable pub length_octets : ℕ → List ℕ
length_octets n = if ltb n 128 then n ∷ [] else (128 + n / 256) ∷ (n % 256) ∷ []

-- `|` with the bit above six bits.
top_bit : (h : ℕ) → h < 64 → bit_or h 0x80 ≡ 128 + h
top_bit h small = omega (arith, bit_or_below 7 1 h (omega arith))

pub encode_unconstrained_number-octets :
    (b : BinaryData) (n : ℕ)
    → n < 16384
    → encode_unconstrained_number b n ≡ setoctets b (length_octets n)
unfolding encode_unconstrained_number length_octets
encode_unconstrained_number-octets b n h = elim (Bool-cases (ltb n 128)) [
  | inl e ↦
      let low : bit_and n 0x7f ≡ n = omega (arith, bit_and_ones 7 n, ltb→lt n 128 e) in
      rw (e, low) refl
  | inr e ↦
      let below : ltb n 16384 ≡ true = ground arith in
      let high : bit_and n 0x3f00 / 256 ≡ n / 256 =
        omega (arith, bit_and_shift 8 n 63, bit_and_ones 6 (n / 256)) in
      let top : bit_or (n / 256) 0x80 ≡ 128 + n / 256 = top_bit (n / 256) (omega arith) in
      rw (e, below, high, top, low_byte n) refl
]

pub length_octets-AreOctets : (n : ℕ) → n < 16384 → AreOctets (length_octets n)
unfolding length_octets
length_octets-AreOctets n h = elim (Bool-cases (ltb n 128)) [
  | inl e ↦ rw e (omega (arith, ltb→lt n 128 e), tt)
  | inr e ↦ rw e (omega arith, (omega arith, tt))
]

-- The cells of a length, short or long.
length_cells :
    (mem : Mem ℕ) (p n : ℕ)
    → Holds mem p (length_octets n)
    → ((ltb n 128 ≡ true) × (mem p ≡ n))
      ⊎ ((ltb n 128 ≡ false) × (mem p ≡ 128 + n / 256) × (mem (p + 1) ≡ n % 256))
unfolding length_octets read
length_cells mem p n held = elim (Bool-cases (ltb n 128)) [
  | inl e ↦ inl (e, ground (arith, e, held))
  | inr e ↦ inr (e, ground (arith, e, held), ground (arith, e, held))
]

pub decode_length_undef-Holds :
    (d : BinaryData) (n : ℕ)
    → n < 16384
    → Holds d.mem (aligned d) (length_octets n)
    → decode_length_undef d ≡ some (n, behind d (length (length_octets n)))
unfolding decode_length_undef length_octets behind
decode_length_undef-Holds d n h held =
    let c : BinaryData = align_dec d in
    let facts = align_dec-facts d in
    let stands : Holds c.mem c.offset (length_octets n) =
      ap (λ t. read t c.offset (length (length_octets n))) facts.0
      ∙ ap (λ a. read d.mem a (length (length_octets n))) facts.1
      ∙ held in
    elim (length_cells c.mem c.offset n stands) [
      | inl (e, first) ↦
          let short : n < 128 = ltb→lt n 128 e in
          let top : bit_and n 0x80 ≡ 0 =
            omega (arith, bit_and_shift 7 n 1, bit_and_ones 1 (n / 128)) in
          let low : bit_and n 0x7f ≡ n = omega (arith, bit_and_ones 7 n) in
          rw (first, e, top, low) refl
      | inr (e, first, second) ↦
          let v : ℕ = 128 + n / 256 in
          let top : bit_and v 0x80 ≡ 128 =
            omega (arith, bit_and_shift 7 v 1, bit_and_ones 1 (v / 128)) in
          let two : bit_and v 0xc0 ≡ 128 =
            omega (arith, bit_and_shift 6 v 3, bit_and_ones 2 (v / 64)) in
          let whole : bit_and (v * 256 + n % 256) 0x3fff ≡ n =
            omega (arith, bit_and_ones 14 (v * 256 + n % 256)) in
          rw (first, second, e, top, two, whole) refl
    ]

pub behind-mem : (d : BinaryData) (n : ℕ) → (behind d n).mem ≡ d.mem
unfolding behind
behind-mem d n = (align_dec-facts d).0

-- What is left of a reader that has come to the end of what was written.
abbrev pub AtEnd : BinaryData → BinaryData → Type 0
AtEnd rest e = (rest.mem ≡ e.mem) × (rest.offset ≡ e.offset) × (rest.pos ≡ 0)

pub reader-aligned : (b e : BinaryData) (l : ℕ) → aligned (reader b e l) ≡ aligned b
unfolding aligned
reader-aligned b e l = refl

pub behind-AtEnd :
    (b e : BinaryData) (l n : ℕ) → e.offset ≡ aligned b + n → AtEnd (behind (reader b e l) n) e
unfolding behind
behind-AtEnd b e l n o =
    let facts = align_dec-facts (reader b e l) in
    (facts.0, ap (λ p. p + n) (facts.1 ∙ reader-aligned b e l) ∙ sym o, facts.2)

-- What a writer of octets wrote stands where a reader of octets starts.
pub reader-Holds :
    (b e : BinaryData) (l : ℕ) (xs : List ℕ)
    → e.mem ≡ write b.mem (aligned b) xs
    → Holds e.mem (aligned (reader b e l)) xs
reader-Holds b e l xs m =
    ap (λ a. read e.mem a (length xs)) (reader-aligned b e l)
    ∙ ap (λ t. read t (aligned b) (length xs)) m
    ∙ write-Holds b.mem (aligned b) xs

pub align_dec-length :
    (d : BinaryData)
    → 8 ≤ d.length
    → d.length < 4294967296
    → (d.length ≤ (align_dec d).length + 8) × ((align_dec d).length ≤ d.length)
unfolding align_dec minus_length
align_dec-length d low high = elim (Bool-cases (d.pos == 0)) [
  | inl e ↦ rw e (omega arith, omega arith)
  | inr e ↦ rw e (omega arith, omega arith)
]

-- Octets written by one call are read by one.
pub getoctets-setoctets :
    (b : BinaryData) (xs : List ℕ) (l : ℕ)
    → IsClear b.mem (aligned b)
    → AreOctets xs
    → length xs * 8 + 8 ≤ l
    → l < 4294967296
    → (rest : BinaryData) × (getoctets (reader b (setoctets b xs) l) (length xs) ≡ some (xs, rest))
      × AtEnd rest (setoctets b xs)
getoctets-setoctets b xs l clear octets room high = found (setoctets-Wrote b xs clear octets)
  where
    e : BinaryData
    e = setoctets b xs

    found :
        Wrote b.mem (aligned b) xs e
        → (rest : BinaryData) × (getoctets (reader b e l) (length xs) ≡ some (xs, rest))
          × AtEnd rest e
    found (Wrote.wrote m o q) =
        let d : BinaryData = reader b e l in
        let bits = align_dec-length d (omega arith) high in
        (
          behind d (length xs),
          getoctets-Holds d xs (reader-Holds b e l xs m) (omega (arith, bits.0)),
          behind-AtEnd b e l (length xs) o,
        )

-- A length below 16384, written over zeros, is read back, and the reader stands where the writer
-- does.
decode_length_undef-encode_unconstrained_number :
    (b : BinaryData) (n l : ℕ)
    → n < 16384
    → IsClear b.mem (aligned b)
    → (rest : BinaryData) × (decode_length_undef (reader b (encode_unconstrained_number b n) l)
        ≡ some (n, rest))
      × AtEnd rest (encode_unconstrained_number b n)
decode_length_undef-encode_unconstrained_number b n l h clear =
    rw (encode_unconstrained_number-octets b n h)
      (found (setoctets-Wrote b (length_octets n) clear (length_octets-AreOctets n h)))
  where
    e : BinaryData
    e = setoctets b (length_octets n)

    found :
        Wrote b.mem (aligned b) (length_octets n) e
        → (rest : BinaryData) × (decode_length_undef (reader b e l) ≡ some (n, rest)) × AtEnd rest e
    found (Wrote.wrote m o q) =
        let d : BinaryData = reader b e l in
        (
          behind d (length (length_octets n)),
          decode_length_undef-Holds d n h (reader-Holds b e l (length_octets n) m),
          behind-AtEnd b e l (length (length_octets n)) o,
        )
