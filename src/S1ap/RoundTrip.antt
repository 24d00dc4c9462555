-- ===== src/S1ap/RoundTrip.antt =====
-- S1AP/src/rt_per_bin.c: open types, octet strings and numbers that are read back.
use aalto_mme.Prelude.{
  ℕ, ◌+◌, ◌-◌, ◌*◌, ◌/◌, ◌%◌, ◌<◌, ◌≤◌, ◌≡◌, ◌∙◌, refl, sym, ap, arith, true, false, some, List, [],
  ◌∷◌, ◌++◌, length, ltb, leb, ◌==◌, if◌then◌else◌, bit_and, Mem, read, Holds, length-read, inl,
  inr, Bool-cases,
}
use aalto_mme.Prelude.Bits.{bit_and_shift, low_byte}
use aalto_mme.S1ap.Encode.{
  BinaryData, octets_of, setoctets, encode_small_range, encode_constrained_number,
  encode_unconstrained_number, encode_open_type, encode_octet_string,
}
use aalto_mme.S1ap.Decode.{
  align_dec, getoctets, minus_length, decode_length_undef, decode_open_type,
  decode_constrained_number, decode_range, decode_small_range, decode_octet_string,
}
use aalto_mme.S1ap.Octets.{
  AreOctets, IsClear, Wrote, aligned, behind, setoctets-Wrote, Wrote-setoctets, Wrote-Holds,
  Wrote-first, getoctets-Holds,
}
use aalto_mme.S1ap.Length.{
  reader, AtEnd, reader-aligned, length_octets, encode_unconstrained_number-octets,
  length_octets-AreOctets, decode_length_undef-Holds, behind-mem, getoctets-setoctets,
}

-- An octet string of three octets or more, up to 65535, written over zeros, is read back, and the
-- reader stands where the writer does.
pub decode_octet_string-encode_octet_string :
    (b : BinaryData) (x y z : ℕ) (str : List ℕ) (l : ℕ)
    → IsClear b.mem (aligned b)
    → AreOctets (x ∷ y ∷ z ∷ str)
    → length (x ∷ y ∷ z ∷ str) ≤ 65535
    → length (x ∷ y ∷ z ∷ str) * 8 + 8 ≤ l
    → l < 4294967296
    → (rest : BinaryData) × (decode_octet_string
          (reader b (encode_octet_string b (x ∷ y ∷ z ∷ str)) l)
          (length (x ∷ y ∷ z ∷ str))
        ≡ some (x ∷ y ∷ z ∷ str, rest))
      × AtEnd rest (encode_octet_string b (x ∷ y ∷ z ∷ str))
unfolding decode_octet_string encode_octet_string
decode_octet_string-encode_octet_string b x y z str l clear octets size room high =
    let fits : leb (length (x ∷ y ∷ z ∷ str)) 65535 ≡ true = ground arith in
    let nonempty : (length (x ∷ y ∷ z ∷ str) == 0) ≡ false = ground arith in
    let long : leb (length (x ∷ y ∷ z ∷ str)) 2 ≡ false = ground arith in
    rw (fits, nonempty, long) (getoctets-setoctets b (x ∷ y ∷ z ∷ str) l clear octets room high)

-- The range, on a uint64_t.
pub range_of :
    (lb ub : ℕ)
    → lb ≤ ub
    → ub < 4294967296
    → (ub + 18446744073709551616 - lb + 1) % 18446744073709551616 ≡ ub - lb + 1
range_of lb ub h word = omega arith

-- The octets of a number above the lower bound.
unfoldable pub range_octets : ℕ → ℕ → List ℕ
range_octets range v = if leb range 256 then v ∷ [] else (v / 256) ∷ (v % 256) ∷ []

pub encode_constrained_number-octets :
    (b : BinaryData) (val lb ub : ℕ)
    → lb ≤ val
    → val ≤ ub
    → ub < 4294967296
    → lb + 255 ≤ ub
    → ub ≤ lb + 65535
    → encode_constrained_number b val lb ub ≡ setoctets b (range_octets (ub - lb + 1) (val - lb))
unfolding encode_constrained_number encode_small_range range_octets
encode_constrained_number-octets b val lb ub low up word wide narrow =
    let range = range_of lb ub (omega arith) word in
    let val2 : (val + 18446744073709551616 - lb) % 4294967296 ≡ val - lb = omega arith in
    let small : leb (ub - lb + 1) 65536 ≡ true = ground arith in
    let large : leb (ub - lb + 1) 255 ≡ false = ground arith in
    elim (Bool-cases (leb (ub - lb + 1) 256)) [
      | inl one ↦
          let byte : (val - lb) % 256 ≡ val - lb = ground arith in
          rw (range, val2, small, large, one, byte) refl
      | inr two ↦
          let hi : bit_and (val - lb) 0xff00 / 256 ≡ (val - lb) / 256 =
            omega (arith, bit_and_shift 8 (val - lb) 255, low_byte ((val - lb) / 256)) in
          rw (range, val2, small, large, two, hi, low_byte (val - lb)) refl
    ]

decode_small_range-octets :
    (d rest : BinaryData) (range v : ℕ)
    → 256 ≤ range
    → v < 65536
    → getoctets d (length (range_octets range v)) ≡ some (range_octets range v, rest)
    → decode_small_range d range ≡ some (v, rest)
unfolding decode_small_range range_octets
decode_small_range-octets d rest range v wide low got =
    let large : leb range 255 ≡ false = ground arith in
    elim (Bool-cases (leb range 256)) [
      | inl one ↦
          let got1 : getoctets d 1 ≡ some (v ∷ [], rest) = ground (arith, one, got) in
          rw (large, one, got1, decode_small_range) (rw one refl)
      | inr two ↦
          let got2 : getoctets d 2 ≡ some ((v / 256) ∷ (v % 256) ∷ [], rest) =
            ground (arith, two, got) in
          let whole : v / 256 * 256 + v % 256 ≡ v = omega arith in
          rw (large, two, got2, decode_small_range) (rw (two, whole) refl)
    ]

pub decode_constrained_number-octets :
    (d rest : BinaryData) (val lb ub : ℕ)
    → lb ≤ val
    → val ≤ ub
    → ub < 4294967296
    → lb + 255 ≤ ub
    → ub ≤ lb + 65535
    → getoctets d (length (range_octets (ub - lb + 1) (val - lb)))
      ≡ some (range_octets (ub - lb + 1) (val - lb), rest)
    → decode_constrained_number d lb ub ≡ some (val, rest)
unfolding decode_constrained_number decode_range
decode_constrained_number-octets d rest val lb ub low up word wide narrow got =
    let range = range_of lb ub (omega arith) word in
    let small : leb (ub - lb + 1) 65536 ≡ true = ground arith in
    let value =
      decode_small_range-octets d rest (ub - lb + 1) (val - lb) (omega arith) (omega arith) got in
    let whole : (val - lb + lb) % 4294967296 ≡ val = omega arith in
    let ranged : decode_range d (ub - lb + 1) ≡ some (val - lb, rest) =
      rw (small, decode_range) value in
    rw (ap (decode_range d) range ∙ ranged, decode_constrained_number) (rw whole refl)

pub range_octets-AreOctets :
    (range v : ℕ)
    → v < range
    → range ≤ 65536
    → AreOctets (range_octets range v) × (length (range_octets range v) ≤ 2)
unfolding range_octets
range_octets-AreOctets range v h k = elim (Bool-cases (leb range 256)) [
  | inl one ↦ rw one ((ground arith, tt), omega arith)
  | inr two ↦ rw two ((omega arith, (omega arith, tt)), omega arith)
]

-- A number between bounds below 2 ^ 32, of a range from 256 to 65536, written over zeros: it takes
-- one octet from the next whole one on if the range is 256, and two if not; a reader that has 24
-- bits or more, and fewer than 2 ^ 32, reads it back, and stands where the writer does.
pub decode_constrained_number-encode_constrained_number :
    (b : BinaryData) (val lb ub l : ℕ)
    → lb ≤ val
    → val ≤ ub
    → ub < 4294967296
    → lb + 255 ≤ ub
    → ub ≤ lb + 65535
    → IsClear b.mem (aligned b)
    → 24 ≤ l
    → l < 4294967296
    → (rest : BinaryData) × (decode_constrained_number
          (reader b (encode_constrained_number b val lb ub) l)
          lb
          ub
        ≡ some (val, rest))
      × AtEnd rest (encode_constrained_number b val lb ub)
      × ((encode_constrained_number b val lb ub).offset
          ≡ aligned b + (if ub - lb == 255 then 1 else 2))
unfolding range_octets
decode_constrained_number-encode_constrained_number b val lb ub l low up word wide narrow clear room
      high =
    let xs : List ℕ = range_octets (ub - lb + 1) (val - lb) in
    let shape = range_octets-AreOctets (ub - lb + 1) (val - lb) (omega arith) (omega arith) in
    let (rest, got, end) = getoctets-setoctets b xs l clear shape.0 (omega (arith, shape.1)) high in
    rw (encode_constrained_number-octets b val lb ub low up word wide narrow) (
      rest,
      decode_constrained_number-octets _ rest val lb ub low up word wide narrow got,
      end,
      ends (setoctets-Wrote b xs clear shape.0),
    )
  where
    ends :
        Wrote b.mem
          (aligned b)
          (range_octets (ub - lb + 1) (val - lb))
          (setoctets b (range_octets (ub - lb + 1) (val - lb)))
        → (setoctets b (range_octets (ub - lb + 1) (val - lb))).offset
          ≡ aligned b + (if ub - lb == 255 then 1 else 2)
    ends (Wrote.wrote m o q) = o ∙ ap (λ n. aligned b + n) (ground arith)

-- A reader behind `n` octets of another: where it starts, and how much it has.
pub behind-again :
    (d : BinaryData) (n : ℕ)
    → n * 8 + 8 ≤ d.length
    → d.length < 4294967296
    → (aligned (behind d n) ≡ aligned d + n)
      × (d.length ≤ (align_dec (behind d n)).length + n * 8 + 8)
unfolding behind aligned align_dec minus_length
behind-again d n low high = elim (Bool-cases (d.pos == 0)) [
  | inl e ↦ (ground (arith, e), ground (arith, e))
  | inr e ↦ (ground (arith, e), ground (arith, e))
]

pub length-length_octets : (n : ℕ) → length (length_octets n) ≤ 2
unfolding length_octets
length-length_octets n = ground (arith, Bool-cases (ltb n 128))

decode_open_type-Holds :
    (d : BinaryData) (ys : List ℕ)
    → length ys < 16384
    → Holds d.mem (aligned d) (length_octets (length ys))
    → Holds d.mem (aligned d + length (length_octets (length ys))) ys
    → length ys * 8 + 32 ≤ d.length
    → d.length < 4294967296
    → decode_open_type d
      ≡ some (ys, behind (behind d (length (length_octets (length ys)))) (length ys))
unfolding decode_open_type
decode_open_type-Holds d ys h held more room high =
    let k : ℕ = length (length_octets (length ys)) in
    let short : k ≤ 2 = length-length_octets (length ys) in
    let next : BinaryData = behind d k in
    let again = behind-again d k (omega arith) high in
    let stands : Holds next.mem (aligned next) ys =
      ap (λ t. read t (aligned next) (length ys)) (behind-mem d k)
      ∙ ap (λ a. read d.mem a (length ys)) again.0
      ∙ more in
    let first : decode_length_undef d ≡ some (length ys, next) =
      decode_length_undef-Holds d (length ys) h held in
    let second : getoctets next (length ys) ≡ some (ys, behind next (length ys)) =
      getoctets-Holds next ys stands (omega (arith, again.1)) in
    rw (first, decode_open_type) second

-- An open type of fewer than 16384 octets, written over zeros, is read back behind its length.
pub decode_open_type-encode_open_type :
    (b : BinaryData) (opentype : Mem ℕ) (bits l : ℕ)
    → octets_of bits < 16384
    → IsClear b.mem (aligned b)
    → AreOctets (read opentype 0 (octets_of bits))
    → octets_of bits * 8 + 32 ≤ l
    → l < 4294967296
    → (rest : BinaryData) × (decode_open_type (reader b (encode_open_type b opentype bits) l)
        ≡ some (read opentype 0 (octets_of bits), rest))
unfolding encode_open_type
decode_open_type-encode_open_type b opentype bits l h clear octets room high =
    let ys : List ℕ = read opentype 0 (octets_of bits) in
    let size : octets_of bits ≡ length ys = sym (length-read opentype 0 (octets_of bits)) in
    let ls : List ℕ = length_octets (length ys) in
    let small : length ys < 16384 = omega (arith, size) in
    let e : BinaryData = setoctets (setoctets b ls) ys in
    let all : Wrote b.mem (aligned b) (ls ++ ys) e =
      Wrote-setoctets b.mem (aligned b) ls ys (setoctets b ls) clear octets
        (setoctets-Wrote b ls clear (length_octets-AreOctets (length ys) small)) in
    let d : BinaryData = reader b e l in
    let written : setoctets (encode_unconstrained_number b (octets_of bits)) ys ≡ e =
      ap (λ w. setoctets w ys)
        (ap (encode_unconstrained_number b) size
          ∙ encode_unconstrained_number-octets b (length ys) small) in
    rw written (
      behind (behind d (length ls)) (length ys),
      decode_open_type-Holds d ys small
          (ap (λ a. read e.mem a (length ls)) (reader-aligned b e l)
            ∙ Wrote-first b.mem (aligned b) ls ys e all)
          (ap (λ a. read e.mem (a + length ls) (length ys)) (reader-aligned b e l)
            ∙ Wrote-Holds b.mem (aligned b) ls ys e all)
          (omega (arith, size)) high,
    )
