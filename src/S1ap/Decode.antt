-- ===== src/S1ap/Decode.antt =====
-- S1AP/src/rt_per_bin.c: the readers of bits, octets, lengths, numbers and strings. `none` is
-- an error that is logged, after which the result has no meaning.
use aalto_mme.Prelude.{
  [], bit_or, ◌&&◌, ◌||◌, ◌∷◌, suc, zero, ℕ, ◌+◌, ◌-◌, ◌*◌, ◌/◌, ◌%◌, ◌^◌, Option, none, some, List,
  ltb, leb, ◌==◌, if◌then◌else◌, bit_and, read, get_or,
}
use aalto_mme.S1ap.Encode.{BinaryData, octets_of, bits_of_range, octets_of_range}

-- `length -= n`, of a uint32_t.
unfoldable pub minus_length : ℕ → ℕ → ℕ
minus_length l n = (l + 4294967296 - n) % 4294967296

unfoldable pub align_dec : BinaryData → BinaryData
align_dec b =
    if b.pos == 0
    then b
    else record b { offset = b.offset + 1; pos = 0; length = minus_length b.length 8 }

-- The bit, and what is left; the length stays.
unfoldable pub getbit : BinaryData → ℕ × BinaryData
getbit b =
    let at : ℕ = if ltb b.pos 8 then b.pos else 0 in
    (
      bit_and (b.mem b.offset / 2 ^ (7 - at)) 1,
      record b { offset = if at + 1 == 8 then b.offset + 1 else b.offset; pos = (at + 1) % 8 },
    )

-- `getoctets`: the octets, and what is left.
unfoldable pub getoctets : BinaryData → ℕ → Option (List ℕ × BinaryData)
getoctets b num =
    let c : BinaryData = align_dec b in
    if ltb (c.length / 8) num
    then none
    else some (
      read c.mem c.offset num,
      record c { offset = c.offset + num; length = minus_length c.length (num * 8) },
    )

-- `decode_length_undef`.
unfoldable pub decode_length_undef : BinaryData → Option (ℕ × BinaryData)
decode_length_undef b =
    let c : BinaryData = align_dec b in
    let first : ℕ = c.mem c.offset in
    if bit_and first 0x80 == 0
    then some
        (bit_and first 0x7f, record c { offset = c.offset + 1; length = minus_length c.length 8 })
    else if bit_and first 0xc0 == 0x80
    then some (
      bit_and (first * 256 + c.mem (c.offset + 1)) 0x3fff,
      record c { offset = c.offset + 2; length = minus_length c.length 16 },
    )
    else none

unfoldable pub decode_open_type : BinaryData → Option (List ℕ × BinaryData)
decode_open_type b = elim (decode_length_undef b) [ none ↦ none | some r ↦ getoctets r.1 r.0 ]

-- The loop of `getbits`, of the octets that it copied, on `limit` of them from the number `i` on:
-- each is shifted and takes the upper bits of the next one.
unfoldable pub shift_octets : BinaryData → ℕ → ℕ → ℕ → List ℕ → List ℕ
shift_octets b num i zero tmp = []
shift_octets b num i (suc limit) tmp =
    let rest = shift_octets b num (i + 1) limit tmp in
    let shifted : ℕ = get_or tmp i 0 * 2 ^ b.pos % 256 in
    (if leb ((i + 1) * 8) num || ltb num 8
      then bit_or shifted
          (bit_and (get_or tmp (i + 1) 0) (0xff * 2 ^ (8 - b.pos)) / 2 ^ (8 - b.pos))
      else bit_and shifted (0xff * 2 ^ (8 - (num + b.pos) % 8)))
    ∷ rest

-- `getbits`: the octets, aligned to the left, and what is left; the length stays where the bits are
-- not whole octets.
unfoldable pub getbits : BinaryData → ℕ → List ℕ × BinaryData
getbits b num =
    let newused : ℕ = (num + b.pos) % 8 in
    let numbytes : ℕ = octets_of (num + b.pos) in
    let tmp = read b.mem b.offset numbytes in
    if num % 8 == 0 && b.pos == 0
    then (
      read b.mem b.offset (num / 8),
      record b { offset = b.offset + num / 8; length = minus_length b.length num },
    )
    else (
      if leb (b.pos + num) 8
          then (get_or tmp 0 0 * 2 ^ b.pos % 256) ∷ []
          else shift_octets b num 0 (octets_of num) tmp,
      record b {
        offset = if newused == 0 then b.offset + numbytes - 1 + 1 else b.offset + numbytes - 1;
        pos = newused;
      },
    )

-- `decode_constrained_number` up to a range of 65536, without the lower bound.
unfoldable pub decode_small_range : BinaryData → ℕ → Option (ℕ × BinaryData)
decode_small_range b range =
    if leb range 255
    then (let r = getbits b (bits_of_range range) in
        some (get_or r.0 0 0 / 2 ^ (8 - bits_of_range range), r.1))
    else elim (getoctets b (if leb range 256 then 1 else 2)) [
      | none ↦ none
      | some r ↦
          some
            (if leb range 256 then get_or r.0 0 0 else get_or r.0 0 0 * 256 + get_or r.0 1 0, r.1)
    ]

-- The number that up to four octets spell.
unfoldable pub octets_value : ℕ → List ℕ → ℕ
octets_value n [] = n
octets_value n (x ∷ xs) = octets_value (n * 256 + x) xs

-- A larger range, behind the number of the octets. More than four of them are copied over what lies
-- behind the variable: `none`.
unfoldable pub decode_octets : BinaryData → ℕ → Option (ℕ × BinaryData)
decode_octets b len = elim (getoctets b len) [
  | none ↦ none
  | some r ↦ if leb len 4 then some (octets_value 0 r.0, r.1) else none
]

unfoldable pub decode_range : BinaryData → ℕ → Option (ℕ × BinaryData)
decode_range b range =
    if leb range 65536
    then decode_small_range b range
    else if leb range 1099511627776
    then elim (decode_small_range b (octets_of_range range)) [
      | none ↦ none
      | some r ↦ decode_octets r.1 (r.0 + 1)
    ]
    else none

-- `decode_constrained_number`. The result is cut to a uint32_t, and the test of the bounds only logs.
unfoldable pub decode_constrained_number : BinaryData → ℕ → ℕ → Option (ℕ × BinaryData)
decode_constrained_number b lb ub =
    elim (decode_range b ((ub + 18446744073709551616 - lb + 1) % 18446744073709551616)) [
      | none ↦ none
      | some r ↦ some ((r.0 + lb) % 4294967296, r.1)
    ]

-- `decode_octet_string`. An error leaves zeros in the string.
unfoldable pub decode_octet_string : BinaryData → ℕ → Option (List ℕ × BinaryData)
decode_octet_string b size =
    if size == 0
    then some ([], b)
    else if leb size 2
    then some (getbits b (size * 8))
    else if leb size 65535
    then getoctets b size
    else none
