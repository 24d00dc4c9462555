-- ===== src/S1ap/Encode.antt =====
-- S1AP/src/rt_per_bin.c: the writers of bits, octets, numbers and strings.
use aalto_mme.Prelude.{
  ℕ, zero, suc, ◌+◌, ◌-◌, ◌*◌, ◌/◌, ◌%◌, ◌^◌, List, [], ◌∷◌, ◌++◌, take, length, ltb, leb, ◌==◌,
  if◌then◌else◌, bit_and, bit_or, Mem, read, write, store,
}

-- `struct BinaryData`: where `data` points, or `offset` in an encoder, as one address; the position
-- in that octet; and the length in bits, a uint32_t.
pub record BinaryData : Type 0 where
  pub mem : Mem ℕ
  pub offset : ℕ
  pub pos : ℕ
  pub length : ℕ

-- The octets that a number of bits takes.
unfoldable pub octets_of : ℕ → ℕ
octets_of numbits = if numbits % 8 == 0 then numbits / 8 else numbits / 8 + 1

unfoldable pub align_enc : BinaryData → BinaryData
align_enc b =
    if b.pos == 0
    then b
    else record b { offset = b.offset + 1; pos = 0; length = (b.length + 8 - b.pos) % 4294967296 }

-- `offset[i] |= byte`, of octets.
unfoldable pub or_into : Mem ℕ → ℕ → ℕ → Mem ℕ
unfolding store
or_into mem a byte = store mem a (bit_or (mem a) byte % 256)

-- `htonl` in memory.
unfoldable pub big_endian : ℕ → List ℕ
big_endian n = n / 16777216 % 256 ∷ n / 65536 % 256 ∷ n / 256 % 256 ∷ n % 256 ∷ []

-- The loop over the octets of the value, aligned to the left: each of them over two.
unfoldable pub spread : ℕ → List ℕ → Mem ℕ → ℕ → Mem ℕ
unfolding or_into
spread pos [] mem a = mem
spread pos (byte ∷ bytes) mem a =
    spread pos bytes
      (or_into (or_into mem a (byte / 2 ^ pos)) (a + 1)
        (bit_and byte (0xff / 2 ^ (8 - pos)) * 2 ^ (8 - pos)))
      (a + 1)

-- What `setbits` does to the octets, of at most 32 bits.
unfoldable pub put_bits : BinaryData → ℕ → ℕ → Mem ℕ
put_bits b numbits val =
    let left : ℕ = val * 2 ^ (32 - numbits) % 4294967296 in
    if leb (numbits + b.pos) 8
    then or_into b.mem b.offset
        (bit_and val (0xff / 2 ^ ((8 - numbits) % 8)) * 2 ^ ((8 - numbits - b.pos) % 8))
    else if b.pos == 0
    then write b.mem b.offset (take (octets_of numbits) (big_endian left))
    else spread b.pos (take (octets_of numbits) (big_endian left)) b.mem b.offset

-- The address moves by the octets of the value once the position passes an octet.
unfoldable pub setbits : BinaryData → ℕ → ℕ → BinaryData
setbits b numbits val = record {
  mem = put_bits b numbits val;
  offset = if leb 8 (b.pos + numbits) then b.offset + octets_of numbits else b.offset;
  pos = if leb 8 (b.pos + numbits) then (b.pos + numbits) % 8 else b.pos + numbits;
  length = (b.length + numbits) % 4294967296;
}

unfoldable pub set_each : BinaryData → List ℕ → BinaryData
set_each b [] = b
set_each b (x ∷ xs) = set_each (setbits b 8 x) xs

-- `setoctets`, of all the octets of `val`.
unfoldable pub setoctets : BinaryData → List ℕ → BinaryData
setoctets b val = set_each (align_enc b) val

-- `eint`: the octets of a number, lowest first, while it is not 0; an octet more of `fuel` than the
-- number has is enough.
unfoldable pub eint_loop : ℕ → ℕ → List ℕ
eint_loop zero tmp = []
eint_loop (suc fuel) tmp =
    let rest = eint_loop fuel (tmp / 256) in if tmp == 0 then [] else tmp % 256 ∷ rest

unfoldable pub reversed : List ℕ → List ℕ
reversed [] = []
reversed (x ∷ xs) = reversed xs ++ (x ∷ [])

-- The octets, and `*len` as their number: one for 0. A uint64_t has at most eight.
unfoldable pub eint : ℕ → List ℕ
eint val = if val == 0 then 0 ∷ [] else reversed (eint_loop 9 val)

-- The number of bits of a range up to 255.
unfoldable pub bits_of_range : ℕ → ℕ
bits_of_range range =
    if range == 2
    then 1
    else if leb range 4
    then 2
    else if leb range 8
    then 3
    else if leb range 16
    then 4
    else if leb range 32
    then 5
    else if leb range 64
    then 6
    else if leb range 128
    then 7
    else 8

-- `encode_constrained_number` up to a range of 65536; `Val2` is a uint32_t.
unfoldable pub encode_small_range : BinaryData → ℕ → ℕ → BinaryData
encode_small_range b val2 range =
    if leb range 255
    then setbits b (bits_of_range range) val2
    else if leb range 256
    then setoctets b (val2 % 256 ∷ [])
    else setoctets b (bit_and val2 0xff00 / 256 ∷ bit_and val2 0xff ∷ [])

-- The number of octets of a larger range at most.
unfoldable pub octets_of_range : ℕ → ℕ
octets_of_range range = if leb range 16777216 then 3 else if leb range 4294967296 then 4 else 5

-- The larger ranges write `Val`, not `Val2`, behind the number of its octets.
unfoldable pub encode_constrained_number : BinaryData → ℕ → ℕ → ℕ → BinaryData
encode_constrained_number b val lb ub =
    let range : ℕ = (ub + 18446744073709551616 - lb + 1) % 18446744073709551616 in
    let val2 : ℕ = (val + 18446744073709551616 - lb) % 4294967296 in
    if leb range 65536
    then encode_small_range b val2 range
    else if leb range 1099511627776
    then setoctets (encode_small_range b (length (eint val) - 1) (octets_of_range range)) (eint val)
    else b

-- `encode_unconstrained_number`: a length up to 16383.
unfoldable pub encode_unconstrained_number : BinaryData → ℕ → BinaryData
encode_unconstrained_number b val =
    if ltb val 128
    then setoctets b (bit_and val 0x7f ∷ [])
    else if ltb val 16384
    then setoctets b (bit_or (bit_and val 0x3f00 / 256) 0x80 ∷ bit_and val 0xff ∷ [])
    else b

-- `encode_open_type`: `opentypedata->data` has the octets of `opentypedata->length` bits.
unfoldable pub encode_open_type : BinaryData → Mem ℕ → ℕ → BinaryData
encode_open_type b opentype bits =
    setoctets (encode_unconstrained_number b (octets_of bits)) (read opentype 0 (octets_of bits))

unfoldable pub encode_octet_string : BinaryData → List ℕ → BinaryData
encode_octet_string b [] = b
encode_octet_string b (x ∷ []) = setbits b 8 x
encode_octet_string b (x ∷ y ∷ []) = setbits b 16 (bit_or (x * 256) y)
encode_octet_string b (x ∷ y ∷ z ∷ str) =
    if leb (length (x ∷ y ∷ z ∷ str)) 65535 then setoctets b (x ∷ y ∷ z ∷ str) else b

-- `encode_small_number`; above 63 only the first bit is written.
unfoldable pub encode_small_number : BinaryData → ℕ → BinaryData
encode_small_number b val = if leb val 63 then setbits (setbits b 1 0) 6 val else setbits b 1 1

-- `set_choice_ext`: the bit of the extension, and a choice that is not one.
unfoldable pub set_choice_ext : BinaryData → ℕ → ℕ → ℕ → BinaryData
set_choice_ext b choice max_choices ext =
    if ext == 1
    then setbits b 1 ext
    else if ltb 1 max_choices
    then encode_constrained_number (setbits b 1 ext) choice 0 (max_choices - 1)
    else setbits b 1 ext

-- `encode_known_multiplier_string_PrintableString_withExt`.
unfoldable pub encode_printable_string : BinaryData → ℕ → ℕ → List ℕ → ℕ → BinaryData
encode_printable_string b lb ub str ext =
    let c : BinaryData = setbits b 1 ext in
    if ext == 0
    then set_each (align_enc (encode_constrained_number c (length str) lb ub)) str
    else c
