-- ===== src/S1ap/Reading.antt =====
-- S1AP/src/rt_per_bin.c: what the readers of a message find in the octets that are left.
use aalto_mme.Prelude.{
  ℕ, ◌+◌, ◌-◌, ◌*◌, ◌/◌, ◌%◌, ◌<◌, ◌≤◌, ◌≡◌, ◌∙◌, refl, ap, arith, some, List, [], ◌∷◌, ◌++◌,
  length, length-append, ◌==◌, if◌then◌else◌, read, Holds,
}
use mathlib.Core.List.{append_assoc}
use aalto_mme.Gtp.Layout.{Holds-append}
use aalto_mme.S1ap.Encode.{BinaryData, octets_of, bits_of_range}
use aalto_mme.S1ap.Decode.{
  align_dec, getbit, getbits, getoctets, minus_length, decode_length_undef, decode_open_type,
  decode_constrained_number, decode_range, decode_small_range,
}
use aalto_mme.S1ap.Octets.{aligned, behind, align_dec-facts, getoctets-Holds}
use aalto_mme.S1ap.Length.{length_octets, decode_length_undef-Holds}
use aalto_mme.S1ap.RoundTrip.{decode_constrained_number-octets, range_octets}

-- The octets that are left to a reader, and the bits that it counts, with those of an octet that it
-- has begun.
pub record Left (d : BinaryData) (ys : List ℕ) : Type 0 where
  pub stands : Holds d.mem (aligned d) ys
  pub counted : d.length ≡ length ys * 8 + (if d.pos == 0 then 0 else 8)
  pub fits : d.length < 4294967296

-- Behind the octets that are read the others are left.
behind-Left :
    (d : BinaryData) (xs ys : List ℕ)
    → Left d (xs ++ ys)
    → Left (behind d (length xs)) ys × ((behind d (length xs)).pos ≡ 0)
unfolding behind aligned align_dec minus_length
behind-Left d xs ys l =
    let size = length-append xs ys in
    let counted = l.counted in
    let fits = l.fits in
    let facts = align_dec-facts d in
    let (first, second) = Holds-append d.mem (aligned d) xs ys l.stands in
    let start : aligned (behind d (length xs)) ≡ aligned d + length xs = ground arith in
    (
      record {
        stands =
            ap (λ m. read m (aligned (behind d (length xs))) (length ys)) facts.0
            ∙ ap (λ a. read d.mem a (length ys)) start
            ∙ second;
        counted = ground arith;
        fits = ground arith;
      },
      facts.2,
    )

pub getoctets-Left :
    (d : BinaryData) (xs ys : List ℕ)
    → Left d (xs ++ ys)
    → getoctets d (length xs) ≡ some (xs, behind d (length xs))
unfolding align_dec minus_length
getoctets-Left d xs ys l =
    let size = length-append xs ys in
    let counted = l.counted in
    let fits = l.fits in
    getoctets-Holds d xs (Holds-append d.mem (aligned d) xs ys l.stands).0 (ground arith)

pub decode_open_type-Left :
    (d : BinaryData) (xs ys : List ℕ)
    → length xs < 16384
    → Left d (length_octets (length xs) ++ xs ++ ys)
    → (e : BinaryData) × (decode_open_type d ≡ some (xs, e)) × Left e ys × (e.pos ≡ 0)
unfolding decode_open_type
decode_open_type-Left d xs ys small l =
    let ls : List ℕ = length_octets (length xs) in
    let all : Left d (ls ++ (xs ++ ys)) = rw (← append_assoc ls xs ys) l in
    let next : BinaryData = behind d (length ls) in
    let first : decode_length_undef d ≡ some (length xs, next) =
      decode_length_undef-Holds d (length xs) small
        (Holds-append d.mem (aligned d) ls (xs ++ ys) all.stands).0 in
    let more = (behind-Left d ls (xs ++ ys) all).0 in
    let rest = behind-Left next xs ys more in
    (
      behind next (length xs),
      rw (first, decode_open_type) (getoctets-Left next xs ys more),
      rest.0,
      rest.1,
    )

-- A number of whole octets.
pub number-Left :
    (d : BinaryData) (v ub : ℕ) (ys : List ℕ)
    → v ≤ ub
    → 255 ≤ ub
    → ub ≤ 65535
    → Left d (range_octets (ub + 1) v ++ ys)
    → (e : BinaryData) × (decode_constrained_number d 0 ub ≡ some (v, e)) × Left e ys × (e.pos ≡ 0)
number-Left d v ub ys h wide narrow l =
    let xs : List ℕ = range_octets (ub + 1) v in
    let rest = behind-Left d xs ys l in
    let same : range_octets (ub - 0 + 1) (v - 0) ≡ xs =
      ap (λ r. range_octets r (v - 0)) (omega arith) ∙ ap (range_octets (ub + 1)) (omega arith) in
    let got : getoctets d (length (range_octets (ub - 0 + 1) (v - 0)))
        ≡ some (range_octets (ub - 0 + 1) (v - 0), behind d (length xs)) =
      rw same (getoctets-Left d xs ys l) in
    (
      behind d (length xs),
      decode_constrained_number-octets d (behind d (length xs)) v 0 ub (omega arith) h (omega arith)
          (omega arith) (omega arith) got,
      rest.0,
      rest.1,
    )

-- Two bits at the start of an octet.
pub two_bits-Left :
    (d : BinaryData) (v : ℕ) (ys : List ℕ)
    → v < 4
    → d.pos ≡ 0
    → Left d (v * 64 ∷ ys)
    → (e : BinaryData) × (decode_constrained_number d 0 2 ≡ some (v, e)) × Left e ys
unfolding decode_constrained_number decode_range decode_small_range bits_of_range getbits octets_of
    read aligned
two_bits-Left d v ys h p l =
    let counted = l.counted in
    let fits = l.fits in
    let (first, second) = Holds-append d.mem (aligned d) (v * 64 ∷ []) ys l.stands in
    let here : d.mem d.offset ≡ v * 64 = ground arith in
    let value : (v * 64 * 1 % 256 / 64 + 0) % 4294967296 ≡ v = omega arith in
    let offset : d.offset + 1 - 1 ≡ d.offset = omega arith in
    let start : d.offset ≡ aligned d = ground arith in
    (
      record d { pos = 2 },
      rw (p, here, value, offset) refl,
      record { stands = rw start second; counted = ground arith; fits = fits },
    )

-- The bit of the extension in front of an elementary procedure.
pub extension-Left :
    (d : BinaryData) (ys : List ℕ) → d.pos ≡ 0 → Left d (0 ∷ ys) → Left (getbit d).1 ys
unfolding getbit aligned
extension-Left d ys p l =
    let counted = l.counted in
    let fits = l.fits in
    let second = (Holds-append d.mem (aligned d) (0 ∷ []) ys l.stands).1 in
    let start : aligned (getbit d).1 ≡ aligned d + 1 = ground arith in
    record {
      stands = ap (λ a. read d.mem a (length ys)) start ∙ second;
      counted = ground arith;
      fits = fits;
    }

-- The choice of a message, behind the bit of the extension.
pub choice-Left :
    (d : BinaryData) (c : ℕ) (ys : List ℕ)
    → c < 4
    → d.pos ≡ 0
    → Left d (c * 32 ∷ ys)
    → ((getbit d).0 ≡ 0)
      × ((e : BinaryData) × (decode_constrained_number (getbit d).1 0 2 ≡ some (c, e)) × Left e ys)
unfolding decode_constrained_number decode_range decode_small_range bits_of_range getbits getbit
    octets_of read aligned
choice-Left d c ys h p l =
    let counted = l.counted in
    let fits = l.fits in
    let (first, second) = Holds-append d.mem (aligned d) (c * 32 ∷ []) ys l.stands in
    let here : d.mem d.offset ≡ c * 32 = ground arith in
    let value : (c * 32 * 2 % 256 / 64 + 0) % 4294967296 ≡ c = omega arith in
    let offset : d.offset + 1 - 1 ≡ d.offset = omega arith in
    let start : d.offset ≡ aligned d = ground arith in
    let bit : c * 32 / 128 ≡ 0 = omega arith in
    (
      rw (p, here, bit) refl,
      (
        record d { pos = 3 },
        rw (p, here, value, offset) refl,
        record { stands = rw start second; counted = ground arith; fits = fits },
      ),
    )
