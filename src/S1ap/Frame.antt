-- ===== src/S1ap/Frame.antt =====
-- S1AP/src/rt_per_bin.c: what the writers of a message leave in a buffer, octet by octet, and the
-- length that they count.
use aalto_mme.Prelude.{
  ℕ, ◌+◌, ◌-◌, ◌*◌, ◌%◌, ◌<◌, ◌≤◌, ◌≡◌, ◌∙◌, refl, ap, arith, List, [], ◌∷◌, ◌++◌, length,
  length-append, bit_or, ◌==◌, if◌then◌else◌, bit_and, Mem, write, store, read, Bool-cases,
  length-read, fun_ext,
}
use mathlib.Core.List.{append_assoc}
use aalto_mme.Prelude.Bits.{bit_and_ones}
use aalto_mme.S1ap.Encode.{
  BinaryData, octets_of, align_enc, or_into, put_bits, setbits, set_each, setoctets,
  encode_small_range, encode_constrained_number, encode_open_type, set_choice_ext, bits_of_range,
}
use aalto_mme.S1ap.Octets.{
  AreOctets, IsClear, Wrote, aligned, or_into-zero, setoctets-Wrote, write-IsClear, write-append,
}
use aalto_mme.S1ap.Length.{
  length_octets, encode_unconstrained_number-octets, length_octets-AreOctets,
}
use aalto_mme.S1ap.RoundTrip.{
  length-length_octets, encode_constrained_number-octets, range_octets, range_octets-AreOctets,
}

-- The bits that are missing to a whole octet.
abbrev pub gap : BinaryData → ℕ
gap e = if e.pos == 0 then 0 else 8 - e.pos

-- The octets `xs` written from the start of a buffer, the last of them up to the position `q`.
pub record Framed (mem : Mem ℕ) (xs : List ℕ) (q : ℕ) (e : BinaryData) : Type 0 where
  pub written : e.mem ≡ write mem 0 xs
  pub reached : aligned e ≡ length xs
  pub at : e.pos ≡ q
  pub counted : e.length + gap e ≡ length xs * 8

set_each-length :
    (b : BinaryData) (xs : List ℕ)
    → b.pos ≡ 0
    → b.length + length xs * 8 < 4294967296
    → ((set_each b xs).length ≡ b.length + length xs * 8) × ((set_each b xs).pos ≡ 0)
unfolding set_each setbits
set_each-length b [] p h = (omega arith, p)
set_each-length b (x ∷ xs) p h =
    let next : BinaryData = setbits b 8 x in
    let pos : next.pos ≡ 0 = rw p refl in
    let len : next.length ≡ b.length + 8 = omega arith in
    let rest = set_each-length next xs pos (omega (arith, len)) in
    (omega (arith, rest.0, len), rest.1)

-- The length of a message in octets.
pub octets_of-Framed :
    (mem : Mem ℕ) (xs : List ℕ) (q : ℕ) (e : BinaryData)
    → q < 8
    → Framed mem xs q e
    → octets_of e.length ≡ length xs
unfolding octets_of
octets_of-Framed mem xs q e h f = let counted = f.counted in let at = f.at in ground arith

setoctets-length :
    (mem : Mem ℕ) (xs ys : List ℕ) (q : ℕ) (e : BinaryData)
    → q < 8
    → (length xs + length ys) * 8 < 4294967296
    → Framed mem xs q e
    → ((setoctets e ys).length ≡ (length xs + length ys) * 8) × ((setoctets e ys).pos ≡ 0)
unfolding setoctets align_enc
setoctets-length mem xs ys q e h room f =
    let counted = f.counted in
    let at = f.at in
    let start : ((align_enc e).length ≡ length xs * 8) × ((align_enc e).pos ≡ 0) = ground arith in
    let rest = set_each-length (align_enc e) ys start.1 (omega (arith, start.0)) in
    (omega (arith, rest.0, start.0), rest.1)

write_behind :
    (mem : Mem ℕ) (xs ys : List ℕ) → write (write mem 0 xs) (length xs) ys ≡ write mem 0 (xs ++ ys)
write_behind mem xs ys =
    ap (λ a. write (write mem 0 xs) a ys) (omega arith) ∙ write-append mem 0 xs ys

-- Whole octets behind what is there.
pub setoctets-Framed :
    (mem : Mem ℕ) (xs ys : List ℕ) (q : ℕ) (e : BinaryData)
    → IsClear mem 0
    → AreOctets ys
    → q < 8
    → (length xs + length ys) * 8 < 4294967296
    → Framed mem xs q e
    → Framed mem (xs ++ ys) 0 (setoctets e ys)
unfolding aligned
setoctets-Framed mem xs ys q e clear octets h room f =
    let clear_ : IsClear e.mem (aligned e) =
      rw (f.written, f.reached) (λ a low. write-IsClear mem 0 xs clear a (omega (arith, low))) in
    wrote (setoctets-Wrote e ys clear_ octets)
  where
    wrote : Wrote e.mem (aligned e) ys (setoctets e ys) → Framed mem (xs ++ ys) 0 (setoctets e ys)
    wrote (Wrote.wrote m o p) =
        let (len, pos) = setoctets-length mem xs ys q e h room f in
        let size = length-append xs ys in
        let reached = f.reached in
        record {
          written =
              m
              ∙ ap (λ t. write t (aligned e) ys) f.written
              ∙ ap (λ a. write (write mem 0 xs) a ys) f.reached
              ∙ write_behind mem xs ys;
          reached = rw pos (omega (arith, o, reached, size));
          at = pos;
          counted = rw pos (omega (arith, len, size));
        }

-- Bits of an octet that is zero, behind whole octets.
first_bits-Framed :
    (mem : Mem ℕ) (xs : List ℕ) (n byte : ℕ) (e d : BinaryData)
    → IsClear mem 0
    → byte < 256
    → n < 8
    → Framed mem xs 0 e
    → d.mem ≡ or_into e.mem e.offset byte
    → d.offset ≡ e.offset
    → d.pos ≡ n
    → 0 < n
    → d.length ≡ e.length + n
    → Framed mem (xs ++ (byte ∷ [])) n d
unfolding aligned write
first_bits-Framed mem xs n byte e d clear h low f m o p some_ len =
    let size = length-append xs (byte ∷ []) in
    let at = f.at in
    let reached = f.reached in
    let counted = f.counted in
    let here : e.offset ≡ length xs = ground arith in
    let zero_ : e.mem e.offset ≡ 0 =
      rw (f.written, here) (write-IsClear mem 0 xs clear (length xs) (omega arith)) in
    record {
      written =
          m
          ∙ or_into-zero e.mem e.offset byte zero_ h
          ∙ ap (λ t. store t e.offset byte) f.written
          ∙ ap (λ a. store (write mem 0 xs) a byte) here
          ∙ write_behind mem xs (byte ∷ []);
      reached = ground arith;
      at = p;
      counted = ground arith;
    }

-- Two bits behind whole octets.
pub two_bits-Framed :
    (mem : Mem ℕ) (xs : List ℕ) (v : ℕ) (e : BinaryData)
    → IsClear mem 0
    → v < 4
    → length xs * 8 + 8 < 4294967296
    → Framed mem xs 0 e
    → Framed mem (xs ++ (v * 64 ∷ [])) 2 (encode_constrained_number e v 0 2)
unfolding encode_constrained_number encode_small_range bits_of_range setbits put_bits
two_bits-Framed mem xs v e clear h room f =
    let at = f.at in
    let counted = f.counted in
    let low : bit_and v 3 ≡ v = omega (arith, bit_and_ones 2 v) in
    let value : (v + 18446744073709551616 - 0) % 4294967296 ≡ v = omega arith in
    first_bits-Framed mem xs 2 (v * 64) e (encode_constrained_number e v 0 2) clear (omega arith)
      (omega arith) f (rw (at, value, low) refl) (rw at refl) (rw at refl) (omega arith)
      (omega arith)

-- The bit of the extension, which is not set, in front of an elementary procedure.
pub extension-Framed :
    (b : BinaryData)
    → Framed b.mem [] 0 b
    → IsClear b.mem 0
    → Framed b.mem (0 ∷ []) 1 (setbits b 1 0)
unfolding setbits put_bits
extension-Framed b f clear =
    let at = f.at in
    let counted = f.counted in
    first_bits-Framed b.mem [] 1 0 b (setbits b 1 0) clear (omega arith) (omega arith) f
      (rw at refl) (rw at refl) (rw at refl) (omega arith) (omega arith)

-- A buffer of zeros with nothing in it.
abbrev pub started : Mem ℕ → BinaryData
started mem = record { mem = mem; offset = 0; pos = 0; length = 0 }

pub started-Framed : (mem : Mem ℕ) → Framed mem [] 0 (started mem)
unfolding aligned write
started-Framed mem = record { written = refl; reached = refl; at = refl; counted = refl }

store_again :
    (mem : Mem ℕ) (x : ℕ)
    → store (store mem 0 0) 0 (bit_or 0 x % 256) ≡ store mem 0 (bit_or 0 x % 256)
unfolding store
store_again mem x = fun_ext (λ a. ground (arith, Bool-cases (a == 0)))

-- The octet of the choice in front of a message.
pub choice-Framed :
    (mem : Mem ℕ) (c : ℕ)
    → IsClear mem 0
    → c < 4
    → Framed mem (c * 32 ∷ []) 3 (set_choice_ext (started mem) c 3 0)
unfolding set_choice_ext encode_constrained_number encode_small_range bits_of_range setbits put_bits
    or_into
choice-Framed mem c clear h =
    let low : bit_and c 3 ≡ c = omega (arith, bit_and_ones 2 c) in
    let value : (c + 18446744073709551616 - 0) % 4294967296 ≡ c = omega arith in
    let zero_ : mem 0 ≡ 0 = clear 0 (omega arith) in
    first_bits-Framed mem [] 3 (c * 32) (started mem) (set_choice_ext (started mem) c 3 0) clear
      (omega arith) (omega arith) (started-Framed mem)
      (rw (value, low, zero_) (store_again mem (c * 32))) refl refl (omega arith) refl

-- An open type behind what is there.
pub open_type-Framed :
    (mem data_ : Mem ℕ) (xs : List ℕ) (bits q : ℕ) (e : BinaryData)
    → IsClear mem 0
    → q < 8
    → octets_of bits < 16384
    → AreOctets (read data_ 0 (octets_of bits))
    → (length xs + 2 + octets_of bits) * 8 < 4294967296
    → Framed mem xs q e
    → Framed mem
        (xs ++ (length_octets (octets_of bits) ++ read data_ 0 (octets_of bits)))
        0
        (encode_open_type e data_ bits)
unfolding encode_open_type
open_type-Framed mem data_ xs bits q e clear h small octets room f =
    let n : ℕ = octets_of bits in
    let ys : List ℕ = read data_ 0 n in
    let size : length ys ≡ n = length-read data_ 0 n in
    let two : length (length_octets n) ≤ 2 = length-length_octets n in
    let both = length-append xs (length_octets n) in
    rw (encode_unconstrained_number-octets e n small, ← append_assoc xs (length_octets n) ys)
      (setoctets-Framed mem (xs ++ length_octets n) ys 0 (setoctets e (length_octets n)) clear
        octets (omega arith) (omega (arith, size, two, both))
        (setoctets-Framed mem xs (length_octets n) q e clear (length_octets-AreOctets n small) h
          (omega (arith, two)) f))

-- A number of whole octets behind what is there.
pub number-Framed :
    (mem : Mem ℕ) (xs : List ℕ) (v ub q : ℕ) (e : BinaryData)
    → IsClear mem 0
    → v ≤ ub
    → 255 ≤ ub
    → ub ≤ 65535
    → q < 8
    → length xs * 8 + 16 < 4294967296
    → Framed mem xs q e
    → Framed mem (xs ++ range_octets (ub + 1) v) 0 (encode_constrained_number e v 0 ub)
number-Framed mem xs v ub q e clear h wide narrow low room f =
    let (octets, two) = range_octets-AreOctets (ub + 1) v (omega arith) (omega arith) in
    let range : ub - 0 + 1 ≡ ub + 1 = omega arith in
    let above : v - 0 ≡ v = omega arith in
    let written : encode_constrained_number e v 0 ub ≡ setoctets e (range_octets (ub + 1) v) =
      encode_constrained_number-octets e v 0 ub (omega arith) h (omega arith) (omega arith)
        (omega arith)
      ∙ ap (λ r. setoctets e (range_octets r (v - 0))) range
      ∙ ap (λ w. setoctets e (range_octets (ub + 1) w)) above in
    rw written (
      setoctets-Framed mem xs (range_octets (ub + 1) v) q e clear octets low (omega (arith, two)) f)
