-- ===== src/S1ap/Octets.antt =====
-- S1AP/src/rt_per_bin.c: what is written in whole octets is read back.
use aalto_mme.Prelude.{
  ℕ, ◌+◌, ◌-◌, ◌*◌, ◌/◌, ◌%◌, ◌<◌, ◌≤◌, ◌≡◌, ◌∙◌, refl, sym, ap, arith, false, some, List, [], ◌∷◌,
  length, ltb, ◌==◌, if◌then◌else◌, bit_and, bit_or, Mem, read, write, store, write_above,
  write-Holds, read-write_below, Holds, sym, ◌++◌, length-append, Bool-cases, inl, inr,
}
use aalto_mme.Prelude.Bits.{bit_or_fields, low_byte}
use aalto_mme.S1ap.Encode.{
  BinaryData, octets_of, align_enc, or_into, put_bits, setbits, set_each, setoctets,
}
use aalto_mme.S1ap.Decode.{align_dec, getoctets, minus_length}

abbrev pub AreOctets : List ℕ → Type 0
AreOctets [] = Unit
AreOctets (x ∷ xs) = (x < 256) × AreOctets xs

pub or_into-zero : (mem : Mem ℕ) (a x : ℕ) → mem a ≡ 0 → x < 256 → or_into mem a x ≡ store mem a x
unfolding or_into
or_into-zero mem a x z h =
    let e : bit_or (mem a) x % 256 ≡ x = rw z (omega (arith, bit_or_fields 8 0 x (omega arith))) in
    rw e refl

pub setbits-octet :
    (b : BinaryData) (x : ℕ)
    → b.pos ≡ 0
    → b.mem b.offset ≡ 0
    → x < 256
    → setbits b 8 x ≡ record {
      mem = store b.mem b.offset x;
      offset = b.offset + 1;
      pos = 0;
      length = (b.length + 8) % 4294967296;
    }
unfolding setbits put_bits octets_of
setbits-octet b x p z h =
    let byte : bit_and x 255 * 1 ≡ x = omega (arith, low_byte x) in
    rw p (rw byte (rw (or_into-zero b.mem b.offset x z h) refl))

-- Zero from an address on.
abbrev pub IsClear : Mem ℕ → ℕ → Type 0
IsClear mem p = (a : ℕ) → p ≤ a → mem a ≡ 0

pub store-IsClear : (mem : Mem ℕ) (p x : ℕ) → IsClear mem p → IsClear (store mem p x) (p + 1)
unfolding store
store-IsClear mem p x clear a h = ground (arith, clear a)

-- Octets written from an address on, and the writer at the whole octet behind them.
pub data Wrote (mem : Mem ℕ) (p : ℕ) (xs : List ℕ) (e : BinaryData) : Type 0 where
  wrote : e.mem ≡ write mem p xs → e.offset ≡ p + length xs → e.pos ≡ 0 → Wrote mem p xs e

Wrote-more :
    (mem : Mem ℕ) (p x : ℕ) (xs : List ℕ) (e : BinaryData)
    → Wrote (store mem p x) (p + 1) xs e
    → Wrote mem p (x ∷ xs) e
unfolding write
Wrote-more mem p x xs e (Wrote.wrote m o q) = Wrote.wrote m (omega (arith, o)) q

set_each-Wrote :
    (b : BinaryData) (xs : List ℕ)
    → b.pos ≡ 0
    → IsClear b.mem b.offset
    → AreOctets xs
    → Wrote b.mem b.offset xs (set_each b xs)
unfolding set_each write
set_each-Wrote b [] p clear octets = Wrote.wrote refl (omega arith) p
set_each-Wrote b (x ∷ xs) p clear octets =
    let next : BinaryData = record {
      mem = store b.mem b.offset x;
      offset = b.offset + 1;
      pos = 0;
      length = (b.length + 8) % 4294967296;
    } in
    let first : setbits b 8 x ≡ next =
      setbits-octet b x p (clear b.offset (omega arith)) octets.0 in
    rw first (
      Wrote-more b.mem b.offset x xs (set_each next xs)
        (set_each-Wrote next xs refl (store-IsClear b.mem b.offset x clear) octets.1))

-- Where a writer or a reader of octets starts: at the next whole octet.
unfoldable pub aligned : BinaryData → ℕ
aligned b = if b.pos == 0 then b.offset else b.offset + 1

pub setoctets-Wrote :
    (b : BinaryData) (xs : List ℕ)
    → IsClear b.mem (aligned b)
    → AreOctets xs
    → Wrote b.mem (aligned b) xs (setoctets b xs)
unfolding setoctets align_enc aligned
setoctets-Wrote b xs clear octets = elim (Bool-cases (b.pos == 0)) [
  | inl e ↦ rw e (set_each-Wrote b xs (ground arith) (λ a h. clear a (rw e h)) octets)
  | inr e ↦
      let next : BinaryData = record b {
        offset = b.offset + 1;
        pos = 0;
        length = (b.length + 8 - b.pos) % 4294967296;
      } in
      rw e (set_each-Wrote next xs refl (λ a h. clear a (rw e h)) octets)
]

pub write-IsClear :
    (mem : Mem ℕ) (p : ℕ) (xs : List ℕ) → IsClear mem p → IsClear (write mem p xs) (p + length xs)
write-IsClear mem p xs clear a h = write_above mem p xs a h ∙ clear a (omega arith)

pub write-append :
    (mem : Mem ℕ) (p : ℕ) (xs ys : List ℕ)
    → write (write mem p xs) (p + length xs) ys ≡ write mem p (xs ++ ys)
unfolding write
write-append mem p [] ys = ap (λ q. write mem q ys) (omega arith)
write-append mem p (x ∷ xs) ys =
    ap (λ q. write (write (store mem p x) (p + 1) xs) q ys) (omega arith)
    ∙ write-append (store mem p x) (p + 1) xs ys

-- Octets behind octets.
pub Wrote-setoctets :
    (mem : Mem ℕ) (p : ℕ) (xs ys : List ℕ) (e : BinaryData)
    → IsClear mem p
    → AreOctets ys
    → Wrote mem p xs e
    → Wrote mem p (xs ++ ys) (setoctets e ys)
unfolding aligned
Wrote-setoctets mem p xs ys e clear octets (Wrote.wrote m o q) =
    let here : aligned e ≡ p + length xs = rw q o in
    let room : IsClear e.mem (aligned e) = rw (m, here) (write-IsClear mem p xs clear) in
    behind here (setoctets-Wrote e ys room octets)
  where
    behind :
        aligned e ≡ p + length xs
        → Wrote e.mem (aligned e) ys (setoctets e ys)
        → Wrote mem p (xs ++ ys) (setoctets e ys)
    behind here (Wrote.wrote m' o' q') =
        Wrote.wrote
          (m'
            ∙ ap (λ t. write t (aligned e) ys) m
            ∙ ap (λ a. write (write mem p xs) a ys) here
            ∙ write-append mem p xs ys)
          (omega (arith, o', here, length-append xs ys)) q'

-- What was written behind other octets stands there.
pub Wrote-Holds :
    (mem : Mem ℕ) (p : ℕ) (xs ys : List ℕ) (e : BinaryData)
    → Wrote mem p (xs ++ ys) e
    → Holds e.mem (p + length xs) ys
Wrote-Holds mem p xs ys e (Wrote.wrote m o q) =
    ap (λ t. read t (p + length xs) (length ys)) (m ∙ sym (write-append mem p xs ys))
    ∙ write-Holds (write mem p xs) (p + length xs) ys

pub Wrote-first :
    (mem : Mem ℕ) (p : ℕ) (xs ys : List ℕ) (e : BinaryData)
    → Wrote mem p (xs ++ ys) e
    → Holds e.mem p xs
Wrote-first mem p xs ys e (Wrote.wrote m o q) =
    ap (λ t. read t p (length xs)) (m ∙ sym (write-append mem p xs ys))
    ∙ read-write_below (write mem p xs) (p + length xs) ys p (length xs) (omega arith)
    ∙ write-Holds mem p xs

pub align_dec-facts :
    (d : BinaryData)
    → ((align_dec d).mem ≡ d.mem) × ((align_dec d).offset ≡ aligned d) × ((align_dec d).pos ≡ 0)
unfolding align_dec aligned
align_dec-facts d = elim (Bool-cases (d.pos == 0)) [
  | inl e ↦ (ground (arith, e), ground (arith, e), ground (arith, e))
  | inr e ↦ (ground (arith, e), ground (arith, e), ground (arith, e))
]

-- The rest behind `n` octets.
unfoldable pub behind : BinaryData → ℕ → BinaryData
behind d n = record (align_dec d) {
  offset = (align_dec d).offset + n;
  length = minus_length (align_dec d).length (n * 8);
}

-- Octets that stand at the next whole octet are what a reader of so many of them gets, if they are
-- not more than there are.
pub getoctets-Holds :
    (d : BinaryData) (ys : List ℕ)
    → Holds d.mem (aligned d) ys
    → length ys * 8 ≤ (align_dec d).length
    → getoctets d (length ys) ≡ some (ys, behind d (length ys))
unfolding getoctets behind
getoctets-Holds d ys held room =
    let facts = align_dec-facts d in
    let stands : read (align_dec d).mem (align_dec d).offset (length ys) ≡ ys =
      ap (λ t. read t (align_dec d).offset (length ys)) facts.0
      ∙ ap (λ a. read d.mem a (length ys)) facts.1
      ∙ held in
    let enough : ltb ((align_dec d).length / 8) (length ys) ≡ false = ground arith in
    rw (enough, stands) refl
