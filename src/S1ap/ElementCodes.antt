-- ===== src/S1ap/ElementCodes.antt =====
-- S1AP/src/S1AP_IEenc.c and S1AP_IEdec.c: elements that are a number or a string of octets. An error
-- of a reader leaves a value without meaning.
use aalto_mme.Prelude.{
  ℕ, ◌<◌, ◌≤◌, ◌≡◌, ◌∙◌, refl, sym, ap, arith, some, none, List, [], ◌∷◌, ◌++◌, true, leb,
  Option-cases, inl, inr, length, length-append, Mem,
}
use mathlib.Core.List.{append-nil}
use aalto_mme.S1ap.Encode.{
  BinaryData, encode_constrained_number, encode_unconstrained_number, encode_octet_string,
  setoctets,
}
use aalto_mme.S1ap.Decode.{
  decode_constrained_number, decode_length_undef, decode_open_type, getoctets,
}
use aalto_mme.S1ap.Octets.{AreOctets, IsClear}
use aalto_mme.S1ap.Length.{
  length_octets, length_octets-AreOctets, encode_unconstrained_number-octets,
}
use aalto_mme.S1ap.RoundTrip.{range_octets, range_octets-AreOctets, length-length_octets}
use aalto_mme.S1ap.Message.{Value, ProtocolIe}
use aalto_mme.S1ap.Frame.{Framed, started-Framed, setoctets-Framed, number-Framed}
use aalto_mme.S1ap.Reading.{decode_open_type-Left, number-Left}
use aalto_mme.S1ap.Pdu.{Elements, blank}
use aalto_mme.S1ap.Element.{
  AreOctets-append, Framed-read, copied, copied-Left, IsCoded, content, content-value,
}

-- `enc_RelativeMMECapacity`.
unfoldable pub enc_relative_mme_capacity : Value → BinaryData → BinaryData
enc_relative_mme_capacity (Value.number capacity) b = encode_constrained_number b capacity 0 255
enc_relative_mme_capacity _ b = b

-- `dec_RelativeMMECapacity`.
unfoldable pub dec_relative_mme_capacity : BinaryData → Value
dec_relative_mme_capacity b = elim (decode_constrained_number b 0 255) [
  | none ↦ Value.unread
  | some r ↦ Value.number r.0
]

-- `enc_Unconstrained_Octed_String`.
unfoldable pub enc_unconstrained_octed_string : Value → BinaryData → BinaryData
enc_unconstrained_octed_string (Value.octets str) b =
    encode_octet_string (encode_unconstrained_number b (length str)) str
enc_unconstrained_octed_string _ b = b

-- `dec_Unconstrained_Octed_String`.
unfoldable pub dec_unconstrained_octed_string : BinaryData → Value
dec_unconstrained_octed_string b = elim (decode_length_undef b) [
  | none ↦ Value.unread
  | some len ↦ elim (getoctets len.1 len.0) [ none ↦ Value.unread | some r ↦ Value.octets r.0 ]
]

-- What the table has for an element, and the fields around its value.
pub record IsKnown (elements : Elements) (ie : ProtocolIe) (enc : Value → BinaryData → BinaryData)
    (dec : BinaryData → Value) : Type 0 where
  pub encoder : elements.encoder ie.id ≡ some enc
  pub decoder : elements.decoder ie.id ≡ some dec
  pub known : ie.id < elements.size
  pub identity : ie.id ≤ 65535
  pub critical : ie.criticality < 3
  pub unmarked : ie.presence ≡ 0

-- An element whose octets are known is coded, if its decoder finds its value in them.
pub Framed-IsCoded :
    (elements : Elements) (stack : Mem ℕ) (ie : ProtocolIe) (enc : Value → BinaryData → BinaryData)
    (dec : BinaryData → Value) (xs : List ℕ)
    → IsKnown elements ie enc dec
    → Framed blank.mem xs 0 (enc ie.value blank)
    → length xs ≤ 4096
    → AreOctets xs
    → dec (copied stack xs) ≡ ie.value
    → IsCoded elements stack ie
Framed-IsCoded elements stack ie enc dec xs k f short octets back =
    let same : content elements stack ie ≡ xs =
      sym (content-value elements stack ie enc k.encoder)
      ∙ Framed-read blank.mem xs 0 (enc ie.value blank) (omega arith) f in
    record {
      encoded = (enc, k.encoder);
      decoded = (dec, k.decoder, ap (λ z. dec (copied stack z)) same ∙ back);
      known = k.known;
      identity = k.identity;
      critical = k.critical;
      unmarked = k.unmarked;
      short = rw same short;
      octets = rw same octets;
    }

-- A capacity.
pub relative_mme_capacity-IsCoded :
    (elements : Elements) (stack : Mem ℕ) (ie : ProtocolIe) (capacity : ℕ)
    → IsKnown elements ie enc_relative_mme_capacity dec_relative_mme_capacity
    → ie.value ≡ Value.number capacity
    → capacity ≤ 255
    → IsCoded elements stack ie
unfolding enc_relative_mme_capacity dec_relative_mme_capacity
relative_mme_capacity-IsCoded elements stack ie capacity k v h =
    let xs : List ℕ = range_octets 256 capacity in
    let (octets, two) = range_octets-AreOctets 256 capacity (omega (arith, h)) (omega arith) in
    let (d, got, left, at) =
      number-Left (copied stack xs) capacity 255 [] h (omega arith) (omega arith)
        (rw (append-nil xs) (copied-Left stack xs (omega (arith, two)))) in
    Framed-IsCoded elements stack ie enc_relative_mme_capacity dec_relative_mme_capacity xs k
      (rw v (
        number-Framed blank.mem [] capacity 255 0 blank (λ a b. refl) h (omega arith) (omega arith)
          (omega arith) (omega arith) (started-Framed blank.mem)))
      (omega (arith, two)) octets (rw (got, dec_relative_mme_capacity) (sym v))

-- A string is read as an open type is.
dec_unconstrained_octed_string-some :
    (b d : BinaryData) (s : List ℕ)
    → decode_open_type b ≡ some (s, d)
    → dec_unconstrained_octed_string b ≡ Value.octets s
unfolding decode_open_type dec_unconstrained_octed_string
dec_unconstrained_octed_string-some b d s got = elim (Option-cases (decode_length_undef b)) [
  | inl e ↦ absurd (ground (arith, e))
  | inr (len, e) ↦ ground (arith, e)
]

-- A string of three octets or more, such as a message of the NAS.
pub unconstrained_octed_string-IsCoded :
    (elements : Elements) (stack : Mem ℕ) (ie : ProtocolIe) (x y z : ℕ) (str : List ℕ)
    → IsKnown elements ie enc_unconstrained_octed_string dec_unconstrained_octed_string
    → ie.value ≡ Value.octets (x ∷ y ∷ z ∷ str)
    → length (x ∷ y ∷ z ∷ str) ≤ 4094
    → AreOctets (x ∷ y ∷ z ∷ str)
    → IsCoded elements stack ie
unfolding enc_unconstrained_octed_string encode_octet_string
unconstrained_octed_string-IsCoded elements stack ie x y z str k v h octets =
    let w : List ℕ = x ∷ y ∷ z ∷ str in
    let ls : List ℕ = length_octets (length w) in
    let two = length-length_octets (length w) in
    let marks = length_octets-AreOctets (length w) (omega (arith, h)) in
    let clear : IsClear blank.mem 0 = λ a b. refl in
    let fits : leb (length w) 65535 ≡ true = ground (arith, h) in
    let size = length-append ls w in
    let first =
      setoctets-Framed blank.mem [] ls 0 blank clear marks (omega arith) (omega (arith, two))
        (started-Framed blank.mem) in
    let second =
      setoctets-Framed blank.mem ls w 0 (setoctets blank ls) clear octets (omega arith)
        (omega (arith, two, h)) first in
    let (d, got, left, at) =
      decode_open_type-Left (copied stack (ls ++ w)) w [] (omega (arith, h))
        (rw (append-nil (ls ++ w)) (copied-Left stack (ls ++ w) (omega (arith, size, two, h)))) in
    Framed-IsCoded elements stack ie enc_unconstrained_octed_string dec_unconstrained_octed_string
      (ls ++ w) k
      (rw (v, encode_unconstrained_number-octets blank (length w) (omega (arith, h)), fits) second)
      (omega (arith, size, two, h)) (AreOctets-append ls w marks octets)
      (dec_unconstrained_octed_string-some (copied stack (ls ++ w)) d w got ∙ sym v)
