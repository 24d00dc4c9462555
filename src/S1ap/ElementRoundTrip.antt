-- ===== src/S1ap/ElementRoundTrip.antt =====
-- S1AP/src/S1AP_IEenc.c, S1AP_IEdec.c and the elementary procedures of S1AP.c: elements that are sent
-- and read back.
use aalto_mme.Prelude.{
  ℕ, ◌+◌, ◌*◌, ◌<◌, ◌≤◌, ◌≡◌, ◌∙◌, refl, sym, ap, arith, false, some, List, [], ◌∷◌, ◌++◌, length,
  length-append, leb, Mem, read, All, length-read, subst,
}
use mathlib.Core.List.{append_assoc, append-nil}
use aalto_mme.S1ap.Encode.{
  BinaryData, octets_of, setbits, encode_constrained_number, encode_open_type,
}
use aalto_mme.S1ap.Decode.{getbit, decode_constrained_number, decode_open_type}
use aalto_mme.S1ap.Octets.{IsClear}
use aalto_mme.S1ap.Length.{length_octets}
use aalto_mme.S1ap.RoundTrip.{range_octets, range_octets-AreOctets}
use aalto_mme.S1ap.Message.{ProtocolIe}
use aalto_mme.S1ap.Container.{add_ie-room}
use aalto_mme.S1ap.Frame.{
  Framed, two_bits-Framed, extension-Framed, started-Framed, open_type-Framed, number-Framed,
}
use aalto_mme.S1ap.Reading.{Left, decode_open_type-Left, number-Left, two_bits-Left, extension-Left}
use aalto_mme.S1ap.Pdu.{
  Elements, blank, enc_protocol_ie, enc_protocol_ies, enc_elementary_procedure, dec_protocol_ie,
  dec_protocol_ies, dec_elementary_procedure,
}
use aalto_mme.S1ap.Element.{
  copied, copied-Left, open_term-copied, IsCoded, content, frame, frames, content-value,
  length-frames,
}

module _ (elements : Elements) (stack : Mem ℕ) where
  enc_protocol_ie-Framed :
      (mem : Mem ℕ) (xs : List ℕ) (ie : ProtocolIe) (b : BinaryData)
      → IsClear mem 0
      → IsCoded elements stack ie
      → length xs ≤ 10000
      → Framed mem xs 0 b
      → (c : BinaryData) × (enc_protocol_ie elements b ie ≡ some c)
        × Framed mem (xs ++ frame elements stack ie) 0 c
  unfolding enc_protocol_ie frame
  enc_protocol_ie-Framed mem xs ie b clear k room f =
      let (enc, there) = k.encoded in
      let v : BinaryData = enc ie.value blank in
      let n : ℕ = octets_of v.length in
      let value : read v.mem 0 n ≡ content elements stack ie =
        content-value elements stack ie enc there in
      let size : n ≡ length (content elements stack ie) =
        sym (length-read v.mem 0 n) ∙ ap length value in
      let short = k.short in
      let critical = k.critical in
      let identity = k.identity in
      let known = k.known in
      let r : List ℕ = range_octets 65536 ie.id in
      let two = (range_octets-AreOctets 65536 ie.id (omega arith) (omega arith)).1 in
      let crit : List ℕ = ie.criticality * 64 ∷ [] in
      let first =
        number-Framed mem xs ie.id 65535 0 b clear identity (omega arith) (omega arith)
          (omega arith) (omega (arith, room)) f in
      let long = length-append xs r in
      let second =
        two_bits-Framed mem (xs ++ r) ie.criticality (encode_constrained_number b ie.id 0 65535)
          clear (omega (arith, critical)) (omega (arith, long, two, room)) first in
      let c : BinaryData =
        encode_constrained_number (encode_constrained_number b ie.id 0 65535) ie.criticality 0 2 in
      let longer = length-append (xs ++ r) crit in
      let third =
        open_type-Framed mem v.mem (xs ++ r ++ crit) v.length 2 c clear (omega arith)
          (omega (arith, size, short)) (rw value k.octets)
          (omega (arith, size, short, longer, long, two, room)) second in
      let tail : List ℕ =
        length_octets (length (content elements stack ie)) ++ content elements stack ie in
      let whole : xs ++ r ++ crit ++ (length_octets n ++ read v.mem 0 n)
          ≡ xs ++ frame elements stack ie =
        ap (λ w. xs ++ r ++ crit ++ (length_octets n ++ w)) value
        ∙ ap (λ m. xs ++ r ++ crit ++ (length_octets m ++ content elements stack ie)) size
        ∙ append_assoc (xs ++ r) crit tail
        ∙ append_assoc xs r (crit ++ tail) in
      (
        encode_open_type c v.mem v.length,
        ground (arith, there, known, size, short),
        subst (λ z. Framed mem z 0 (encode_open_type c v.mem v.length)) whole third,
      )

  enc_protocol_ies-Framed :
      (mem : Mem ℕ) (xs : List ℕ) (ies : List ProtocolIe) (b : BinaryData)
      → IsClear mem 0
      → All (IsCoded elements stack) ies
      → length xs + length (frames elements stack ies) ≤ 10000
      → Framed mem xs 0 b
      → (c : BinaryData) × (enc_protocol_ies elements b ies ≡ some c)
        × Framed mem (xs ++ frames elements stack ies) 0 c
  unfolding enc_protocol_ies frames
  enc_protocol_ies-Framed mem xs [] b clear k room f =
      (b, refl, subst (λ z. Framed mem z 0 b) (sym (append-nil xs)) f)
  enc_protocol_ies-Framed mem xs (ie ∷ ies) b clear k room f =
      let one = length-append xs (frame elements stack ie) in
      let both = length-append (frame elements stack ie) (frames elements stack ies) in
      let (c, done, g) = enc_protocol_ie-Framed mem xs ie b clear k.0 (omega arith) f in
      let (d, others, h) =
        enc_protocol_ies-Framed mem (xs ++ frame elements stack ie) ies c clear k.1
          (omega (arith, one, both)) g in
      (
        d,
        rw (done, enc_protocol_ies) others,
        subst (λ z. Framed mem z 0 d)
            (append_assoc xs (frame elements stack ie) (frames elements stack ies)) h,
      )

  dec_protocol_ie-steps :
      (ie : ProtocolIe) (d d1 d2 d3 : BinaryData)
      → IsCoded elements stack ie
      → decode_constrained_number d 0 65535 ≡ some (ie.id, d1)
      → decode_constrained_number d1 0 2 ≡ some (ie.criticality, d2)
      → decode_open_type d2 ≡ some (content elements stack ie, d3)
      → dec_protocol_ie elements stack d ≡ some (ie, d3)
  unfolding dec_protocol_ie
  dec_protocol_ie-steps ie d d1 d2 d3 k got1 got2 got3 =
      let known = k.known in
      let unmarked = k.unmarked in
      let (dec, there, inverse) = k.decoded in
      let copy = open_term-copied elements stack (content elements stack ie) k.short in
      let inside : leb elements.size ie.id ≡ false = ground arith in
      rw (got1, got2, got3, copy, inside, there, inverse, ← unmarked) refl

  dec_protocol_ie-Left :
      (ie : ProtocolIe) (ys : List ℕ) (d : BinaryData)
      → IsCoded elements stack ie
      → Left d (frame elements stack ie ++ ys)
      → (e : BinaryData) × (dec_protocol_ie elements stack d ≡ some (ie, e))
        × Left e ys
        × (e.pos ≡ 0)
  unfolding dec_protocol_ie frame
  dec_protocol_ie-Left ie ys d k l =
      let short = k.short in
      let critical = k.critical in
      let r : List ℕ = range_octets 65536 ie.id in
      let tail : List ℕ =
        length_octets (length (content elements stack ie)) ++ content elements stack ie in
      let split : Left d (r ++ (ie.criticality * 64 ∷ (tail ++ ys))) =
        subst (Left d) (append_assoc r (ie.criticality * 64 ∷ tail) ys) l in
      let (d1, got1, l1, p1) =
        number-Left d ie.id 65535 _ k.identity (omega arith) (omega arith) split in
      let (d2, got2, l2) =
        two_bits-Left d1 ie.criticality (tail ++ ys) (omega (arith, critical)) p1 l1 in
      let (d3, got3, l3, p3) =
        decode_open_type-Left d2 (content elements stack ie) ys (omega (arith, short)) l2 in
      (d3, dec_protocol_ie-steps ie d d1 d2 d3 k got1 got2 got3, l3, p3)

  dec_protocol_ies-Left :
      (ies before : List ProtocolIe) (ys : List ℕ) (d : BinaryData)
      → All (IsCoded elements stack) ies
      → length before + length ies < 65534
      → Left d (frames elements stack ies ++ ys)
      → (e : BinaryData) × (dec_protocol_ies elements stack (length ies) d before
          ≡ some (before ++ ies, e))
  unfolding dec_protocol_ies frames
  dec_protocol_ies-Left [] before ys d k room l =
      (d, ap (λ z. some (z, d)) (sym (append-nil before)))
  dec_protocol_ies-Left (ie ∷ ies) before ys d k room l =
      let split : Left d (frame elements stack ie ++ (frames elements stack ies ++ ys)) =
        subst (Left d) (append_assoc (frame elements stack ie) (frames elements stack ies) ys) l in
      let (c, got, more, p) =
        dec_protocol_ie-Left ie (frames elements stack ies ++ ys) d k.0 split in
      let size = length-append before (ie ∷ []) in
      let (e, others) =
        dec_protocol_ies-Left ies (before ++ (ie ∷ [])) ys c k.1 (omega (arith, size)) more in
      (
        e,
        rw (got, dec_protocol_ies)
            (rw (add_ie-room before ie (omega arith))
              (others ∙ ap (λ z. some (z, e)) (append_assoc before (ie ∷ []) ies))),
      )

  -- The octets of the procedure: the bit of the extension, the number of elements and the elements.
  abbrev pub procedure : List ProtocolIe → List ℕ
  procedure ies = 0 ∷ (range_octets 65536 (length ies) ++ frames elements stack ies)

  pub enc_elementary_procedure-Framed :
      (ies : List ProtocolIe)
      → All (IsCoded elements stack) ies
      → length (frames elements stack ies) ≤ 4093
      → (c : BinaryData) × (enc_elementary_procedure elements blank ies ≡ some c)
        × Framed blank.mem (procedure ies) 0 c
  unfolding enc_elementary_procedure
  enc_elementary_procedure-Framed ies k room =
      let clear : IsClear blank.mem 0 = λ a h. refl in
      let many = length-frames elements stack ies in
      let two =
        (range_octets-AreOctets 65536 (length ies) (omega (arith, many, room)) (omega arith)).1 in
      let first = extension-Framed blank (started-Framed blank.mem) clear in
      let second =
        number-Framed blank.mem (0 ∷ []) (length ies) 65535 1 (setbits blank 1 0) clear
          (omega (arith, many, room)) (omega arith) (omega arith) (omega arith) (omega arith)
          first in
      enc_protocol_ies-Framed blank.mem (0 ∷ range_octets 65536 (length ies)) ies _ clear k
        (omega (arith, two, room)) second

  pub dec_elementary_procedure-copied :
      (ies : List ProtocolIe)
      → All (IsCoded elements stack) ies
      → length (procedure ies) ≤ 4096
      → length (frames elements stack ies) ≤ 4093
      → dec_elementary_procedure elements stack (copied stack (procedure ies)) ≡ some ies
  unfolding dec_elementary_procedure
  dec_elementary_procedure-copied ies k room sized =
      let many = length-frames elements stack ies in
      let d : BinaryData = copied stack (procedure ies) in
      let first =
        extension-Left d _ refl (copied-Left stack (procedure ies) (omega (arith, room))) in
      let (d1, got1, l1, p1) =
        number-Left (getbit d).1 (length ies) 65535 (frames elements stack ies)
          (omega (arith, many, sized)) (omega arith) (omega arith) first in
      let (d2, got2) =
        dec_protocol_ies-Left ies [] [] d1 k (omega (arith, many, sized))
          (subst (Left d1) (sym (append-nil (frames elements stack ies))) l1) in
      rw (got1, dec_elementary_procedure) (rw got2 refl)
