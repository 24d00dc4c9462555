-- ===== src/S1ap/MessageRoundTrip.antt =====
-- S1AP/src/S1AP.c: messages that are sent and read back.
use aalto_mme.Prelude.{
  ℕ, ◌*◌, ◌<◌, ◌≤◌, ◌≡◌, ◌∙◌, refl, sym, ap, arith, some, List, [], ◌∷◌, ◌++◌, ltb, true, false,
  length, length-append, Mem, read, write-Holds, All, subst, ◌%◌,
}
use mathlib.Core.List.{append_assoc, append-nil}
use aalto_mme.S1ap.Encode.{
  BinaryData, octets_of, encode_constrained_number, encode_open_type, set_choice_ext,
}
use aalto_mme.S1ap.Octets.{AreOctets, IsClear, aligned}
use aalto_mme.S1ap.Length.{length_octets}
use aalto_mme.S1ap.RoundTrip.{range_octets, range_octets-AreOctets, length-length_octets}
use aalto_mme.S1ap.Message.{Message}
use aalto_mme.S1ap.Frame.{
  Framed, octets_of-Framed, two_bits-Framed, started, choice-Framed, open_type-Framed,
  number-Framed,
}
use aalto_mme.S1ap.Reading.{Left, decode_open_type-Left, number-Left, two_bits-Left, choice-Left}
use aalto_mme.S1ap.Pdu.{
  Elements, blank, enc_s1ap_pdu, s1ap_encode, enc_elementary_procedure, dec_s1ap_pdu, s1ap_decode,
}
use aalto_mme.S1ap.Element.{
  AreOctets-append, Framed-read, open_term-copied, IsCoded, frames, frames-AreOctets, length-frames,
}
use aalto_mme.S1ap.ElementRoundTrip.{
  procedure, enc_elementary_procedure-Framed, dec_elementary_procedure-copied,
}

module _ (elements : Elements) (stack : Mem ℕ) where
  -- A message whose elements the tables know, and which the reader has room for.
  pub record IsSendable (msg : Message) : Type 0 where
    pub choice : msg.choice < 3
    pub procedure_code : msg.procedure_code ≤ 255
    pub criticality : msg.criticality < 3
    pub coded : All (IsCoded elements stack) msg.ies
    pub short : length (frames elements stack msg.ies) ≤ 4093

  -- The octets of a message.
  message_octets : Message → List ℕ
  message_octets msg =
      let inner : List ℕ = procedure elements stack msg.ies in
      msg.choice * 32
      ∷ (range_octets 256 msg.procedure_code
          ++ (msg.criticality * 64 ∷ (length_octets (length inner) ++ inner)))

  procedure-AreOctets :
      (msg : Message)
      → IsSendable msg
      → AreOctets (procedure elements stack msg.ies)
        × (length (procedure elements stack msg.ies) ≤ 4096)
  procedure-AreOctets msg k =
      let ies = msg.ies in
      let many = length-frames elements stack ies in
      let short = k.short in
      let (octets, two) =
        range_octets-AreOctets 65536 (length ies) (omega (arith, many, short)) (omega arith) in
      let size = length-append (range_octets 65536 (length ies)) (frames elements stack ies) in
      (
        (
          omega arith,
          AreOctets-append (range_octets 65536 (length ies)) (frames elements stack ies) octets
              (frames-AreOctets elements stack ies k.coded),
        ),
        omega (arith, two, short, size),
      )

  s1ap_encode-some :
      (data_ : Mem ℕ) (msg : Message) (tmp : BinaryData)
      → enc_elementary_procedure elements blank msg.ies ≡ some tmp
      → octets_of tmp.length ≤ 10000
      → let e =
          encode_open_type
            (encode_constrained_number
              (encode_constrained_number
                (set_choice_ext (started data_) msg.choice 3 0)
                msg.procedure_code
                0
                255)
              msg.criticality
              0
              2)
            tmp.mem
            tmp.length in
        s1ap_encode elements data_ msg ≡ some (e.mem, octets_of e.length)
  unfolding s1ap_encode enc_s1ap_pdu
  s1ap_encode-some data_ msg tmp made room =
      let fits : ltb 10000 (octets_of tmp.length) ≡ false = ground arith in rw (made, fits) refl

  s1ap_encode-Framed :
      (data_ : Mem ℕ) (msg : Message)
      → IsClear data_ 0
      → IsSendable msg
      → (e : BinaryData) × (s1ap_encode elements data_ msg ≡ some (e.mem, octets_of e.length))
        × Framed data_ (message_octets msg) 0 e
  unfolding message_octets
  s1ap_encode-Framed data_ msg clear k =
      let choice = k.choice in
      let code = k.procedure_code in
      let critical = k.criticality in
      let inner : List ℕ = procedure elements stack msg.ies in
      let (tmp, made, f) = enc_elementary_procedure-Framed elements stack msg.ies k.coded k.short in
      let value : read tmp.mem 0 (octets_of tmp.length) ≡ inner =
        Framed-read blank.mem inner 0 tmp (omega arith) f in
      let n : ℕ = octets_of tmp.length in
      let size : n ≡ length inner = octets_of-Framed blank.mem inner 0 tmp (omega arith) f in
      let (octets, short) = procedure-AreOctets msg k in
      let r : List ℕ = range_octets 256 msg.procedure_code in
      let two =
        (range_octets-AreOctets 256 msg.procedure_code (omega (arith, code)) (omega arith)).1 in
      let xs : List ℕ = msg.choice * 32 ∷ [] in
      let crit : List ℕ = msg.criticality * 64 ∷ [] in
      let b : BinaryData = set_choice_ext (started data_) msg.choice 3 0 in
      let c : BinaryData = encode_constrained_number b msg.procedure_code 0 255 in
      let d : BinaryData = encode_constrained_number c msg.criticality 0 2 in
      let first =
        number-Framed data_ xs msg.procedure_code 255 3 b clear code (omega arith) (omega arith)
          (omega arith) (omega arith)
          (choice-Framed data_ msg.choice clear (omega (arith, choice))) in
      let second =
        two_bits-Framed data_ (xs ++ r) msg.criticality c clear (omega (arith, critical))
          (omega (arith, two)) first in
      let long = length-append r crit in
      let third =
        open_type-Framed data_ tmp.mem (xs ++ r ++ crit) tmp.length 2 d clear (omega arith)
          (omega (arith, size, short)) (rw value octets) (omega (arith, size, short, long, two))
          second in
      let tail : List ℕ = length_octets (length inner) ++ inner in
      let whole : xs ++ r ++ crit ++ (length_octets n ++ read tmp.mem 0 n) ≡ message_octets msg =
        ap (λ w. xs ++ r ++ crit ++ (length_octets n ++ w)) value
        ∙ ap (λ m. xs ++ r ++ crit ++ (length_octets m ++ inner)) size
        ∙ append_assoc (xs ++ r) crit tail
        ∙ append_assoc xs r (crit ++ tail) in
      (
        encode_open_type d tmp.mem tmp.length,
        s1ap_encode-some data_ msg tmp made (omega (arith, size, short)),
        subst (λ z. Framed data_ z 0 (encode_open_type d tmp.mem tmp.length)) whole third,
      )

  s1ap_decode-Left :
      (mem : Mem ℕ) (size : ℕ) (msg : Message)
      → IsSendable msg
      → Left
          (record { mem = mem; offset = 0; pos = 0; length = size * 8 % 4294967296 })
          (message_octets msg)
      → s1ap_decode elements stack mem size ≡ some msg
  unfolding s1ap_decode dec_s1ap_pdu message_octets
  s1ap_decode-Left mem size msg k l =
      let choice = k.choice in
      let critical = k.criticality in
      let inner : List ℕ = procedure elements stack msg.ies in
      let (octets, short) = procedure-AreOctets msg k in
      let d : BinaryData = record {
        mem = mem;
        offset = 0;
        pos = 0;
        length = size * 8 % 4294967296;
      } in
      let tail : List ℕ = length_octets (length inner) ++ inner in
      let (plain, (d1, got1, l1)) =
        choice-Left d msg.choice
          (range_octets 256 msg.procedure_code ++ (msg.criticality * 64 ∷ tail))
          (omega (arith, choice)) refl l in
      let (d2, got2, l2, p2) =
        number-Left d1 msg.procedure_code 255 (msg.criticality * 64 ∷ tail) k.procedure_code
          (omega arith) (omega arith) l1 in
      let (d3, got3, l3) = two_bits-Left d2 msg.criticality tail (omega (arith, critical)) p2 l2 in
      let (d4, got4, l4, p4) =
        decode_open_type-Left d3 inner [] (omega (arith, short))
          (subst (Left d3) (sym (append-nil tail)) l3) in
      let copy = open_term-copied elements stack inner short in
      let back = dec_elementary_procedure-copied elements stack msg.ies k.coded short k.short in
      let known : ltb msg.choice 3 ≡ true = ground arith in
      rw (plain, s1ap_decode)
        (rw (got1, known) (rw got2 (rw got3 (rw got4 (rw (copy, back) refl)))))

  length-message_octets : (msg : Message) → IsSendable msg → length (message_octets msg) ≤ 4102
  unfolding message_octets
  length-message_octets msg k =
      let code = k.procedure_code in
      let inner : List ℕ = procedure elements stack msg.ies in
      let (octets, short) = procedure-AreOctets msg k in
      let r : List ℕ = range_octets 256 msg.procedure_code in
      let two =
        (range_octets-AreOctets 256 msg.procedure_code (omega (arith, code)) (omega arith)).1 in
      let tail : List ℕ = length_octets (length inner) ++ inner in
      let all = length-append r (msg.criticality * 64 ∷ tail) in
      let more = length-append (length_octets (length inner)) inner in
      let mark = length-length_octets (length inner) in omega (arith, all, more, mark, two, short)

  -- What was written is left to a reader of it.
  sent-Left :
      (data_ : Mem ℕ) (msg : Message) (e : BinaryData)
      → IsSendable msg
      → Framed data_ (message_octets msg) 0 e
      → Left
          (record {
            mem = e.mem;
            offset = 0;
            pos = 0;
            length = octets_of e.length * 8 % 4294967296;
          })
          (message_octets msg)
  unfolding aligned
  sent-Left data_ msg e k f =
      let xs : List ℕ = message_octets msg in
      let size : octets_of e.length ≡ length xs = octets_of-Framed data_ xs 0 e (omega arith) f in
      let short = length-message_octets msg k in
      record {
        stands = ap (λ m. read m 0 (length xs)) f.written ∙ write-Holds data_ 0 xs;
        counted = omega (arith, size, short);
        fits = omega arith;
      }

  -- A message of one of the three kinds, with a procedure, a criticality and at most 4093 octets of
  -- elements without a presence, each of which the tables encode in at most 4096 octets and decode
  -- again, into a buffer of zeros: it is sent, without a write beyond a buffer, and what is sent is
  -- decoded to the same message, whatever lies on the reader's stack.
  pub s1ap_decode-s1ap_encode :
      (data_ : Mem ℕ) (msg : Message)
      → IsClear data_ 0
      → IsSendable msg
      → (mem : Mem ℕ) × (size : ℕ) × (s1ap_encode elements data_ msg ≡ some (mem, size))
        × (s1ap_decode elements stack mem size ≡ some msg)
  s1ap_decode-s1ap_encode data_ msg clear k =
      let (e, sent, f) = s1ap_encode-Framed data_ msg clear k in
      (
        e.mem,
        octets_of e.length,
        sent,
        s1ap_decode-Left e.mem (octets_of e.length) msg k (sent-Left data_ msg e k f),
      )
