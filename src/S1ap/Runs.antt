-- ===== src/S1ap/Runs.antt =====
-- S1AP/src/rt_per_bin.c: runs of the encoders and decoders.
use aalto_mme.Prelude.{
  Option, none, if◌then◌else◌, ◌==◌, ℕ, ◌+◌, ◌≤◌, ◌≡◌, refl, arith, some, [], ◌∷◌, length, Mem,
  read, store,
}
use aalto_mme.S1ap.Encode.{
  encode_unconstrained_number, setbits, put_bits, octets_of, or_into, spread, big_endian, align_enc,
  set_each, setoctets, eint, eint_loop, reversed, encode_constrained_number, encode_small_range,
  octets_of_range, bits_of_range, encode_open_type, encode_octet_string, BinaryData,
}
use aalto_mme.S1ap.Decode.{
  minus_length, align_dec, getoctets, getbits, shift_octets, decode_small_range, decode_octets,
  octets_value, decode_range, decode_constrained_number, decode_open_type, decode_octet_string,
}
use aalto_mme.S1ap.Octets.{AreOctets, IsClear, aligned}
use aalto_mme.S1ap.Length.{reader, AtEnd}
use aalto_mme.S1ap.RoundTrip.{
  decode_octet_string-encode_octet_string, decode_constrained_number-encode_constrained_number,
  decode_open_type-encode_open_type,
}
use aalto_mme.S1ap.Message.{Value, ProtocolIe, Message, find_ie, get_ie, set_value_on_new_ie}
use aalto_mme.S1ap.Pdu.{Elements, s1ap_encode, s1ap_decode}
use aalto_mme.S1ap.Length.{length_octets}
use aalto_mme.S1ap.RoundTrip.{range_octets}
use aalto_mme.S1ap.Element.{IsCoded, frame, frames, content}
use aalto_mme.S1ap.UeIds.{
  enc_enb_ue_s1ap_id, dec_enb_ue_s1ap_id, enc_mme_ue_s1ap_id, dec_mme_ue_s1ap_id,
  enb_ue_s1ap_id-IsCoded, mme_ue_s1ap_id-IsCoded,
}
use aalto_mme.S1ap.ElementCodes.{
  enc_relative_mme_capacity, dec_relative_mme_capacity, enc_unconstrained_octed_string,
  dec_unconstrained_octed_string, relative_mme_capacity-IsCoded, unconstrained_octed_string-IsCoded,
}
use aalto_mme.S1ap.MessageRoundTrip.{IsSendable, s1ap_decode-s1ap_encode}
use aalto_mme.S1ap.Container.{get_ie-set_value_on_new_ie, found_behind}
use aalto_mme.S1ap.Number.{big_value, eint-big_value}

-- A writer three bits into its first octet.
abbrev started : BinaryData
started = record { mem = λ a. 0; offset = 0; pos = 3; length = 3 }

started-IsClear : IsClear started.mem (aligned started)
started-IsClear a h = refl

decode_octet_string-encode_octet_string_example :
    (rest : BinaryData) × (decode_octet_string
        (reader started (encode_octet_string started (1 ∷ 2 ∷ 3 ∷ 255 ∷ [])) 96)
        4
      ≡ some (1 ∷ 2 ∷ 3 ∷ 255 ∷ [], rest))
    × AtEnd rest (encode_octet_string started (1 ∷ 2 ∷ 3 ∷ 255 ∷ []))
decode_octet_string-encode_octet_string_example =
    decode_octet_string-encode_octet_string started 1 2 3 (255 ∷ []) 96 started-IsClear
      (omega arith, (omega arith, (omega arith, (omega arith, tt)))) (omega arith) (omega arith)
      (omega arith)

decode_constrained_number-encode_constrained_number_example :
    (rest : BinaryData) × (decode_constrained_number
        (reader started (encode_constrained_number started 443 7 4095) 96)
        7
        4095
      ≡ some (443, rest))
    × AtEnd rest (encode_constrained_number started 443 7 4095)
    × ((encode_constrained_number started 443 7 4095).offset ≡ aligned started + 2)
decode_constrained_number-encode_constrained_number_example =
    decode_constrained_number-encode_constrained_number started 443 7 4095 96 (omega arith)
      (omega arith) (omega arith) (omega arith) (omega arith) started-IsClear (omega arith)
      (omega arith)

-- A value of 18 bits, in three octets.
abbrev value : Mem ℕ
value a = a + 1

value-AreOctets : AreOctets (read value 0 (octets_of 18))
unfolding octets_of read
value-AreOctets = (omega arith, (omega arith, (omega arith, tt)))

octets_of-18 : octets_of 18 ≡ 3
unfolding octets_of
octets_of-18 = refl

decode_open_type-encode_open_type_example :
    (rest : BinaryData) × (decode_open_type (reader started (encode_open_type started value 18) 96)
      ≡ some (read value 0 (octets_of 18), rest))
decode_open_type-encode_open_type_example =
    decode_open_type-encode_open_type started value 18 96 (omega (arith, octets_of-18))
      started-IsClear value-AreOctets (omega (arith, octets_of-18)) (omega arith)

eint-big_value_example :
    (big_value 0 (eint 1234567) ≡ 1234567)
    × (1 ≤ length (eint 1234567))
    × (length (eint 1234567) ≤ 8)
eint-big_value_example = eint-big_value 1234567 (omega arith)

-- Twelve bits at the start of an octet end four bits into the octet after the next one.
setbits-12 :
    (setbits (record { mem = λ a. 0; offset = 0; pos = 0; length = 0 }) 12 0xabc).offset ≡ 2
unfolding setbits octets_of
setbits-12 = refl

-- A number written behind the first three bits, and read back.
unfoldable read_back : ℕ → ℕ → ℕ → ℕ
read_back val lb ub =
    elim (decode_constrained_number
      (reader started (encode_constrained_number started val lb ub) 96) lb ub) [
        | none ↦ 0
        | some r ↦ r.0
      ]

-- Eight bits over two octets.
read_back-unaligned : read_back 0xa5 0 254 ≡ 0xa5
unfolding read_back setbits put_bits octets_of or_into spread store read align_enc set_each
    setoctets eint eint_loop reversed encode_constrained_number encode_small_range octets_of_range
    bits_of_range minus_length align_dec getoctets getbits shift_octets decode_small_range
    decode_octets octets_value decode_range decode_constrained_number big_endian
read_back-unaligned = refl

-- Three octets behind the number of them.
read_back-octets : read_back 70000 0 16777215 ≡ 70000
unfolding read_back setbits put_bits octets_of or_into spread store read align_enc set_each
    setoctets eint eint_loop reversed encode_constrained_number encode_small_range octets_of_range
    bits_of_range minus_length align_dec getoctets getbits shift_octets decode_small_range
    decode_octets octets_value decode_range decode_constrained_number big_endian
read_back-octets = refl

-- The same with a lower bound of 5, which is added to what was written without it.
read_back-shifted : read_back 70000 5 16777215 ≡ 70005
unfolding read_back setbits put_bits octets_of or_into spread store read align_enc set_each
    setoctets eint eint_loop reversed encode_constrained_number encode_small_range octets_of_range
    bits_of_range minus_length align_dec getoctets getbits shift_octets decode_small_range
    decode_octets octets_value decode_range decode_constrained_number big_endian
read_back-shifted = refl

abbrev release : Message
release = record {
  choice = 0;
  procedure_code = 23;
  criticality = 0;
  ies = record { id = 99; presence = 2; criticality = 0; value = Value.ue_id_pair 7 1 } ∷ [];
}

get_ie-set_value_on_new_ie_example :
    (get_ie (set_value_on_new_ie release 2 2 1 (Value.number 5)).ies 2
      ≡ some (Value.number 5, release.ies))
    × ((other : ℕ)
        → find_ie (set_value_on_new_ie release 2 2 1 (Value.number 5)).ies other
          ≡ found_behind (find_ie release.ies other) 2 other (Value.number 5))
get_ie-set_value_on_new_ie_example =
    get_ie-set_value_on_new_ie release 2 2 1 (Value.number 5) (omega arith)

-- The functions of a table for four of the elements, and none for the others.
abbrev functions {ℓ} : {A : Type ℓ} → A → A → A → A → ℕ → Option A
functions mme enb nas capacity id =
    if id == 0
    then some mme
    else if id == 8
    then some enb
    else if id == 26
    then some nas
    else if id == 87
    then some capacity
    else none

abbrev tables : Elements
tables = record {
  size = 158;
  encoder =
      functions enc_mme_ue_s1ap_id enc_enb_ue_s1ap_id enc_unconstrained_octed_string
        enc_relative_mme_capacity;
  decoder =
      functions dec_mme_ue_s1ap_id dec_enb_ue_s1ap_id dec_unconstrained_octed_string
        dec_relative_mme_capacity;
}

abbrev element : ℕ → Value → ProtocolIe
element id v = record { id = id; presence = 0; criticality = 1; value = v }

abbrev mme_id : ProtocolIe
mme_id = element 0 (Value.ue_id 70000)

abbrev enb_id : ProtocolIe
enb_id = element 8 (Value.ue_id 7)

abbrev nas_pdu : ProtocolIe
nas_pdu = element 26 (Value.octets (7 ∷ 65 ∷ 113 ∷ 8 ∷ []))

abbrev capacity : ProtocolIe
capacity = element 87 (Value.number 255)

abbrev sent : Message
sent = record {
  choice = 0;
  procedure_code = 13;
  criticality = 1;
  ies = mme_id ∷ enb_id ∷ nas_pdu ∷ capacity ∷ [];
}

-- What lies on the stack of the reader.
abbrev stale : Mem ℕ
stale a = 170

length-frames_sent : length (frames tables stale sent.ies) ≡ 28
unfolding frames frame content length_octets range_octets enc_unconstrained_octed_string
    enc_relative_mme_capacity enc_mme_ue_s1ap_id enc_enb_ue_s1ap_id encode_octet_string
    encode_unconstrained_number setoctets align_enc set_each setbits put_bits or_into store read
    octets_of encode_constrained_number encode_small_range eint eint_loop reversed octets_of_range
    bits_of_range
length-frames_sent = refl

mme_id-IsCoded : IsCoded tables stale mme_id
mme_id-IsCoded =
    mme_ue_s1ap_id-IsCoded tables stale mme_id 70000
      (record {
        encoder = refl;
        decoder = refl;
        known = omega arith;
        identity = omega arith;
        critical = omega arith;
        unmarked = refl;
      })
      refl (omega arith)

enb_id-IsCoded : IsCoded tables stale enb_id
enb_id-IsCoded =
    enb_ue_s1ap_id-IsCoded tables stale enb_id 7
      (record {
        encoder = refl;
        decoder = refl;
        known = omega arith;
        identity = omega arith;
        critical = omega arith;
        unmarked = refl;
      })
      refl (omega arith)

nas_pdu-IsCoded : IsCoded tables stale nas_pdu
nas_pdu-IsCoded =
    unconstrained_octed_string-IsCoded tables stale nas_pdu 7 65 113 (8 ∷ [])
      (record {
        encoder = refl;
        decoder = refl;
        known = omega arith;
        identity = omega arith;
        critical = omega arith;
        unmarked = refl;
      })
      refl (omega arith) (omega arith, (omega arith, (omega arith, (omega arith, tt))))

capacity-IsCoded : IsCoded tables stale capacity
capacity-IsCoded =
    relative_mme_capacity-IsCoded tables stale capacity 255
      (record {
        encoder = refl;
        decoder = refl;
        known = omega arith;
        identity = omega arith;
        critical = omega arith;
        unmarked = refl;
      })
      refl (omega arith)

sent-IsSendable : IsSendable tables stale sent
sent-IsSendable = record {
  choice = omega arith;
  procedure_code = omega arith;
  criticality = omega arith;
  coded = (mme_id-IsCoded, (enb_id-IsCoded, (nas_pdu-IsCoded, (capacity-IsCoded, tt))));
  short = omega (arith, length-frames_sent);
}

s1ap_decode-s1ap_encode_example :
    (mem : Mem ℕ) × (size : ℕ) × (s1ap_encode tables (λ a. 0) sent ≡ some (mem, size))
    × (s1ap_decode tables stale mem size ≡ some sent)
s1ap_decode-s1ap_encode_example =
    s1ap_decode-s1ap_encode tables stale (λ a. 0) sent (λ a h. refl) sent-IsSendable
