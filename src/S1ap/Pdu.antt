-- ===== src/S1ap/Pdu.antt =====
-- S1AP/src/S1AP.c, with `enc_protocolIEs` of S1AP_IEenc.c and `dec_protocolIEs` of S1AP_IEdec.c: a
-- message as it is sent, the frame around its elements. The tables of the functions that encode and
-- decode an element are arguments. `none` is a write beyond a buffer, a function read beyond a table,
-- or an error of a reader, after which the result has no meaning.
use aalto_mme.Prelude.{
  ℕ, zero, suc, ◌*◌, ◌%◌, Option, none, some, List, [], ◌∷◌, length, ltb, leb, ◌==◌, if◌then◌else◌,
  Mem, write,
}
use aalto_mme.S1ap.Encode.{
  BinaryData, octets_of, setbits, encode_constrained_number, encode_open_type, set_choice_ext,
}
use aalto_mme.S1ap.Decode.{getbit, decode_constrained_number, decode_open_type}
use aalto_mme.S1ap.Message.{Value, ProtocolIe, Message, add_ie}

-- `getenc_S1AP_IE` and `getdec_S1AP_IE`: their size, and the functions in them that are not NULL. A
-- decoder starts at the octets of its element.
pub record Elements : Type 0 where
  pub size : ℕ
  pub encoder : ℕ → Option (Value → BinaryData → BinaryData)
  pub decoder : ℕ → Option (BinaryData → Value)

-- `MAXDATABYTES`.
abbrev pub max_data_bytes : ℕ
max_data_bytes = 4096

-- The buffer of a message, or of its elements, in octets.
abbrev pub max_message_bytes : ℕ
max_message_bytes = 10000

-- A buffer of zeros with nothing in it.
abbrev pub blank : BinaryData
blank = record { mem = λ a. 0; offset = 0; pos = 0; length = 0 }

infixl 5 ◌>>=◌
abbrev pub ◌>>=◌ {ℓ κ} : {A : Type ℓ} {B : Type κ} → Option A → (A → Option B) → Option B
none >>= f = none
some a >>= f = f a

module _ (elements : Elements) where
  -- `enc_protocolIEs`; without an encoder nothing follows the criticality.
  unfoldable pub enc_protocol_ie : BinaryData → ProtocolIe → Option BinaryData
  enc_protocol_ie b ie =
      let c : BinaryData =
        encode_constrained_number (encode_constrained_number b ie.id 0 65535) ie.criticality 0 2 in
      if leb elements.size ie.id then none else elim (elements.encoder ie.id) [
        | none ↦ some c
        | some enc ↦
            let v : BinaryData = enc ie.value blank in
            if ltb max_data_bytes (octets_of v.length)
            then none
            else some (encode_open_type c v.mem v.length)
      ]

  unfoldable pub enc_protocol_ies : BinaryData → List ProtocolIe → Option BinaryData
  unfolding enc_protocol_ie
  enc_protocol_ies b [] = some b
  enc_protocol_ies b (ie ∷ ies) = enc_protocol_ie b ie >>= λ c. enc_protocol_ies c ies

  -- `enc_ElementaryProcedure`; the extension flag of a PDU is never set.
  unfoldable pub enc_elementary_procedure : BinaryData → List ProtocolIe → Option BinaryData
  unfolding enc_protocol_ies
  enc_elementary_procedure b ies =
      enc_protocol_ies (encode_constrained_number (setbits b 1 0) (length ies) 0 65535) ies

  -- `enc_S1AP_PDU`.
  unfoldable pub enc_s1ap_pdu : BinaryData → Message → Option BinaryData
  unfolding enc_elementary_procedure
  enc_s1ap_pdu b msg =
      let c : BinaryData =
        encode_constrained_number (encode_constrained_number b msg.procedure_code 0 255)
          msg.criticality 0 2 in
      enc_elementary_procedure blank msg.ies >>= λ tmp.
      if ltb max_message_bytes (octets_of tmp.length)
      then none
      else some (encode_open_type c tmp.mem tmp.length)

  -- `s1ap_encode`, of a message without extension: the octets, and their number.
  unfoldable pub s1ap_encode : Mem ℕ → Message → Option (Mem ℕ × ℕ)
  unfolding enc_s1ap_pdu
  s1ap_encode data_ msg =
      enc_s1ap_pdu
        (set_choice_ext (record { mem = data_; offset = 0; pos = 0; length = 0 }) msg.choice 3 0)
        msg
      >>= λ b. some (b.mem, octets_of b.length)

  -- The octets of an open type, copied to a buffer on the stack, and a reader of them.
  unfoldable pub open_term : Mem ℕ → List ℕ → Option BinaryData
  open_term stack octets =
      if ltb max_data_bytes (length octets)
      then none
      else some
          (record { mem = write stack 0 octets; offset = 0; pos = 0; length = length octets * 8 })

  -- What lies on the stack is an argument.
  module _ (stack : Mem ℕ) where
    -- `dec_protocolIEs`: without a decoder the value stays NULL.
    unfoldable pub dec_protocol_ie : BinaryData → Option (ProtocolIe × BinaryData)
    unfolding open_term
    dec_protocol_ie b = decode_constrained_number b 0 65535 >>= λ id.
        decode_constrained_number id.1 0 2 >>= λ crit. decode_open_type crit.1 >>= λ term.
        open_term stack term.0 >>= λ value.
        if leb elements.size id.0
        then none
        else some (
          record {
            id = id.0;
            presence = 0;
            criticality = crit.0;
            value = elim (elements.decoder id.0) [ none ↦ Value.unread | some dec ↦ dec value ];
          },
          term.1,
        )

    -- The loop over the elements, on the number that is left.
    unfoldable pub dec_protocol_ies :
        ℕ → BinaryData → List ProtocolIe → Option (List ProtocolIe × BinaryData)
    unfolding dec_protocol_ie add_ie
    dec_protocol_ies zero b ies = some (ies, b)
    dec_protocol_ies (suc left) b ies =
        dec_protocol_ie b >>= λ r. dec_protocol_ies left r.1 (add_ie ies r.0)

    -- `dec_ElementaryProcedure`.
    unfoldable pub dec_elementary_procedure : BinaryData → Option (List ProtocolIe)
    unfolding dec_protocol_ies
    dec_elementary_procedure b = decode_constrained_number (getbit b).1 0 65535 >>= λ n.
        dec_protocol_ies n.0 n.1 [] >>= λ r. some r.0

    -- `dec_S1AP_PDU`.
    unfoldable pub dec_s1ap_pdu : ℕ → BinaryData → Option Message
    unfolding dec_elementary_procedure open_term
    dec_s1ap_pdu choice b = decode_constrained_number b 0 255 >>= λ procedure.
        decode_constrained_number procedure.1 0 2 >>= λ crit. decode_open_type crit.1 >>= λ term.
        open_term stack term.0 >>= λ inner. dec_elementary_procedure inner >>= λ ies.
        some (record {
          choice = choice;
          procedure_code = procedure.0;
          criticality = crit.0;
          ies = ies;
        })

    -- `s1ap_decode`. With the extension bit the choice is read by `decode_small_number`, which writes
    -- through a pointer that was not set: `none`. A choice of 3 leaves a message without elements.
    unfoldable pub s1ap_decode : Mem ℕ → ℕ → Option Message
    unfolding dec_s1ap_pdu
    s1ap_decode data_ size =
        let ext =
          getbit (record { mem = data_; offset = 0; pos = 0; length = size * 8 % 4294967296 }) in
        if ext.0 == 1
        then none
        else decode_constrained_number ext.1 0 2 >>= λ choice.
            if ltb choice.0 3
            then dec_s1ap_pdu choice.0 choice.1
            else some (record { choice = choice.0; procedure_code = 0; criticality = 0; ies = [] })
