-- ===== src/S1ap/UeIds.antt =====
-- S1AP/src/S1AP_IEenc.c and S1AP_IEdec.c: the identities of a user, numbers behind the number of their
-- octets. An error of a reader leaves a value without meaning.
use aalto_mme.Prelude.{
  ℕ, zero, suc, ◌+◌, ◌-◌, ◌*◌, ◌/◌, ◌%◌, ◌<◌, ◌≤◌, ◌≡◌, ◌∙◌, refl, sym, ap, arith, some, none, List,
  [], ◌∷◌, length, Mem, read, true, leb, ◌==◌, Bool-cases, inl, inr, subst,
}
use mathlib.Core.List.{append-nil}
use aalto_mme.Gtp.Layout.{Holds-append}
use aalto_mme.S1ap.Encode.{
  BinaryData, octets_of, eint, eint_loop, reversed, encode_constrained_number, encode_small_range,
  octets_of_range, bits_of_range, setbits, setoctets,
}
use aalto_mme.S1ap.Decode.{
  decode_constrained_number, decode_range, decode_small_range, decode_octets, octets_value, getbits,
  getoctets,
}
use aalto_mme.S1ap.Octets.{AreOctets, aligned, behind}
use aalto_mme.S1ap.Number.{big_value, eint-big_value, length-eint}
use aalto_mme.S1ap.Message.{Value, ProtocolIe}
use aalto_mme.S1ap.Frame.{Framed, started-Framed, setoctets-Framed, two_bits-Framed}
use aalto_mme.S1ap.Reading.{Left, getoctets-Left}
use aalto_mme.S1ap.Pdu.{Elements, blank}
use aalto_mme.S1ap.Element.{AreOctets-append, copied, copied-Left, IsCoded}
use aalto_mme.S1ap.ElementCodes.{IsKnown, Framed-IsCoded}

-- `enc_ENB_UE_S1AP_ID`.
unfoldable pub enc_enb_ue_s1ap_id : Value → BinaryData → BinaryData
enc_enb_ue_s1ap_id (Value.ue_id id) b = encode_constrained_number b id 0 16777215
enc_enb_ue_s1ap_id _ b = b

-- `dec_ENB_UE_S1AP_ID`.
unfoldable pub dec_enb_ue_s1ap_id : BinaryData → Value
dec_enb_ue_s1ap_id b = elim (decode_constrained_number b 0 16777215) [
  | none ↦ Value.unread
  | some r ↦ Value.ue_id r.0
]

-- `enc_MME_UE_S1AP_ID`.
unfoldable pub enc_mme_ue_s1ap_id : Value → BinaryData → BinaryData
enc_mme_ue_s1ap_id (Value.ue_id id) b = encode_constrained_number b id 0 4294967295
enc_mme_ue_s1ap_id _ b = b

-- `dec_MME_UE_S1AP_ID`.
unfoldable pub dec_mme_ue_s1ap_id : BinaryData → Value
dec_mme_ue_s1ap_id b = elim (decode_constrained_number b 0 4294967295) [
  | none ↦ Value.unread
  | some r ↦ Value.ue_id r.0
]

eint_loop-AreOctets : (fuel n : ℕ) → AreOctets (eint_loop fuel n)
unfolding eint_loop
eint_loop-AreOctets zero n = tt
eint_loop-AreOctets (suc fuel) n = elim (Bool-cases (n == 0)) [
  | inl e ↦ rw e tt
  | inr e ↦ rw e (omega arith, eint_loop-AreOctets fuel (n / 256))
]

reversed-AreOctets : (xs : List ℕ) → AreOctets xs → AreOctets (reversed xs)
unfolding reversed
reversed-AreOctets [] h = tt
reversed-AreOctets (x ∷ xs) h =
    AreOctets-append (reversed xs) (x ∷ []) (reversed-AreOctets xs h.1) (h.0, tt)

eint-AreOctets : (n : ℕ) → AreOctets (eint n)
unfolding eint
eint-AreOctets n = elim (Bool-cases (n == 0)) [
  | inl e ↦ rw e (omega arith, tt)
  | inr e ↦ rw e (reversed-AreOctets (eint_loop 9 n) (eint_loop-AreOctets 9 n))
]

octets_value-big_value : (n : ℕ) (xs : List ℕ) → octets_value n xs ≡ big_value n xs
unfolding octets_value big_value
octets_value-big_value n [] = refl
octets_value-big_value n (x ∷ xs) = octets_value-big_value (n * 256 + x) xs

-- The octets of an identity, behind their number.
id_octets : ℕ → List ℕ
id_octets v = (length (eint v) - 1) * 64 ∷ eint v

abbrev id_writer : ℕ → BinaryData
id_writer v = setoctets (setbits blank 2 (length (eint v) - 1)) (eint v)

id_writer-Framed : (v : ℕ) → v < 4294967296 → Framed blank.mem (id_octets v) 0 (id_writer v)
unfolding id_octets encode_constrained_number encode_small_range bits_of_range
id_writer-Framed v h =
    let (value, some_, many) = eint-big_value v (omega (arith, h)) in
    let four = length-eint 4 v (omega arith) (omega (arith, h)) in
    let k : ℕ = length (eint v) - 1 in
    let same : (k + 18446744073709551616 - 0) % 4294967296 ≡ k = omega (arith, four) in
    let first : Framed blank.mem (k * 64 ∷ []) 2 (encode_constrained_number blank k 0 2) =
      two_bits-Framed blank.mem [] k blank (λ a b. refl) (omega (arith, four)) (omega arith)
        (started-Framed blank.mem) in
    let bits : Framed blank.mem (k * 64 ∷ []) 2 (setbits blank 2 k) =
      subst (λ z. Framed blank.mem (k * 64 ∷ []) 2 (setbits blank 2 z)) same first in
    setoctets-Framed blank.mem (k * 64 ∷ []) (eint v) 2 (setbits blank 2 k) (λ a b. refl)
      (eint-AreOctets v) (omega arith) (omega (arith, four)) bits

-- Two bits at the start of an octet, of a range that takes so many.
small_range-Left :
    (d : BinaryData) (r k : ℕ) (ys : List ℕ)
    → leb r 255 ≡ true
    → bits_of_range r ≡ 2
    → k < 4
    → d.pos ≡ 0
    → Left d (k * 64 ∷ ys)
    → (e : BinaryData) × (decode_small_range d r ≡ some (k, e)) × Left e ys
unfolding decode_small_range getbits octets_of read aligned
small_range-Left d r k ys small two h p l =
    let counted = l.counted in
    let fits = l.fits in
    let (first, second) = Holds-append d.mem (aligned d) (k * 64 ∷ []) ys l.stands in
    let here : d.mem d.offset ≡ k * 64 = ground arith in
    let value : k * 64 * 1 % 256 / 64 ≡ k = omega arith in
    let offset : d.offset + 1 - 1 ≡ d.offset = omega arith in
    let start : d.offset ≡ aligned d = ground arith in
    (
      record d { pos = 2 },
      rw (small, two, p, here, value, offset) refl,
      record { stands = rw start second; counted = ground arith; fits = fits },
    )

decode_octets-some :
    (a b : BinaryData) (xs : List ℕ) (v : ℕ)
    → length xs ≤ 4
    → getoctets a (length xs) ≡ some (xs, b)
    → octets_value 0 xs ≡ v
    → decode_octets a (length xs) ≡ some (v, b)
unfolding decode_octets
decode_octets-some a b xs v short got value =
    let small : leb (length xs) 4 ≡ true = ground (arith, short) in
    rw (got, decode_octets) (rw (small, value) refl)

-- An identity is read back.
id-read :
    (stack : Mem ℕ) (r v : ℕ)
    → v < 4294967296
    → leb r 255 ≡ true
    → bits_of_range r ≡ 2
    → (a b : BinaryData) × (decode_small_range (copied stack (id_octets v)) r
        ≡ some (length (eint v) - 1, a))
      × (decode_octets a (length (eint v) - 1 + 1) ≡ some (v, b))
unfolding id_octets
id-read stack r v h small two =
    let (value, some_, many) = eint-big_value v (omega (arith, h)) in
    let four = length-eint 4 v (omega arith) (omega (arith, h)) in
    let k : ℕ = length (eint v) - 1 in
    let (a, got, l) =
      small_range-Left (copied stack (id_octets v)) r k (eint v) small two (omega (arith, four))
        refl (copied-Left stack (id_octets v) (omega (arith, four))) in
    let n : k + 1 ≡ length (eint v) = omega (arith, some_) in
    (
      a,
      behind a (length (eint v)),
      got,
      ap (decode_octets a) n
          ∙ decode_octets-some a (behind a (length (eint v))) (eint v) v four
              (getoctets-Left a (eint v) [] (rw (append-nil (eint v)) l))
              (octets_value-big_value 0 (eint v) ∙ value),
    )

id_octets-AreOctets :
    (v : ℕ) → v < 4294967296 → AreOctets (id_octets v) × (length (id_octets v) ≤ 5)
unfolding id_octets
id_octets-AreOctets v h =
    let four = length-eint 4 v (omega arith) (omega (arith, h)) in
    ((omega (arith, four), eint-AreOctets v), omega (arith, four))

-- The identity that an eNodeB gives a user, of 24 bits.
pub enb_ue_s1ap_id-IsCoded :
    (elements : Elements) (stack : Mem ℕ) (ie : ProtocolIe) (id : ℕ)
    → IsKnown elements ie enc_enb_ue_s1ap_id dec_enb_ue_s1ap_id
    → ie.value ≡ Value.ue_id id
    → id < 16777216
    → IsCoded elements stack ie
unfolding enc_enb_ue_s1ap_id dec_enb_ue_s1ap_id encode_constrained_number encode_small_range
    octets_of_range bits_of_range decode_constrained_number decode_range
enb_ue_s1ap_id-IsCoded elements stack ie id k v h =
    let (octets, five) = id_octets-AreOctets id (omega (arith, h)) in
    let (a, b, first, second) = id-read stack 3 id (omega (arith, h)) refl refl in
    let whole : (id + 0) % 4294967296 ≡ id = omega (arith, h) in
    Framed-IsCoded elements stack ie enc_enb_ue_s1ap_id dec_enb_ue_s1ap_id (id_octets id) k
      (rw v (id_writer-Framed id (omega (arith, h)))) (omega (arith, five)) octets
      (rw (first, dec_enb_ue_s1ap_id) (rw second (rw whole (sym v))))

-- The identity that the MME gives a user, of 32 bits.
pub mme_ue_s1ap_id-IsCoded :
    (elements : Elements) (stack : Mem ℕ) (ie : ProtocolIe) (id : ℕ)
    → IsKnown elements ie enc_mme_ue_s1ap_id dec_mme_ue_s1ap_id
    → ie.value ≡ Value.ue_id id
    → id < 4294967296
    → IsCoded elements stack ie
unfolding enc_mme_ue_s1ap_id dec_mme_ue_s1ap_id encode_constrained_number encode_small_range
    octets_of_range bits_of_range decode_constrained_number decode_range
mme_ue_s1ap_id-IsCoded elements stack ie id k v h =
    let (octets, five) = id_octets-AreOctets id h in
    let (a, b, first, second) = id-read stack 4 id h refl refl in
    let whole : (id + 0) % 4294967296 ≡ id = omega (arith, h) in
    Framed-IsCoded elements stack ie enc_mme_ue_s1ap_id dec_mme_ue_s1ap_id (id_octets id) k
      (rw v (id_writer-Framed id h)) (omega (arith, five)) octets
      (rw (first, dec_mme_ue_s1ap_id) (rw second (rw whole (sym v))))
