-- ===== src/S1ap/Element.antt =====
-- S1AP/src/S1AP_IEenc.c and S1AP_IEdec.c: the octets of an element in a message.
use aalto_mme.Prelude.{
  ℕ, ◌*◌, ◌<◌, ◌≤◌, ◌≡◌, ◌∙◌, refl, ap, arith, some, none, List, [], ◌∷◌, ◌++◌, length,
  length-append, Mem, read, write, write-Holds, All,
}
use aalto_mme.S1ap.Encode.{BinaryData, octets_of}
use aalto_mme.S1ap.Octets.{AreOctets, aligned}
use aalto_mme.S1ap.Length.{length_octets, length_octets-AreOctets}
use aalto_mme.S1ap.RoundTrip.{range_octets, range_octets-AreOctets}
use aalto_mme.S1ap.Message.{Value, ProtocolIe}
use aalto_mme.S1ap.Frame.{Framed, octets_of-Framed}
use aalto_mme.S1ap.Reading.{Left}
use aalto_mme.S1ap.Pdu.{Elements, blank, open_term}

pub AreOctets-append : (xs ys : List ℕ) → AreOctets xs → AreOctets ys → AreOctets (xs ++ ys)
AreOctets-append [] ys hx hy = hy
AreOctets-append (x ∷ xs) ys hx hy = (hx.0, AreOctets-append xs ys hx.1 hy)

pub Framed-read :
    (mem : Mem ℕ) (xs : List ℕ) (q : ℕ) (e : BinaryData)
    → q < 8
    → Framed mem xs q e
    → read e.mem 0 (octets_of e.length) ≡ xs
Framed-read mem xs q e h f =
    ap (read e.mem 0) (octets_of-Framed mem xs q e h f)
    ∙ ap (λ m. read m 0 (length xs)) f.written
    ∙ write-Holds mem 0 xs

-- A reader of octets that were copied to the stack.
abbrev pub copied : Mem ℕ → List ℕ → BinaryData
copied stack xs = record { mem = write stack 0 xs; offset = 0; pos = 0; length = length xs * 8 }

pub copied-Left : (stack : Mem ℕ) (xs : List ℕ) → length xs ≤ 16384 → Left (copied stack xs) xs
unfolding aligned
copied-Left stack xs h = record {
  stands = write-Holds stack 0 xs;
  counted = omega arith;
  fits = omega arith;
}

pub open_term-copied :
    (elements : Elements) (stack : Mem ℕ) (xs : List ℕ)
    → length xs ≤ 4096
    → open_term elements stack xs ≡ some (copied stack xs)
unfolding open_term
open_term-copied elements stack xs h = ground arith

module _ (elements : Elements) (stack : Mem ℕ) where
  -- The octets of the value of an element.
  unfoldable pub content : ProtocolIe → List ℕ
  content ie = elim (elements.encoder ie.id) [
    | none ↦ []
    | some enc ↦ read (enc ie.value blank).mem 0 (octets_of (enc ie.value blank).length)
  ]

  -- An element that the tables encode in at most MAXDATABYTES octets, and decode again.
  pub record IsCoded (ie : ProtocolIe) : Type 0 where
    pub encoded : (enc : Value → BinaryData → BinaryData) × (elements.encoder ie.id ≡ some enc)
    pub decoded :
        (dec : BinaryData → Value) × (elements.decoder ie.id ≡ some dec)
        × (dec (copied stack (content ie)) ≡ ie.value)
    pub known : ie.id < elements.size
    pub identity : ie.id ≤ 65535
    pub critical : ie.criticality < 3
    pub unmarked : ie.presence ≡ 0
    pub short : length (content ie) ≤ 4096
    pub octets : AreOctets (content ie)

  -- The octets of an element in a message.
  unfoldable pub frame : ProtocolIe → List ℕ
  frame ie =
      range_octets 65536 ie.id
      ++ (ie.criticality * 64 ∷ (length_octets (length (content ie)) ++ content ie))

  unfoldable pub frames : List ProtocolIe → List ℕ
  frames [] = []
  frames (ie ∷ ies) = frame ie ++ frames ies

  frame-AreOctets : (ie : ProtocolIe) → IsCoded ie → AreOctets (frame ie)
  unfolding frame
  frame-AreOctets ie k =
      let c = k.critical in
      let i = k.identity in
      let s = k.short in
      AreOctets-append (range_octets 65536 ie.id) _
        (range_octets-AreOctets 65536 ie.id (omega arith) (omega arith)).0
        (
          omega arith,
          AreOctets-append (length_octets (length (content ie))) (content ie)
              (length_octets-AreOctets (length (content ie)) (omega arith)) k.octets,
        )

  pub frames-AreOctets : (ies : List ProtocolIe) → All IsCoded ies → AreOctets (frames ies)
  unfolding frames
  frames-AreOctets [] k = tt
  frames-AreOctets (ie ∷ ies) k =
      AreOctets-append (frame ie) (frames ies) (frame-AreOctets ie k.0) (frames-AreOctets ies k.1)

  -- An element takes an octet at least.
  pub length-frames : (ies : List ProtocolIe) → length ies ≤ length (frames ies)
  unfolding frames frame
  length-frames [] = omega arith
  length-frames (ie ∷ ies) =
      let rest = length-frames ies in
      let both = length-append (frame ie) (frames ies) in
      let one =
        length-append (range_octets 65536 ie.id)
          (ie.criticality * 64 ∷ (length_octets (length (content ie)) ++ content ie)) in
      omega (arith, rest, both, one)

  pub content-value :
      (ie : ProtocolIe) (enc : Value → BinaryData → BinaryData)
      → elements.encoder ie.id ≡ some enc
      → read (enc ie.value blank).mem 0 (octets_of (enc ie.value blank).length) ≡ content ie
  unfolding content
  content-value ie enc there = rw (there, content) refl
