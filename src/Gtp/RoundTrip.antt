-- ===== src/Gtp/RoundTrip.antt =====
-- libgtp/gtpie.c: what was encoded is decoded, and each element is found by type and instance.
use aalto_mme.Prelude.{
  ℕ, ◌+◌, ◌%◌, ◌≤◌, ◌<◌, ◌≡◌, ◌≢◌, sym, ap, ◌∙◌, arith, Option, List, length, Mem, fill,
  fill_outside, fill_apart, read_congr, Holds, ◌↔◌, get_u16, ◌⊎◌,
}
use aalto_mme.Gtp.Ie.{
  Member, ok, gtpie_size, gtpie_max, Encaps, encaps_loop, gtp2ie_encaps, ie_start, gtp2ie_decap,
}
use aalto_mme.Gtp.Lookup.{Decoded, decap_finish-Decoded}
use aalto_mme.Gtp.EncapsLoop.{
  encaps_loop-Wrote, encaps_loop_outside, encaps_loop_fits, encaps_loop_ok,
}
use aalto_mme.Gtp.Layout.{total, encode, length-encode, length-encode}

ie_start_cases :
    (mem : Mem ℕ) (pack : ℕ) → (ie_start mem pack ≡ pack + 8) ⊎ (ie_start mem pack ≡ pack + 12)
unfolding ie_start
ie_start_cases mem pack = ground arith

ie_start_congr : (m m' : Mem ℕ) (pack : ℕ) → m pack ≡ m' pack → ie_start m pack ≡ ie_start m' pack
unfolding ie_start
ie_start_congr m m' pack e = rw e

pub header_size :
    (mem : Mem ℕ) (pack len : ℕ) → ie_start mem pack ≡ pack + len → (8 ≤ len) × (len ≤ 12)
header_size mem pack len start = omega (arith, ie_start_cases mem pack)

cleared_u16 :
    (mem : Mem ℕ) (pack len n : ℕ)
    → 8 ≤ len
    → get_u16 (fill mem (pack + len) n 0) (pack + 2) ≡ get_u16 mem (pack + 2)
unfolding get_u16
cleared_u16 mem pack len n h = ground (
  arith,
  fill_outside mem (pack + len) n 0 (pack + 2) (omega arith),
  fill_outside mem (pack + len) n 0 (pack + 2 + 1) (omega arith),
)

-- The members `ies` behind a header of `size` bytes.
pub record Packet (mem : Mem ℕ) (pack size : ℕ) (ies : List Member) : Type 0 where
  pub first : ie_start mem pack ≡ pack + size
  pub body : Holds mem (pack + size) (encode ies)

pub Packet-Decoded :
    (ies : List Member) (ie : Mem (Option ℕ)) (mem : Mem ℕ) (pack size len : ℕ)
    → length ies < gtpie_size
    → len ≡ size + total ies
    → Packet mem pack size ies
    → Decoded mem ies (gtp2ie_decap ie mem pack len)
unfolding gtp2ie_decap
Packet-Decoded ies ie mem pack size len few e k =
    rw (k.first, e)
      (decap_finish-Decoded ie mem (pack + size) (pack + (size + total ies)) ies few (omega arith)
        k.body)

-- Only the bytes of the packet matter.
pub Packet_congr :
    (ies : List Member) (m m' : Mem ℕ) (pack size : ℕ)
    → ((a : ℕ) → pack ≤ a → a < pack + (size + total ies) → m a ≡ m' a)
    → Packet m pack size ies
    → Packet m' pack size ies
Packet_congr ies m m' pack size same k =
    let (low, high) = header_size m pack size k.first in
    record {
      first = sym (ie_start_congr m m' pack (same pack (omega arith) (omega arith))) ∙ k.first;
      body =
          sym (
            read_congr m m' (pack + size) (length (encode ies))
              (λ a l u. same a (omega arith) (omega (arith, length-encode ies))))
          ∙ k.body;
    }

-- What `gtp2ie_encaps` leaves, behind a header that ends at `len`.
pub record Encoded (ies : List Member) (mem : Mem ℕ) (pack len : ℕ) : Type 0 where
  pub succeeds : (gtp2ie_encaps ies mem pack len).0 ≡ ok
  pub grown : (gtp2ie_encaps ies mem pack len).1.len ≡ len + total ies
  pub length_field :
      get_u16 (gtp2ie_encaps ies mem pack len).1.mem (pack + 2)
      ≡ (get_u16 mem (pack + 2) + total ies) % 65536
  pub flags_kept : (gtp2ie_encaps ies mem pack len).1.mem pack ≡ mem pack
  pub type_kept : (gtp2ie_encaps ies mem pack len).1.mem (pack + 1) ≡ mem (pack + 1)
  pub packet : Packet (gtp2ie_encaps ies mem pack len).1.mem pack len ies

pub gtp2ie_encaps-Encoded :
    (ies : List Member) (mem : Mem ℕ) (pack len : ℕ)
    → ie_start mem pack ≡ pack + len
    → total ies < gtpie_max
    → get_u16 mem (pack + 2) < 65536
    → Encoded ies mem pack len
unfolding gtp2ie_encaps
gtp2ie_encaps-Encoded ies mem pack len start fits word =
    let (low, high) = header_size mem pack len start in
    let s : Encaps = record {
      mem = fill mem (pack + len) gtpie_max 0;
      p = pack + len;
      len = len;
    } in
    let old = cleared_u16 mem pack len gtpie_max low in
    let (good, w) =
      encaps_loop-Wrote pack (pack + len + gtpie_max) ies s (omega arith) (omega arith)
        (omega arith) (omega (arith, old)) in
    let e : Encaps = (encaps_loop pack (pack + len + gtpie_max) ies s).1 in
    let flags : e.mem pack ≡ mem pack =
      w.kept pack (omega arith) (omega arith) (omega arith)
      ∙ fill_outside mem (pack + len) gtpie_max 0 pack (omega arith) in
    record {
      succeeds = good;
      grown = omega (arith, w.counted);
      length_field = w.header ∙ ap (λ n. (n + total ies) % 65536) old;
      flags_kept = flags;
      type_kept =
          w.kept (pack + 1) (omega arith) (omega arith) (omega arith)
          ∙ fill_outside mem (pack + len) gtpie_max 0 (pack + 1) (omega arith);
      packet = record { first = ie_start_congr e.mem mem pack flags ∙ start; body = w.written };
    }

-- A packet whose header ends at `len`, with a length field of 16 bits, takes fewer than 256
-- members of less than GTPIE_MAX octets, and the decoder gives them back: the encoder succeeds,
-- `*len` and the header's length field grow by what the members take, the decoder accepts the
-- packet, and looking an element up in it by type and instance answers as a search in the list
-- that was encoded.
pub decap-encaps :
    (ies : List Member) (ie : Mem (Option ℕ)) (mem : Mem ℕ) (pack len : ℕ)
    → ie_start mem pack ≡ pack + len
    → total ies < gtpie_max
    → length ies < gtpie_size
    → get_u16 mem (pack + 2) < 65536
    → let (status, e) = gtp2ie_encaps ies mem pack len in
      (status ≡ ok)
      × (e.len ≡ len + total ies)
      × (get_u16 e.mem (pack + 2) ≡ (get_u16 mem (pack + 2) + total ies) % 65536)
      × Decoded e.mem ies (gtp2ie_decap ie e.mem pack e.len)
unfolding gtp2ie_encaps
decap-encaps ies ie mem pack len start fits few word =
    let e = gtp2ie_encaps-Encoded ies mem pack len start fits word in
    (e.succeeds, e.grown, e.length_field, Packet-Decoded ies ie _ pack len _ few e.grown e.packet)

-- `gtp2ie_encaps` succeeds exactly when the members take less than GTPIE_MAX bytes, and in either
-- case it writes only to the header's length field and to the GTPIE_MAX bytes behind `*len`.
pub encaps_bounds :
    (ies : List Member) (mem : Mem ℕ) (pack len a : ℕ)
    → a ≢ pack + 2
    → a ≢ pack + 3
    → (a < pack + len) ⊎ (pack + len + gtpie_max ≤ a)
    → (((gtp2ie_encaps ies mem pack len).0 ≡ ok) ↔ (total ies < gtpie_max))
      × ((gtp2ie_encaps ies mem pack len).1.mem a ≡ mem a)
unfolding gtp2ie_encaps
encaps_bounds ies mem pack len a h k out =
    let s : Encaps = record {
      mem = fill mem (pack + len) gtpie_max 0;
      p = pack + len;
      len = len;
    } in
    let end : ℕ = pack + len + gtpie_max in
    (
      (
        λ good. omega (arith, encaps_loop_ok pack end ies s (omega arith) good),
        λ small. encaps_loop_fits pack end ies s (omega arith),
      ),
      encaps_loop_outside pack end ies s a h k out ∙ fill_apart mem (pack + len) gtpie_max 0 a out,
    )
