-- ===== src/Gtp/Runs.antt =====
-- The theorems on libgtp at concrete packets.
use aalto_mme.Prelude.{
  ℕ, ◌+◌, ◌%◌, ◌<◌, ◌≤◌, ◌≡◌, refl, ◌↔◌, arith, Option, none, some, List, [], ◌∷◌, length, Mem,
  write, store, get_u16, inl,
}
use aalto_mme.Gtp.Ie.{
  Member, ok, gtpie_size, gtpie_max, ie_start, gtp2ie_encaps, gtp2ie_decap, gtp2ie_encaps_group,
  gtp2ie_decaps_group,
}
use aalto_mme.Gtp.Layout.{total}
use aalto_mme.Gtp.Lookup.{Decoded}
use aalto_mme.Gtp.RoundTrip.{decap-encaps, encaps_bounds}
use aalto_mme.Gtp.Group.{decaps_group-encaps_group}
use aalto_mme.Gtp.Accept.{behind, decap_accepts}
use aalto_mme.Gtp.Header.{get_default_gtp, gtp2_recv, datagram, packet_max, message_received}
use aalto_mme.Gtp.Tbcd.{tbcd2dec, digits_value, tbcd2dec-digits_value}

abbrev blank : Mem ℕ
blank = λ a. 0

abbrev no_ie : Mem (Option ℕ)
no_ie = λ a. none

-- A cause and a bearer identity.
abbrev two_members : List Member
two_members =
    record { t = 2; l = 2; i = 0; v = write blank 0 (16 ∷ 0 ∷ []) }
    ∷ record { t = 73; l = 1; i = 0; v = write blank 0 (5 ∷ []) }
    ∷ []

abbrev header : Mem ℕ
header = write blank 0 (0x48 ∷ 33 ∷ 0 ∷ 8 ∷ [])

decap-encaps_example :
    let (status, e) = gtp2ie_encaps two_members header 0 12 in
    (status ≡ ok)
    × (e.len ≡ 12 + total two_members)
    × (get_u16 e.mem (0 + 2) ≡ (get_u16 header (0 + 2) + total two_members) % 65536)
    × Decoded e.mem two_members (gtp2ie_decap no_ie e.mem 0 e.len)
unfolding ie_start write store get_u16
decap-encaps_example =
    decap-encaps two_members no_ie header 0 12 refl (omega arith) (omega arith) (omega arith)

encaps_bounds_example :
    (((gtp2ie_encaps two_members header 0 12).0 ≡ ok) ↔ (total two_members < gtpie_max))
    × ((gtp2ie_encaps two_members header 0 12).1.mem 5 ≡ header 5)
encaps_bounds_example =
    encaps_bounds two_members header 0 12 5 (λ e. absurd (omega (arith, e)))
      (λ e. absurd (omega (arith, e))) (inl (omega arith))

decaps_group-encaps_group_example :
    let (status, g) =
      gtp2ie_encaps_group 93 0 (record { t = 0; l = 0; i = 0; v = blank }) two_members in
    let (decoded, size) = gtp2ie_decaps_group no_ie g.v 0 g.l in
    (status ≡ ok)
    × (g.t ≡ 93)
    × (g.i ≡ 0)
    × (g.l ≡ total two_members)
    × (size ≡ length two_members)
    × Decoded g.v two_members decoded
decaps_group-encaps_group_example =
    decaps_group-encaps_group 93 0 (record { t = 0; l = 0; i = 0; v = blank }) two_members no_ie
      (omega arith) (omega arith) (omega arith) (omega arith)

decap_accepts_example :
    ((gtp2ie_decap no_ie header 0 20).0 ≡ ok)
    ↔ ((n : ℕ) × (n ≤ gtpie_size) × (behind header n (ie_start header 0) ≡ 0 + 20))
decap_accepts_example = decap_accepts no_ie header 0 20

message_received_example :
    let (size, head) = get_default_gtp 2 33 blank 0 in
    let (status, e) = gtp2ie_encaps two_members head 0 size in
    let r = gtp2_recv (datagram e.mem e.len) blank in
    (status ≡ ok)
    × (e.len ≡ size + total two_members)
    × (get_u16 e.mem 2 + 4 ≡ e.len)
    × (r.ret ≡ ok)
    × (e.len ≤ packet_max
        → (r.len ≡ e.len)
          × (r.packet 1 ≡ 33)
          × Decoded r.packet two_members (gtp2ie_decap no_ie r.packet 0 r.len))
    × (packet_max < e.len → (r.len ≡ 0) × (r.packet ≡ blank))
message_received_example =
    message_received 33 two_members no_ie blank blank (omega arith) (omega arith)

tbcd2dec-digits_value_example :
    tbcd2dec 77 (0x21 ∷ 0xf3 ∷ []) ≡ some (digits_value 0 (0x21 ∷ 0xf3 ∷ []) % 18446744073709551616)
tbcd2dec-digits_value_example =
    tbcd2dec-digits_value 77 (0x21 ∷ 0xf3 ∷ []) (omega arith, (omega arith, tt)) (omega arith)
