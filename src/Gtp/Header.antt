-- ===== src/Gtp/Header.antt =====
-- libgtp/gtp.c: the default header, and the checks on a packet that was received.
use aalto_mme.Prelude.{
  ℕ, ◌+◌, ◌≤◌, ◌<◌, ◌≡◌, refl, sym, ◌∙◌, arith, true, false, if◌then◌else◌, ◌&&◌, ◌||◌, not, Option,
  List, length, ltb, ◌==◌, if◌then◌else◌, bit_and, Mem, read, write, store, fill, get_u16, set_u16,
  Bool-cases, inl, inr, le→ltb, write-read_cell,
}
use aalto_mme.Gtp.Ie.{
  Member, Status, ok, eof, gtpie_size, Encaps, ie_start, gtp2ie_encaps, gtp2ie_decap,
}
use aalto_mme.Gtp.Layout.{total}
use aalto_mme.Gtp.Lookup.{Decoded}
use aalto_mme.Gtp.RoundTrip.{header_size, Packet-Decoded, Packet_congr, gtp2ie_encaps-Encoded}

abbrev pub echo_req : ℕ
echo_req = 1

abbrev pub echo_rsp : ℕ
echo_rsp = 2

-- The cleared header with its flags, its length and its type.
unfoldable pub default_header : ℕ → ℕ → ℕ → ℕ → Mem ℕ → ℕ → Mem ℕ
unfolding fill store set_u16
default_header size flags len type mem packet =
    store (set_u16 (store (fill mem packet size 0) packet flags) (packet + 2) len) (packet + 1) type

-- Version 0 runs into version 2, whose code is the next that is not commented out. Returns the
-- header's size, and 0 for another version, with the packet as it is left.
unfoldable pub get_default_gtp : ℕ → ℕ → Mem ℕ → ℕ → ℕ × Mem ℕ
unfolding default_header get_u16
get_default_gtp version type mem packet =
    let mem' =
      if type == echo_req || type == echo_rsp
      then default_header 8 0x40 4 type mem packet
      else default_header 12 0x48 8 type mem packet in
    if version == 0 || version == 2 then (get_u16 mem' (packet + 2) + 4, mem') else (0, mem)

-- What `recvfrom` finds: nothing to read, another error, or a datagram and its length.
pub data Received : Type 0 where
  again failed : Received
  datagram : Mem ℕ → ℕ → Received

-- Returns 0 or -1, the packet, and `*len`, which is 0 where the datagram is discarded.
pub record Recv : Type 0 where
  pub ret : Status
  pub packet : Mem ℕ
  pub len : ℕ

abbrev pub minimum_header_size : ℕ
minimum_header_size = 8

-- `PACKET_MAX`, the size of the buffer.
abbrev pub packet_max : ℕ
packet_max = 8196

-- A longer datagram is cut to the buffer, and `status` is the length of what is in it.
unfoldable pub gtp2_recv : Received → Mem ℕ → Recv
unfolding get_u16
gtp2_recv again packet = record { ret = ok; packet = packet; len = 0 }
gtp2_recv failed packet = record { ret = eof; packet = packet; len = 0 }
gtp2_recv (datagram buffer sent) packet =
    let status : ℕ = if ltb packet_max sent then packet_max else sent in
    let discard : Recv = record { ret = ok; packet = packet; len = 0 } in
    if ltb status 1
    then discard
    else if not (bit_and (buffer 0) 0xe0 == 0x20) && not (bit_and (buffer 0) 0xe0 == 0x40)
    then discard
    else if ltb status minimum_header_size
    then discard
    else if ltb status (get_u16 buffer 2 + 4)
    then discard
    else (record { ret = ok; packet = write packet 0 (read buffer 0 status); len = status })

-- What `get_default_gtp` leaves for version 2.
record Header (type : ℕ) (mem : Mem ℕ) (packet size : ℕ) : Type 0 where
  starts_at : ie_start mem packet ≡ packet + size
  says : get_u16 mem (packet + 2) + 4 ≡ size
  version_bits : bit_and (mem packet) 0xe0 ≡ 0x40
  type_at : mem (packet + 1) ≡ type
  small : size ≤ 12

default_header_cells :
    (size flags len type : ℕ) (mem : Mem ℕ) (packet : ℕ)
    → len < 256
    → let m = default_header size flags len type mem packet in
      (m packet ≡ flags) × (m (packet + 1) ≡ type) × (get_u16 m (packet + 2) ≡ len)
unfolding default_header get_u16
default_header_cells size flags len type mem packet h = (ground arith, ground arith, ground arith)

default_Header :
    (type : ℕ) (mem : Mem ℕ) (packet : ℕ)
    → let (size, m) = get_default_gtp 2 type mem packet in Header type m packet size
unfolding get_default_gtp ie_start
default_Header type mem packet = elim (Bool-cases (type == echo_req || type == echo_rsp)) [
  | inl echo ↦
      let (f, t, l) = default_header_cells 8 0x40 4 type mem packet (omega arith) in
      rw echo (record {
        starts_at = rw (f, l) refl;
        says = refl;
        version_bits = rw f refl;
        type_at = t;
        small = omega (arith, l);
      })
  | inr other ↦
      let (f, t, l) = default_header_cells 12 0x48 8 type mem packet (omega arith) in
      rw other (record {
        starts_at = rw (f, l) refl;
        says = refl;
        version_bits = rw f refl;
        type_at = t;
        small = omega (arith, l);
      })
]

received_lem :
    (buffer packet : Mem ℕ) (status : ℕ)
    → bit_and (buffer 0) 0xe0 ≡ 0x40
    → 8 ≤ status
    → get_u16 buffer 2 + 4 ≤ status
    → status ≤ 8196
    → gtp2_recv (datagram buffer status) packet
      ≡ record { ret = ok; packet = write packet 0 (read buffer 0 status); len = status }
unfolding gtp2_recv
received_lem buffer packet status version long fits room =
    let whole : ltb 8196 status ≡ false = ground arith in
    rw (whole, version, le→ltb status 1 (omega arith), le→ltb status 8 long)
      (rw (le→ltb status (get_u16 buffer 2 + 4) fits) refl)

discarded_lem :
    (buffer packet : Mem ℕ) (sent : ℕ)
    → 8196 < sent
    → get_u16 buffer 2 + 4 ≡ sent
    → gtp2_recv (datagram buffer sent) packet ≡ record { ret = ok; packet = packet; len = 0 }
unfolding gtp2_recv
discarded_lem buffer packet sent long says =
    let cut : ltb 8196 sent ≡ true = ground arith in
    let short : ltb 8196 (get_u16 buffer 2 + 4) ≡ true = rw says cut in
    rw (cut, short)
      (ground (
        arith,
        Bool-cases (not (bit_and (buffer 0) 0xe0 == 0x20) && not (bit_and (buffer 0) 0xe0 == 0x40)),
      ))

copied_cell :
    (buffer packet : Mem ℕ) (n a : ℕ) → a < n → write packet 0 (read buffer 0 n) a ≡ buffer a
copied_cell buffer packet n a h =
    let e = write-read_cell packet buffer 0 0 n a h in ground (arith, e)

message_lem :
    (type : ℕ) (ies : List Member) (ie : Mem (Option ℕ)) (m packet : Mem ℕ) (size : ℕ)
    → Header type m 0 size
    → total ies < 65528
    → length ies < gtpie_size
    → let (status, e) = gtp2ie_encaps ies m 0 size in
      let r = gtp2_recv (datagram e.mem e.len) packet in
      (status ≡ ok)
      × (e.len ≡ size + total ies)
      × (get_u16 e.mem 2 + 4 ≡ e.len)
      × (r.ret ≡ ok)
      × (e.len ≤ 8196
          → (r.len ≡ e.len)
            × (r.packet 1 ≡ type)
            × Decoded r.packet ies (gtp2ie_decap ie r.packet 0 r.len))
      × (8196 < e.len → (r.len ≡ 0) × (r.packet ≡ packet))
message_lem type ies ie m packet size h fits few =
    let (low, high) = header_size m 0 size h.starts_at in
    let e = gtp2ie_encaps-Encoded ies m 0 size h.starts_at (omega arith) (omega (arith, h.says)) in
    let out : Encaps = (gtp2ie_encaps ies m 0 size).1 in
    let field : get_u16 out.mem 2 + 4 ≡ out.len =
      omega (arith, e.length_field, h.says, h.small, e.grown) in
    let flags : bit_and (out.mem 0) 0xe0 ≡ 0x40 = rw e.flags_kept h.version_bits in
    let taken : out.len ≤ 8196
        → gtp2_recv (datagram out.mem out.len) packet
          ≡ record { ret = ok; packet = write packet 0 (read out.mem 0 out.len); len = out.len } =
      received_lem out.mem packet out.len flags (omega (arith, e.grown)) (omega (arith, field)) in
    (
      e.succeeds,
      e.grown,
      field,
      elim (Bool-cases (ltb 8196 out.len)) [
        | inl long ↦ rw (discarded_lem out.mem packet out.len (ground arith) field) refl
        | inr short ↦ rw (taken (ground arith)) refl
      ],
      λ room. rw (taken room) (
        refl,
        copied_cell out.mem packet out.len 1 (omega (arith, e.grown)) ∙ e.type_kept ∙ h.type_at,
        Packet-Decoded ies ie _ 0 size out.len few e.grown (
            Packet_congr ies out.mem _ 0 size
              (λ a l u. sym (copied_cell out.mem packet out.len a (omega (arith, e.grown))))
              e.packet),
      ),
      λ long. rw (discarded_lem out.mem packet out.len long field) (refl, refl),
    )

-- A message made of the default header of any type and fewer than 256 members that leave the
-- length field in 16 bits: its length field is four less than its size. If it has at most 8196
-- octets, the buffer of the receiver, the receiver takes the whole datagram, and the decoder finds
-- the members in what was received; if it has more, it is discarded without an error.
pub message_received :
    (type : ℕ) (ies : List Member) (ie : Mem (Option ℕ)) (mem packet : Mem ℕ)
    → total ies < 65528
    → length ies < gtpie_size
    → let (size, header) = get_default_gtp 2 type mem 0 in
      let (status, e) = gtp2ie_encaps ies header 0 size in
      let r = gtp2_recv (datagram e.mem e.len) packet in
      (status ≡ ok)
      × (e.len ≡ size + total ies)
      × (get_u16 e.mem 2 + 4 ≡ e.len)
      × (r.ret ≡ ok)
      × (e.len ≤ 8196
          → (r.len ≡ e.len)
            × (r.packet 1 ≡ type)
            × Decoded r.packet ies (gtp2ie_decap ie r.packet 0 r.len))
      × (8196 < e.len → (r.len ≡ 0) × (r.packet ≡ packet))
message_received type ies ie mem packet fits few =
    message_lem type ies ie _ packet _ (default_Header type mem 0) fits few
