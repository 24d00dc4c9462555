-- ===== src/Gtp/Ie.antt =====
-- libgtp/gtpie.c: information elements in and out of a packet buffer.
-- A packet is memory with a base address; a `union gtpie_member` is its type, its length in host
-- order, its instance and the bytes from `tliv.v` on. A member array is the list of its elements,
-- an array of member pointers (`ie[GTPIE_SIZE]`) a map from indices to an address or NULL.
use aalto_mme.Prelude.{
  ℕ, zero, suc, ◌+◌, ◌/◌, ◌%◌, ◌&&◌, Option, none, some, List, [], ◌∷◌, ◌++◌, map, length, ltb,
  ◌==◌, if◌then◌else◌, bit_and, Mem, read, write, fill, get_u16, set_u16,
}

pub record Member : Type 0 where
  pub t : ℕ  -- uint8_t
  pub l : ℕ  -- uint16_t, in host order
  pub i : ℕ  -- uint8_t
  pub v : Mem ℕ

-- 0, and -1 or EOF.
pub data Status : Type 0 where
  ok eof : Status

abbrev pub gtpie_size : ℕ
gtpie_size = 256

abbrev pub gtpie_max : ℕ
gtpie_max = 65535

-- The `4 + ntoh16(tliv.l)` bytes at the address of a member.
unfoldable pub member_bytes : Member → List ℕ
member_bytes m = m.t ∷ m.l / 256 ∷ m.l % 256 ∷ m.i ∷ read m.v 0 m.l

-- The variables of the loop of `gtp2ie_encaps`.
pub record Encaps : Type 0 where
  pub mem : Mem ℕ
  pub p : ℕ
  pub len : ℕ  -- unsigned

-- `header->length = hton16(ntoh16(header->length) + iesize)`
unfoldable pub grow_header : Mem ℕ → ℕ → ℕ → Mem ℕ
unfolding get_u16 set_u16
grow_header mem pack iesize = set_u16 mem (pack + 2) (get_u16 mem (pack + 2) + iesize)

unfoldable pub put_member : ℕ → Member → Encaps → Encaps
unfolding grow_header member_bytes
put_member pack m s = record {
  mem = grow_header (write s.mem s.p (member_bytes m)) pack (4 + m.l);
  p = s.p + (4 + m.l);
  len = (s.len + (4 + m.l)) % 4294967296;
}

unfoldable pub encaps_loop : ℕ → ℕ → List Member → Encaps → Status × Encaps
unfolding put_member
encaps_loop pack end [] s = (ok, s)
encaps_loop pack end (m ∷ ms) s =
    let rest = encaps_loop pack end ms (put_member pack m s) in
    if ltb (s.p + (4 + m.l)) end then rest else (eof, s)

-- The packet at `pack` has `len` bytes; returns the status, the memory and the new `*len`.
unfoldable pub gtp2ie_encaps : List Member → Mem ℕ → ℕ → ℕ → Status × Encaps
unfolding encaps_loop fill
gtp2ie_encaps ies mem pack len =
    encaps_loop pack (pack + len + gtpie_max) ies
      (record { mem = fill mem (pack + len) gtpie_max 0; p = pack + len; len = len })

-- The loop that `gtp2ie_decap` and `gtp2ie_decaps_group` share, with the slots that are left: the
-- addresses stored in `ie[j]`, `ie[j+1]`, … and the pointer where it stops.
unfoldable pub decap_loop : Mem ℕ → ℕ → ℕ → ℕ → List ℕ × ℕ
unfolding get_u16
decap_loop mem zero p end = ([], p)
decap_loop mem (suc slots) p end =
    let rest = decap_loop mem slots (p + (4 + get_u16 mem (p + 1))) end in
    if ltb p end then (p ∷ rest.0, rest.1) else ([], p)

-- What follows the loop: `ie[j] = NULL` and 0 if it landed on the end, else EOF.
unfoldable pub decap_finish : Mem (Option ℕ) → List ℕ × ℕ → ℕ → Status × Mem (Option ℕ)
decap_finish ie (ps, p) end =
    if p == end
    then (ok, write ie 0 (map some ps ++ (none ∷ [])))
    else (eof, write ie 0 (map some ps))

-- The T flag of the header says whether the tunnel identifier is there.
unfoldable pub ie_start : Mem ℕ → ℕ → ℕ
ie_start mem pack = if bit_and (mem pack) 0xe8 == 0x40 then pack + 8 else pack + 12

unfoldable pub gtp2ie_decap : Mem (Option ℕ) → Mem ℕ → ℕ → ℕ → Status × Mem (Option ℕ)
gtp2ie_decap ie mem pack len =
    decap_finish ie (decap_loop mem gtpie_size (ie_start mem pack) (pack + len)) (pack + len)

-- Returns the number of elements (`*size`) too.
unfoldable pub gtp2ie_decaps_group : Mem (Option ℕ) → Mem ℕ → ℕ → ℕ → (Status × Mem (Option ℕ)) × ℕ
gtp2ie_decaps_group ie mem from len =
    let r = decap_loop mem gtpie_size from (from + len) in
    (decap_finish ie r (from + len), length r.0)

-- The index of the first element of that type and instance; the scan stops at NULL.
unfoldable pub getie_loop : Mem (Option ℕ) → Mem ℕ → ℕ → ℕ → ℕ → ℕ → Option ℕ
getie_loop ie mem type instance_no zero j = none
getie_loop ie mem type instance_no (suc slots) j = elim (ie j) [
  | none ↦ none
  | some q ↦
      let rest = getie_loop ie mem type instance_no slots (j + 1) in
      if mem q == type && mem (q + 3) == instance_no then some j else rest
]

unfoldable pub gtpie_getie : Mem (Option ℕ) → Mem ℕ → ℕ → ℕ → Option ℕ
gtpie_getie ie mem type instance_no = getie_loop ie mem type instance_no gtpie_size 0

-- The status, the destination buffer and `*iesize`.
unfoldable pub copy_value : Mem ℕ → Option ℕ → Mem ℕ → Status × Mem ℕ × ℕ
unfolding get_u16
copy_value mem (some q) dst =
    (ok, write dst 0 (read mem (q + 4) (get_u16 mem (q + 1))), get_u16 mem (q + 1))
copy_value mem none dst = (eof, dst, 0)

unfoldable pub gtp2ie_gettliv : Mem (Option ℕ) → Mem ℕ → ℕ → ℕ → Mem ℕ → Status × Mem ℕ × ℕ
gtp2ie_gettliv ie mem type instance_no dst = elim (gtpie_getie ie mem type instance_no) [
  | some ien ↦ copy_value mem (ie ien) dst
  | none ↦ (eof, dst, 0)
]

-- The loop of `gtp2ie_encaps_group`, over the value of the member that it fills; `p` is the offset
-- from the start of that value.
unfoldable pub encaps_group_loop : List Member → ℕ → Member → Status × Member
unfolding member_bytes
encaps_group_loop [] p dst = (ok, dst)
encaps_group_loop (m ∷ ms) p dst =
    let rest =
      encaps_group_loop ms (p + (4 + m.l))
        (record dst { v = write dst.v p (member_bytes m); l = (dst.l + (4 + m.l)) % 65536 }) in
    if ltb (p + (4 + m.l)) gtpie_max then rest else (eof, dst)

unfoldable pub gtp2ie_encaps_group : ℕ → ℕ → Member → List Member → Status × Member
unfolding encaps_group_loop
gtp2ie_encaps_group type instance_no to ies =
    encaps_group_loop ies 0 (record to { t = type % 256; i = instance_no % 256; l = 0 })
