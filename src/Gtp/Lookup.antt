-- ===== src/Gtp/Lookup.antt =====
-- libgtp/gtpie.c: looking an element up in a decoded pointer array.
use aalto_mme.Prelude.{
  ℕ, zero, suc, ◌+◌, ◌<◌, ◌≡◌, refl, ◌∙◌, arith, Option, none, some, List, [], ◌∷◌, ◌++◌, map,
  length, Mem, read, write, store, Holds, write_below, ==_iff,
}
use aalto_mme.Gtp.Ie.{
  Member, Status, ok, eof, gtpie_size, decap_loop, decap_finish, getie_loop, gtpie_getie,
  copy_value, gtp2ie_gettliv, member_bytes,
}
use aalto_mme.Gtp.Layout.{
  total, encode, starts, find_member, Holds-append, length-member_bytes, MemberAt-Holds,
  decap_loop-encode,
}

-- The pointer array holds the addresses `ps` from index `j` on, and then NULL.
abbrev pub Slots : Mem (Option ℕ) → ℕ → List ℕ → Type 0
Slots ie j [] = ie j ≡ none
Slots ie j (p ∷ ps) = (ie j ≡ some p) × Slots ie (j + 1) ps

write-Slots :
    (ie : Mem (Option ℕ)) (j : ℕ) (ps : List ℕ)
    → Slots (write ie j (map some ps ++ (none ∷ []))) j ps
unfolding write store
write-Slots ie j [] = ground arith
write-Slots ie j (p ∷ ps) = (
  write_below (store ie j (some p)) (j + 1) (map some ps ++ (none ∷ [])) j (omega arith)
      ∙ ground arith,
  write-Slots (store ie j (some p)) (j + 1) ps,
)

-- What `gtp2ie_gettliv` answers for an element that was found, or was not.
unfoldable pub value_of : Option Member → Mem ℕ → Status × Mem ℕ × ℕ
value_of none dst = (eof, dst, 0)
value_of (some m) dst = (ok, write dst 0 (read m.v 0 m.l), m.l)

abbrev copied : Mem (Option ℕ) → Mem ℕ → Mem ℕ → Option ℕ → Status × Mem ℕ × ℕ
copied ie mem dst none = (eof, dst, 0)
copied ie mem dst (some ien) = copy_value mem (ie ien) dst

getie_loop-find_member :
    (ie : Mem (Option ℕ)) (mem dst : Mem ℕ) (type instance_no : ℕ) (ms : List Member)
    (slots j p : ℕ)
    → length ms < slots
    → Slots ie j (starts p ms)
    → Holds mem p (encode ms)
    → copied ie mem dst (getie_loop ie mem type instance_no slots j)
      ≡ value_of (find_member type instance_no ms) dst
unfolding getie_loop find_member value_of copy_value
getie_loop-find_member ie mem dst type instance_no ms zero j p few s r = absurd (omega arith)
getie_loop-find_member ie mem dst type instance_no [] (suc slots) j p few s r = ground arith
getie_loop-find_member ie mem dst type instance_no (m ∷ ms) (suc slots) j p few (s, later) r =
    let (here, behind) = Holds-append mem p (member_bytes m) (encode ms) r in
    let at = MemberAt-Holds mem p m here in
    let next : p + length (member_bytes m) ≡ p + (4 + m.l) = omega (arith, length-member_bytes m) in
    let rest =
      getie_loop-find_member ie mem dst type instance_no ms slots (j + 1) (p + (4 + m.l))
        (omega arith) later (rw next at behind) in
    ground (arith, rest, at)

-- `gtp2ie_gettliv` over a decoded array answers like a search in the list of members.
gettliv-Slots :
    (ie : Mem (Option ℕ)) (mem : Mem ℕ) (p type instance_no : ℕ) (ms : List Member) (dst : Mem ℕ)
    → length ms < gtpie_size
    → Slots ie 0 (starts p ms)
    → Holds mem p (encode ms)
    → gtp2ie_gettliv ie mem type instance_no dst ≡ value_of (find_member type instance_no ms) dst
unfolding gtp2ie_gettliv gtpie_getie
gettliv-Slots ie mem p type instance_no ms dst few s r =
    ground (arith, getie_loop-find_member ie mem dst type instance_no ms gtpie_size 0 p few s r)

decap_finish-starts :
    (ie : Mem (Option ℕ)) (p end : ℕ) (ms : List Member)
    → p + total ms ≡ end
    → ((decap_finish ie (starts p ms, p + total ms) end).0 ≡ ok)
      × Slots (decap_finish ie (starts p ms, p + total ms) end).1 0 (starts p ms)
unfolding decap_finish
decap_finish-starts ie p end ms e =
    rw ((==_iff (p + total ms) end).1 e) (refl, write-Slots ie 0 (starts p ms))

-- What a decoder finds in `mem` between `p` and `end`.
pub record Decoded (mem : Mem ℕ) (ms : List Member) (r : Status × Mem (Option ℕ)) : Type 0 where
  pub accepted : r.0 ≡ ok
  pub finds :
      (type instance_no : ℕ) (dst : Mem ℕ)
      → gtp2ie_gettliv r.1 mem type instance_no dst ≡ value_of (find_member type instance_no ms) dst

pub decap_finish-Decoded :
    (ie : Mem (Option ℕ)) (mem : Mem ℕ) (p end : ℕ) (ms : List Member)
    → length ms < gtpie_size
    → p + total ms ≡ end
    → Holds mem p (encode ms)
    → Decoded mem ms (decap_finish ie (decap_loop mem gtpie_size p end) end)
decap_finish-Decoded ie mem p end ms few e r =
    rw (← e, decap_loop-encode mem ms gtpie_size p (omega arith) r)
      (let (good, slots) = decap_finish-starts ie p (p + total ms) ms refl in
        record {
          accepted = good;
          finds = λ type instance_no dst. gettliv-Slots _ mem p type instance_no ms dst few slots r;
        })
