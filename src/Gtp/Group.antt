-- ===== src/Gtp/Group.antt =====
-- libgtp/gtpie.c: grouped elements, and what the decoders accept.
use aalto_mme.Prelude.{
  ℕ, suc, ◌+◌, ◌%◌, ◌<◌, ◌≡◌, refl, sym, ap, ◌∙◌, arith, Option, List, [], ◌∷◌, length, lt→ltb, Mem,
  read, write, Holds, write-Holds, write_below, read_congr,
}
use aalto_mme.Gtp.Ie.{
  Member, ok, gtpie_size, gtpie_max, member_bytes, decap_loop, gtp2ie_decaps_group,
  encaps_group_loop, gtp2ie_encaps_group,
}
use aalto_mme.Gtp.Layout.{total, encode, starts, Holds-join, length-member_bytes, decap_loop-encode}
use aalto_mme.Gtp.Lookup.{Decoded, decap_finish-Decoded}

-- From offset `p` the loop wrote exactly `ms` into the value of `d`.
record Grouped (p : ℕ) (d : Member) (ms : List Member) (d' : Member) : Type 0 where
  same_type : d'.t ≡ d.t
  same_instance : d'.i ≡ d.i
  grown : d'.l ≡ d.l + total ms
  filled : Holds d'.v p (encode ms)
  before : (a : ℕ) → a < p → d'.v a ≡ d.v a

encaps_group_loop-Grouped :
    (ms : List Member) (p : ℕ) (d : Member)
    → p + total ms < gtpie_max
    → d.l + total ms < 65536
    → ((encaps_group_loop ms p d).0 ≡ ok) × Grouped p d ms (encaps_group_loop ms p d).1
unfolding encaps_group_loop
encaps_group_loop-Grouped [] p d fits short = (
  refl,
  record {
    same_type = refl;
    same_instance = refl;
    grown = omega arith;
    filled = unfold read in refl;
    before = λ a l. refl;
  },
)
encaps_group_loop-Grouped (m ∷ ms) p d fits short =
    let d1 : Member = record d {
      v = write d.v p (member_bytes m);
      l = (d.l + (4 + m.l)) % 65536;
    } in
    let (good, g) = encaps_group_loop-Grouped ms (p + (4 + m.l)) d1 (omega arith) (omega arith) in
    let size = length-member_bytes m in
    rw (lt→ltb (p + (4 + m.l)) gtpie_max (omega arith)) (
      good,
      record {
        same_type = g.same_type;
        same_instance = g.same_instance;
        grown = omega (arith, g.grown);
        filled =
            Holds-join _ p (member_bytes m) (encode ms)
              (read_congr _ d1.v p (length (member_bytes m)) (λ a l u. g.before a (omega arith))
                ∙ write-Holds d.v p (member_bytes m))
              (rw size g.filled);
        before = λ a l. g.before a (omega arith) ∙ write_below d.v p (member_bytes m) a l;
      },
    )

length-starts : (p : ℕ) (ms : List Member) → length (starts p ms) ≡ length ms
length-starts p [] = refl
length-starts p (m ∷ ms) = ap suc (length-starts (p + (4 + m.l)) ms)

decaps_group_lem :
    (ies : List Member) (ie : Mem (Option ℕ)) (g : Member)
    → length ies < gtpie_size
    → g.l ≡ total ies
    → Holds g.v 0 (encode ies)
    → ((gtp2ie_decaps_group ie g.v 0 g.l).1 ≡ length ies)
      × Decoded g.v ies (gtp2ie_decaps_group ie g.v 0 g.l).0
unfolding gtp2ie_decaps_group
decaps_group_lem ies ie g few size r =
    let e : 0 + total ies ≡ 0 + g.l = omega (arith, size) in
    (
      ap (λ n. length (decap_loop g.v gtpie_size 0 n).0) (sym e)
          ∙ ap (λ p. length p.0) (decap_loop-encode g.v ies gtpie_size 0 (omega arith) r)
          ∙ length-starts 0 ies,
      decap_finish-Decoded ie g.v 0 (0 + g.l) ies few e r,
    )

-- Fewer than 256 members of less than GTPIE_MAX octets put into a group make it one member of the
-- type and the instance given, each an octet, whose length is what they take, and the group's
-- decoder finds each of them again and counts them.
pub decaps_group-encaps_group :
    (type instance_no : ℕ) (to : Member) (ies : List Member) (ie : Mem (Option ℕ))
    → type < 256
    → instance_no < 256
    → total ies < gtpie_max
    → length ies < gtpie_size
    → let (status, g) = gtp2ie_encaps_group type instance_no to ies in
      let (decoded, size) = gtp2ie_decaps_group ie g.v 0 g.l in
      (status ≡ ok)
      × (g.t ≡ type)
      × (g.i ≡ instance_no)
      × (g.l ≡ total ies)
      × (size ≡ length ies)
      × Decoded g.v ies decoded
unfolding gtp2ie_encaps_group
decaps_group-encaps_group type instance_no to ies ie small single fits few =
    let d : Member = record to { t = type % 256; i = instance_no % 256; l = 0 } in
    let (good, g) = encaps_group_loop-Grouped ies 0 d (omega arith) (omega arith) in
    let size : (encaps_group_loop ies 0 d).1.l ≡ total ies = g.grown ∙ omega arith in
    let (counted, decoded) =
      decaps_group_lem ies ie (encaps_group_loop ies 0 d).1 few size g.filled in
    (good, g.same_type ∙ omega arith, g.same_instance ∙ omega arith, size, counted, decoded)
