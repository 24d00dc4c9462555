-- ===== src/Gtp/EncapsLoop.antt =====
-- The loop of `gtp2ie_encaps` of libgtp/gtpie.c: what it writes, when it fails, what it leaves.
use aalto_mme.Prelude.{
  ℕ, ◌+◌, ◌%◌, ◌≤◌, ◌<◌, ◌≡◌, ◌≢◌, refl, ◌∙◌, arith, List, [], ◌∷◌, length, ltb, Mem, read, write,
  Holds, get_u16, write-Holds, write_below, write_above, read_congr, Bool-cases, lt→ltb, ltb→lt,
  ◌⊎◌, inl, inr,
}
use aalto_mme.Gtp.Ie.{Member, ok, eof, member_bytes, Encaps, grow_header, put_member, encaps_loop}
use aalto_mme.Gtp.Layout.{total, encode, length-member_bytes, Holds-join}

grow_header_kept :
    (mem : Mem ℕ) (pack n a : ℕ) → a ≢ pack + 2 → a ≢ pack + 3 → grow_header mem pack n a ≡ mem a
unfolding grow_header
grow_header_kept mem pack n a h k = ground arith

grow_header_value :
    (mem : Mem ℕ) (pack n : ℕ)
    → get_u16 (grow_header mem pack n) (pack + 2) ≡ (get_u16 mem (pack + 2) + n) % 65536
unfolding grow_header
grow_header_value mem pack n = ground arith

-- From `s` the loop wrote exactly `ms`: it moved past them, counted them in `*len` and in the
-- length field of the header, and touched nothing else below the place where it began.
pub record Wrote (pack : ℕ) (s : Encaps) (ms : List Member) (s' : Encaps) : Type 0 where
  pub moved : s'.p ≡ s.p + total ms
  pub counted : s'.len ≡ (s.len + total ms) % 4294967296
  pub header : get_u16 s'.mem (pack + 2) ≡ (get_u16 s.mem (pack + 2) + total ms) % 65536
  pub written : Holds s'.mem s.p (encode ms)
  pub kept : (a : ℕ) → a < s.p → a ≢ pack + 2 → a ≢ pack + 3 → s'.mem a ≡ s.mem a

put_member-Wrote :
    (pack : ℕ) (s : Encaps) (m : Member) (ms : List Member) (s' : Encaps)
    → pack + 4 ≤ s.p
    → Wrote pack (put_member pack m s) ms s'
    → Wrote pack s (m ∷ ms) s'
unfolding put_member
put_member-Wrote pack s m ms s' above w =
    let mem1 : Mem ℕ = write s.mem s.p (member_bytes m) in
    let size = length-member_bytes m in
    record {
      moved = omega (arith, w.moved);
      counted = omega (arith, w.counted);
      header =
          let old : get_u16 mem1 (pack + 2) ≡ get_u16 s.mem (pack + 2) =
            unfold get_u16 in
            ground (
              arith,
              write_below s.mem s.p (member_bytes m) (pack + 2) (omega arith),
              write_below s.mem s.p (member_bytes m) (pack + 2 + 1) (omega arith),
            ) in
          omega (arith, w.header, grow_header_value mem1 pack (4 + m.l), old);
      written =
          Holds-join s'.mem s.p (member_bytes m) (encode ms)
            (read_congr s'.mem mem1 s.p (length (member_bytes m)) (λ a l u.
                w.kept a (omega arith) (omega arith) (omega arith)
                ∙ grow_header_kept mem1 pack (4 + m.l) a (omega arith) (omega arith))
              ∙ write-Holds s.mem s.p (member_bytes m))
            (rw size w.written);
      kept = λ a l h k.
          w.kept a (omega arith) h k
          ∙ grow_header_kept mem1 pack (4 + m.l) a h k
          ∙ write_below s.mem s.p (member_bytes m) a l;
    }

-- Within its bound the loop of `gtp2ie_encaps` writes all the members.
pub encaps_loop-Wrote :
    (pack end : ℕ) (ms : List Member) (s : Encaps)
    → pack + 4 ≤ s.p
    → s.p + total ms < end
    → s.len < 4294967296
    → get_u16 s.mem (pack + 2) < 65536
    → ((encaps_loop pack end ms s).0 ≡ ok) × Wrote pack s ms (encaps_loop pack end ms s).1
unfolding encaps_loop
encaps_loop-Wrote pack end [] s above fits small word = (
  refl,
  record {
    moved = omega arith;
    counted = omega arith;
    header = omega arith;
    written = unfold read in refl;
    kept = λ a l h k. refl;
  },
)
encaps_loop-Wrote pack end (m ∷ ms) s above fits small word =
    rw (lt→ltb (s.p + (4 + m.l)) end (omega arith)) (
      let rest =
        encaps_loop-Wrote pack end ms (put_member pack m s) (unfold put_member in omega arith)
          (unfold put_member in omega arith) (unfold put_member in omega arith)
          (unfold put_member in
            omega (arith, grow_header_value (write s.mem s.p (member_bytes m)) pack (4 + m.l))) in
      (rest.0, put_member-Wrote pack s m ms _ above rest.1))

-- The loop fails as soon as the members reach the bound.
pub encaps_loop_full :
    (pack end : ℕ) (m : Member) (ms : List Member) (s : Encaps)
    → end ≤ s.p + total (m ∷ ms)
    → (encaps_loop pack end (m ∷ ms) s).0 ≡ eof
unfolding encaps_loop put_member
encaps_loop_full pack end m [] s over = ground arith
encaps_loop_full pack end m (m' ∷ ms) s over =
    ground (arith, encaps_loop_full pack end m' ms (put_member pack m s))

-- Whatever its outcome, the loop writes to the header's length and to its own range alone.
pub encaps_loop_outside :
    (pack end : ℕ) (ms : List Member) (s : Encaps) (a : ℕ)
    → a ≢ pack + 2
    → a ≢ pack + 3
    → (a < s.p) ⊎ (end ≤ a)
    → (encaps_loop pack end ms s).1.mem a ≡ s.mem a
unfolding encaps_loop
encaps_loop_outside pack end [] s a h k out = refl
encaps_loop_outside pack end (m ∷ ms) s a h k out = elim (Bool-cases (ltb (s.p + (4 + m.l)) end)) [
  | inl room ↦ rw room (
      encaps_loop_outside pack end ms (put_member pack m s) a h k (farther out)
      ∙ put_member_outside (ltb→lt (s.p + (4 + m.l)) end room) out)
  | inr full ↦ rw full
]
  where
    farther : (a < s.p) ⊎ (end ≤ a) → (a < (put_member pack m s).p) ⊎ (end ≤ a)
    farther (inl l) = inl (unfold put_member in omega arith)
    farther (inr u) = inr u

    put_member_outside :
        s.p + (4 + m.l) < end → (a < s.p) ⊎ (end ≤ a) → (put_member pack m s).mem a ≡ s.mem a
    put_member_outside room (inl l) =
        unfold put_member in
        (grow_header_kept (write s.mem s.p (member_bytes m)) pack (4 + m.l) a h k
          ∙ write_below s.mem s.p (member_bytes m) a l)
    put_member_outside room (inr u) =
        unfold put_member in
        (grow_header_kept (write s.mem s.p (member_bytes m)) pack (4 + m.l) a h k
          ∙ write_above s.mem s.p (member_bytes m) a (omega (arith, length-member_bytes m)))

pub encaps_loop_fits :
    (pack end : ℕ) (ms : List Member) (s : Encaps)
    → s.p + total ms < end
    → (encaps_loop pack end ms s).0 ≡ ok
unfolding encaps_loop
encaps_loop_fits pack end [] s h = refl
encaps_loop_fits pack end (m ∷ ms) s h =
    rw (lt→ltb (s.p + (4 + m.l)) end (omega arith))
      (encaps_loop_fits pack end ms (put_member pack m s) (unfold put_member in omega arith))

pub encaps_loop_ok :
    (pack end : ℕ) (ms : List Member) (s : Encaps)
    → s.p < end
    → (encaps_loop pack end ms s).0 ≡ ok
    → s.p + total ms < end
unfolding encaps_loop
encaps_loop_ok pack end [] s room h = omega arith
encaps_loop_ok pack end (m ∷ ms) s room h = elim (Bool-cases (ltb (s.p + (4 + m.l)) end)) [
  | inl more ↦
      let rest =
        encaps_loop_ok pack end ms (put_member pack m s)
          (unfold put_member in omega (arith, ltb→lt (s.p + (4 + m.l)) end more)) (rw more at h) in
      next rest
  | inr full ↦ cc (rw full at h)
]
  where
    next : (put_member pack m s).p + total ms < end → s.p + total (m ∷ ms) < end
    next r = unfold put_member in omega arith
