-- ===== src/Nas/OptionsRoundTrip.antt =====
-- The optional elements of a NAS message (NAS/src/NASMessages.c): any selection of a table's lines,
-- in the order of the table, is decoded.
use aalto_mme.Prelude.{
  ℕ, ◌+◌, ◌<◌, ◌≡◌, refl, ap, ◌∙◌, arith, true, false, Option, none, some, List, [], ◌∷◌, ◌++◌,
  length, length-append, Mem, read, Holds,
}
use mathlib.Core.List.{append-nil, append_assoc}
use aalto_mme.Prelude.Bits.{high_nibble}
use aalto_mme.Gtp.Layout.{Holds-append}
use aalto_mme.Nas.Options.{
  Cursor, take_option, Opt, tlv, tv_t3, tv_t1, dec_option, dec_options, Fits, stored, takes, Chosen,
  option_bytes, stored_options, apart, apart_from, clash_free,
}

-- The cursor behind an element `e`, with `n` octets left.
abbrev past : Cursor → List ℕ → List ℕ → ℕ → Cursor
past c e kept n = record { pos = c.pos + length e; size = n; opts = c.opts ++ (kept ∷ []) }

take_option-past :
    (c : Cursor) (e kept : List ℕ) (n : ℕ)
    → c.size ≡ length e + n
    → c.size < 18446744073709551616
    → take_option (length e) kept c ≡ past c e kept n
unfolding take_option
take_option-past c e kept n s h = ground arith

-- A copy of `k` octets is the element, if that is its length.
counted_copy :
    (mem : Mem ℕ) (p k : ℕ) (e : List ℕ) → k ≡ length e → Holds mem p e → read mem p k ≡ e
counted_copy mem p k e s r = ap (read mem p) s ∙ r

dec_option-Fits :
    (mem : Mem ℕ) (o : Opt) (e : List ℕ) (c : Cursor) (n : ℕ)
    → Fits o e
    → Holds mem c.pos e
    → c.size ≡ length e + n
    → c.size < 18446744073709551616
    → dec_option mem o c ≡ past c e (stored o e) n
unfolding dec_option read
dec_option-Fits mem (tlv type) [] c n f r s h = absurd f
dec_option-Fits mem (tlv type) (t ∷ []) c n f r s h = absurd f
dec_option-Fits mem (tlv type) (t ∷ l ∷ v) c n f r s h =
    let count : mem (c.pos + 1) + 2 ≡ length (t ∷ l ∷ v) = ground arith in
    ground (
      arith,
      counted_copy mem c.pos (mem (c.pos + 1) + 2) (t ∷ l ∷ v) count r,
      take_option-past c (t ∷ l ∷ v) (t ∷ l ∷ v) n s h,
    )
dec_option-Fits mem (tv_t3 type len) [] c n f r s h = absurd f
dec_option-Fits mem (tv_t3 type len) (t ∷ v) c n f r s h =
    ground
      (arith, counted_copy mem c.pos len (t ∷ v) f.1 r, take_option-past c (t ∷ v) (t ∷ v) n s h)
dec_option-Fits mem (tv_t1 type mask) [] c n f r s h = absurd f
dec_option-Fits mem (tv_t1 type mask) (b ∷ _ ∷ _) c n f r s h = absurd f
dec_option-Fits mem (tv_t1 type mask) (b ∷ []) c n f r s h =
    ground
      (arith, high_nibble b, take_option-past c (b ∷ []) (stored (tv_t1 type mask) (b ∷ [])) n s h)

-- A line whose element is not next leaves the cursor.
dec_option_skip :
    (mem : Mem ℕ) (o : Opt) (c : Cursor) → takes o (mem c.pos) ≡ false → dec_option mem o c ≡ c
unfolding dec_option
dec_option_skip mem (tlv type) c h = ground arith
dec_option_skip mem (tv_t3 type len) c h = ground arith
dec_option_skip mem (tv_t1 type mask) c h = ground arith

dec_option_end : (mem : Mem ℕ) (o : Opt) (c : Cursor) → c.size ≡ 0 → dec_option mem o c ≡ c
unfolding dec_option
dec_option_end mem (tlv type) c h = ground arith
dec_option_end mem (tv_t3 type len) c h = ground arith
dec_option_end mem (tv_t1 type mask) c h = ground arith

-- The first octet of an element of a line that is apart is not taken.
apart-takes :
    (o o' : Opt) (b : ℕ) (e : List ℕ) → apart o o' ≡ true → Fits o' (b ∷ e) → takes o b ≡ false
apart-takes (tlv t) (tlv t') b [] h f = absurd f
apart-takes (tlv t) (tlv t') b (l ∷ v) h f = ground arith
apart-takes (tlv t) (tv_t3 t' n) b e h f = ground arith
apart-takes (tlv t) (tv_t1 t' m) b [] h f = ground arith
apart-takes (tlv t) (tv_t1 t' m) b (_ ∷ _) h f = absurd f
apart-takes (tv_t3 t n) (tlv t') b [] h f = absurd f
apart-takes (tv_t3 t n) (tlv t') b (l ∷ v) h f = ground arith
apart-takes (tv_t3 t n) (tv_t3 t' n') b e h f = ground arith
apart-takes (tv_t3 t n) (tv_t1 t' m) b [] h f = ground arith
apart-takes (tv_t3 t n) (tv_t1 t' m) b (_ ∷ _) h f = absurd f
apart-takes (tv_t1 t m) (tlv t') b [] h f = absurd f
apart-takes (tv_t1 t m) (tlv t') b (l ∷ v) h f = ground (arith, high_nibble b)
apart-takes (tv_t1 t m) (tv_t3 t' n) b e h f = ground (arith, high_nibble b)
apart-takes (tv_t1 t m) (tv_t1 t' m') b [] h f = ground (arith, high_nibble b)
apart-takes (tv_t1 t m) (tv_t1 t' m') b (_ ∷ _) h f = absurd f

-- The octet that comes next, if there is one, starts an element of one of the lines.
next_apart :
    (o : Opt) (os : List Opt) (es : List (Option (List ℕ))) (b : ℕ) (rest : List ℕ)
    → apart_from o os ≡ true
    → Chosen os es
    → option_bytes es ≡ b ∷ rest
    → takes o b ≡ false
next_apart o [] [] b rest a f e = cc
next_apart o [] (_ ∷ _) b rest a f e = absurd f
next_apart o (o' ∷ os) [] b rest a f e = absurd f
next_apart o (o' ∷ os) (none ∷ es) b rest a f e = next_apart o os es b rest (ground arith) f e
next_apart o (o' ∷ os) (some [] ∷ es) b rest a f e = absurd (not_empty o' f.0)
  where
    not_empty : (o : Opt) → Fits o [] → ⊥
    not_empty (tlv t) h = h
    not_empty (tv_t3 t n) h = h
    not_empty (tv_t1 t m) h = h
next_apart o (o' ∷ os) (some (b' ∷ e') ∷ es) b rest a f e =
    let same : b' ≡ b = cc in rw same at (apart-takes o o' b' e' (ground arith) f.0)

-- Decoding stops in the same place with nothing left when nothing was left.
pub dec_options_end :
    (mem : Mem ℕ) (os : List Opt) (c : Cursor) → c.size ≡ 0 → dec_options mem os c ≡ c
unfolding dec_options
dec_options_end mem [] c h = refl
dec_options_end mem (o ∷ os) c h =
    ap (dec_options mem os) (dec_option_end mem o c h) ∙ dec_options_end mem os c h

-- A line that was left out is passed over.
skip_absent :
    (mem : Mem ℕ) (o : Opt) (os : List Opt) (es : List (Option (List ℕ))) (bytes : List ℕ)
    (c : Cursor)
    → option_bytes es ≡ bytes
    → apart_from o os ≡ true
    → Chosen os es
    → Holds mem c.pos bytes
    → c.size ≡ length bytes
    → dec_option mem o c ≡ c
skip_absent mem o os es [] c e a f r s = dec_option_end mem o c s
skip_absent mem o os es (b ∷ rest) c e a f r s =
    let first : mem c.pos ≡ b = unfold read in ground arith in
    dec_option_skip mem o c (rw first (next_apart o os es b rest a f e))

-- Any selection of the lines of a table whose lines do not clash, in the order of the table, is
-- decoded up to the end of the message, and exactly what was selected is stored.
pub dec_options-option_bytes :
    (mem : Mem ℕ) (os : List Opt) (es : List (Option (List ℕ))) (c : Cursor)
    → clash_free os ≡ true
    → Chosen os es
    → Holds mem c.pos (option_bytes es)
    → c.size ≡ length (option_bytes es)
    → c.size < 18446744073709551616
    → dec_options mem os c ≡ record {
      pos = c.pos + length (option_bytes es);
      size = 0;
      opts = c.opts ++ stored_options os es;
    }
unfolding dec_options
dec_options-option_bytes mem [] [] c a f r s h = ground (arith, append-nil c.opts)
dec_options-option_bytes mem [] (_ ∷ _) c a f r s h = absurd f
dec_options-option_bytes mem (o ∷ os) [] c a f r s h = absurd f
dec_options-option_bytes mem (o ∷ os) (none ∷ es) c a f r s h =
    ap (dec_options mem os) (skip_absent mem o os es (option_bytes es) c refl (ground arith) f r s)
    ∙ dec_options-option_bytes mem os es c (ground arith) f r s h
dec_options-option_bytes mem (o ∷ os) (some e ∷ es) c a (f, fs) r s h =
    let (here, later) = Holds-append mem c.pos e (option_bytes es) r in
    let split = length-append e (option_bytes es) in
    let n : ℕ = length (option_bytes es) in
    let c' : Cursor = past c e (stored o e) n in
    ap (dec_options mem os) (dec_option-Fits mem o e c n f here (omega arith) h)
    ∙ dec_options-option_bytes mem os es c' (ground arith) fs later refl (omega arith)
    ∙ ground (arith, split, append_assoc c.opts (stored o e ∷ []) (stored_options os es))
