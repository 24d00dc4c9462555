-- ===== src/Nas/Options.antt =====
-- NAS/src/NASMessages.c: the optional elements of a message, decoded in the order of a table.
use aalto_mme.Prelude.{
  ℕ, suc, ◌+◌, ◌-◌, ◌*◌, ◌/◌, ◌%◌, ◌<◌, ◌≡◌, Bool, true, ◌&&◌, not, Option, none, some, List, [],
  ◌∷◌, ◌++◌, length, ◌==◌, if◌then◌else◌, bit_and, bit_or, Mem, read,
}

-- `*buffer`, `*size` (a size_t) and the optionals stored so far; `*optIndex` is their number.
pub record Cursor : Type 0 where
  pub pos : ℕ
  pub size : ℕ
  pub opts : List (List ℕ)

-- `(*size) -= n`, modulo 2 ^ 64.
abbrev pub minus_size : ℕ → ℕ → ℕ
minus_size size n = (size + 18446744073709551616 - n) % 18446744073709551616

-- Take `n` octets as the next optional, stored as `e`.
unfoldable pub take_option : ℕ → List ℕ → Cursor → Cursor
take_option n e c = record {
  pos = c.pos + n;
  size = minus_size c.size n;
  opts = c.opts ++ (e ∷ []);
}

unfoldable pub dec_nas_opt_tlv : Mem ℕ → ℕ → Cursor → Cursor
unfolding take_option
dec_nas_opt_tlv mem type c =
    if c.size == 0
    then c
    else if mem c.pos == type
    then take_option (mem (c.pos + 1) + 2) (read mem c.pos (mem (c.pos + 1) + 2)) c
    else c

unfoldable pub dec_nas_opt_tv_t3 : Mem ℕ → ℕ → ℕ → Cursor → Cursor
unfolding take_option
dec_nas_opt_tv_t3 mem type len c =
    if c.size == 0
    then c
    else if mem c.pos == type
    then take_option len (read mem c.pos len) c
    else c

-- The type is the high nibble; of the element only its first octet is set.
unfoldable pub dec_nas_opt_tv_t1 : Mem ℕ → ℕ → ℕ → Cursor → Cursor
unfolding take_option
dec_nas_opt_tv_t1 mem type value_mask c =
    if c.size == 0
    then c
    else if bit_and (mem c.pos) 0xf0 == type * 16
    then take_option 1 (bit_and (mem c.pos) (bit_or 0xf0 value_mask) ∷ []) c
    else c

-- One line of a message's table of optionals.
pub data Opt : Type 0 where
  tlv : ℕ → Opt
  tv_t3 tv_t1 : ℕ → ℕ → Opt

unfoldable pub dec_option : Mem ℕ → Opt → Cursor → Cursor
unfolding dec_nas_opt_tlv dec_nas_opt_tv_t3 dec_nas_opt_tv_t1
dec_option mem (tlv type) c = dec_nas_opt_tlv mem type c
dec_option mem (tv_t3 type len) c = dec_nas_opt_tv_t3 mem type len c
dec_option mem (tv_t1 type value_mask) c = dec_nas_opt_tv_t1 mem type value_mask c

unfoldable pub dec_options : Mem ℕ → List Opt → Cursor → Cursor
dec_options mem [] c = c
dec_options mem (o ∷ os) c = dec_options mem os (dec_option mem o c)

-- The octets of an element of that line.
abbrev pub Fits : Opt → List ℕ → Type 0
Fits (tlv type) [] = ⊥
Fits (tlv type) (t ∷ []) = ⊥
Fits (tlv type) (t ∷ l ∷ v) = (t ≡ type) × (l ≡ length v) × (l < 256)
Fits (tv_t3 type len) [] = ⊥
Fits (tv_t3 type len) (t ∷ v) = (t ≡ type) × (len ≡ suc (length v))
Fits (tv_t1 type mask) [] = ⊥
Fits (tv_t1 type mask) (b ∷ []) = (b < 256) × (b / 16 ≡ type)
Fits (tv_t1 type mask) (b ∷ _ ∷ _) = ⊥

-- What is kept of it.
abbrev pub stored : Opt → List ℕ → List ℕ
stored (tv_t1 type mask) (b ∷ v) = bit_and b (bit_or 0xf0 mask) ∷ []
stored (tlv type) e = e
stored (tv_t3 type len) e = e
stored (tv_t1 type mask) [] = []

-- Whether an octet is taken for the start of that line's element.
abbrev pub takes : Opt → ℕ → Bool
takes (tlv type) b = b == type
takes (tv_t3 type len) b = b == type
takes (tv_t1 type mask) b = bit_and b 0xf0 == type * 16

-- An element is a member of the table's line, or the line is left out.
abbrev pub Chosen : List Opt → List (Option (List ℕ)) → Type 0
Chosen [] [] = Unit {0}
Chosen [] (_ ∷ _) = ⊥
Chosen (o ∷ os) [] = ⊥
Chosen (o ∷ os) (none ∷ es) = Chosen os es
Chosen (o ∷ os) (some e ∷ es) = Fits o e × Chosen os es

abbrev pub option_bytes : List (Option (List ℕ)) → List ℕ
option_bytes [] = []
option_bytes (none ∷ es) = option_bytes es
option_bytes (some e ∷ es) = e ++ option_bytes es

abbrev pub stored_options : List Opt → List (Option (List ℕ)) → List (List ℕ)
stored_options [] es = []
stored_options (o ∷ os) [] = []
stored_options (o ∷ os) (none ∷ es) = stored_options os es
stored_options (o ∷ os) (some e ∷ es) = stored o e ∷ stored_options os es

-- No element of the second line is taken for one of the first.
abbrev pub apart : Opt → Opt → Bool
apart (tv_t1 t m) (tv_t1 t' m') = not (t == t')
apart (tv_t1 t m) (tlv t') = not (t' / 16 % 16 == t)
apart (tv_t1 t m) (tv_t3 t' n) = not (t' / 16 % 16 == t)
apart (tlv t) (tv_t1 t' m') = not (t / 16 == t')
apart (tv_t3 t n) (tv_t1 t' m') = not (t / 16 == t')
apart (tlv t) (tlv t') = not (t == t')
apart (tlv t) (tv_t3 t' n) = not (t == t')
apart (tv_t3 t n) (tlv t') = not (t == t')
apart (tv_t3 t n) (tv_t3 t' n') = not (t == t')

abbrev pub apart_from : Opt → List Opt → Bool
apart_from o [] = true
apart_from o (o' ∷ os) = apart o o' && apart_from o os

-- The lines of a table do not clash.
abbrev pub clash_free : List Opt → Bool
clash_free [] = true
clash_free (o ∷ os) = apart_from o os && clash_free os
