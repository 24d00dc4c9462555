-- ===== src/Gtp/Layout.antt =====
-- How a list of members lies in a packet, and what the two loops of libgtp/gtpie.c do with it.
use aalto_mme.Prelude.{
  ℕ, zero, suc, ◌+◌, ◌≤◌, ◌≡◌, refl, sym, ap, ◌∙◌, arith, ◌&&◌, Option, none, some, List, [], ◌∷◌,
  ◌++◌, length, length-append, ◌==◌, if◌then◌else◌, Mem, read, Holds, get_u16, read-add,
  length-read,
}
use aalto_mme.Gtp.Ie.{Member, member_bytes, decap_loop}

-- The bytes that a list of members takes.
abbrev pub total : List Member → ℕ
total [] = 0
total (m ∷ ms) = 4 + m.l + total ms

-- The members, one behind the other.
abbrev pub encode : List Member → List ℕ
encode [] = []
encode (m ∷ ms) = member_bytes m ++ encode ms

-- Where each of them starts.
abbrev pub starts : ℕ → List Member → List ℕ
starts p [] = []
starts p (m ∷ ms) = p ∷ starts (p + (4 + m.l)) ms

-- The first member of a type and instance.
unfoldable pub find_member : ℕ → ℕ → List Member → Option Member
find_member type instance_no [] = none
find_member type instance_no (m ∷ ms) =
    if m.t == type && m.i == instance_no then some m else find_member type instance_no ms

pub length-member_bytes : (m : Member) → length (member_bytes m) ≡ 4 + m.l
unfolding member_bytes
length-member_bytes m = omega (arith, length-read m.v 0 m.l)

pub length-encode : (ms : List Member) → length (encode ms) ≡ total ms
length-encode [] = refl
length-encode (m ∷ ms) =
    omega
      (arith, length-append (member_bytes m) (encode ms), length-member_bytes m, length-encode ms)

append-injective : (a b c d : List ℕ) → length a ≡ length c → a ++ b ≡ c ++ d → (a ≡ c) × (b ≡ d)
append-injective [] b [] d l e = (refl, e)
append-injective [] b (x ∷ c) d l e = absurd (omega arith)
append-injective (x ∷ a) b [] d l e = absurd (omega arith)
append-injective (x ∷ a) b (y ∷ c) d l e =
    ground (arith, append-injective a b c d (omega arith) (ground arith))

-- Two runs of bytes in memory, one behind the other.
pub Holds-append :
    (m : Mem ℕ) (p : ℕ) (xs ys : List ℕ)
    → Holds m p (xs ++ ys)
    → Holds m p xs × Holds m (p + length xs) ys
Holds-append m p xs ys h =
    append-injective (read m p (length xs)) (read m (p + length xs) (length ys)) xs ys
      (length-read m p (length xs))
      (sym (read-add m p (length xs) (length ys)) ∙ ap (read m p) (sym (length-append xs ys)) ∙ h)

pub Holds-join :
    (m : Mem ℕ) (p : ℕ) (xs ys : List ℕ)
    → Holds m p xs
    → Holds m (p + length xs) ys
    → Holds m p (xs ++ ys)
Holds-join m p xs ys hx hy =
    ap (read m p) (length-append xs ys)
    ∙ read-add m p (length xs) (length ys)
    ∙ ground (arith, hx, hy)

-- What the header of a member says.
pub record MemberAt (mem : Mem ℕ) (p : ℕ) (m : Member) : Type 0 where
  pub type_at : mem p ≡ m.t
  pub length_at : get_u16 mem (p + 1) ≡ m.l
  pub instance_at : mem (p + 3) ≡ m.i
  pub value_at : read mem (p + 4) m.l ≡ read m.v 0 m.l

pub MemberAt-Holds :
    (mem : Mem ℕ) (p : ℕ) (m : Member) → Holds mem p (member_bytes m) → MemberAt mem p m
unfolding member_bytes read get_u16
MemberAt-Holds mem p m h =
    let e : length (read m.v 0 m.l) ≡ m.l = length-read m.v 0 m.l in
    record {
      type_at = ground arith;
      length_at = ground arith;
      instance_at = ground arith;
      value_at = ground (arith, e);
    }

-- The loop of `gtp2ie_decap` over well-formed members stops on the end, with all their addresses.
pub decap_loop-encode :
    (mem : Mem ℕ) (ms : List Member) (slots p : ℕ)
    → length ms ≤ slots
    → Holds mem p (encode ms)
    → decap_loop mem slots p (p + total ms) ≡ (starts p ms, p + total ms)
unfolding decap_loop
decap_loop-encode mem [] zero p h r = ground arith
decap_loop-encode mem [] (suc slots) p h r = ground arith
decap_loop-encode mem (m ∷ ms) zero p h r = absurd (omega arith)
decap_loop-encode mem (m ∷ ms) (suc slots) p h r =
    let (here, later) = Holds-append mem p (member_bytes m) (encode ms) r in
    let at = MemberAt-Holds mem p m here in
    let next : p + length (member_bytes m) ≡ p + (4 + m.l) = omega (arith, length-member_bytes m) in
    let rest = decap_loop-encode mem ms slots (p + (4 + m.l)) (omega arith) (rw next at later) in
    ground (arith, rest, at)
