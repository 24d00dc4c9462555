-- ===== src/Nas/Blocks.antt =====
-- NAS/src/eia2.c: the blocks of a message in memory, and the padding of its last one.
use aalto_mme.Prelude.{
  ℕ, zero, suc, ◌+◌, ◌-◌, ◌*◌, ◌≤◌, ◌<◌, ◌≡◌, refl, sym, ◌∙◌, ap, arith, List, [], ◌∷◌, ◌++◌,
  length, length-append, replicate, Mem, read, write, store, fill, Holds, All, write-Holds,
  read-add, read_congr, subst,
}
use aalto_mme.Gtp.Layout.{Holds-append}

-- A message from its blocks and its last one.
unfoldable pub join_blocks : List (List ℕ) → List ℕ → List ℕ
join_blocks [] last = last
join_blocks (b ∷ bs) last = b ++ join_blocks bs last

abbrev pub IsBlock : List ℕ → Type 0
IsBlock b = length b ≡ 16

-- 10* padding to a block.
abbrev pub pad : List ℕ → List ℕ
pad last = last ++ (0x80 ∷ replicate (15 - length last) 0)

pub length-join_blocks :
    (bs : List (List ℕ)) (last : List ℕ) → length last ≤ length (join_blocks bs last)
unfolding join_blocks
length-join_blocks [] last = omega arith
length-join_blocks (b ∷ bs) last =
    omega (arith, length-append b (join_blocks bs last), length-join_blocks bs last)

-- The last one stands behind the blocks.
pub Holds-last :
    (mem : Mem ℕ) (p : ℕ) (bs : List (List ℕ)) (last : List ℕ)
    → All IsBlock bs
    → Holds mem p (join_blocks bs last)
    → Holds mem (p + length bs * 16) last
unfolding join_blocks
Holds-last mem p [] last all held = let here : p ≡ p + 0 * 16 = omega arith in rw (sym here) held
Holds-last mem p (b ∷ bs) last (block, all) held =
    let (own, later) = Holds-append mem p b (join_blocks bs last) held in
    let next : p + length b + length bs * 16 ≡ p + suc (length bs) * 16 = omega (arith, block) in
    subst (λ q. Holds mem q last) next (Holds-last mem (p + length b) bs last all later)

read-zeros :
    (mem : Mem ℕ) (p n : ℕ)
    → ((a : ℕ) → p ≤ a → a < p + n → mem a ≡ 0)
    → read mem p n ≡ replicate n 0
unfolding read
read-zeros mem p zero h = refl
read-zeros mem p (suc n) h = ground (
  arith,
  h p (omega arith) (omega arith),
  read-zeros mem (p + 1) n (λ a l u. h a (omega arith) (omega arith)),
)

-- The padding of the last block in its buffer.
pub padded :
    (last : List ℕ)
    → length last < 16
    → read
        (fill
          (store (write (λ a. 0) 0 last) (length last) 0x80)
          (length last + 1)
          (15 - length last)
          0)
        0
        16
      ≡ pad last
padded last short =
    let n : ℕ = length last in
    let m : Mem ℕ = fill (store (write (λ a. 0) 0 last) n 0x80) (n + 1) (15 - n) 0 in
    let whole : n + (1 + (15 - n)) ≡ 16 = omega arith in
    let low : read m 0 n ≡ last =
      read_congr m (write (λ a. 0) 0 last) 0 n (λ a l u. unfold fill store in ground arith)
      ∙ write-Holds (λ a. 0) 0 last in
    let mark : m n ≡ 0x80 = unfold fill store in ground arith in
    let zeros : read m (n + 1) (15 - n) ≡ replicate (15 - n) 0 =
      read-zeros m (n + 1) (15 - n) (λ a l u. unfold fill in ground arith) in
    let tail : read m (0 + n) (suc (15 - n)) ≡ 0x80 ∷ replicate (15 - n) 0 =
      let at : 0 + n ≡ n = omega arith in rw at (unfold read in ground (arith, mark, zeros)) in
    let step : 1 + (15 - n) ≡ suc (15 - n) = omega arith in
    ap (read m 0) (sym whole)
    ∙ read-add m 0 n (1 + (15 - n))
    ∙ rw step (rw tail (ap (λ xs. xs ++ (0x80 ∷ replicate (15 - n) 0)) low))
