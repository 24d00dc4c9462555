-- ===== src/Nas/Eia2Cmac.antt =====
-- NAS/src/eia2.c against the CMAC of RFC 4493: the blocks under the chained cipher, the last one
-- under the subkey K1 if it is complete and padded under K2 if it is not.
use aalto_mme.Prelude.{
  ℕ, zero, suc, ◌+◌, ◌-◌, ◌*◌, ◌/◌, ◌%◌, ◌≤◌, ◌<◌, ◌≡◌, refl, sym, ◌∙◌, ap, arith, true, false,
  some, List, [], ◌∷◌, take, length, length-append, ltb, ◌==◌, if◌then◌else◌, Mem, read, write,
  Holds, All, write-Holds, lt→ltb, subst, Bool-cases, inl, inr, ==_iff,
}
use aalto_mme.Gtp.Layout.{Holds-append}
use aalto_mme.Nas.Subkeys.{
  IsOctet, exclusive_or, subkey, xor_octets-exclusive_or, make_kn-subkey, make_kn-IsOctet,
}
use aalto_mme.Nas.Count.{Direction}
use aalto_mme.Nas.Eia2.{
  CmacCtx, octets_of, make_kn, xor_octets, zero_block, eia2_input, cmac_init, cipher_blocks,
  cmac_whole, cmac_update, final_block, cmac_final, eia2,
}
use aalto_mme.Nas.Blocks.{join_blocks, IsBlock, pad, length-join_blocks, Holds-last, padded}
use aalto_mme.Nas.Prefix.{prefixed, eia2_input-prefixed, length-prefixed}

module _ (evp : List ℕ → List ℕ → List ℕ → List ℕ) where
  -- The blocks in front of the last one.
  unfoldable pub chain : List ℕ → List ℕ → List (List ℕ) → List ℕ
  chain key iv [] = iv
  chain key iv (b ∷ bs) = chain key (evp key iv b) bs

  -- CMAC, of RFC 4493, of a message cut into complete blocks and a last one.
  unfoldable pub cmac : List ℕ → List (List ℕ) → List ℕ → List ℕ
  unfolding chain subkey exclusive_or
  cmac key blocks last =
      let k1 : List ℕ = subkey (evp key zero_block zero_block) in
      evp key (chain key zero_block blocks)
        (if length last == 16 then exclusive_or last k1 else exclusive_or (pad last) (subkey k1))

  -- The loop stops at the last block, for any fuel of at least the number of bits.
  cipher_blocks-chain :
      (fuel : ℕ) (key iv : List ℕ) (mem : Mem ℕ) (p dlen : ℕ) (blocks : List (List ℕ))
      (last : List ℕ)
      → dlen ≤ fuel
      → All IsBlock blocks
      → Holds mem p (join_blocks blocks last)
      → dlen ≡ length (join_blocks blocks last) * 8
      → 0 < length last
      → length last ≤ 16
      → cipher_blocks evp fuel key iv mem p dlen
        ≡ (chain key iv blocks, p + length blocks * 16, length last * 8)
  unfolding cipher_blocks chain join_blocks
  cipher_blocks-chain zero key iv mem p dlen blocks last enough all held bits some_left most =
      absurd (omega (arith, length-join_blocks blocks last))
  cipher_blocks-chain (suc fuel) key iv mem p dlen [] last enough all held bits some_left most =
      ground arith
  cipher_blocks-chain (suc fuel) key iv mem p dlen (b ∷ bs) last enough (block, all) held bits
        some_left most =
      let (own, later) = Holds-append mem p b (join_blocks bs last) held in
      let first : read mem p 16 ≡ b = ap (read mem p) (sym block) ∙ own in
      let there : p + length b ≡ p + 16 = omega (arith, block) in
      let size = length-append b (join_blocks bs last) in
      let more = length-join_blocks bs last in
      let big : ltb 128 dlen ≡ true = lt→ltb 128 dlen (omega (arith, size, more, block)) in
      let next : p + 16 + length bs * 16 ≡ p + suc (length bs) * 16 = omega arith in
      rw big (
        rw first (
          cipher_blocks-chain fuel key (evp key iv b) mem (p + 16) (dlen - 128) bs last
            (omega arith) all (rw there at later) (omega (arith, size, block)) some_left most
          ∙ ap (λ q. (chain key (evp key iv b) bs, q, length last * 8)) next))

  -- What is read of the last one: its octets.
  whole_update :
      (key : List ℕ) (mem : Mem ℕ) (dlen : ℕ) (blocks : List (List ℕ)) (last : List ℕ)
      → All IsBlock blocks
      → Holds mem 0 (join_blocks blocks last)
      → dlen ≡ length (join_blocks blocks last) * 8
      → 0 < length last
      → length last ≤ 16
      → cmac_update evp (cmac_init evp key) mem 0 dlen
        ≡ some (record {
          key = key;
          iv = chain key zero_block blocks;
          k1 = make_kn (evp key zero_block zero_block);
          k2 = make_kn (make_kn (evp key zero_block zero_block));
          last_block = write (λ a. 0) 0 last;
          nlast_block = some (length last * 8);
        })
  unfolding cmac_update cmac_init cmac_whole
  whole_update key mem dlen blocks last all held bits some_left most =
      let run =
        cipher_blocks-chain dlen key zero_block mem 0 dlen blocks last (omega arith) all held bits
          some_left most in
      let at : read mem (0 + length blocks * 16) (octets_of (length last * 8)) ≡ last =
        ap (read mem (0 + length blocks * 16)) (ground arith)
        ∙ Holds-last mem 0 blocks last all held in
      let nonzero : (dlen == 0) ≡ false = ground (arith, length-join_blocks blocks last) in
      rw nonzero (rw run (rw at refl))

  -- The last block under its subkey.
  final_block-last :
      (c : CmacCtx) (last : List ℕ)
      → c.last_block ≡ write (λ a. 0) 0 last
      → 0 < length last
      → length last ≤ 16
      → final_block evp c (length last * 8)
        ≡ (if length last == 16 then xor_octets last c.k1 else xor_octets (pad last) c.k2)
  unfolding final_block
  final_block-last c last buffered some_left most = elim (Bool-cases (length last == 16)) [
    | inl complete ↦
        let full : (length last * 8 == 128) ≡ true = ground arith in
        let all : read (write (λ a. 0) 0 last) 0 16 ≡ last =
          ap (read (write (λ a. 0) 0 last) 0) (sym ((==_iff (length last) 16).0 complete))
          ∙ write-Holds (λ a. 0) 0 last in
        rw full (rw buffered (rw all (rw complete refl)))
    | inr short ↦
        let part : (length last * 8 == 128) ≡ false = ground arith in
        let octet : (length last * 8 % 8 == 0) ≡ true = ground arith in
        let at : length last * 8 / 8 ≡ length last = omega arith in
        let less : length last < 16 = ground arith in
        rw part (rw buffered (rw octet (rw at (rw (padded last less) (rw short refl)))))
  ]

  -- The subkeys that the code keeps.
  subkeys :
      (key : List ℕ)
      → length (evp key zero_block zero_block) ≡ 16
      → All IsOctet (evp key zero_block zero_block)
      → (make_kn (evp key zero_block zero_block) ≡ subkey (evp key zero_block zero_block))
        × (make_kn (make_kn (evp key zero_block zero_block))
            ≡ subkey (subkey (evp key zero_block zero_block)))
  subkeys key size octets =
      let zeros : List ℕ = evp key zero_block zero_block in
      let k1 : make_kn zeros ≡ subkey zeros = make_kn-subkey zeros size octets in
      let (size', octets') = make_kn-IsOctet zeros size octets in
      (k1, make_kn-subkey (make_kn zeros) size' octets' ∙ ap subkey k1)

  last_under_key :
      (key last : List ℕ)
      → length (evp key zero_block zero_block) ≡ 16
      → All IsOctet (evp key zero_block zero_block)
      → (if length last == 16
          then xor_octets last (make_kn (evp key zero_block zero_block))
          else xor_octets (pad last) (make_kn (make_kn (evp key zero_block zero_block))))
        ≡ (if length last == 16
            then exclusive_or last (subkey (evp key zero_block zero_block))
            else exclusive_or (pad last) (subkey (subkey (evp key zero_block zero_block))))
  last_under_key key last size octets =
      let zeros : List ℕ = evp key zero_block zero_block in
      let (k1, k2) = subkeys key size octets in
      let whole : xor_octets last (make_kn zeros) ≡ exclusive_or last (subkey zeros) =
        ap (xor_octets last) k1 ∙ xor_octets-exclusive_or last (subkey zeros) in
      let part : xor_octets (pad last) (make_kn (make_kn zeros))
          ≡ exclusive_or (pad last) (subkey (subkey zeros)) =
        ap (xor_octets (pad last)) k2
        ∙ xor_octets-exclusive_or (pad last) (subkey (subkey zeros)) in
      elim (Bool-cases (length last == 16)) [ inl e ↦ rw e whole | inr e ↦ rw e part ]

  -- For a COUNT of four octets, a bearer of five bits, a cipher that makes a block of sixteen octets
  -- of the block of zeros, and a message that, behind the prefix of eight octets of the standard, is
  -- cut into complete blocks and a last one of between 1 and 16 octets: 128-EIA2 is the first four
  -- octets of the CMAC of RFC 4493, with its subkeys, under the first sixteen octets of the key.
  pub eia2-cmac :
      (key count msg : List ℕ) (bearer : ℕ) (d : Direction) (blocks : List (List ℕ)) (last : List ℕ)
      → length count ≡ 4
      → bearer < 32
      → length (evp (take 16 key) zero_block zero_block) ≡ 16
      → All IsOctet (evp (take 16 key) zero_block zero_block)
      → All IsBlock blocks
      → 0 < length last
      → length last ≤ 16
      → prefixed count bearer d msg ≡ join_blocks blocks last
      → eia2 evp key count bearer d msg ≡ take 4 (cmac (take 16 key) blocks last)
  unfolding eia2 cmac cmac_final
  eia2-cmac key count msg bearer d blocks last four few block octets all some_left most cut =
      let input : List ℕ = eia2_input count bearer d msg in
      let s : Mem ℕ = write (λ a. 0) 0 input in
      let same : input ≡ join_blocks blocks last =
        eia2_input-prefixed count bearer d msg four few ∙ cut in
      let held : Holds s 0 (join_blocks blocks last) =
        subst (λ xs. Holds s 0 xs) same (write-Holds (λ a. 0) 0 input) in
      let size : 64 + length msg * 8 ≡ length (join_blocks blocks last) * 8 =
        omega (arith, length-prefixed count bearer d msg four, ap length cut) in
      let run =
        whole_update (take 16 key) s (64 + length msg * 8) blocks last all held size some_left
          most in
      rw (run, eia2)
        (ap (λ b. take 4 (evp (take 16 key) (chain (take 16 key) zero_block blocks) b))
          (final_block-last _ last refl some_left most
            ∙ last_under_key (take 16 key) last block octets))
