-- ===== src/Nas/Eia2.antt =====
-- NAS/src/eia2.c: 128-EIA2, the CMAC of AES-128 on a message counted in bits. `evp key iv block` is
-- what OpenSSL's EVP_Cipher makes of one block in CBC mode; its output is also the next iv.
use aalto_mme.Prelude.{
  ℕ, zero, suc, ◌+◌, ◌-◌, ◌*◌, ◌/◌, ◌%◌, ◌^◌, Option, none, some, List, [], ◌∷◌, ◌++◌, take, length,
  replicate, ltb, ◌==◌, if◌then◌else◌, bit_and, bit_or, bit_xor, Mem, read, write, store, fill,
}
use aalto_mme.Nas.Count.{Direction}

-- `nlast_block` is in bits, -1 before the context is initialised.
pub record CmacCtx : Type 0 where
  pub key : List ℕ
  pub iv : List ℕ
  pub k1 : List ℕ
  pub k2 : List ℕ
  pub last_block : Mem ℕ
  pub nlast_block : Option ℕ

-- The octets of a number of bits, `n/8 + (n%8?1:0)`.
abbrev pub octets_of : ℕ → ℕ
octets_of bits = bits / 8 + (if bits % 8 == 0 then 0 else 1)

-- `carry` is the top bit of the first octet; 0x87 is the constant of a block of 16.
unfoldable pub kn_loop : ℕ → ℕ → List ℕ → List ℕ
kn_loop carry c [] = bit_xor (c * 2) (if carry == 0 then 0 else 0x87) % 256 ∷ []
kn_loop carry c (cnext ∷ l) = bit_or (c * 2 % 256) (cnext / 128) ∷ kn_loop carry cnext l

unfoldable pub make_kn : List ℕ → List ℕ
unfolding kn_loop
make_kn [] = []
make_kn (c ∷ l) = kn_loop (c / 128) c l

-- `out[i] = a[i] ^ b[i]`.
unfoldable pub xor_octets : List ℕ → List ℕ → List ℕ
xor_octets [] bs = []
xor_octets (a ∷ xs) [] = []
xor_octets (a ∷ xs) (b ∷ ys) = bit_xor a b ∷ xor_octets xs ys

abbrev pub zero_block : List ℕ
zero_block = replicate 16 0

unfoldable pub direction_bit : Direction → ℕ
direction_bit Direction.up_link = 0
direction_bit Direction.down_link = 1

-- `s`: the COUNT, the bearer and the direction, three zeros and the message.
unfoldable pub eia2_input : List ℕ → ℕ → Direction → List ℕ → List ℕ
unfolding direction_bit
eia2_input count bearer direction msg =
    take 4 count ++ (bit_or (bearer * 8) (direction_bit direction * 4) % 256 ∷ 0 ∷ 0 ∷ 0 ∷ msg)

module _ (evp : List ℕ → List ℕ → List ℕ → List ℕ) where
  -- With a key and a cipher, the way `eia2` calls it.
  unfoldable pub cmac_init : List ℕ → CmacCtx
  cmac_init key =
      let k1 : List ℕ = make_kn (evp key zero_block zero_block) in
      record {
        key = key;
        iv = zero_block;
        k1 = k1;
        k2 = make_kn k1;
        last_block = λ a. 0;
        nlast_block = some 0;
      }

  -- `while (dlen > bl*8)`, on fuel: the iv, the data and the bits that are left.
  unfoldable pub cipher_blocks : ℕ → List ℕ → List ℕ → Mem ℕ → ℕ → ℕ → List ℕ × ℕ × ℕ
  cipher_blocks zero key iv mem din dlen = (iv, din, dlen)
  cipher_blocks (suc fuel) key iv mem din dlen =
      let rest =
        cipher_blocks fuel key (evp key iv (read mem din 16)) mem (din + 16) (dlen - 128) in
      if ltb 128 dlen then rest else (iv, din, dlen)

  -- What follows the partial block.
  unfoldable pub cmac_whole : CmacCtx → Mem ℕ → ℕ → ℕ → CmacCtx
  cmac_whole c mem din dlen =
      let (iv, rest, left) = cipher_blocks dlen c.key c.iv mem din dlen in
      record c {
        iv = iv;
        last_block = write c.last_block 0 (read mem rest (octets_of left));
        nlast_block = some left;
      }

  -- `none` is the return value 0. A partial block is filled at an offset of `nlast_block` octets,
  -- although it counts bits.
  unfoldable pub cmac_update : CmacCtx → Mem ℕ → ℕ → ℕ → Option CmacCtx
  cmac_update c mem din dlen = elim c.nlast_block [
    | none ↦ none
    | some partial ↦
        if dlen == 0
        then some c
        else if partial == 0
        then some (cmac_whole c mem din dlen)
        else let nleft : ℕ = if ltb dlen (128 - partial) then dlen else 128 - partial in
          let filled : Mem ℕ = write c.last_block partial (read mem din (octets_of nleft)) in
          if dlen - nleft == 0
          then some (record c { last_block = filled; nlast_block = some (partial + nleft) })
          else some (
              cmac_whole (record c { iv = evp c.key c.iv (read filled 0 16); last_block = filled })
                mem (din + nleft / 8) (dlen - nleft))
  ]

  -- The last block under its subkey, padded if it is not complete.
  unfoldable pub final_block : CmacCtx → ℕ → List ℕ
  unfolding xor_octets
  final_block c lb =
      if lb == 128
      then xor_octets (read c.last_block 0 16) c.k1
      else let lastbyte : ℕ = lb / 8 in
        let shift : ℕ = 7 - lb % 8 in
        let marked : Mem ℕ = store c.last_block lastbyte (
          if lb % 8 == 0
          then 0x80
          else bit_and (bit_or (c.last_block lastbyte) (2 ^ shift)) (0xff * 2 ^ shift) % 256) in
        xor_octets (read (fill marked (lastbyte + 1) (15 - lastbyte) 0) 0 16) c.k2

  unfoldable pub cmac_final : CmacCtx → Option (List ℕ)
  cmac_final c = elim c.nlast_block [
    | none ↦ none
    | some lb ↦ some (evp c.key c.iv (final_block c lb))
  ]

  -- The message is counted in octets here: `mLen` is eight times its length.
  unfoldable pub eia2 : List ℕ → List ℕ → ℕ → Direction → List ℕ → List ℕ
  eia2 k count bearer direction msg =
      let s : Mem ℕ = write (λ a. 0) 0 (eia2_input count bearer direction msg) in
      elim (cmac_update (cmac_init (take 16 k)) s 0 (64 + length msg * 8)) [
        | none ↦ replicate 4 0
        | some c ↦ elim (cmac_final c) [ none ↦ replicate 4 0 | some mact ↦ take 4 mact ]
      ]
