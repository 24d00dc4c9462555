-- ===== src/Nas/Security.antt =====
-- NAS/src/NAS.c, NAS/src/eia0.c, NAS/src/eea0.c and the tables of NAS/include/NASHandler.h: the NAS
-- security of a session. HMAC-SHA256 is OpenSSL's, and 128-EIA2 stands on OpenSSL's AES: both are
-- parameters. A call through a null entry of a table is `none`.
use aalto_mme.Prelude.{
  ℕ, ◌+◌, ◌-◌, ◌*◌, ◌/◌, ◌%◌, Bool, true, false, ◌&&◌, ◌||◌, not, Option, none, some, List, [], ◌∷◌,
  take, drop, replicate, length, ◌==◌, if◌then◌else◌, bit_and, Mem, read, write,
}
use aalto_mme.Nas.Ie.{Out, v_t1_l, v_t1_h, v_t3}
use aalto_mme.Nas.Count.{
  Direction, NasHandler, nas_count, received_count, received_count_short, set_count,
  set_count_short, check_count, check_count_short, increment_nas_count,
}

-- `htonl` and the copy into four octets.
unfoldable pub octets : ℕ → List ℕ
octets n = n / 16777216 % 256 ∷ n / 65536 % 256 ∷ n / 256 % 256 ∷ n % 256 ∷ []

-- `memcmp(a, b, n) == 0`.
unfoldable pub same : List ℕ → List ℕ → Bool
same [] [] = true
same (a ∷ xs) (b ∷ ys) = a == b && same xs ys
same [] (b ∷ ys) = false
same (a ∷ xs) [] = false

-- `*s`, where `size < 1` leaves what the variable held.
unfoldable pub security_header : Mem ℕ → ℕ → ℕ → ℕ → ℕ
security_header mem buf size unset = if size == 0 then unset else bit_and (mem buf) 0xf0 / 16

-- `*p`.
unfoldable pub discriminator : Mem ℕ → ℕ → ℕ
discriminator mem buf = bit_and (mem buf) 0x0f

-- `s` is one of the four kinds of a protected message.
unfoldable pub protected : ℕ → Bool
protected s = s == 1 || s == 2 || s == 3 || s == 4

-- `s` is one of the two that are ciphered.
unfoldable pub ciphered : ℕ → Bool
ciphered s = s == 2 || s == 4

abbrev pub new_handler : NasHandler
new_handler = record {
  is_valid = false;
  i = 0;
  ikey = replicate 16 0;
  e = 0;
  ekey = replicate 16 0;
  up_count = 0;
  down_count = 0;
}

-- `hmac key message` is HMAC-SHA256; the key derivation takes its last 16 octets.
module _ (hmac : List ℕ → List ℕ → List ℕ) where
  unfoldable pub kdf : List ℕ → ℕ → ℕ → List ℕ
  kdf kasme distinguisher id =
      drop 16
        (hmac (take 32 kasme) (0x15 ∷ distinguisher ∷ 0x00 ∷ 0x01 ∷ id % 256 ∷ 0x00 ∷ 0x01 ∷ []))

  unfoldable pub set_security : NasHandler → ℕ → ℕ → List ℕ → NasHandler
  unfolding kdf
  set_security h i e kasme = record {
    is_valid = true;
    i = i;
    ikey = kdf kasme 0x02 i;
    e = e;
    ekey = kdf kasme 0x01 e;
    up_count = 0;
    down_count = 0;
  }

-- What `nas_authenticateMsg` leaves: the handler, `*isAuth`, and what it returns.
pub record Auth : Type 0 where
  pub handler : NasHandler
  pub is_auth : Bool
  pub ret : ℕ

-- What `newNASMsg_sec` leaves: the handler, `out`, `*len`, and what it returns.
pub record Secured : Type 0 where
  pub handler : NasHandler
  pub mem : Mem ℕ
  pub len : ℕ
  pub ret : Bool

-- `buf` behind the ciphering: EEA0, the only entry of `eea_cyph_cb`, copies.
unfoldable pub cipher_text : ℕ → ℕ → List ℕ → Option (List ℕ)
unfolding ciphered
cipher_text s e plain = if ciphered s then if e == 0 then some plain else none else some plain

-- The message with its security header: `buf` is the sequence number and the payload, and
-- `nasIe_v_t3` takes its size as a uint8_t.
unfoldable pub put_secured : Mem ℕ → ℕ → ℕ → ℕ → List ℕ → List ℕ → Out
put_secured mem out p s mac buf =
    v_t3 (write (λ a. 0) 0 buf) (length buf)
      (v_t3 (write (λ a. 0) 0 mac) 4 (v_t1_h s (v_t1_l p (record { mem = mem; p = out }))))

-- `eia2 key count bearer direction message` is 128-EIA2, four octets.
module _ (eia2 : List ℕ → List ℕ → ℕ → Direction → List ℕ → List ℕ) where
  -- `eia_cb[i]`.
  unfoldable pub eia : ℕ → List ℕ → List ℕ → Direction → List ℕ → Option (List ℕ)
  eia i key count direction message =
      if i == 0
      then some (replicate 4 0)
      else if i == 2
      then some (take 4 (eia2 key count 0 direction message))
      else none

  -- A protected message behind the test of its header: the sequence number, the MAC, the COUNT.
  -- `(size-5)*8` is taken on a uint32_t.
  unfoldable pub authenticate_protected : NasHandler → Mem ℕ → ℕ → ℕ → Direction → Option Auth
  authenticate_protected n mem buf size direction =
      if check_count (nas_count n direction) (mem (buf + 5))
      then (elim (eia n.i n.ikey (octets (received_count (nas_count n direction) (mem (buf + 5))))
          direction (read mem (buf + 5) ((size + 4294967291) * 8 % 4294967296 / 8))) [
            | none ↦ none
            | some mac_x ↦
                if same (read mem (buf + 1) 4) mac_x || n.i == 0
                then some (record {
                  handler = (set_count n direction (mem (buf + 5))).0;
                  is_auth = true;
                  ret = 1;
                })
                else some (record { handler = n; is_auth = false; ret = 1 })
          ])
      else some (record { handler = n; is_auth = false; ret = 2 })

  -- A service request: five bits of sequence number, two octets of MAC over the first two octets.
  unfoldable pub authenticate_short : NasHandler → Mem ℕ → ℕ → Direction → Option Auth
  authenticate_short n mem buf direction =
      let sqn : ℕ = bit_and (mem (buf + 1)) 0x1f in
      if check_count_short (nas_count n direction) sqn
      then (elim (eia n.i n.ikey (octets (received_count_short (nas_count n direction) sqn))
          direction (read mem buf 2)) [
            | none ↦ none
            | some mac_x ↦
                if same (read mem (buf + 2) 2) (drop 2 mac_x) || n.i == 0
                then some (record {
                  handler = (set_count_short n direction sqn).0;
                  is_auth = true;
                  ret = 1;
                })
                else some (record { handler = n; is_auth = false; ret = 1 })
          ])
      else some (record { handler = n; is_auth = false; ret = 2 })

  -- `unset` is what the header variable holds when the message is empty.
  unfoldable pub authenticate_msg : ℕ → NasHandler → Mem ℕ → ℕ → ℕ → Direction → Option Auth
  authenticate_msg unset n mem buf size direction =
      let s : ℕ = security_header mem buf size unset in
      if not n.is_valid || s == 0
      then some (record { handler = n; is_auth = false; ret = 0 })
      else if protected s
      then authenticate_protected n mem buf size direction
      else if s == 12
      then authenticate_short n mem buf direction
      else some (record { handler = n; is_auth = false; ret = 0 })

  unfoldable pub new_msg_sec :
      NasHandler → Mem ℕ → ℕ → ℕ → ℕ → ℕ → Direction → List ℕ → Option Secured
  new_msg_sec n mem out len p s direction plain =
      if not n.is_valid || not (protected s)
      then some (record { handler = n; mem = mem; len = len; ret = false })
      else elim (cipher_text s n.e plain) [
        | none ↦ none
        | some text ↦
            let buf : List ℕ = nas_count n direction % 256 ∷ text in
            elim (eia n.i n.ikey (octets (nas_count n direction)) direction buf) [
              | none ↦ none
              | some mac ↦
                  let o : Out = put_secured mem out p s mac buf in
                  some (record {
                    handler = (increment_nas_count n Direction.down_link).0;
                    mem = o.mem;
                    len = o.p - out;
                    ret = true;
                  })
            ]
      ]
