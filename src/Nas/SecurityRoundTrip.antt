-- ===== src/Nas/SecurityRoundTrip.antt =====
-- NAS/src/NAS.c: `newNASMsg_sec` at one end and `nas_authenticateMsg` at the other.
use aalto_mme.Prelude.{
  ℕ, ◌+◌, ◌-◌, ◌*◌, ◌/◌, ◌%◌, ◌≤◌, ◌<◌, ◌≡◌, refl, sym, ◌∙◌, ap, arith, true, some, List, [], ◌∷◌,
  take, replicate, length, Mem, read, write, store, Holds, inl, inr, ◌⊎◌, write_below, write-Holds,
  read-write_below,
}
use aalto_mme.Prelude.Bits.{high_nibble}
use aalto_mme.Nas.Ie.{Out, v_t1_l, v_t1_h, v_t3, copy_out}
use aalto_mme.Nas.Count.{
  Direction, NasHandler, nas_count, put_count, received_count, set_count, check_count,
  increment_nas_count,
}
use aalto_mme.Nas.CountLaws.{received_count-value, check_count-window}
use aalto_mme.Nas.Security.{
  octets, security_header, protected, Secured, eia, authenticate_protected, authenticate_msg,
  cipher_text, put_secured, new_msg_sec,
}
use aalto_mme.Nas.SecurityLaws.{same_refl, protected_header}

-- A value of at most 255 octets is copied whole.
copy_whole :
    (v : List ℕ) (o : Out)
    → length v < 256
    → v_t3 (write (λ a. 0) 0 v) (length v) o
      ≡ record { mem = write o.mem o.p v; p = o.p + length v }
unfolding v_t3 copy_out
copy_whole v o h =
    let n : length v % 256 ≡ length v = omega arith in rw n (rw (write-Holds (λ a. 0) 0 v) refl)

-- The octet of the header.
header_octet :
    (mem : Mem ℕ) (out p s : ℕ)
    → p < 16
    → s < 16
    → ((v_t1_h s (v_t1_l p (record { mem = mem; p = out }))).mem out ≡ p + s * 16)
      × ((v_t1_h s (v_t1_l p (record { mem = mem; p = out }))).p ≡ out + 1)
unfolding v_t1_l v_t1_h store
header_octet mem out p s hp hs = ground arith

-- The message that `newNASMsg_sec` leaves at `out`.
pub put_secured-Holds :
    (mem : Mem ℕ) (out p s : ℕ) (mac buf : List ℕ)
    → length mac ≡ 4
    → length buf < 256
    → p < 16
    → s < 16
    → ((put_secured mem out p s mac buf).mem out ≡ p + s * 16)
      × Holds (put_secured mem out p s mac buf).mem (out + 1) mac
      × Holds (put_secured mem out p s mac buf).mem (out + 5) buf
      × ((put_secured mem out p s mac buf).p ≡ out + 5 + length buf)
unfolding put_secured
put_secured-Holds mem out p s mac buf hm hb hp hs =
    let o1 : Out = v_t1_h s (v_t1_l p (record { mem = mem; p = out })) in
    let (octet, next) = header_octet mem out p s hp hs in
    let o2 : Out = record { mem = write o1.mem (out + 1) mac; p = out + 5 } in
    let first : v_t3 (write (λ a. 0) 0 mac) 4 o1 ≡ o2 =
      ap (λ n. v_t3 (write (λ a. 0) 0 mac) n o1) (sym hm)
      ∙ copy_whole mac o1 (omega arith)
      ∙ ground (arith, next, hm) in
    let second : v_t3 (write (λ a. 0) 0 buf) (length buf) o2
        ≡ record { mem = write o2.mem (out + 5) buf; p = out + 5 + length buf } =
      copy_whole buf o2 hb in
    rw first (
      rw second (
        write_below o2.mem (out + 5) buf out (omega arith)
            ∙ write_below o1.mem (out + 1) mac out (omega arith)
            ∙ octet,
        read-write_below o2.mem (out + 5) buf (out + 1) (length mac) (omega arith)
            ∙ write-Holds o1.mem (out + 1) mac,
        write-Holds o2.mem (out + 5) buf,
        refl,
      ))

protected_small : (s : ℕ) → protected s ≡ true → s < 16
unfolding protected
protected_small s h = ground arith

length-take_all : (xs : List ℕ) → length xs ≡ 4 → length (take 4 xs) ≡ 4
length-take_all [] h = h
length-take_all (a ∷ []) h = h
length-take_all (a ∷ b ∷ []) h = h
length-take_all (a ∷ b ∷ c ∷ []) h = h
length-take_all (a ∷ b ∷ c ∷ d ∷ xs) h = refl

cipher_text_null : (s e : ℕ) (plain : List ℕ) → e ≡ 0 → cipher_text s e plain ≡ some plain
unfolding cipher_text
cipher_text_null s e plain h = ground arith

-- The security header of an octet, and the payload behind the sequence number.
security_header-read :
    (mem : Mem ℕ) (buf size unset p s : ℕ)
    → mem buf ≡ p + s * 16
    → p < 16
    → 0 < size
    → s < 16
    → security_header mem buf size unset ≡ s
unfolding security_header
security_header-read mem buf size unset p s h hp more hs = ground (arith, high_nibble (mem buf))

payload_of :
    (mem : Mem ℕ) (out b : ℕ) (plain : List ℕ)
    → Holds mem (out + 5) (b ∷ plain)
    → Holds mem (out + 6) plain
unfolding read
payload_of mem out b plain h = ground arith

module _ (eia2 : List ℕ → List ℕ → ℕ → Direction → List ℕ → List ℕ) where
  -- Under EIA0 and 128-EIA2 there is a MAC, of four octets.
  eia_total :
      ((k c : List ℕ) (b : ℕ) (d : Direction) (m : List ℕ) → length (eia2 k c b d m) ≡ 4)
      → (i : ℕ) (key count : List ℕ) (d : Direction) (m : List ℕ) → (i ≡ 0) ⊎ (i ≡ 2)
      → (mac : List ℕ) × (eia eia2 i key count d m ≡ some mac) × (length mac ≡ 4)
  unfolding eia
  eia_total four i key count d m (inl null) = (replicate 4 0, ground (arith, null), refl)
  eia_total four i key count d m (inr keyed) = (
    take 4 (eia2 key count 0 d m),
    ground (arith, keyed),
    length-take_all (eia2 key count 0 d m) (four key count 0 d m),
  )

  sealed :
      (n : NasHandler) (mem : Mem ℕ) (out len p s : ℕ) (d : Direction) (plain mac : List ℕ)
      → n.is_valid ≡ true
      → protected s ≡ true
      → n.e ≡ 0
      → eia eia2 n.i n.ikey (octets (nas_count n d)) d (nas_count n d % 256 ∷ plain) ≡ some mac
      → new_msg_sec eia2 n mem out len p s d plain
        ≡ some (record {
          handler = (increment_nas_count n Direction.down_link).0;
          mem = (put_secured mem out p s mac (nas_count n d % 256 ∷ plain)).mem;
          len = (put_secured mem out p s mac (nas_count n d % 256 ∷ plain)).p - out;
          ret = true;
        })
  unfolding new_msg_sec
  sealed n mem out len p s d plain mac v kind e made =
      let text = cipher_text_null s n.e plain e in ground (arith, text)

  -- Reading it with the right key.
  opened :
      (n : NasHandler) (mem : Mem ℕ) (out size s c unset : ℕ) (d : Direction) (plain mac : List ℕ)
      → n.is_valid ≡ true
      → protected s ≡ true
      → security_header mem out size unset ≡ s
      → Holds mem (out + 1) mac
      → length mac ≡ 4
      → Holds mem (out + 5) (c % 256 ∷ plain)
      → size ≡ 6 + length plain
      → length plain < 255
      → received_count (nas_count n d) (c % 256) ≡ c
      → check_count (nas_count n d) (c % 256) ≡ true
      → eia eia2 n.i n.ikey (octets c) d (c % 256 ∷ plain) ≡ some mac
      → authenticate_msg eia2 unset n mem out size d
        ≡ some (record { handler = put_count n d (c + 1); is_auth = true; ret = 1 })
  unfolding authenticate_msg authenticate_protected
  opened n mem out size s c unset d plain mac v kind head at_mac four at_buf sized short count fresh
        made =
      let sqn : mem (out + 5) ≡ c % 256 = unfold read in ground arith in
      let span : (size + 4294967291) * 8 % 4294967296 / 8 ≡ length (c % 256 ∷ plain) =
        omega arith in
      let text : read mem (out + 5) ((size + 4294967291) * 8 % 4294967296 / 8) ≡ c % 256 ∷ plain =
        ap (read mem (out + 5)) span ∙ at_buf in
      let tag : read mem (out + 1) 4 ≡ mac = ap (read mem (out + 1)) (sym four) ∙ at_mac in
      let moved : (set_count n d (c % 256)).0 ≡ put_count n d (c + 1) =
        unfold set_count in ap (λ x. put_count n d (x + 1)) count in
      let (nonzero, long) = protected_header s kind in
      rw head (
        rw sqn
          (rw text (rw count (rw made (rw tag (rw sqn (ground (arith, moved, same_refl mac))))))))

  -- A protected message of at most 254 octets, written by one valid handler without ciphering and
  -- with EIA0 or a 128-EIA2 of four octets, is authenticated by another valid one that has the
  -- same integrity algorithm and key, and whose COUNT has the same upper octets and is at most
  -- nine behind the sender's, which is below 2 ^ 24: the message is produced, its length is six
  -- more than that of the payload, its header is the one asked for, the payload stands behind the
  -- sequence number, and the receiver's COUNT becomes the one behind the sender's.
  pub new_msg_sec-authenticate_msg :
      ((k c : List ℕ) (b : ℕ) (d : Direction) (m : List ℕ) → length (eia2 k c b d m) ≡ 4)
      → (sender receiver : NasHandler) (mem : Mem ℕ) (out len p s unset : ℕ) (d : Direction)
        (plain : List ℕ)
      → sender.is_valid ≡ true
      → receiver.is_valid ≡ true
      → receiver.i ≡ sender.i
      → receiver.ikey ≡ sender.ikey
      → (sender.i ≡ 0) ⊎ (sender.i ≡ 2)
      → sender.e ≡ 0
      → p < 16
      → protected s ≡ true
      → length plain < 255
      → nas_count sender d < 16777216
      → nas_count receiver d / 256 ≡ nas_count sender d / 256
      → nas_count receiver d ≤ nas_count sender d
      → nas_count sender d < nas_count receiver d + 10
      → (sec : Secured) × (new_msg_sec eia2 sender mem out len p s d plain ≡ some sec)
        × (sec.len ≡ 6 + length plain)
        × (security_header sec.mem out sec.len unset ≡ s)
        × Holds sec.mem (out + 6) plain
        × (authenticate_msg eia2 unset receiver sec.mem out sec.len d
            ≡ some (record {
              handler = put_count receiver d (nas_count sender d + 1);
              is_auth = true;
              ret = 1;
            }))
  new_msg_sec-authenticate_msg four sender receiver mem out len p s unset d plain vs vr hi hk alg he
        hp kind short small upper low high =
      let c : ℕ = nas_count sender d in
      let buf : List ℕ = c % 256 ∷ plain in
      let (mac, made, size) = eia_total four sender.i sender.ikey (octets c) d buf alg in
      let o : Out = put_secured mem out p s mac buf in
      let (head, at_mac, at_buf, end) =
        put_secured-Holds mem out p s mac buf size (omega arith) hp (protected_small s kind) in
      let sec : Secured = record {
        handler = (increment_nas_count sender Direction.down_link).0;
        mem = o.mem;
        len = o.p - out;
        ret = true;
      } in
      let sized : sec.len ≡ 6 + length plain = omega (arith, end) in
      let count : received_count (nas_count receiver d) (c % 256) ≡ c =
        omega (arith, received_count-value (nas_count receiver d) (c % 256) (omega arith)) in
      let fresh : check_count (nas_count receiver d) (c % 256) ≡ true =
        (check_count-window (nas_count receiver d) (c % 256) (omega arith)).1
          (omega arith, omega arith) in
      let header : security_header o.mem out sec.len unset ≡ s =
        security_header-read o.mem out sec.len unset p s head hp (omega (arith, sized))
          (protected_small s kind) in
      let tag : eia eia2 receiver.i receiver.ikey (octets c) d buf ≡ some mac =
        rw hi (rw hk made) in
      (
        sec,
        sealed sender mem out len p s d plain mac vs kind he made,
        sized,
        header,
        payload_of o.mem out (c % 256) plain at_buf,
        opened receiver o.mem out sec.len s c unset d plain mac vr kind header at_mac size at_buf
            sized short count fresh tag,
      )
