-- ===== src/Nas/DecodeRoundTrip.antt =====
-- NAS/src/NAS.c: a message that one handler protects and another decodes.
use aalto_mme.Prelude.{
  ℕ, ◌+◌, ◌/◌, ◌≤◌, ◌<◌, ◌≡◌, refl, ◌∙◌, arith, true, false, Option, some, List, ◌∷◌, length, ◌==◌,
  Mem, read, write, Holds, IsU64, inl, inr, ◌⊎◌, write-Holds,
}
use aalto_mme.Nas.Options.{minus_size, Chosen, stored_options}
use aalto_mme.Nas.Messages.{AttachRequest, attach_request_options, dec_attach_request}
use aalto_mme.Nas.MessagesRoundTrip.{attach_request_bytes, dec_attach_request-bytes}
use aalto_mme.Nas.Count.{Direction, NasHandler, nas_count, put_count}
use aalto_mme.Nas.Security.{
  security_header, discriminator, protected, Auth, Secured, authenticate_msg, new_msg_sec,
}
use aalto_mme.Nas.CountLaws.{nas_count-put_count}
use aalto_mme.Nas.SecurityLaws.{put_count-is_valid}
use aalto_mme.Nas.SecurityRoundTrip.{new_msg_sec-authenticate_msg}
use aalto_mme.Nas.Decode.{EmmBody, Body, NasMessage, dec_emm, dec_nas, dec_sec_nas}

-- A plain attach request: the discriminator of mobility management and the message type in front.
abbrev pub plain_attach_request : ℕ → ℕ → List ℕ → List ℕ → List ℕ → List (Option (List ℕ)) → List ℕ
plain_attach_request type ksi id capability esm es =
    0x07 ∷ 0x41 ∷ attach_request_bytes type ksi id capability esm es

abbrev pub attach_request_message : AttachRequest → NasMessage
attach_request_message r = record {
  header_discriminator = 7;
  header_security = 0;
  body = Body.emm 0x41 (EmmBody.attach_request r);
}

dec_emm_attach :
    (mem : Mem ℕ) (buf s : ℕ)
    → mem buf ≡ 0x41
    → dec_emm mem buf s
      ≡ Body.emm 0x41 (EmmBody.attach_request (dec_attach_request mem (buf + 1) (minus_size s 1)))
unfolding dec_emm
dec_emm_attach mem buf s h = rw h refl

dec_nas_emm :
    (mem : Mem ℕ) (buf size : ℕ)
    → mem buf ≡ 0x07
    → 0 < size
    → dec_nas mem buf size ≡ (
      record {
        header_discriminator = 7;
        header_security = 0;
        body = dec_emm mem (buf + 1) (minus_size size 1);
      },
      true,
    )
unfolding dec_nas security_header discriminator
dec_nas_emm mem buf size h more =
    let some_octets : (size == 0) ≡ false = ground arith in rw some_octets (rw h refl)

-- The first two octets and what stands behind them.
two_octets :
    (mem : Mem ℕ) (buf a b : ℕ) (rest : List ℕ)
    → Holds mem buf (a ∷ b ∷ rest)
    → (mem buf ≡ a) × (mem (buf + 1) ≡ b) × Holds mem (buf + 2) rest
unfolding read
two_octets mem buf a b rest h = ground arith

dec_nas_attach :
    (mem : Mem ℕ) (buf size : ℕ) (rest : List ℕ) (r : AttachRequest)
    → Holds mem buf (0x07 ∷ 0x41 ∷ rest)
    → size ≡ 2 + length rest
    → IsU64 size
    → dec_attach_request mem (buf + 2) (length rest) ≡ r
    → dec_nas mem buf size ≡ (attach_request_message r, true)
dec_nas_attach mem buf size rest r h sized small decoded =
    let (first, second, behind) = two_octets mem buf 0x07 0x41 rest h in
    let left : minus_size (minus_size size 1) 1 ≡ length rest = omega arith in
    let at : buf + 1 + 1 ≡ buf + 2 = omega arith in
    rw (dec_nas_emm mem buf size first (omega arith)) (
      rw (dec_emm_attach mem (buf + 1) (minus_size size 1) second)
        (rw left (rw at (rw decoded refl))))

-- What `dec_secNAS` does with a message whose payload is decoded wherever it stands.
dec_sec_nas_payload :
    (n : NasHandler) (stack mem : Mem ℕ) (buf size unset s : ℕ) (plain : List ℕ) (m : NasMessage)
    → security_header mem buf size unset ≡ s
    → (s ≡ 1) ⊎ ((s ≡ 2) ⊎ (s ≡ 4))
    → n.is_valid ≡ true
    → n.e ≡ 0
    → size ≡ 6 + length plain
    → IsU64 size
    → Holds mem (buf + 6) plain
    → ((mem' : Mem ℕ) (a : ℕ) → Holds mem' a plain → dec_nas mem' a (length plain) ≡ (m, true))
    → dec_sec_nas unset stack n mem buf size ≡ some (m, true)
unfolding dec_sec_nas
dec_sec_nas_payload n stack mem buf size unset s plain m header kind v e sized small at decoded =
    let left : minus_size size 6 ≡ length plain = omega arith in
    let direct = decoded mem (buf + 6) at in
    let copied = decoded (write stack 0 plain) 0 (write-Holds stack 0 plain) in
    rw left (
      rw header (
        rw at (elim kind [
          | inl one ↦ ground (arith, one, direct)
          | inr (inl two) ↦ ground (arith, two, copied)
          | inr (inr four) ↦ ground (arith, four, copied)
        ])))

kind-protected : (s : ℕ) → (s ≡ 1) ⊎ ((s ≡ 2) ⊎ (s ≡ 4)) → protected s ≡ true
unfolding protected
kind-protected s h = ground arith

put_count-e : (n : NasHandler) (d : Direction) (c : ℕ) → (put_count n d c).e ≡ n.e
unfolding put_count
put_count-e n Direction.up_link c = refl
put_count-e n Direction.down_link c = refl

-- An attach request of at most 254 octets that one valid handler protects, under one of the
-- headers 1, 2 and 4, with EEA0 and with EIA0 or a 128-EIA2 of four octets, is authenticated by a
-- valid handler with the same algorithms and key and a COUNT that has the same upper octets and is
-- at most nine behind the sender's, which is below 2 ^ 24; and what the handler then decodes is
-- the request with its fields and the optionals that were selected.
pub new_msg_sec-dec_sec_nas :
    (eia2 : List ℕ → List ℕ → ℕ → Direction → List ℕ → List ℕ)
    → ((k c : List ℕ) (b : ℕ) (d : Direction) (m : List ℕ) → length (eia2 k c b d m) ≡ 4)
    → (sender receiver : NasHandler) (mem stack : Mem ℕ) (out len s unset type ksi : ℕ)
      (d : Direction) (id capability esm : List ℕ) (es : List (Option (List ℕ)))
    → sender.is_valid ≡ true
    → receiver.is_valid ≡ true
    → receiver.i ≡ sender.i
    → receiver.ikey ≡ sender.ikey
    → (sender.i ≡ 0) ⊎ (sender.i ≡ 2)
    → sender.e ≡ 0
    → receiver.e ≡ 0
    → (s ≡ 1) ⊎ ((s ≡ 2) ⊎ (s ≡ 4))
    → type < 16
    → ksi < 16
    → Chosen attach_request_options es
    → length (plain_attach_request type ksi id capability esm es) < 255
    → nas_count sender d < 16777216
    → nas_count receiver d / 256 ≡ nas_count sender d / 256
    → nas_count receiver d ≤ nas_count sender d
    → nas_count sender d < nas_count receiver d + 10
    → (sec : Secured) × (r : Auth) × (new_msg_sec eia2 sender mem out len 7 s d
          (plain_attach_request type ksi id capability esm es)
        ≡ some sec)
      × (authenticate_msg eia2 unset receiver sec.mem out sec.len d ≡ some r)
      × (r.is_auth ≡ true)
      × (nas_count r.handler d ≡ nas_count sender d + 1)
      × (dec_sec_nas unset stack r.handler sec.mem out sec.len
          ≡ some (
            attach_request_message (record {
              eps_attach_type = type;
              nas_key_set_id = ksi;
              eps_mobile_id = id;
              ue_network_capability = capability;
              esm_message_container = esm;
              optionals = stored_options attach_request_options es;
            }),
            true,
          ))
new_msg_sec-dec_sec_nas eia2 four sender receiver mem stack out len s unset type ksi d id capability
      esm es vs vr hi hk alg he hr kind ht hs f short small upper low high =
    let plain = plain_attach_request type ksi id capability esm es in
    let c : ℕ = nas_count sender d in
    let (sec, made, sized, header, at, auth) =
      new_msg_sec-authenticate_msg eia2 four sender receiver mem out len 7 s unset d plain vs vr hi
        hk alg he (omega arith) (kind-protected s kind) short small upper low high in
    let n : NasHandler = put_count receiver d (c + 1) in
    let r : Auth = record { handler = n; is_auth = true; ret = 1 } in
    (
      sec,
      r,
      made,
      auth,
      refl,
      nas_count-put_count receiver d (c + 1),
      dec_sec_nas_payload n stack sec.mem out sec.len unset s plain _ header kind
          (put_count-is_valid receiver d (c + 1) ∙ vr) (put_count-e receiver d (c + 1) ∙ hr) sized
          (omega (arith, sized)) at
          (λ mem' a held.
            dec_nas_attach mem' a (length plain)
              (attach_request_bytes type ksi id capability esm es) _ held (omega arith)
              (omega arith)
              (dec_attach_request-bytes mem' (a + 2) _ type ksi id capability esm es ht hs f
                (two_octets mem' a 0x07 0x41 (attach_request_bytes type ksi id capability esm es)
                  held).2
                refl (omega arith))),
    )
