-- ===== src/Nas/SecurityRuns.antt =====
-- NAS/src/NAS.c: the theorems on protected messages at concrete ones.
use aalto_mme.Prelude.{
  ℕ, ◌+◌, ◌*◌, ◌/◌, ◌<◌, ◌≤◌, ◌≡◌, refl, arith, true, false, Option, none, some, List, [], ◌∷◌,
  length, replicate, get_or, bit_and, Mem, read, write, store, Holds, inl, inr, ◌⊎◌,
}
use aalto_mme.Nas.Options.{stored_options}
use aalto_mme.Nas.Messages.{attach_request_options}
use aalto_mme.Nas.Count.{
  Direction, NasHandler, nas_count, put_count, set_count, check_count, get_last_count,
  received_count, set_count_short, check_count_short,
}
use aalto_mme.Nas.CountLaws.{set_count-check_count}
use aalto_mme.Nas.Security.{
  security_header, protected, same, octets, eia, Auth, Secured, authenticate_protected,
  authenticate_msg, new_msg_sec,
}
use aalto_mme.Nas.SecurityLaws.{
  expected_mac, expected_short_mac, authenticate_msg-genuine, authenticate_msg-replay,
}
use aalto_mme.Nas.SecurityRoundTrip.{new_msg_sec-authenticate_msg}
use aalto_mme.Nas.Decode.{dec_sec_nas}
use aalto_mme.Nas.DecodeRoundTrip.{
  plain_attach_request, attach_request_message, new_msg_sec-dec_sec_nas,
}

abbrev blank : Mem ℕ
blank = λ a. 0

-- A MAC that depends on the COUNT, the length and the first octet.
abbrev tag : List ℕ → List ℕ → ℕ → Direction → List ℕ → List ℕ
tag key count bearer direction message =
    get_or count 3 0 ∷ length message ∷ get_or message 0 0 ∷ 7 ∷ []

abbrev handler : ℕ → NasHandler
handler count = record {
  is_valid = true;
  i = 2;
  ikey = replicate 16 1;
  e = 0;
  ekey = replicate 16 2;
  up_count = count;
  down_count = 0;
}

-- Ciphered, sequence number 6 where 5 is expected.
abbrev protected_message : Mem ℕ
protected_message = write blank 0 (0x27 ∷ 6 ∷ 3 ∷ 6 ∷ 7 ∷ 6 ∷ 9 ∷ 9 ∷ [])

abbrev accepted : Auth
accepted = record { handler = handler 7; is_auth = true; ret = 1 }

protected_message-accepted :
    authenticate_msg tag 0 (handler 5) protected_message 0 8 Direction.up_link ≡ some accepted
unfolding authenticate_msg authenticate_protected security_header protected same octets eia
    nas_count put_count set_count check_count received_count write store read
protected_message-accepted = refl

authenticate_msg-genuine_example :
    ((accepted.is_auth ≡ false) × (accepted.handler ≡ handler 5))
    ⊎ (((handler 5).is_valid ≡ true)
        × (accepted.is_auth ≡ true)
        × (((protected (security_header protected_message 0 8 0) ≡ true)
              × (check_count (nas_count (handler 5) Direction.up_link) (protected_message (0 + 5))
                  ≡ true)
              × (accepted.handler
                  ≡ (set_count (handler 5) Direction.up_link (protected_message (0 + 5))).0)
              × (((handler 5).i ≡ 0)
                  ⊎ (((handler 5).i ≡ 2)
                      × (read protected_message (0 + 1) 4
                          ≡ expected_mac tag (handler 5) protected_message 0 8 Direction.up_link))))
            ⊎ ((security_header protected_message 0 8 0 ≡ 12)
                × (check_count_short
                      (nas_count (handler 5) Direction.up_link)
                      (bit_and (protected_message (0 + 1)) 0x1f)
                    ≡ true)
                × (accepted.handler
                    ≡ (set_count_short
                        (handler 5)
                        Direction.up_link
                        (bit_and (protected_message (0 + 1)) 0x1f)).0)
                × (((handler 5).i ≡ 0)
                    ⊎ (((handler 5).i ≡ 2)
                        × (read protected_message (0 + 2) 2
                            ≡ expected_short_mac tag
                                (handler 5)
                                protected_message
                                0
                                Direction.up_link))))))
authenticate_msg-genuine_example =
    authenticate_msg-genuine tag (handler 5) protected_message 0 8 Direction.up_link accepted 0
      protected_message-accepted

authenticate_msg-replay_example :
    authenticate_msg tag 0 (handler 7) protected_message 0 8 Direction.up_link
    ≡ some (record { handler = handler 7; is_auth = false; ret = 2 })
unfolding nas_count protected security_header write store
authenticate_msg-replay_example =
    authenticate_msg-replay tag (handler 5) protected_message 0 8 Direction.up_link accepted 0
      (omega arith) (omega arith) refl protected_message-accepted refl

-- The identity, the capability and the container of a request, with one optional of its table.
abbrev chosen_guti : List (Option (List ℕ))
chosen_guti = none ∷ some (0x50 ∷ 2 ∷ 11 ∷ 12 ∷ []) ∷ replicate 16 none

new_msg_sec-dec_sec_nas_example :
    (sec : Secured) × (r : Auth) × (new_msg_sec tag
        (handler 6)
        blank
        100
        0
        7
        2
        Direction.up_link
        (plain_attach_request 1 7 (8 ∷ 9 ∷ []) (3 ∷ []) (2 ∷ 1 ∷ 0xd0 ∷ []) chosen_guti)
      ≡ some sec)
    × (authenticate_msg tag 0 (handler 5) sec.mem 100 sec.len Direction.up_link ≡ some r)
    × (r.is_auth ≡ true)
    × (nas_count r.handler Direction.up_link ≡ nas_count (handler 6) Direction.up_link + 1)
    × (dec_sec_nas 0 blank r.handler sec.mem 100 sec.len
        ≡ some (
          attach_request_message (record {
            eps_attach_type = 1;
            nas_key_set_id = 7;
            eps_mobile_id = 8 ∷ 9 ∷ [];
            ue_network_capability = 3 ∷ [];
            esm_message_container = 2 ∷ 1 ∷ 0xd0 ∷ [];
            optionals = stored_options attach_request_options chosen_guti;
          }),
          true,
        ))
unfolding nas_count
new_msg_sec-dec_sec_nas_example =
    new_msg_sec-dec_sec_nas tag (λ k c b d m. refl) (handler 6) (handler 5) blank blank 100 0 2 0 1
      7 Direction.up_link (8 ∷ 9 ∷ []) (3 ∷ []) (2 ∷ 1 ∷ 0xd0 ∷ []) chosen_guti refl refl refl refl
      (inr refl) refl refl (inr (inl refl)) (omega arith) (omega arith)
      ((refl, refl, omega arith), tt) (omega arith) (omega arith) refl (omega arith) (omega arith)

new_msg_sec-authenticate_msg_example :
    (sec : Secured) × (new_msg_sec tag (handler 6) blank 100 0 7 4 Direction.up_link (1 ∷ 2 ∷ [])
      ≡ some sec)
    × (sec.len ≡ 6 + 2)
    × (security_header sec.mem 100 sec.len 0 ≡ 4)
    × Holds sec.mem (100 + 6) (1 ∷ 2 ∷ [])
    × (authenticate_msg tag 0 (handler 5) sec.mem 100 sec.len Direction.up_link
        ≡ some (record {
          handler =
              put_count (handler 5) Direction.up_link (nas_count (handler 6) Direction.up_link + 1);
          is_auth = true;
          ret = 1;
        }))
unfolding nas_count protected
new_msg_sec-authenticate_msg_example =
    new_msg_sec-authenticate_msg tag (λ k c b d m. refl) (handler 6) (handler 5) blank 100 0 7 4 0
      Direction.up_link (1 ∷ 2 ∷ []) refl refl refl refl (inr refl) refl (omega arith) refl
      (omega arith) (omega arith) refl (omega arith) (omega arith)

set_count-check_count_example :
    (nas_count (handler 5) Direction.up_link
      < nas_count (set_count (handler 5) Direction.up_link 9).0 Direction.up_link)
    × (nas_count (set_count (handler 5) Direction.up_link 9).0 Direction.up_link
        ≤ nas_count (handler 5) Direction.up_link + 10)
    × (get_last_count (set_count (handler 5) Direction.up_link 9).0 Direction.up_link
        ≡ nas_count (handler 5) Direction.up_link / 256 * 256 + 9)
    × ((◌≡◌ {A = ℕ} 9 255)
        ⊎ (check_count (nas_count (set_count (handler 5) Direction.up_link 9).0 Direction.up_link) 9
            ≡ false))
unfolding nas_count check_count
set_count-check_count_example =
    set_count-check_count (handler 5) Direction.up_link 9 (omega arith) (omega arith) refl
