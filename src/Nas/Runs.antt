-- ===== src/Nas/Runs.antt =====
-- NAS/src/NASMessages.c and NAS/src/eia2.c: the theorems on decoding and the MAC at concrete messages.
use aalto_mme.Prelude.{
  ℕ, ◌+◌, ◌%◌, All, ◌≡◌, refl, arith, Option, none, some, List, [], ◌∷◌, ◌++◌, replicate, get_or,
  take, Mem, read, write, store,
}
use aalto_mme.Nas.Options.{Opt, tlv, tv_t3, dec_options, stored_options}
use aalto_mme.Nas.OptionsRoundTrip.{dec_options-option_bytes}
use aalto_mme.Nas.Messages.{attach_request_options, dec_attach_request}
use aalto_mme.Nas.MessagesRoundTrip.{attach_request_bytes, dec_attach_request-bytes}
use aalto_mme.Nas.Count.{Direction}
use aalto_mme.Nas.Eia2.{eia2, zero_block}
use aalto_mme.Nas.Blocks.{join_blocks}
use aalto_mme.Nas.Prefix.{prefixed}
use aalto_mme.Nas.Eia2Cmac.{cmac, eia2-cmac}
use aalto_mme.Nas.Subkeys.{IsOctet}

abbrev blank : Mem ℕ
blank = λ a. 0

-- The identity, the capability and the container of a request, with one optional of its table.
abbrev chosen_guti : List (Option (List ℕ))
chosen_guti = none ∷ some (0x50 ∷ 2 ∷ 11 ∷ 12 ∷ []) ∷ replicate 16 none

-- An attach request in memory, at address 4.
abbrev request_bytes : List ℕ
request_bytes = attach_request_bytes 1 7 (8 ∷ 9 ∷ []) (3 ∷ []) (2 ∷ 1 ∷ 0xd0 ∷ []) chosen_guti

dec_attach_request-bytes_example : dec_attach_request (write blank 4 request_bytes) 4 15 ≡ record {
  eps_attach_type = 1;
  nas_key_set_id = 7;
  eps_mobile_id = 8 ∷ 9 ∷ [];
  ue_network_capability = 3 ∷ [];
  esm_message_container = 2 ∷ 1 ∷ 0xd0 ∷ [];
  optionals = stored_options attach_request_options chosen_guti;
}
unfolding write store read
dec_attach_request-bytes_example =
    dec_attach_request-bytes (write blank 4 request_bytes) 4 15 1 7 (8 ∷ 9 ∷ []) (3 ∷ [])
      (2 ∷ 1 ∷ 0xd0 ∷ []) chosen_guti (omega arith) (omega arith) ((refl, refl, omega arith), tt)
      refl refl (omega arith)

-- The third line of the table of updates, a key set in half an octet behind it left out.
abbrev chosen_tmsi : List (Option (List ℕ))
chosen_tmsi = none ∷ none ∷ some (0x19 ∷ 1 ∷ 2 ∷ 3 ∷ []) ∷ replicate 21 none

abbrev chosen_apn : List (Option (List ℕ))
chosen_apn = some (0xd1 ∷ []) ∷ some (0x28 ∷ 1 ∷ 97 ∷ []) ∷ none ∷ none ∷ []

abbrev two_lines : List Opt
two_lines = tlv 0x28 ∷ tv_t3 0x19 3 ∷ []

dec_options-option_bytes_example :
    dec_options
      (write blank 0 (0x19 ∷ 4 ∷ 5 ∷ []))
      two_lines
      (record { pos = 0; size = 3; opts = [] })
    ≡ record {
      pos = 0 + 3;
      size = 0;
      opts = [] ++ stored_options two_lines (none ∷ some (0x19 ∷ 4 ∷ 5 ∷ []) ∷ []);
    }
unfolding write store read
dec_options-option_bytes_example =
    dec_options-option_bytes (write blank 0 (0x19 ∷ 4 ∷ 5 ∷ [])) two_lines
      (none ∷ some (0x19 ∷ 4 ∷ 5 ∷ []) ∷ []) (record { pos = 0; size = 3; opts = [] }) refl
      ((refl, refl), tt) refl refl (omega arith)

-- A cipher that depends on its three arguments; of zeros it makes a block with its top bit set.
abbrev toy_cipher : List ℕ → List ℕ → List ℕ → List ℕ
toy_cipher key iv block =
    (get_or iv 1 0 + 0x83) % 256 ∷ (get_or key 0 0 + get_or block 8 0) % 256 ∷ replicate 14 5

-- Seventeen octets with the prefix: one complete block and one octet.
eia2-cmac_example :
    eia2 toy_cipher (replicate 16 3) (0 ∷ 0 ∷ 0 ∷ 4 ∷ []) 0 Direction.down_link (replicate 9 6)
    ≡ take 4 (
        cmac toy_cipher
          (take 16 (replicate 16 3))
          ((0 ∷ 0 ∷ 0 ∷ 4 ∷ 4 ∷ 0 ∷ 0 ∷ 0 ∷ replicate 8 6) ∷ [])
          (6 ∷ []))
unfolding prefixed join_blocks
eia2-cmac_example =
    eia2-cmac toy_cipher (replicate 16 3) (0 ∷ 0 ∷ 0 ∷ 4 ∷ []) (replicate 9 6) 0 Direction.down_link
      ((0 ∷ 0 ∷ 0 ∷ 4 ∷ 4 ∷ 0 ∷ 0 ∷ 0 ∷ replicate 8 6) ∷ []) (6 ∷ []) refl (omega arith) refl
      toy_octets (refl, tt) (omega arith) (omega arith) refl
  where
    toy_octets : All IsOctet (toy_cipher (replicate 16 3) zero_block zero_block)
    toy_octets = ground arith
