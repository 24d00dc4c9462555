-- ===== src/Nas/Messages.antt =====
-- NAS/src/NASMessages.c: the decoders of the messages that the MME receives. `buffer` is memory and
-- an address; no decoder compares a length octet with the size of the message, so each reads what
-- memory holds. The optionals are a list, in the order in which they are stored.
use aalto_mme.Prelude.{ℕ, ◌+◌, ◌/◌, List, [], ◌∷◌, ◌==◌, if◌then◌else◌, bit_and, Mem, read, get_u16}
use aalto_mme.Nas.Options.{minus_size, Opt, tlv, tv_t3, tv_t1, dec_options}

-- A length octet and that many octets.
unfoldable pub lv : Mem ℕ → ℕ → List ℕ
lv mem p = read mem (p + 1) (mem p)

-- Two length octets in network order, and that many octets.
unfoldable pub lv_e : Mem ℕ → ℕ → List ℕ
unfolding get_u16
lv_e mem p = read mem (p + 2) (get_u16 mem p)

pub record AttachRequest : Type 0 where
  pub eps_attach_type : ℕ
  pub nas_key_set_id : ℕ
  pub eps_mobile_id : List ℕ
  pub ue_network_capability : List ℕ
  pub esm_message_container : List ℕ
  pub optionals : List (List ℕ)

abbrev pub attach_request_options : List Opt
attach_request_options =
    tv_t3 0x19 4
    ∷ tlv 0x50
    ∷ tv_t3 0x52 6
    ∷ tv_t3 0x5c 3
    ∷ tlv 0x31
    ∷ tv_t3 0x13 6
    ∷ tv_t1 0x9 0x1
    ∷ tlv 0x11
    ∷ tlv 0x20
    ∷ tlv 0x40
    ∷ tv_t1 0xf 0x1
    ∷ tlv 0x5d
    ∷ tv_t1 0xd 0x1
    ∷ tv_t1 0xe 0x1
    ∷ tv_t1 0xc 0x1
    ∷ tlv 0x10
    ∷ tlv 0x6a
    ∷ tlv 0x5e
    ∷ []

-- The optionals from `p` on, if there is anything left.
unfoldable pub optionals_at : Mem ℕ → List Opt → ℕ → ℕ → List (List ℕ)
optionals_at mem table p size =
    if size == 0
    then []
    else (dec_options mem table (record { pos = p; size = size; opts = [] })).opts

unfoldable pub dec_attach_request : Mem ℕ → ℕ → ℕ → AttachRequest
unfolding lv lv_e get_u16
dec_attach_request mem buffer s =
    let id : ℕ = buffer + 1 in
    let cap : ℕ = id + (mem id + 1) in
    let esm : ℕ = cap + (mem cap + 1) in
    let size : ℕ =
      minus_size
        (minus_size (minus_size (minus_size (minus_size s 1) (mem id + 1)) (mem cap + 1)) 2)
        (get_u16 mem esm) in
    record {
      eps_attach_type = bit_and (mem buffer) 0x0f;
      nas_key_set_id = bit_and (mem buffer) 0xf0 / 16;
      eps_mobile_id = lv mem id;
      ue_network_capability = lv mem cap;
      esm_message_container = lv_e mem esm;
      optionals = optionals_at mem attach_request_options (esm + 2 + get_u16 mem esm) size;
    }

pub record TauRequest : Type 0 where
  pub eps_update_type : ℕ
  pub nas_key_set_id : ℕ
  pub old_guti : List ℕ
  pub optionals : List (List ℕ)

abbrev pub tau_request_options : List Opt
tau_request_options =
    tv_t1 0xb 0xf
    ∷ tv_t1 0x8 0x7
    ∷ tv_t3 0x19 4
    ∷ tlv 0x50
    ∷ tv_t3 0x55 5
    ∷ tlv 0x58
    ∷ tv_t3 0x52 6
    ∷ tv_t3 0x5c 3
    ∷ tv_t1 0xa 0x1
    ∷ tlv 0x57
    ∷ tlv 0x31
    ∷ tv_t3 0x13 6
    ∷ tv_t1 0x9 0x1
    ∷ tlv 0x11
    ∷ tlv 0x20
    ∷ tlv 0x40
    ∷ tv_t1 0xf 0x1
    ∷ tlv 0x5d
    ∷ tv_t1 0xe 0x1
    ∷ tv_t1 0xd 0x1
    ∷ tv_t1 0xc 0x1
    ∷ tlv 0x10
    ∷ tlv 0x6a
    ∷ tlv 0x5e
    ∷ []

unfoldable pub dec_tracking_area_update_request : Mem ℕ → ℕ → ℕ → TauRequest
unfolding lv
dec_tracking_area_update_request mem buffer s =
    let guti : ℕ = buffer + 1 in
    record {
      eps_update_type = bit_and (mem buffer) 0x0f;
      nas_key_set_id = bit_and (mem buffer) 0xf0 / 16;
      old_guti = lv mem guti;
      optionals =
          optionals_at mem tau_request_options (guti + (mem guti + 1))
            (minus_size (minus_size s 1) (mem guti + 1));
    }

pub record DetachRequest : Type 0 where
  pub detach_type : ℕ
  pub nas_key_set_id : ℕ
  pub eps_mobile_id : List ℕ

unfoldable pub dec_detach_request_ue_orig : Mem ℕ → ℕ → ℕ → DetachRequest
unfolding lv
dec_detach_request_ue_orig mem buffer s = record {
  detach_type = bit_and (mem buffer) 0x0f;
  nas_key_set_id = bit_and (mem buffer) 0xf0 / 16;
  eps_mobile_id = lv mem (buffer + 1);
}

-- The mobile identity.
unfoldable pub dec_identity_response : Mem ℕ → ℕ → ℕ → List ℕ
unfolding lv
dec_identity_response mem buffer size = lv mem buffer

-- The authentication parameter.
unfoldable pub dec_authentication_response : Mem ℕ → ℕ → ℕ → List ℕ
unfolding lv
dec_authentication_response mem buffer size = lv mem buffer

pub record AuthenticationFailure : Type 0 where
  pub emm_cause : ℕ
  pub optionals : List (List ℕ)

unfoldable pub dec_authentication_failure : Mem ℕ → ℕ → ℕ → AuthenticationFailure
dec_authentication_failure mem buffer s = record {
  emm_cause = mem buffer;
  optionals =
      if minus_size s 1 == 0
      then []
      else if mem (buffer + 1) == 0x30
      then read mem (buffer + 1) (mem (buffer + 2) + 2) ∷ []
      else [];
}

pub record AttachAccept : Type 0 where
  pub eps_attach_result : ℕ
  pub t3412 : ℕ
  pub tai_list : List ℕ
  pub esm_message_container : List ℕ

unfoldable pub dec_attach_accept : Mem ℕ → ℕ → ℕ → AttachAccept
unfolding lv lv_e
dec_attach_accept mem buffer s = record {
  eps_attach_result = bit_and (mem buffer) 0x0f;
  t3412 = mem (buffer + 1);
  tai_list = lv mem (buffer + 2);
  esm_message_container = lv_e mem (buffer + 2 + (mem (buffer + 2) + 1));
}

-- The ESM message container.
unfoldable pub dec_attach_complete : Mem ℕ → ℕ → ℕ → List ℕ
unfolding lv_e
dec_attach_complete mem buffer size = lv_e mem buffer

-- The EMM cause.
unfoldable pub dec_attach_reject : Mem ℕ → ℕ → ℕ → ℕ
dec_attach_reject mem buffer size = mem buffer

pub record PdnConnectivityRequest : Type 0 where
  pub request_type : ℕ
  pub pdn_type : ℕ
  pub optionals : List (List ℕ)

abbrev pub pdn_connectivity_options : List Opt
pdn_connectivity_options = tv_t1 0xd 0x1 ∷ tlv 0x28 ∷ tlv 0x27 ∷ tv_t1 0xc 0x1 ∷ []

unfoldable pub dec_pdn_connectivity_request : Mem ℕ → ℕ → ℕ → PdnConnectivityRequest
dec_pdn_connectivity_request mem buffer s = record {
  request_type = bit_and (mem buffer) 0x0f;
  pdn_type = bit_and (mem buffer) 0xf0 / 16;
  optionals = optionals_at mem pdn_connectivity_options (buffer + 1) (minus_size s 1);
}
