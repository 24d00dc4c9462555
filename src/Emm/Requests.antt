-- ===== src/Emm/Requests.antt =====
-- mme/S1/NAS/NAS_EMM.c: what the MME takes from the requests of a user.
use aalto_mme.Prelude.{
  ℕ, ◌+◌, ◌*◌, ◌/◌, ◌%◌, true, false, Option, none, some, List, [], ◌∷◌, ◌++◌, take, drop, length,
  ◌==◌, if◌then◌else◌, bit_and, write, get_or,
}
use aalto_mme.Nas.Decode.{opt_lookup}
use aalto_mme.Nas.Messages.{AttachRequest, TauRequest, DetachRequest}
use aalto_mme.Emm.Ctx.{Ctx, new_guti}

-- `ePSMobileId_header_t`: three bits of type, one of parity.
unfoldable pub id_type : List ℕ → ℕ
id_type v = bit_and (get_or v 0 0) 0x07

unfoldable pub id_parity : List ℕ → ℕ
id_parity v = bit_and (get_or v 0 0) 0x08 / 8

-- The loop over the digits, and the last one: the high nibble of an octet, then the low nibble of
-- the next. `mobid` is a uint64_t.
unfoldable pub digits_from : ℕ → ℕ → List ℕ → ℕ
digits_from parity mobid [] = mobid
digits_from parity mobid (a ∷ []) =
    if parity == 1 then (mobid * 10 + a / 16) % 18446744073709551616 else mobid
digits_from parity mobid (a ∷ b ∷ rest) =
    digits_from parity (((mobid * 10 + a / 16) * 10 + b % 16) % 18446744073709551616) (b ∷ rest)

-- The IMSI in a mobile identity.
unfoldable pub imsi_of : List ℕ → ℕ
unfolding digits_from
imsi_of v = digits_from (id_parity v) 0 v

-- `memcpy` of a capability from an optional: its value behind the identifier and the length.
unfoldable pub optional_value : List ℕ → List ℕ
optional_value o = take (get_or o 1 0) (drop 2 o)

-- `processAttach`. The optionals are looked up in 17 slots.
unfoldable pub process_attach : AttachRequest → Ctx → Ctx
process_attach m c =
    let v : List ℕ = m.eps_mobile_id in
    let d : Ctx = record c {
      attach_started = true;
      msg_attach_type = m.eps_attach_type;
      msg_ksi = bit_and m.nas_key_set_id 0x07;
      pending_esm = c.pending_esm ++ (m.esm_message_container ∷ []);
      imsi = if id_type v == 1 then imsi_of v else c.imsi;
      msg_guti = if id_type v == 6 then take 10 (drop 1 v) else c.msg_guti;
      ue_capabilities = write c.ue_capabilities 0 m.ue_network_capability;
      ue_capabilities_len = length m.ue_network_capability;
      ms_net_cap = elim (opt_lookup m.optionals 17 0x31) [
        | none ↦ c.ms_net_cap
        | some o ↦ write c.ms_net_cap 0 (optional_value o)
      ];
    } in
    elim (opt_lookup m.optionals 17 0xf) [
      | none ↦ record d { msg_additional_update_type = false }
      | some o ↦ record d {
        msg_additional_update_type = true;
        msg_sms_only = bit_and (get_or o 0 0) 0x0f;
      }
    ]

-- `processDetachReq`; what it finds wrong with the identity it only logs.
unfoldable pub process_detach_req : DetachRequest → Ctx → Ctx
process_detach_req m c = record c { msg_detach_type = m.detach_type; msg_ksi = m.nas_key_set_id }

-- `emm_processTAUReq`. The optionals are looked up in 22 slots.
unfoldable pub process_tau_req : TauRequest → Ctx → Ctx
process_tau_req m c =
    let d : Ctx = record c {
      msg_update_type = bit_and m.eps_update_type 0x07;
      msg_active_flag = bit_and m.eps_update_type 0x08 / 8;
      msg_ksi = bit_and m.nas_key_set_id 0x07;
      msg_guti = if id_type m.old_guti == 6 then take 10 (drop 1 m.old_guti) else c.msg_guti;
      ms_net_cap = elim (opt_lookup m.optionals 22 0x31) [
        | none ↦ c.ms_net_cap
        | some o ↦ write c.ms_net_cap 0 (optional_value o)
      ];
      msg_bearer_ctx = elim (opt_lookup m.optionals 22 0x57) [
        | none ↦ none
        | some o ↦ if get_or o 1 0 == 2 then some (optional_value o) else none
      ];
    } in
    let e : Ctx = elim (opt_lookup m.optionals 22 0x58) [
      | none ↦ d
      | some o ↦ record d {
        ue_capabilities = write c.ue_capabilities 0 (optional_value o);
        ue_capabilities_len = get_or o 1 0;
      }
    ] in
    elim (opt_lookup m.optionals 22 0xf) [
      | none ↦ e
      | some o ↦ record e {
        msg_additional_update_type = true;
        msg_sms_only = bit_and (get_or o 0 0) 0x0f;
      }
    ]

-- `processIdentityRsp`.
unfoldable pub process_identity_rsp : List ℕ → Ctx → Option Ctx
process_identity_rsp v c =
    new_guti (record c { imsi = if id_type v == 1 then imsi_of v else c.imsi })
