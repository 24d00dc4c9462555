-- ===== src/Emm/Send.antt =====
-- mme/S1/NAS/NAS_EMM.c and the state files beside it: the messages the MME sends to a user. The
-- buffers are taken as large enough. `none` is an abort or a call through a null pointer.
use aalto_mme.Prelude.{
  ℕ, ◌+◌, ◌/◌, true, false, ◌&&◌, ◌||◌, not, Option, none, some, List, [], ◌∷◌, ◌++◌, take, drop,
  length, ltb, ◌==◌, if◌then◌else◌, bit_and, bit_or, Mem, read, write,
}
use aalto_mme.Nas.Ie.{Out, v_t1_l, v_t1_h, v_t3, tv_t3, lv_t4, tlv_t4, lv_t6, tlv_t6}
use aalto_mme.Nas.Count.{Direction}
use aalto_mme.Nas.Security.{new_msg_sec}
use aalto_mme.Emm.Ctx.{
  State, Effect, Ecm, AuthQuadruplet, Ctx, ◌>>=◌, t3450, t3460, t3470, set_timer, change_state,
  to_ecm, new_guti, detach,
}

-- Octets where a `const uint8_t *` is asked for.
unfoldable pub at_zero : List ℕ → Mem ℕ
at_zero bytes = write (λ a. 0) 0 bytes

-- `newNASMsg_EMM(&pointer, EPSMobilityManagementMessages, PlainNAS)` and `encaps_EMM`.
unfoldable pub emm_message : ℕ → Out
emm_message type = v_t3 (λ a. type) 1 (v_t1_h 0 (v_t1_l 0x7 (record { mem = λ a. 0; p = 0 })))

-- `pointer++` over the spare half octet.
unfoldable pub spare : Out → Out
spare o = record o { p = o.p + 1 }

-- `buffer` up to `pointer`.
unfoldable pub built : Out → List ℕ
built o = read o.mem 0 o.p

unfoldable pub auth_request : ℕ → AuthQuadruplet → List ℕ
auth_request ksi q = built (
    lv_t4 (at_zero q.autn) 16
      (v_t3 (at_zero q.rand) 16 (spare (v_t1_l (bit_and ksi 0x0f) (emm_message 0x52)))))

unfoldable pub identity_request : List ℕ
identity_request = built (spare (v_t1_l 1 (emm_message 0x55)))

-- The replayed capabilities: octet 4 of them has the GEA bits of the MS network capability.
unfoldable pub replayed_capabilities : Ctx → List ℕ
replayed_capabilities c =
    let copied : Mem ℕ = write (λ a. 0) 0 (read c.ue_capabilities 0 c.ue_capabilities_len) in
    copied 0
    ∷ copied 1
    ∷ copied 2
    ∷ bit_and (copied 3) 0x7f
    ∷ bit_or (bit_and (c.ms_net_cap 0) 0x80 / 2) (bit_and (c.ms_net_cap 1) 0x7e / 2)
    ∷ []

-- EEA0 and EIA2, the key set, the capabilities, and the request of the IMEISV.
unfoldable pub security_mode_command : Ctx → List ℕ
security_mode_command c = built (
    v_t3 (λ a. 0xc1) 1
      (lv_t4 (at_zero (replayed_capabilities c)) 5
        (spare (v_t1_l (bit_and c.ksi 0x0f) (v_t3 (λ a. 2) 1 (emm_message 0x5d))))))

-- `ecmSession_getTAIlist`.
unfoldable pub tai_list : Ecm → List ℕ
tai_list e = 0 ∷ (e.sn ++ e.tac)

-- `guti_b`: spare, odd or even, GUTI.
unfoldable pub mobile_guti : List ℕ → Mem ℕ
mobile_guti guti = at_zero (0xf6 ∷ guti)

-- What an attach and a tracking area update share: the location area and the TMSI unless the user
-- wants SMS only, and the result of the additional update.
unfoldable pub combined : Ctx → Ecm → List ℕ → Out → Out
combined c e tmsi o =
    let located : Out =
      if not (c.msg_additional_update_type && not (c.msg_sms_only == 0))
      then tlv_t4 0x23 (at_zero (0xf4 ∷ tmsi)) 5 (tv_t3 0x13 (at_zero (e.sn ++ e.tac)) 5 o)
      else o in
    if c.msg_additional_update_type
    then v_t1_h 0xf (v_t1_l (if c.msg_sms_only == 0 then 0 else 2) located)
    else located

-- `tmsi` is read from a GUTI that the function does not set: `uninit`.
unfoldable pub attach_accept_message : List ℕ → List ℕ → Ecm → Ctx → List ℕ
attach_accept_message uninit esm_msg e c =
    let o : Out = tlv_t4 0x50 (mobile_guti c.guti) 11 (
      lv_t6 (at_zero esm_msg) (length esm_msg) (
        lv_t4 (at_zero (tai_list e)) 6
          (v_t3 (λ a. c.t3412) 1 (spare (v_t1_l c.attach_result (emm_message 0x42)))))) in
    built (if c.attach_result == 2 then combined c e uninit o else o)

unfoldable pub attach_reject_message : ℕ → List ℕ → List ℕ
attach_reject_message cause esm_msg =
    let o : Out = v_t3 (λ a. cause) 1 (emm_message 0x44) in
    built (if length esm_msg == 0 then o else tlv_t6 0x78 (at_zero esm_msg) (length esm_msg) o)

unfoldable pub tau_accept_message : Ecm → Ctx → List ℕ
tau_accept_message e c =
    let o : Out = tlv_t4 0x54 (at_zero (tai_list e)) 6 (
      tlv_t4 0x50 (mobile_guti c.guti) 11
        (tv_t3 0x5a (λ a. c.t3412) 1 (spare (v_t1_l c.update_result (emm_message 0x49))))) in
    let with_status : Out = elim c.msg_bearer_ctx [
      | none ↦ o
      | some status ↦ tlv_t4 0x57 (at_zero (0x20 ∷ 0x00 ∷ [])) 2 o
    ] in
    built (
      if c.update_result == 1 || c.update_result == 5
      then combined c e (take 4 (drop 6 c.guti)) with_status
      else with_status)

-- A message of a type with a cause alone: TRACKING AREA UPDATE REJECT and SERVICE REJECT.
unfoldable pub cause_message : ℕ → ℕ → List ℕ
cause_message type cause = built (v_t3 (λ a. cause) 1 (emm_message type))

unfoldable pub send : List ℕ → Ctx → Option Ctx
send bytes c = to_ecm (Effect.sent bytes) c

-- `emm_sendIdentityReq`.
unfoldable pub send_identity_req : Ctx → Option Ctx
send_identity_req c = send identity_request (set_timer t3470 identity_request c)

unfoldable pub next_ksi : ℕ → ℕ
next_ksi k = if ltb k 6 then k + 1 else 1

unfoldable pub generate_new_ksi : ℕ → ℕ → ℕ
unfolding next_ksi
generate_new_ksi k1 k2 = if k1 == next_ksi k2 then next_ksi (next_ksi k2) else next_ksi k2

-- The request of a quadruplet, with a new key set.
unfoldable pub challenge : AuthQuadruplet → Ctx → Option Ctx
challenge q c =
    let d : Ctx = record c { ksi = generate_new_ksi c.ksi c.msg_ksi } in
    send (auth_request d.ksi q) d >>= λ s.
    some (change_state State.common_procedure (set_timer t3460 (auth_request d.ksi q) s))

-- `emm_sendAuthRequest`, with the first quadruplet.
unfoldable pub send_auth_request : Ctx → Option Ctx
send_auth_request c = elim c.auth_quadrs [ [] ↦ none | q ∷ qs ↦ challenge q c ]

-- `sendAuthReject`.
unfoldable pub send_auth_reject : Ctx → Option Ctx
send_auth_reject c =
    send (built (emm_message 0x54)) c >>= λ s. some (change_state State.deregistered s)

-- `emm_detachAccept`, which the ESM calls back.
unfoldable pub detach_accept : Ctx → Option Ctx
detach_accept c =
    let d : Ctx = record c { s1_bearers_active = false } in
    (if bit_and c.msg_detach_type 0x8 == 0x8 then some d else send (built (emm_message 0x46)) d)
    >>= λ s. to_ecm (Effect.released detach) (change_state State.deregistered s)

-- `eia2` is 128-EIA2, as in the NAS security; `unset` and `uninit` are what a length and a GUTI on
-- the stack hold.
module _ (eia2 : List ℕ → List ℕ → ℕ → Direction → List ℕ → List ℕ) where
  -- `newNASMsg_sec`, and what it made as the effect `wrap`; `len` is the length before the call.
  unfoldable pub send_secured : (List ℕ → Effect) → ℕ → ℕ → List ℕ → Ctx → Option Ctx
  send_secured wrap len s plain c =
      elim (new_msg_sec eia2 c.parser (λ a. 0) 0 len 0x7 s Direction.down_link plain) [
        | none ↦ none
        | some r ↦ to_ecm (wrap (read r.mem 0 r.len)) (record c { parser = r.handler })
      ]

  -- In the security context, where there is one.
  unfoldable pub send_either : ℕ → List ℕ → Ctx → Option Ctx
  send_either len plain c = if c.sci then send_secured Effect.sent len 2 plain c else send plain c

  -- `emm_sendAttachReject`.
  unfoldable pub send_attach_reject : ℕ → ℕ → List ℕ → Ctx → Option Ctx
  send_attach_reject unset cause esm_msg c =
      if c.attach_started
      then send_either unset (attach_reject_message cause esm_msg)
          (record c { attach_started = false; s1_bearers_active = false })
      else some c

  -- `emm_sendServiceReject`.
  unfoldable pub send_service_reject : ℕ → ℕ → Ctx → Option Ctx
  send_service_reject unset cause c = send_either unset (cause_message 0x4e cause) c >>= λ s.
      some (change_state State.deregistered s)

  -- `emm_sendTAUReject`.
  unfoldable pub send_tau_reject : ℕ → Ctx → Option Ctx
  send_tau_reject cause c = send_either 0 (cause_message 0x4b cause) c

  -- `emm_sendSecurityModeCommand`.
  unfoldable pub send_security_mode_command : ℕ → Ctx → Option Ctx
  send_security_mode_command unset c =
      send_secured Effect.sent unset 3 (security_mode_command c) c >>= λ s.
      some (change_state State.common_procedure (set_timer t3460 (security_mode_command c) s))

  -- `emm_sendTAUAccept`.
  unfoldable pub send_tau_accept : Ctx → Option Ctx
  send_tau_accept c = elim c.ecm [
    | none ↦ none
    | some e ↦
        let plain : List ℕ = tau_accept_message e c in
        send_secured Effect.sent 0 2 plain (set_timer t3450 plain c)
  ]

  -- The attach accept, where there is a GUTI.
  unfoldable pub accept_with_guti : ℕ → List ℕ → List ℕ → Ctx → Option Ctx
  accept_with_guti unset uninit esm_msg c = elim c.ecm [
    | none ↦ none
    | some e ↦
        let plain : List ℕ = attach_accept_message uninit esm_msg e c in
        send_secured Effect.context_setup unset 2 plain
          (set_timer t3450 plain (record c { s1_bearers_active = true }))
  ]

  -- `emmAttachAccept`, which the ESM calls in a specific procedure.
  unfoldable pub attach_accept : ℕ → List ℕ → List ℕ → Ctx → Option Ctx
  attach_accept unset uninit esm_msg c =
      if c.attach_started
      then (new_guti (record c { attach_started = false })
          >>= accept_with_guti unset uninit esm_msg)
      else some c

  -- `emm_internalSendESM`, with room for six octets of security in `out`.
  unfoldable pub send_esm : ℕ → List ℕ → Ctx → Option Ctx
  send_esm unset msg c = send_either unset msg c
