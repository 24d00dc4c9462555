-- ===== src/Emm/Machine.antt =====
-- mme/S1/NAS: the state machine of a user: `emm_processMsg` of NAS_EMM.c, what the handlers of the
-- states test before they decode a message, and the calls from outside, as events.
use aalto_mme.Prelude.{
  ℕ, ◌/◌, Bool, true, false, ◌&&◌, ◌||◌, not, Option, none, some, List, [], ◌∷◌, leb, ◌==◌,
  if◌then◌else◌, bit_and, Mem,
}
use aalto_mme.Nas.Count.{Direction}
use aalto_mme.Nas.Options.{minus_size}
use aalto_mme.Nas.Security.{Auth, security_header, discriminator, authenticate_msg}
use aalto_mme.Nas.Decode.{NasMessage, Body, dec_nas, dec_sec_nas, is_auth_required}
use aalto_mme.Emm.Ctx.{
  State, Effect, Ecm, AuthQuadruplet, Ctx, ◌>>=◌, mobile_reachable, stop_timer, to_ecm,
  add_auth_quadruplet,
}
use aalto_mme.Emm.Send.{
  send_auth_request, send_service_reject, attach_accept, send_esm, detach_accept,
}
use aalto_mme.Emm.Procedures.{register_ecm, emm_deregister, emm_stop, process_first_esm_msg, get_nh}
use aalto_mme.Emm.Uplink.{Overlay, message_type, uplink, note_count, mobile_timeout}
use aalto_mme.Emm.Deregistered
use aalto_mme.Emm.Registered
use aalto_mme.Emm.SpecificProcedure
use aalto_mme.Emm.CommonProcedure

-- `buffer` and `len`.
pub record Pdu : Type 0 where
  pub mem : Mem ℕ
  pub len : ℕ

-- From the ECM, the timers, the S6a and the ESM.
pub data Event : Type 0 where
  message : Pdu → Event
  timeout timeout_max : ℕ → Event
  s6a_error : Bool → Event
  auth_quadruplet : AuthQuadruplet → Event
  auth_info_available synch_error gateways_selected detached next_hop deregistered : Event
  attach_accepted esm_sent : List ℕ → Event
  bearers_released : Event
  registered : Ecm → Event

-- `!isAuth && nas_isAuthRequired(...)`, in front of what a state does with a message.
unfoldable pub gate : (Bool → NasMessage → Ctx → Option Ctx) → Bool → NasMessage → Ctx → Option Ctx
gate continue is_auth m c =
    if not is_auth && is_auth_required (message_type m.body) then some c else continue is_auth m c

-- `eia2` is 128-EIA2, `hmac` HMAC-SHA256; `unset`, `stack` and `uninit` are what variables of the
-- functions hold before they are set, and `overlaid` what the memory of a session management
-- message holds where it is read as a mobility message.
module _ (eia2 : List ℕ → List ℕ → ℕ → Direction → List ℕ → List ℕ)
    (hmac : List ℕ → List ℕ → List ℕ) (unset : ℕ) (stack : Mem ℕ) (uninit : List ℕ)
    (overlaid : Body → Overlay) where
  -- A message under a security header, once it is authenticated or not.
  unfoldable pub open_secured :
      (Bool → NasMessage → Ctx → Option Ctx) → Pdu → Auth → Ctx → Option Ctx
  open_secured continue m a c =
      let d : Ctx = record c { parser = a.handler } in
      if a.ret == 0
      then none
      else if a.ret == 2
      then some d
      else elim (dec_sec_nas unset stack a.handler m.mem 0 m.len) [
        | none ↦ none
        | some r ↦ if r.1 then gate continue a.is_auth r.0 d else none
      ]

  -- The same, with a security context to authenticate it.
  unfoldable pub receive_secured : (Bool → NasMessage → Ctx → Option Ctx) → Pdu → Ctx → Option Ctx
  receive_secured continue m c =
      elim (authenticate_msg eia2 unset c.parser m.mem 0 m.len Direction.up_link) [
        | none ↦ none
        | some a ↦ open_secured continue m a c
      ]

  -- Without one: the message behind six octets is decoded as it stands.
  unfoldable pub receive_unsecured : (Bool → NasMessage → Ctx → Option Ctx) → Pdu → Ctx → Option Ctx
  receive_unsecured continue m c = gate continue false (dec_nas m.mem 6 (minus_size m.len 6)).0 c

  -- What a state does with a message under a security header.
  unfoldable pub continue_sec : State → ℕ → Bool → NasMessage → Ctx → Option Ctx
  continue_sec State.deregistered p is_auth x c =
      Deregistered.process_sec_msg eia2 is_auth (uplink overlaid x.body) c
  continue_sec State.registered p is_auth x c =
      Registered.process_sec_msg eia2 overlaid p is_auth x c
  continue_sec State.specific_procedure p is_auth x c =
      SpecificProcedure.process_sec_msg overlaid p x c
  continue_sec State.common_procedure p is_auth x c =
      CommonProcedure.process_sec_msg eia2 hmac unset (uplink overlaid x.body) c
  continue_sec State.deregistered_initiated p is_auth x c = some c

  -- `state->processSecMsg`.
  unfoldable pub process_sec_msg : State → Pdu → Ctx → Option Ctx
  process_sec_msg s m c =
      let go : Bool → NasMessage → Ctx → Option Ctx = continue_sec s (discriminator m.mem 0) in
      elim s [
        | State.deregistered ↦ if c.sci then receive_secured go m c else receive_unsecured go m c
        | State.registered ↦ if c.sci then receive_secured go m c else none
        | State.specific_procedure ↦ if c.sci then receive_secured go m c else none
        | State.common_procedure ↦
            if c.sci || security_header m.mem 0 m.len unset == 4
            then receive_secured go m c
            else receive_unsecured go m c
        | State.deregistered_initiated ↦ some c
      ]

  -- `state->processMsg`.
  unfoldable pub process_plain_msg : State → NasMessage → Ctx → Option Ctx
  process_plain_msg State.deregistered x c =
      Deregistered.process_msg eia2 (uplink overlaid x.body) c
  process_plain_msg State.registered x c = Registered.process_msg (uplink overlaid x.body) c
  process_plain_msg State.specific_procedure x c = some c
  process_plain_msg State.common_procedure x c =
      CommonProcedure.process_msg eia2 hmac unset (uplink overlaid x.body) c
  process_plain_msg State.deregistered_initiated x c = some c

  -- `emm_processSrvReq` of EMM_Registered.c.
  unfoldable pub service_request : Pdu → Ctx → Option Ctx
  service_request m c =
      elim (authenticate_msg eia2 unset c.parser m.mem 0 m.len Direction.up_link) [
        | none ↦ none
        | some a ↦
            let d : Ctx = record c { parser = a.handler } in
            let e : Ctx = record d { msg_ksi = bit_and (m.mem 1) 0xe0 / 32 } in
            if not c.sci || a.ret == 0
            then none
            else if a.ret == 2 || not (discriminator m.mem 0 == 0x7)
            then some d
            else if not (e.ksi == e.msg_ksi) || not a.is_auth
            then some e
            else to_ecm (Effect.context_setup [])
                (record (note_count e) { s1_bearers_active = true })
      ]

  -- `state->processSrvReq`.
  unfoldable pub process_srv_req : State → Pdu → Ctx → Option Ctx
  process_srv_req State.deregistered m c = send_service_reject eia2 unset 0x0a c
  process_srv_req State.registered m c = service_request m c
  process_srv_req State.specific_procedure m c = some (emm_stop c)
  process_srv_req State.common_procedure m c = some c
  process_srv_req State.deregistered_initiated m c = some c

  -- `emm_processMsg`.
  unfoldable pub process_msg : Pdu → Ctx → Option Ctx
  process_msg m c =
      let d : Ctx = stop_timer mobile_reachable c in
      let s : ℕ = security_header m.mem 0 m.len unset in
      if m.len == 0
      then none
      else if s == 0
      then process_plain_msg d.state (dec_nas m.mem 0 m.len).0 d
      else if leb s 4
      then process_sec_msg d.state m d
      else if s == 12
      then process_srv_req d.state m d
      else some d

  -- `emm_processS6aError`.
  unfoldable pub process_s6a_error : State → Bool → Ctx → Option Ctx
  process_s6a_error State.deregistered unknown c = Deregistered.process_error eia2 unset unknown c
  process_s6a_error State.common_procedure unknown c =
      CommonProcedure.process_error eia2 hmac unset unknown c
  process_s6a_error _ unknown c = some c

  -- `emm_timer_cb` and `emm_timer_max_cb`.
  unfoldable pub process_timeout : State → ℕ → List ℕ → Ctx → Option Ctx
  process_timeout State.registered code msg c = some (mobile_timeout code c)
  process_timeout State.specific_procedure code msg c =
      SpecificProcedure.process_timeout eia2 code msg c
  process_timeout State.common_procedure code msg c =
      CommonProcedure.process_timeout eia2 hmac unset code msg c
  process_timeout _ code msg c = some c

  unfoldable pub process_timeout_max : State → ℕ → List ℕ → Ctx → Option Ctx
  process_timeout_max State.specific_procedure code msg c =
      SpecificProcedure.process_timeout_max code msg c
  process_timeout_max State.common_procedure code msg c =
      CommonProcedure.process_timeout_max eia2 hmac unset code msg c
  process_timeout_max _ code msg c = some c

  -- The entries of the table of a state that not every state has: `none` is a call through a null
  -- entry.
  unfoldable pub state_attach_accept : State → List ℕ → Ctx → Option Ctx
  state_attach_accept State.specific_procedure msg c = attach_accept eia2 unset uninit msg c
  state_attach_accept _ msg c = none

  unfoldable pub state_send_esm : State → List ℕ → Ctx → Option Ctx
  state_send_esm State.registered msg c = send_esm eia2 unset msg c
  state_send_esm State.specific_procedure msg c = send_esm eia2 unset msg c
  state_send_esm _ msg c = none

  -- A timer that does not run does not fire; one that has fired for the last time is removed.
  unfoldable pub handle : Event → Ctx → Option Ctx
  handle (Event.message m) c = process_msg m c
  handle (Event.timeout code) c = elim (c.active_timers code) [
    | none ↦ some c
    | some msg ↦ process_timeout c.state code msg c
  ]
  handle (Event.timeout_max code) c = elim (c.active_timers code) [
    | none ↦ some c
    | some msg ↦ process_timeout_max c.state code msg c >>= λ d. some (stop_timer code d)
  ]
  handle (Event.s6a_error unknown) c = process_s6a_error c.state unknown c
  handle (Event.auth_quadruplet q) c = some (add_auth_quadruplet q c)
  handle Event.auth_info_available c = send_auth_request c
  handle Event.synch_error c = some (emm_stop c)
  handle Event.gateways_selected c = process_first_esm_msg c
  handle Event.detached c = detach_accept c
  handle Event.next_hop c = some (get_nh hmac c).0
  handle Event.deregistered c = some (emm_deregister c)
  handle (Event.attach_accepted msg) c = state_attach_accept c.state msg c
  handle (Event.esm_sent msg) c = state_send_esm c.state msg c
  handle Event.bearers_released c = some (record c { s1_bearers_active = false })
  handle (Event.registered e) c = some (register_ecm e c)

  unfoldable pub run : List Event → Ctx → Option Ctx
  run [] c = some c
  run (e ∷ es) c = handle e c >>= run es
