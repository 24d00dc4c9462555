-- ===== src/Emm/CommonProcedure.antt =====
-- mme/S1/NAS/EMM_CommonProcedureInitiated.c: the handlers of a user who is being identified or
-- authenticated, on decoded messages.
use aalto_mme.Prelude.{
  ℕ, Bool, true, ◌||◌, not, Option, none, some, List, [], ◌∷◌, drop, length, ◌==◌, if◌then◌else◌,
  get_or,
}
use aalto_mme.Nas.Count.{Direction}
use aalto_mme.Nas.Security.{same, set_security}
use aalto_mme.Nas.Messages.{AuthenticationFailure}
use aalto_mme.Emm.Ctx.{
  State, Effect, Ctx, ◌>>=◌, t3460, t3470, emit, change_state, stop_timer,
  remove_first_auth_quadruplet,
}
use aalto_mme.Emm.Send.{
  send, send_auth_reject, send_security_mode_command, send_attach_reject, send_secured,
}
use aalto_mme.Emm.Procedures.{emm_stop, set_security_quadruplet}
use aalto_mme.Emm.Requests.{process_identity_rsp}
use aalto_mme.Emm.Uplink.{Uplink, note_count, release_if, mobile_timeout}

-- What follows a failed authentication, but for a failed synchronisation.
unfoldable pub process_auth_failure : AuthenticationFailure → Ctx → Option Ctx
process_auth_failure m c =
    if m.emm_cause == 0x15
    then some (emit (Effect.synch_auth_vector (drop 2 (get_or m.optionals 0 []))) c)
    else some (emm_stop (remove_first_auth_quadruplet c))

unfoldable pub identity_response : List ℕ → Ctx → Option Ctx
identity_response v c =
    process_identity_rsp v (stop_timer t3470 c) >>= λ d. some (emit Effect.auth_information d)

module _ (eia2 : List ℕ → List ℕ → ℕ → Direction → List ℕ → List ℕ)
    (hmac : List ℕ → List ℕ → List ℕ) (unset : ℕ) where
  -- The security context of the first quadruplet: EIA2 and EEA0.
  unfoldable pub authenticated : Ctx → Option Ctx
  authenticated c = set_security_quadruplet c >>= λ d.
      send_security_mode_command eia2 unset
        (record d { parser = set_security hmac d.parser 2 0 d.kasme })

  -- `processAuthResp`.
  unfoldable pub process_auth_resp : List ℕ → Ctx → Option Ctx
  process_auth_resp v c =
      if length v == 8
      then elim c.auth_quadrs [
        | [] ↦ none
        | q ∷ qs ↦ if same v q.xres then authenticated c else send_auth_reject c
      ]
      else some c

  -- `emmProcessMsg`.
  unfoldable pub process_msg : Uplink → Ctx → Option Ctx
  process_msg (Uplink.identity_response v) c = identity_response v c
  process_msg (Uplink.authentication_response v) c = process_auth_resp v (stop_timer t3460 c)
  process_msg (Uplink.authentication_failure m) c = process_auth_failure m (stop_timer t3460 c)
  process_msg Uplink.security_mode_reject c = some (stop_timer t3460 c)
  process_msg _ c = some c

  -- The new security context is current.
  unfoldable pub security_mode_complete : Ctx → Ctx
  security_mode_complete c =
      emit Effect.update_location
        (change_state State.specific_procedure (note_count (record c { sci = true })))

  -- `emm_processSecMsg`, behind the test of the message authentication code. `! s == ...` compares
  -- the negation of the security header, which is never 4.
  unfoldable pub process_sec_msg : Uplink → Ctx → Option Ctx
  process_sec_msg (Uplink.identity_response v) c = identity_response v c
  process_sec_msg (Uplink.authentication_response v) c = process_auth_resp v (stop_timer t3460 c)
  process_sec_msg (Uplink.authentication_failure m) c = process_auth_failure m (stop_timer t3460 c)
  process_sec_msg Uplink.security_mode_reject c = some (stop_timer t3460 c)
  process_sec_msg Uplink.security_mode_complete c =
      some (security_mode_complete (stop_timer t3460 c))
  process_sec_msg _ c = release_if (not c.s1_bearers_active || not c.attach_started) c

  -- `emm_processError`; `unknown` is S6a_UNKNOWN_EPS_SUBSCRIPTION.
  unfoldable pub process_error : Bool → Ctx → Option Ctx
  process_error unknown c =
      if unknown
      then (send_attach_reject eia2 unset 0x08 [] c >>= λ d. some (emm_stop d))
      else some (emm_stop c)

  -- `emm_processTimeout`; the message type in a timer without a message is read through a null
  -- pointer.
  unfoldable pub process_timeout : ℕ → List ℕ → Ctx → Option Ctx
  process_timeout code [] c = none
  process_timeout code (a ∷ msg) c =
      if code == t3460
      then (let is_command : Bool = get_or msg 0 0 == 0x5d in
          if c.sci || is_command
          then send_secured eia2 Effect.sent 0 (if is_command then 3 else 2) (a ∷ msg) c
          else send (a ∷ msg) c)
      else if code == t3470
      then send (a ∷ msg) c
      else some (mobile_timeout code c)

  -- `emm_processTimeoutMax`; for T3470 it sends through a context that it has freed.
  unfoldable pub process_timeout_max : ℕ → List ℕ → Ctx → Option Ctx
  process_timeout_max code [] c = none
  process_timeout_max code (a ∷ msg) c =
      if code == t3460 then some (emm_stop c) else if code == t3470 then none else some c
