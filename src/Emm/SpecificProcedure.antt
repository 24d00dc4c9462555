-- ===== src/Emm/SpecificProcedure.antt =====
-- mme/S1/NAS/EMM_SpecificProcedureInitiated.c: the handlers of a user who has been answered an attach
-- or a tracking area update, on decoded messages.
use aalto_mme.Prelude.{
  ℕ, false, ◌||◌, not, Option, none, some, List, [], ◌∷◌, length, ◌==◌, if◌then◌else◌, get_or,
}
use aalto_mme.Nas.Count.{Direction}
use aalto_mme.Nas.Decode.{NasMessage, Body, dec_nas}
use aalto_mme.Emm.Ctx.{
  State, Effect, Ctx, ◌>>=◌, t3450, emit, change_state, stop_timer, to_ecm, normal_release,
}
use aalto_mme.Emm.Send.{at_zero, send_secured}
use aalto_mme.Emm.Procedures.{emm_stop}
use aalto_mme.Emm.Uplink.{Uplink, Overlay, uplink, process_detach, release_if, mobile_timeout}

unfoldable pub process_attach_complete : List ℕ → Ctx → Ctx
process_attach_complete container c =
    let m : NasMessage = (dec_nas (at_zero container) 0 (length container)).0 in
    emit (Effect.esm_message m.body)
      (change_state State.registered (record c { attach_started = false }))

unfoldable pub process_sec_emm : Uplink → Ctx → Option Ctx
process_sec_emm (Uplink.attach_complete container) c =
    some (process_attach_complete container (stop_timer t3450 c))
process_sec_emm Uplink.tau_complete c =
    release_if (not c.s1_bearers_active) (stop_timer t3450 c) >>= λ d.
    some (change_state State.registered d)
process_sec_emm (Uplink.detach_request m) c = process_detach m (stop_timer t3450 c)
process_sec_emm _ c = release_if (not c.s1_bearers_active || not c.attach_started) c

-- `emm_processSecMsg`, behind the test of the message authentication code.
unfoldable pub process_sec_msg : (Body → Overlay) → ℕ → NasMessage → Ctx → Option Ctx
process_sec_msg overlaid p m c =
    if p == 0x2 || m.header_discriminator == 0x2
    then some (emit (Effect.esm_message m.body) c)
    else process_sec_emm (uplink overlaid m.body) c

-- `emm_processTimeoutMax`; the message type in a timer without a message is read through a null
-- pointer. The type of the message is compared with ATTACH COMPLETE.
unfoldable pub process_timeout_max : ℕ → List ℕ → Ctx → Option Ctx
process_timeout_max code [] c = none
process_timeout_max code (a ∷ msg) c =
    if code == t3450
    then to_ecm (Effect.released normal_release)
        (if get_or msg 0 0 == 0x43 then emm_stop c else change_state State.registered c)
    else some c

module _ (eia2 : List ℕ → List ℕ → ℕ → Direction → List ℕ → List ℕ) where
  -- `emm_processTimeout`, with the same read.
  unfoldable pub process_timeout : ℕ → List ℕ → Ctx → Option Ctx
  process_timeout code [] c = none
  process_timeout code (a ∷ msg) c =
      if code == t3450
      then (if c.sci then send_secured eia2 Effect.sent 0 2 (a ∷ msg) c else some c)
      else some (mobile_timeout code c)
