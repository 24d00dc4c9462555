-- ===== src/Emm/Registered.antt =====
-- mme/S1/NAS/EMM_Registered.c: the handlers of a user who is attached, on decoded messages.
use aalto_mme.Prelude.{ℕ, Bool, ◌||◌, not, Option, some, List, ◌==◌, if◌then◌else◌}
use aalto_mme.Nas.Count.{Direction}
use aalto_mme.Nas.Decode.{NasMessage, Body}
use aalto_mme.Emm.Ctx.{State, Effect, Ctx, ◌>>=◌, emit, change_state, get_tai}
use aalto_mme.Emm.Send.{send_tau_accept}
use aalto_mme.Emm.Procedures.{trigger_aka_procedure}
use aalto_mme.Emm.Requests.{process_tau_req}
use aalto_mme.Emm.Uplink.{
  Uplink, Overlay, uplink, select_update, plain_attach, secured_attach, process_detach, note_count,
  release_if,
}

-- `emmProcessMsg`.
unfoldable pub process_msg : Uplink → Ctx → Option Ctx
process_msg (Uplink.attach_request m) c = plain_attach m (emit Effect.esm_error c)
process_msg _ c = some c

module _ (eia2 : List ℕ → List ℕ → ℕ → Direction → List ℕ → List ℕ) where
  unfoldable pub start_update : Ctx → Option Ctx
  start_update c =
      send_tau_accept eia2 (note_count c) >>= λ d. some (change_state State.specific_procedure d)

  -- The tracking area is taken from the ECM session where it has changed, so it is that one.
  unfoldable pub process_sec_emm : Bool → Uplink → Ctx → Option Ctx
  process_sec_emm is_auth (Uplink.attach_request m) c =
      secured_attach is_auth m (emit Effect.esm_error c)
  process_sec_emm is_auth (Uplink.detach_request m) c = process_detach m c
  process_sec_emm is_auth (Uplink.tau_request m) c = get_tai c >>= λ d.
      select_update (λ e. if is_auth then start_update e else trigger_aka_procedure e)
        (process_tau_req m d)
  process_sec_emm is_auth _ c = release_if (not c.s1_bearers_active) c

  -- `emm_processSecMsg`, behind the test of the message authentication code.
  unfoldable pub process_sec_msg : (Body → Overlay) → ℕ → Bool → NasMessage → Ctx → Option Ctx
  process_sec_msg overlaid p is_auth m c =
      if p == 0x2 || m.header_discriminator == 0x2
      then some (emit (Effect.esm_message m.body) c)
      else process_sec_emm is_auth (uplink overlaid m.body) c
