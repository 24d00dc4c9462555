-- ===== src/Emm/Deregistered.antt =====
-- mme/S1/NAS/EMM_Deregistered.c: the handlers of a user who is not attached, on decoded messages.
use aalto_mme.Prelude.{ℕ, Bool, Option, some, List, [], if◌then◌else◌}
use aalto_mme.Nas.Count.{Direction}
use aalto_mme.Emm.Ctx.{Ctx}
use aalto_mme.Emm.Send.{send_tau_reject, send_attach_reject}
use aalto_mme.Emm.Uplink.{Uplink, plain_attach, secured_attach, process_detach}

module _ (eia2 : List ℕ → List ℕ → ℕ → Direction → List ℕ → List ℕ) where
  -- `emmProcessMsg`.
  unfoldable pub process_msg : Uplink → Ctx → Option Ctx
  process_msg (Uplink.attach_request m) c = plain_attach m c
  process_msg (Uplink.tau_request m) c = send_tau_reject eia2 0x0a c
  process_msg _ c = some c

  -- `emm_processSecMsg`, behind the test of the message authentication code.
  unfoldable pub process_sec_msg : Bool → Uplink → Ctx → Option Ctx
  process_sec_msg is_auth (Uplink.attach_request m) c = secured_attach is_auth m c
  process_sec_msg is_auth (Uplink.tau_request m) c = send_tau_reject eia2 0x0a c
  process_sec_msg is_auth (Uplink.detach_request m) c = process_detach m c
  process_sec_msg is_auth _ c = some c

  -- `emm_processError`; `unknown` is S6a_UNKNOWN_EPS_SUBSCRIPTION.
  unfoldable pub process_error : ℕ → Bool → Ctx → Option Ctx
  process_error unset unknown c =
      if unknown then send_attach_reject eia2 unset 0x08 [] c else some c
