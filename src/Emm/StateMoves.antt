-- ===== src/Emm/StateMoves.antt =====
-- mme/S1/NAS: what the handlers of a state do is a move of the abstract machine.
use aalto_mme.Prelude.{
  ℕ, ◌≡◌, ◌∙◌, ◌⊎◌, arith, Bool, true, false, ◌||◌, not, Option, some, List, inl, inr, ◌==◌,
  if◌then◌else◌, Bool-cases,
}
use aalto_mme.Nas.Count.{Direction}
use aalto_mme.Nas.Messages.{TauRequest}
use aalto_mme.Nas.Security.{same}
use aalto_mme.Nas.Decode.{NasMessage, Body}
use aalto_mme.Emm.Ctx.{State, Effect, Ctx, emit, change_state, get_tai}
use aalto_mme.Emm.Send.{send_tau_reject, send_tau_accept}
use aalto_mme.Emm.Procedures.{trigger_aka_procedure}
use aalto_mme.Emm.Requests.{process_tau_req}
use aalto_mme.Emm.Uplink.{Uplink, Overlay, uplink, select_update, note_count}
use aalto_mme.Emm.Deregistered
use aalto_mme.Emm.Registered
use aalto_mme.Emm.Phase.{
  Phase, phase_of, bind-some, get_tai-phase, send_either-phase, send_tau_accept-phase,
}
use aalto_mme.Emm.Transition.{Transition, can_attach}
use aalto_mme.Emm.Refinement.{
  lands, from_phase, can_attach_kept, has_context, process_tau_req-phase, select_update_lem,
  plain_attach-Transition, go_on-Transition, secured_attach-Transition, process_detach-phase,
  release_if-phase,
}

pub stays :
    (authentic : Bool) (c d : Ctx)
    → phase_of d ≡ phase_of c
    → Transition authentic (phase_of c) (phase_of d)
stays authentic c d kept = lands d kept Transition.stay

pub same_ctx :
    (authentic : Bool) (c d : Ctx)
    → some c ≡ some d
    → Transition authentic (phase_of c) (phase_of d)
same_ctx authentic c d h = stays authentic c d (ground arith)

module _ (eia2 : List ℕ → List ℕ → ℕ → Direction → List ℕ → List ℕ) where
  send_tau_reject-phase :
      (cause : ℕ) (c d : Ctx) → send_tau_reject eia2 cause c ≡ some d → phase_of d ≡ phase_of c
  unfolding send_tau_reject
  send_tau_reject-phase cause c d h = send_either-phase eia2 0 _ c d h

  pub deregistered-Transition :
      (u : Uplink) (c d : Ctx)
      → can_attach c.state ≡ true
      → Deregistered.process_msg eia2 u c ≡ some d
      → Transition false (phase_of c) (phase_of d)
  unfolding Deregistered.process_msg
  deregistered-Transition (Uplink.attach_request m) c d a h =
      plain_attach-Transition false m c d a h
  deregistered-Transition (Uplink.attach_complete v) c d a h = same_ctx false c d h
  deregistered-Transition (Uplink.detach_request m) c d a h = same_ctx false c d h
  deregistered-Transition (Uplink.tau_request m) c d a h =
      stays false c d (send_tau_reject-phase 0x0a c d h)
  deregistered-Transition Uplink.tau_complete c d a h = same_ctx false c d h
  deregistered-Transition (Uplink.authentication_response v) c d a h = same_ctx false c d h
  deregistered-Transition (Uplink.authentication_failure m) c d a h = same_ctx false c d h
  deregistered-Transition (Uplink.identity_response v) c d a h = same_ctx false c d h
  deregistered-Transition Uplink.security_mode_complete c d a h = same_ctx false c d h
  deregistered-Transition Uplink.security_mode_reject c d a h = same_ctx false c d h
  deregistered-Transition Uplink.detach_accept c d a h = same_ctx false c d h
  deregistered-Transition Uplink.other c d a h = same_ctx false c d h

  pub deregistered_sec-Transition :
      (is_auth : Bool) (u : Uplink) (c d : Ctx)
      → can_attach c.state ≡ true
      → (is_auth ≡ false) ⊎ (c.sci ≡ true)
      → Deregistered.process_sec_msg eia2 is_auth u c ≡ some d
      → Transition is_auth (phase_of c) (phase_of d)
  unfolding Deregistered.process_sec_msg
  deregistered_sec-Transition is_auth (Uplink.attach_request m) c d a s h =
      secured_attach-Transition is_auth m c d a s h
  deregistered_sec-Transition is_auth (Uplink.attach_complete v) c d a s h = same_ctx is_auth c d h
  deregistered_sec-Transition is_auth (Uplink.detach_request m) c d a s h =
      stays is_auth c d (process_detach-phase m c d h)
  deregistered_sec-Transition is_auth (Uplink.tau_request m) c d a s h =
      stays is_auth c d (send_tau_reject-phase 0x0a c d h)
  deregistered_sec-Transition is_auth Uplink.tau_complete c d a s h = same_ctx is_auth c d h
  deregistered_sec-Transition is_auth (Uplink.authentication_response v) c d a s h =
      same_ctx is_auth c d h
  deregistered_sec-Transition is_auth (Uplink.authentication_failure m) c d a s h =
      same_ctx is_auth c d h
  deregistered_sec-Transition is_auth (Uplink.identity_response v) c d a s h =
      same_ctx is_auth c d h
  deregistered_sec-Transition is_auth Uplink.security_mode_complete c d a s h =
      same_ctx is_auth c d h
  deregistered_sec-Transition is_auth Uplink.security_mode_reject c d a s h = same_ctx is_auth c d h
  deregistered_sec-Transition is_auth Uplink.detach_accept c d a s h = same_ctx is_auth c d h
  deregistered_sec-Transition is_auth Uplink.other c d a s h = same_ctx is_auth c d h

  start_update-phase :
      (c d : Ctx)
      → Registered.start_update eia2 c ≡ some d
      → phase_of d ≡ Phase.phase State.specific_procedure c.sci c.ksi
  unfolding Registered.start_update change_state note_count
  start_update-phase c d h =
      let (t, sent, last) =
        bind-some (send_tau_accept eia2 (note_count c))
          (λ x. some (change_state State.specific_procedure x)) d h in
      ground (arith, send_tau_accept-phase eia2 (note_count c) t sent, last)

  tau_request-Transition :
      (is_auth : Bool) (m : TauRequest) (c d : Ctx)
      → can_attach c.state ≡ true
      → (is_auth ≡ false) ⊎ (c.sci ≡ true)
      → Registered.process_sec_emm eia2 is_auth (Uplink.tau_request m) c ≡ some d
      → Transition is_auth (phase_of c) (phase_of d)
  unfolding Registered.process_sec_emm
  tau_request-Transition is_auth m c d a s h =
      let start : Ctx → Option Ctx = Registered.start_update eia2 in
      let go : Ctx → Option Ctx = λ e. if is_auth then start e else trigger_aka_procedure e in
      let (t, tai, chosen) =
        bind-some (get_tai c) (λ x. select_update go (process_tau_req m x)) d h in
      let taken : phase_of (process_tau_req m t) ≡ phase_of c =
        process_tau_req-phase m t ∙ get_tai-phase c t tai in
      elim (select_update_lem go (process_tau_req m t) d chosen) [
        | inl kept ↦ lands d (kept ∙ taken) Transition.stay
        | inr (e, same, last) ↦ from_phase is_auth c e d (same ∙ taken) (
            go_on-Transition is_auth start e d start_update-phase
              (can_attach_kept c e (same ∙ taken) a) (has_context is_auth c e (same ∙ taken) s)
              last)
      ]

  registered_emm-Transition :
      (is_auth : Bool) (u : Uplink) (c d : Ctx)
      → can_attach c.state ≡ true
      → (is_auth ≡ false) ⊎ (c.sci ≡ true)
      → Registered.process_sec_emm eia2 is_auth u c ≡ some d
      → Transition is_auth (phase_of c) (phase_of d)
  unfolding Registered.process_sec_emm emit
  registered_emm-Transition is_auth (Uplink.attach_request m) c d a s h =
      secured_attach-Transition is_auth m (emit Effect.esm_error c) d a s h
  registered_emm-Transition is_auth (Uplink.attach_complete v) c d a s h =
      stays is_auth c d (release_if-phase (not c.s1_bearers_active) c d h)
  registered_emm-Transition is_auth (Uplink.detach_request m) c d a s h =
      stays is_auth c d (process_detach-phase m c d h)
  registered_emm-Transition is_auth (Uplink.tau_request m) c d a s h =
      tau_request-Transition is_auth m c d a s h
  registered_emm-Transition is_auth Uplink.tau_complete c d a s h =
      stays is_auth c d (release_if-phase (not c.s1_bearers_active) c d h)
  registered_emm-Transition is_auth (Uplink.authentication_response v) c d a s h =
      stays is_auth c d (release_if-phase (not c.s1_bearers_active) c d h)
  registered_emm-Transition is_auth (Uplink.authentication_failure m) c d a s h =
      stays is_auth c d (release_if-phase (not c.s1_bearers_active) c d h)
  registered_emm-Transition is_auth (Uplink.identity_response v) c d a s h =
      stays is_auth c d (release_if-phase (not c.s1_bearers_active) c d h)
  registered_emm-Transition is_auth Uplink.security_mode_complete c d a s h =
      stays is_auth c d (release_if-phase (not c.s1_bearers_active) c d h)
  registered_emm-Transition is_auth Uplink.security_mode_reject c d a s h =
      stays is_auth c d (release_if-phase (not c.s1_bearers_active) c d h)
  registered_emm-Transition is_auth Uplink.detach_accept c d a s h =
      stays is_auth c d (release_if-phase (not c.s1_bearers_active) c d h)
  registered_emm-Transition is_auth Uplink.other c d a s h =
      stays is_auth c d (release_if-phase (not c.s1_bearers_active) c d h)

  pub registered_sec-Transition :
      (overlaid : Body → Overlay) (p : ℕ) (is_auth : Bool) (m : NasMessage) (c d : Ctx)
      → can_attach c.state ≡ true
      → (is_auth ≡ false) ⊎ (c.sci ≡ true)
      → Registered.process_sec_msg eia2 overlaid p is_auth m c ≡ some d
      → Transition is_auth (phase_of c) (phase_of d)
  unfolding Registered.process_sec_msg emit
  registered_sec-Transition overlaid p is_auth m c d a s h =
      elim (Bool-cases (p == 0x2 || m.header_discriminator == 0x2)) [
        | inl e ↦ stays is_auth c d (ground (arith, e))
        | inr e ↦
            registered_emm-Transition is_auth (uplink overlaid m.body) c d a s (ground (arith, e))
      ]

pub registered-Transition :
    (u : Uplink) (c d : Ctx)
    → can_attach c.state ≡ true
    → Registered.process_msg u c ≡ some d
    → Transition false (phase_of c) (phase_of d)
unfolding Registered.process_msg emit
registered-Transition (Uplink.attach_request m) c d a h =
    plain_attach-Transition false m (emit Effect.esm_error c) d a h
registered-Transition (Uplink.attach_complete v) c d a h = same_ctx false c d h
registered-Transition (Uplink.detach_request m) c d a h = same_ctx false c d h
registered-Transition (Uplink.tau_request m) c d a h = same_ctx false c d h
registered-Transition Uplink.tau_complete c d a h = same_ctx false c d h
registered-Transition (Uplink.authentication_response v) c d a h = same_ctx false c d h
registered-Transition (Uplink.authentication_failure m) c d a h = same_ctx false c d h
registered-Transition (Uplink.identity_response v) c d a h = same_ctx false c d h
registered-Transition Uplink.security_mode_complete c d a h = same_ctx false c d h
registered-Transition Uplink.security_mode_reject c d a h = same_ctx false c d h
registered-Transition Uplink.detach_accept c d a h = same_ctx false c d h
registered-Transition Uplink.other c d a h = same_ctx false c d h
