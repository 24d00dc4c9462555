-- ===== src/Emm/ProcedureMoves.antt =====
-- mme/S1/NAS: what the handlers of a procedure that has been started do is a move of the abstract
-- machine.
use aalto_mme.Prelude.{
  ℕ, ◌≡◌, ◌∙◌, ◌⊎◌, ◌≢◌, ap, refl, sym, arith, Bool, true, false, ◌||◌, not, Option, some, List, [],
  ◌∷◌, length, get_or, inl, inr, ◌==◌, Bool-cases,
}
use aalto_mme.Nas.Count.{Direction}
use aalto_mme.Nas.Messages.{AuthenticationFailure}
use aalto_mme.Nas.Security.{same, set_security}
use aalto_mme.Nas.Decode.{NasMessage, Body}
use aalto_mme.Emm.Ctx.{
  State, Effect, Ctx, emit, change_state, stop_timer, remove_first_auth_quadruplet, normal_release,
  t3450, t3460, t3470,
}
use aalto_mme.Emm.Send.{send, built, emm_message, send_auth_reject, send_security_mode_command}
use aalto_mme.Emm.Procedures.{emm_stop, set_security_quadruplet}
use aalto_mme.Emm.Requests.{process_identity_rsp}
use aalto_mme.Emm.Uplink.{Uplink, Overlay, uplink, note_count, release_if}
use aalto_mme.Emm.SpecificProcedure
use aalto_mme.Emm.CommonProcedure
use aalto_mme.Emm.Phase.{
  Phase, phase_of, bind-some, to_ecm-phase, send-phase, new_guti-phase, List-cases,
  send_security_mode_command-phase,
}
use aalto_mme.Emm.Transition.{Transition}
use aalto_mme.Emm.Refinement.{
  lands, departs, emm_stop-phase, process_detach-phase, release_if-phase,
}
use aalto_mme.Emm.StateMoves.{stays, same_ctx}

-- The move from a specific procedure to the registered state.
registers :
    (authentic : Bool) (c d : Ctx)
    → c.state ≡ State.specific_procedure
    → phase_of d ≡ Phase.phase State.registered c.sci c.ksi
    → Transition authentic (phase_of c) (phase_of d)
registers authentic c d s h =
    lands d h (departs c (ap (λ x. Phase.phase x c.sci c.ksi) s) Transition.register)

stops :
    (authentic : Bool) (c d : Ctx)
    → phase_of d ≡ Phase.phase State.deregistered c.sci c.ksi
    → Transition authentic (phase_of c) (phase_of d)
stops authentic c d h = lands d h Transition.stop

specific_emm-Transition :
    (authentic : Bool) (u : Uplink) (c d : Ctx)
    → c.state ≡ State.specific_procedure
    → SpecificProcedure.process_sec_emm u c ≡ some d
    → Transition authentic (phase_of c) (phase_of d)
unfolding SpecificProcedure.process_sec_emm SpecificProcedure.process_attach_complete stop_timer
    change_state emit
specific_emm-Transition authentic (Uplink.attach_request m) c d s h =
    stays authentic c d (release_if-phase (not c.s1_bearers_active || not c.attach_started) c d h)
specific_emm-Transition authentic (Uplink.attach_complete v) c d s h =
    registers authentic c d s (ground arith)
specific_emm-Transition authentic (Uplink.detach_request m) c d s h =
    stays authentic c d (process_detach-phase m (stop_timer t3450 c) d h)
specific_emm-Transition authentic (Uplink.tau_request m) c d s h =
    stays authentic c d (release_if-phase (not c.s1_bearers_active || not c.attach_started) c d h)
specific_emm-Transition authentic Uplink.tau_complete c d s h =
    let stopped : Ctx = stop_timer t3450 c in
    let (t, kept, last) =
      bind-some (release_if (not c.s1_bearers_active) stopped)
        (λ x. some (change_state State.registered x)) d h in
    registers authentic c d s
      (ground (arith, release_if-phase (not c.s1_bearers_active) stopped t kept, last))
specific_emm-Transition authentic (Uplink.authentication_response v) c d s h =
    stays authentic c d (release_if-phase (not c.s1_bearers_active || not c.attach_started) c d h)
specific_emm-Transition authentic (Uplink.authentication_failure m) c d s h =
    stays authentic c d (release_if-phase (not c.s1_bearers_active || not c.attach_started) c d h)
specific_emm-Transition authentic (Uplink.identity_response v) c d s h =
    stays authentic c d (release_if-phase (not c.s1_bearers_active || not c.attach_started) c d h)
specific_emm-Transition authentic Uplink.security_mode_complete c d s h =
    stays authentic c d (release_if-phase (not c.s1_bearers_active || not c.attach_started) c d h)
specific_emm-Transition authentic Uplink.security_mode_reject c d s h =
    stays authentic c d (release_if-phase (not c.s1_bearers_active || not c.attach_started) c d h)
specific_emm-Transition authentic Uplink.detach_accept c d s h =
    stays authentic c d (release_if-phase (not c.s1_bearers_active || not c.attach_started) c d h)
specific_emm-Transition authentic Uplink.other c d s h =
    stays authentic c d (release_if-phase (not c.s1_bearers_active || not c.attach_started) c d h)

pub specific-Transition :
    (overlaid : Body → Overlay) (authentic : Bool) (p : ℕ) (m : NasMessage) (c d : Ctx)
    → c.state ≡ State.specific_procedure
    → SpecificProcedure.process_sec_msg overlaid p m c ≡ some d
    → Transition authentic (phase_of c) (phase_of d)
unfolding SpecificProcedure.process_sec_msg emit
specific-Transition overlaid authentic p m c d s h =
    elim (Bool-cases (p == 0x2 || m.header_discriminator == 0x2)) [
      | inl e ↦ stays authentic c d (ground (arith, e))
      | inr e ↦ specific_emm-Transition authentic (uplink overlaid m.body) c d s (ground (arith, e))
    ]

pub specific_timeout_max-Transition :
    (authentic : Bool) (code : ℕ) (msg : List ℕ) (c d : Ctx)
    → c.state ≡ State.specific_procedure
    → SpecificProcedure.process_timeout_max code msg c ≡ some d
    → Transition authentic (phase_of c) (phase_of d)
unfolding SpecificProcedure.process_timeout_max
specific_timeout_max-Transition authentic code [] c d s h = absurd (ground arith)
specific_timeout_max-Transition authentic code (a ∷ msg) c d s h =
    elim (Bool-cases (code == t3450)) [
      | inl e ↦ elim (Bool-cases (get_or msg 0 0 == 0x43)) [
        | inl f ↦
            let kept : phase_of d ≡ phase_of (emm_stop c) =
              to_ecm-phase (Effect.released normal_release) (emm_stop c) d (ground (arith, e, f)) in
            stops authentic c d (kept ∙ emm_stop-phase c)
        | inr f ↦
            let accepted : Ctx = change_state State.registered c in
            let kept : phase_of d ≡ phase_of accepted =
              to_ecm-phase (Effect.released normal_release) accepted d (ground (arith, e, f)) in
            registers authentic c d s (unfold change_state in kept)
      ]
      | inr e ↦ stays authentic c d (ground (arith, e))
    ]

process_auth_failure-Transition :
    (authentic : Bool) (m : AuthenticationFailure) (c d : Ctx)
    → CommonProcedure.process_auth_failure m c ≡ some d
    → Transition authentic (phase_of c) (phase_of d)
unfolding CommonProcedure.process_auth_failure remove_first_auth_quadruplet emit emm_stop
    change_state stop_timer
process_auth_failure-Transition authentic m c d h = elim (Bool-cases (m.emm_cause == 0x15)) [
  | inl e ↦ stays authentic c d (ground (arith, e))
  | inr e ↦ stops authentic c d (ground (arith, e))
]

identity_response-phase :
    (v : List ℕ) (c d : Ctx)
    → CommonProcedure.identity_response v c ≡ some d
    → phase_of d ≡ phase_of c
unfolding CommonProcedure.identity_response process_identity_rsp stop_timer emit
identity_response-phase v c d h =
    let (t, made, last) =
      bind-some (process_identity_rsp v (stop_timer t3470 c))
        (λ x. some (emit Effect.auth_information x)) d h in
    ground (arith, new_guti-phase _ t made, last)

set_security_quadruplet-phase :
    (c d : Ctx) → set_security_quadruplet c ≡ some d → phase_of d ≡ phase_of c
unfolding set_security_quadruplet remove_first_auth_quadruplet
set_security_quadruplet-phase c d h = ground (arith, List-cases c.auth_quadrs)

send_auth_reject-phase :
    (c d : Ctx)
    → send_auth_reject c ≡ some d
    → phase_of d ≡ Phase.phase State.deregistered c.sci c.ksi
unfolding send_auth_reject change_state
send_auth_reject-phase c d h =
    let (t, sent, last) =
      bind-some (send (built (emm_message 0x54)) c) (λ x. some (change_state State.deregistered x))
        d h in
    ground (arith, send-phase (built (emm_message 0x54)) c t sent, last)

completes :
    (is_auth : Bool) (c d : Ctx)
    → c.state ≡ State.common_procedure
    → (is_auth ≡ true) ⊎ (Uplink.security_mode_complete ≢ Uplink.security_mode_complete)
    → phase_of d ≡ Phase.phase State.specific_procedure true c.ksi
    → Transition is_auth (phase_of c) (phase_of d)
completes is_auth c d s (inl a) h =
    lands d h (departs c (ap (λ x. Phase.phase x c.sci c.ksi) s) (Transition.complete a))
completes is_auth c d s (inr never) h = absurd (never refl)

module _ (eia2 : List ℕ → List ℕ → ℕ → Direction → List ℕ → List ℕ)
    (hmac : List ℕ → List ℕ → List ℕ) (unset : ℕ) where
  authenticated-phase :
      (c d : Ctx)
      → CommonProcedure.authenticated eia2 hmac unset c ≡ some d
      → phase_of d ≡ Phase.phase State.common_procedure c.sci c.ksi
  unfolding CommonProcedure.authenticated
  authenticated-phase c d h =
      let command : Ctx → Option Ctx = λ x.
        send_security_mode_command eia2 unset
          (record x { parser = set_security hmac x.parser 2 0 x.kasme }) in
      let (t, chosen, last) = bind-some (set_security_quadruplet c) command d h in
      let keyed : Ctx = record t { parser = set_security hmac t.parser 2 0 t.kasme } in
      ground (
        arith,
        set_security_quadruplet-phase c t chosen,
        send_security_mode_command-phase eia2 unset keyed d last,
      )

  process_auth_resp-Transition :
      (authentic : Bool) (v : List ℕ) (c d : Ctx)
      → c.state ≡ State.common_procedure
      → CommonProcedure.process_auth_resp eia2 hmac unset v c ≡ some d
      → Transition authentic (phase_of c) (phase_of d)
  unfolding CommonProcedure.process_auth_resp
  process_auth_resp-Transition authentic v c d s h = elim (Bool-cases (length v == 8)) [
    | inr e ↦ stays authentic c d (ground (arith, e))
    | inl e ↦ elim (List-cases c.auth_quadrs) [
      | inl f ↦ absurd (ground (arith, e, f))
      | inr (q, qs, f) ↦ elim (Bool-cases (same v q.xres)) [
        | inl g ↦ stays authentic c d (
            authenticated-phase c d (ground (arith, e, f, g))
            ∙ ap (λ x. Phase.phase x c.sci c.ksi) (sym s))
        | inr g ↦ stops authentic c d (send_auth_reject-phase c d (ground (arith, e, f, g)))
      ]
    ]
  ]

  pub common_plain-Transition :
      (u : Uplink) (c d : Ctx)
      → c.state ≡ State.common_procedure
      → CommonProcedure.process_msg eia2 hmac unset u c ≡ some d
      → Transition false (phase_of c) (phase_of d)
  unfolding CommonProcedure.process_msg stop_timer
  common_plain-Transition (Uplink.attach_request m) c d s h = same_ctx false c d h
  common_plain-Transition (Uplink.attach_complete v) c d s h = same_ctx false c d h
  common_plain-Transition (Uplink.detach_request m) c d s h = same_ctx false c d h
  common_plain-Transition (Uplink.tau_request m) c d s h = same_ctx false c d h
  common_plain-Transition Uplink.tau_complete c d s h = same_ctx false c d h
  common_plain-Transition (Uplink.authentication_response v) c d s h =
      process_auth_resp-Transition false v (stop_timer t3460 c) d s h
  common_plain-Transition (Uplink.authentication_failure m) c d s h =
      process_auth_failure-Transition false m (stop_timer t3460 c) d h
  common_plain-Transition (Uplink.identity_response v) c d s h =
      stays false c d (identity_response-phase v c d h)
  common_plain-Transition Uplink.security_mode_complete c d s h = same_ctx false c d h
  common_plain-Transition Uplink.security_mode_reject c d s h = stays false c d (ground arith)
  common_plain-Transition Uplink.detach_accept c d s h = same_ctx false c d h
  common_plain-Transition Uplink.other c d s h = same_ctx false c d h

  pub common_sec-Transition :
      (is_auth : Bool) (u : Uplink) (c d : Ctx)
      → c.state ≡ State.common_procedure
      → (is_auth ≡ true) ⊎ (u ≢ Uplink.security_mode_complete)
      → CommonProcedure.process_sec_msg eia2 hmac unset u c ≡ some d
      → Transition is_auth (phase_of c) (phase_of d)
  unfolding CommonProcedure.process_sec_msg CommonProcedure.security_mode_complete stop_timer emit
      change_state note_count
  common_sec-Transition is_auth (Uplink.attach_request m) c d s a h =
      stays is_auth c d (release_if-phase (not c.s1_bearers_active || not c.attach_started) c d h)
  common_sec-Transition is_auth (Uplink.attach_complete v) c d s a h =
      stays is_auth c d (release_if-phase (not c.s1_bearers_active || not c.attach_started) c d h)
  common_sec-Transition is_auth (Uplink.detach_request m) c d s a h =
      stays is_auth c d (release_if-phase (not c.s1_bearers_active || not c.attach_started) c d h)
  common_sec-Transition is_auth (Uplink.tau_request m) c d s a h =
      stays is_auth c d (release_if-phase (not c.s1_bearers_active || not c.attach_started) c d h)
  common_sec-Transition is_auth Uplink.tau_complete c d s a h =
      stays is_auth c d (release_if-phase (not c.s1_bearers_active || not c.attach_started) c d h)
  common_sec-Transition is_auth (Uplink.authentication_response v) c d s a h =
      process_auth_resp-Transition is_auth v (stop_timer t3460 c) d s h
  common_sec-Transition is_auth (Uplink.authentication_failure m) c d s a h =
      process_auth_failure-Transition is_auth m (stop_timer t3460 c) d h
  common_sec-Transition is_auth (Uplink.identity_response v) c d s a h =
      stays is_auth c d (identity_response-phase v c d h)
  common_sec-Transition is_auth Uplink.security_mode_complete c d s a h =
      completes is_auth c d s a (ground arith)
  common_sec-Transition is_auth Uplink.security_mode_reject c d s a h =
      stays is_auth c d (ground arith)
  common_sec-Transition is_auth Uplink.detach_accept c d s a h =
      stays is_auth c d (release_if-phase (not c.s1_bearers_active || not c.attach_started) c d h)
  common_sec-Transition is_auth Uplink.other c d s a h =
      stays is_auth c d (release_if-phase (not c.s1_bearers_active || not c.attach_started) c d h)
