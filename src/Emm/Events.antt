-- ===== src/Emm/Events.antt =====
-- mme/S1/NAS: what the MME does to a user without a secured message is a move of the abstract machine.
use aalto_mme.Prelude.{
  ℕ, ◌≡◌, ◌∙◌, ap, refl, subst, arith, Bool, true, false, ◌||◌, Option, some, List, [], ◌∷◌, get_or,
  inl, inr, ◌==◌, if◌then◌else◌, bit_and, Mem, Bool-cases, Option-cases,
}
use aalto_mme.Nas.Count.{Direction}
use aalto_mme.Nas.Security.{authenticate_msg}
use aalto_mme.Nas.Decode.{NasMessage, Body}
use aalto_mme.Emm.Ctx.{
  State, Effect, Ctx, detach, t3450, t3460, t3470, stop_timer, emit, to_ecm, change_state,
}
use aalto_mme.Emm.Send.{send, built, emm_message, send_attach_reject, send_esm, detach_accept}
use aalto_mme.Emm.Procedures.{emm_stop}
use aalto_mme.Emm.Uplink.{Overlay, uplink, mobile_timeout, note_count}
use aalto_mme.Emm.Deregistered
use aalto_mme.Emm.SpecificProcedure
use aalto_mme.Emm.CommonProcedure
use aalto_mme.Emm.Machine.{
  Pdu, process_plain_msg, service_request, process_srv_req, process_s6a_error, process_timeout,
  process_timeout_max, state_attach_accept, state_send_esm,
}
use aalto_mme.Emm.Phase.{
  Phase, phase_of, bind-some, to_ecm-phase, send-phase, send_secured-phase, send_either-phase,
  send_attach_reject-phase, send_service_reject-phase, attach_accept-phase,
}
use aalto_mme.Emm.Transition.{Transition, can_attach}
use aalto_mme.Emm.Refinement.{lands, mobile_timeout-Transition}
use aalto_mme.Emm.StateMoves.{stays, same_ctx, deregistered-Transition, registered-Transition}
use aalto_mme.Emm.ProcedureMoves.{common_plain-Transition, specific_timeout_max-Transition}

pub stops :
    (c d : Ctx)
    → phase_of d ≡ Phase.phase State.deregistered c.sci c.ksi
    → Transition false (phase_of c) (phase_of d)
stops c d h = lands d h Transition.stop

-- The phase of a user who is stopped.
abbrev pub when_stopped : Phase → Phase
when_stopped (Phase.phase s b k) = Phase.phase State.deregistered b k

pub stopped : (c d : Ctx) → some (emm_stop c) ≡ some d → phase_of d ≡ when_stopped (phase_of c)
unfolding emm_stop change_state stop_timer emit
stopped c d h = ground arith

timed_out :
    (code : ℕ) (c d : Ctx)
    → some (mobile_timeout code c) ≡ some d
    → Transition false (phase_of c) (phase_of d)
timed_out code c d h =
    let same : mobile_timeout code c ≡ d = ground arith in
    subst (λ x. Transition false (phase_of c) (phase_of x)) same
      (mobile_timeout-Transition false code c)

pub detach_accept-phase :
    (c d : Ctx) → detach_accept c ≡ some d → phase_of d ≡ when_stopped (phase_of c)
unfolding detach_accept change_state
detach_accept-phase c d h =
    let ready : Ctx = record c { s1_bearers_active = false } in
    let answered : Option Ctx =
      if bit_and c.msg_detach_type 0x8 == 0x8
      then some ready
      else send (built (emm_message 0x46)) ready in
    let leave : Ctx → Option Ctx =
      λ s. to_ecm (Effect.released detach) (change_state State.deregistered s) in
    let (t, sent, last) = bind-some answered leave d h in
    let kept : phase_of t ≡ phase_of c = elim (Bool-cases (bit_and c.msg_detach_type 0x8 == 0x8)) [
      | inl e ↦ ground (arith, e)
      | inr e ↦ send-phase (built (emm_message 0x46)) ready t (ground (arith, e))
    ] in
    to_ecm-phase (Effect.released detach) (change_state State.deregistered t) d last
    ∙ ap when_stopped kept

module _ (eia2 : List ℕ → List ℕ → ℕ → Direction → List ℕ → List ℕ)
    (hmac : List ℕ → List ℕ → List ℕ) (unset : ℕ) (stack : Mem ℕ) (uninit : List ℕ)
    (overlaid : Body → Overlay) where
  pub plain-Transition :
      (s : State) (m : NasMessage) (c d : Ctx)
      → c.state ≡ s
      → process_plain_msg eia2 hmac unset stack uninit overlaid s m c ≡ some d
      → Transition false (phase_of c) (phase_of d)
  unfolding process_plain_msg can_attach
  plain-Transition State.deregistered m c d e h =
      deregistered-Transition eia2 (uplink overlaid m.body) c d (rw e refl) h
  plain-Transition State.registered m c d e h =
      registered-Transition (uplink overlaid m.body) c d (rw e refl) h
  plain-Transition State.specific_procedure m c d e h = same_ctx false c d h
  plain-Transition State.common_procedure m c d e h =
      common_plain-Transition eia2 hmac unset (uplink overlaid m.body) c d e h
  plain-Transition State.deregistered_initiated m c d e h = same_ctx false c d h

  service_request-phase :
      (m : Pdu) (c d : Ctx)
      → service_request eia2 hmac unset stack uninit overlaid m c ≡ some d
      → phase_of d ≡ phase_of c
  unfolding service_request note_count to_ecm emit
  service_request-phase m c d h = ground (
    arith,
    Option-cases (authenticate_msg eia2 unset c.parser m.mem 0 m.len Direction.up_link),
    Option-cases c.ecm,
  )

  pub srv_req-Transition :
      (s : State) (m : Pdu) (c d : Ctx)
      → process_srv_req eia2 hmac unset stack uninit overlaid s m c ≡ some d
      → Transition false (phase_of c) (phase_of d)
  unfolding process_srv_req
  srv_req-Transition State.deregistered m c d h =
      stops c d (send_service_reject-phase eia2 unset 0x0a c d h)
  srv_req-Transition State.registered m c d h = stays false c d (service_request-phase m c d h)
  srv_req-Transition State.specific_procedure m c d h = stops c d (stopped c d h)
  srv_req-Transition State.common_procedure m c d h = same_ctx false c d h
  srv_req-Transition State.deregistered_initiated m c d h = same_ctx false c d h

  pub error-Transition :
      (s : State) (unknown : Bool) (c d : Ctx)
      → process_s6a_error eia2 hmac unset stack uninit overlaid s unknown c ≡ some d
      → Transition false (phase_of c) (phase_of d)
  unfolding process_s6a_error Deregistered.process_error CommonProcedure.process_error
  error-Transition State.deregistered true c d h =
      stays false c d (send_attach_reject-phase eia2 unset 0x08 [] c d h)
  error-Transition State.deregistered false c d h = same_ctx false c d h
  error-Transition State.registered unknown c d h = same_ctx false c d h
  error-Transition State.specific_procedure unknown c d h = same_ctx false c d h
  error-Transition State.common_procedure true c d h =
      let (t, sent, last) =
        bind-some (send_attach_reject eia2 unset 0x08 [] c) (λ x. some (emm_stop x)) d h in
      stops c d
        (stopped t d last ∙ ap when_stopped (send_attach_reject-phase eia2 unset 0x08 [] c t sent))
  error-Transition State.common_procedure false c d h = stops c d (stopped c d h)
  error-Transition State.deregistered_initiated unknown c d h = same_ctx false c d h

  specific_timeout-Transition :
      (code : ℕ) (msg : List ℕ) (c d : Ctx)
      → SpecificProcedure.process_timeout eia2 code msg c ≡ some d
      → Transition false (phase_of c) (phase_of d)
  unfolding SpecificProcedure.process_timeout
  specific_timeout-Transition code [] c d h = absurd (ground arith)
  specific_timeout-Transition code (a ∷ msg) c d h = elim (Bool-cases (code == t3450)) [
    | inl e ↦ elim (Bool-cases c.sci) [
      | inl f ↦
          stays false c d
            (send_secured-phase eia2 Effect.sent 0 2 (a ∷ msg) c d (ground (arith, e, f)))
      | inr f ↦ stays false c d (ground (arith, e, f))
    ]
    | inr e ↦ timed_out code c d (ground (arith, e))
  ]

  common_timeout-Transition :
      (code : ℕ) (msg : List ℕ) (c d : Ctx)
      → CommonProcedure.process_timeout eia2 hmac unset code msg c ≡ some d
      → Transition false (phase_of c) (phase_of d)
  unfolding CommonProcedure.process_timeout
  common_timeout-Transition code [] c d h = absurd (ground arith)
  common_timeout-Transition code (a ∷ msg) c d h = elim (Bool-cases (code == t3460)) [
    | inl e ↦
        let is_command : Bool = get_or msg 0 0 == 0x5d in
        elim (Bool-cases (c.sci || is_command)) [
          | inl f ↦ stays false c d (
              send_secured-phase eia2 Effect.sent 0 (if is_command then 3 else 2) (a ∷ msg) c d
                (ground (arith, e, f)))
          | inr f ↦ stays false c d (send-phase (a ∷ msg) c d (ground (arith, e, f)))
        ]
    | inr e ↦ elim (Bool-cases (code == t3470)) [
      | inl f ↦ stays false c d (send-phase (a ∷ msg) c d (ground (arith, e, f)))
      | inr f ↦ timed_out code c d (ground (arith, e, f))
    ]
  ]

  pub timeout-Transition :
      (s : State) (code : ℕ) (msg : List ℕ) (c d : Ctx)
      → process_timeout eia2 hmac unset stack uninit overlaid s code msg c ≡ some d
      → Transition false (phase_of c) (phase_of d)
  unfolding process_timeout
  timeout-Transition State.deregistered code msg c d h = same_ctx false c d h
  timeout-Transition State.registered code msg c d h = timed_out code c d h
  timeout-Transition State.specific_procedure code msg c d h =
      specific_timeout-Transition code msg c d h
  timeout-Transition State.common_procedure code msg c d h =
      common_timeout-Transition code msg c d h
  timeout-Transition State.deregistered_initiated code msg c d h = same_ctx false c d h

  common_timeout_max-Transition :
      (code : ℕ) (msg : List ℕ) (c d : Ctx)
      → CommonProcedure.process_timeout_max eia2 hmac unset code msg c ≡ some d
      → Transition false (phase_of c) (phase_of d)
  unfolding CommonProcedure.process_timeout_max
  common_timeout_max-Transition code [] c d h = absurd (ground arith)
  common_timeout_max-Transition code (a ∷ msg) c d h = elim (Bool-cases (code == t3460)) [
    | inl e ↦ stops c d (stopped c d (ground (arith, e)))
    | inr e ↦ same_ctx false c d (ground (arith, e))
  ]

  pub timeout_max-Transition :
      (s : State) (code : ℕ) (msg : List ℕ) (c d : Ctx)
      → c.state ≡ s
      → process_timeout_max eia2 hmac unset stack uninit overlaid s code msg c ≡ some d
      → Transition false (phase_of c) (phase_of d)
  unfolding process_timeout_max
  timeout_max-Transition State.deregistered code msg c d e h = same_ctx false c d h
  timeout_max-Transition State.registered code msg c d e h = same_ctx false c d h
  timeout_max-Transition State.specific_procedure code msg c d e h =
      specific_timeout_max-Transition false code msg c d e h
  timeout_max-Transition State.common_procedure code msg c d e h =
      common_timeout_max-Transition code msg c d h
  timeout_max-Transition State.deregistered_initiated code msg c d e h = same_ctx false c d h

  pub attach_accept-Transition :
      (s : State) (msg : List ℕ) (c d : Ctx)
      → state_attach_accept eia2 hmac unset stack uninit overlaid s msg c ≡ some d
      → Transition false (phase_of c) (phase_of d)
  unfolding state_attach_accept
  attach_accept-Transition State.specific_procedure msg c d h =
      stays false c d (attach_accept-phase eia2 unset uninit msg c d h)
  attach_accept-Transition State.deregistered msg c d h = absurd (ground arith)
  attach_accept-Transition State.registered msg c d h = absurd (ground arith)
  attach_accept-Transition State.common_procedure msg c d h = absurd (ground arith)
  attach_accept-Transition State.deregistered_initiated msg c d h = absurd (ground arith)

  pub send_esm-Transition :
      (s : State) (msg : List ℕ) (c d : Ctx)
      → state_send_esm eia2 hmac unset stack uninit overlaid s msg c ≡ some d
      → Transition false (phase_of c) (phase_of d)
  unfolding state_send_esm send_esm
  send_esm-Transition State.specific_procedure msg c d h =
      stays false c d (send_either-phase eia2 unset msg c d h)
  send_esm-Transition State.registered msg c d h =
      stays false c d (send_either-phase eia2 unset msg c d h)
  send_esm-Transition State.deregistered msg c d h = absurd (ground arith)
  send_esm-Transition State.common_procedure msg c d h = absurd (ground arith)
  send_esm-Transition State.deregistered_initiated msg c d h = absurd (ground arith)
