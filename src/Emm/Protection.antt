-- ===== src/Emm/Protection.antt =====
-- mme/S1/NAS: any sequence of events of a user, and what it keeps.
use aalto_mme.Prelude.{
  ℕ, ◌≡◌, ◌⊎◌, refl, subst, arith, Bool, false, ◌||◌, none, some, List, [], ◌∷◌, inl, inr, leb,
  ◌==◌, Mem, Bool-cases, Option-cases, replicate,
}
use aalto_mme.Nas.Count.{Direction}
use aalto_mme.Nas.Security.{same, security_header}
use aalto_mme.Nas.Decode.{Body, dec_nas}
use aalto_mme.Emm.Uplink.{Overlay}
use aalto_mme.Emm.Ctx.{
  State, Ecm, Ctx, stop_timer, set_timer, emit, mobile_reachable, add_auth_quadruplet,
}
use aalto_mme.Emm.Procedures.{emm_deregister, register_ecm, get_nh}
use aalto_mme.Emm.Machine.{Pdu, Event, process_msg, process_timeout_max, handle, run}
use aalto_mme.Emm.Phase.{phase_of, bind-some, send_auth_request-phase}
use aalto_mme.Emm.Transition.{Transition, weaken, generate_new_ksi_lem}
use aalto_mme.Emm.Refinement.{lands, process_first_esm_msg-phase}
use aalto_mme.Emm.StateMoves.{stays, same_ctx}
use aalto_mme.Emm.Moves.{is_authentic, process_sec_msg-Transition}
use aalto_mme.Emm.Transition.{
  IsProtected, HasKsi, IsUnproven, Transition-IsProtected, Transition-HasKsi, Transition-IsUnproven,
}
use aalto_mme.Emm.Events.{
  stops, stopped, detach_accept-phase, plain-Transition, srv_req-Transition, error-Transition,
  timeout-Transition, timeout_max-Transition, attach_accept-Transition, send_esm-Transition,
}

stop_timer-phase : (code : ℕ) (c : Ctx) → phase_of (stop_timer code c) ≡ phase_of c
unfolding stop_timer
stop_timer-phase code c = refl

pub State-cases :
    (s : State)
    → (s ≡ State.deregistered)
      ⊎ ((s ≡ State.registered)
          ⊎ ((s ≡ State.specific_procedure)
              ⊎ ((s ≡ State.common_procedure) ⊎ (s ≡ State.deregistered_initiated))))
State-cases State.deregistered = inl refl
State-cases State.registered = inr (inl refl)
State-cases State.specific_procedure = inr (inr (inl refl))
State-cases State.common_procedure = inr (inr (inr (inl refl)))
State-cases State.deregistered_initiated = inr (inr (inr (inr refl)))

emm_deregister-phase : (c : Ctx) → phase_of (emm_deregister c) ≡ phase_of c
unfolding emm_deregister set_timer
emm_deregister-phase c = ground (arith, State-cases c.state)

register_ecm-phase : (e : Ecm) (c : Ctx) → phase_of (register_ecm e c) ≡ phase_of c
unfolding register_ecm emit
register_ecm-phase e c = ground (arith, Option-cases c.ecm)

get_nh-phase :
    (hmac : List ℕ → List ℕ → List ℕ) (c d : Ctx)
    → some (get_nh hmac c).0 ≡ some d
    → phase_of d ≡ phase_of c
unfolding get_nh
get_nh-phase hmac c d h = ground (arith, Bool-cases (same c.nh (replicate 32 0)))

module _ (eia2 : List ℕ → List ℕ → ℕ → Direction → List ℕ → List ℕ)
    (hmac : List ℕ → List ℕ → List ℕ) (unset : ℕ) (stack : Mem ℕ) (uninit : List ℕ)
    (overlaid : Body → Overlay) where
  process_msg-Transition :
      (m : Pdu) (c d : Ctx)
      → process_msg eia2 hmac unset stack uninit overlaid m c ≡ some d
      → Transition
          (is_authentic eia2 hmac unset stack uninit overlaid m c)
          (phase_of c)
          (phase_of d)
  unfolding process_msg stop_timer is_authentic
  process_msg-Transition m c d h =
      let e : Ctx = stop_timer mobile_reachable c in
      let s : ℕ = security_header m.mem 0 m.len unset in
      let authentic : Bool = is_authentic eia2 hmac unset stack uninit overlaid m c in
      elim (Bool-cases (m.len == 0)) [
        | inl empty ↦ absurd (ground (arith, empty))
        | inr full ↦ elim (Bool-cases (s == 0)) [
          | inl plain ↦ weaken authentic (
              plain-Transition eia2 hmac unset stack uninit overlaid e.state
                (dec_nas m.mem 0 m.len).0 e d refl (ground (arith, full, plain)))
          | inr headed ↦ elim (Bool-cases (leb s 4)) [
            | inl sec ↦
                process_sec_msg-Transition eia2 hmac unset stack uninit overlaid e.state m e d refl
                  (ground (arith, full, headed, sec))
            | inr more ↦ elim (Bool-cases (s == 12)) [
              | inl srv ↦ weaken authentic (
                  srv_req-Transition eia2 hmac unset stack uninit overlaid e.state m e d
                    (ground (arith, full, headed, more, srv)))
              | inr ignored ↦ stays authentic c d (ground (arith, full, headed, more, ignored))
            ]
          ]
        ]
      ]

  -- The event is a message whose authentication code is right.
  unfoldable pub authentic_event : Event → Ctx → Bool
  authentic_event (Event.message m) c = is_authentic eia2 hmac unset stack uninit overlaid m c
  authentic_event _ c = false

  -- Whatever the ECM, the timers, the S6a and the ESM bring, what the code does is a move of the
  -- abstract machine of a user: the state, whether there is a security context, and the key set;
  -- and it is one that needs an authentic message only if the event is one. An abort is not a move.
  pub handle-Transition :
      (e : Event) (c d : Ctx)
      → handle eia2 hmac unset stack uninit overlaid e c ≡ some d
      → Transition (authentic_event e c) (phase_of c) (phase_of d)
  unfolding handle authentic_event
  handle-Transition (Event.message m) c d h = process_msg-Transition m c d h
  handle-Transition (Event.timeout code) c d h = elim (Option-cases (c.active_timers code)) [
    | inl e ↦ same_ctx false c d (ground (arith, e))
    | inr (msg, e) ↦
        timeout-Transition eia2 hmac unset stack uninit overlaid c.state code msg c d
          (ground (arith, e))
  ]
  handle-Transition (Event.timeout_max code) c d h = elim (Option-cases (c.active_timers code)) [
    | inl e ↦ same_ctx false c d (ground (arith, e))
    | inr (msg, e) ↦
        let (t, fired, last) =
          bind-some (process_timeout_max eia2 hmac unset stack uninit overlaid c.state code msg c)
            (λ x. some (stop_timer code x)) d (ground (arith, e)) in
        let removed : phase_of d ≡ phase_of t = ground (arith, stop_timer-phase code t, last) in
        lands d removed (
          timeout_max-Transition eia2 hmac unset stack uninit overlaid c.state code msg c t refl
            fired)
  ]
  handle-Transition (Event.s6a_error unknown) c d h =
      error-Transition eia2 hmac unset stack uninit overlaid c.state unknown c d h
  handle-Transition (Event.auth_quadruplet q) c d h =
      stays false c d (unfold add_auth_quadruplet in ground arith)
  handle-Transition Event.auth_info_available c d h =
      let fresh = generate_new_ksi_lem c.ksi c.msg_ksi in
      lands d (send_auth_request-phase c d h) (Transition.challenge fresh.0 fresh.1)
  handle-Transition Event.synch_error c d h = stops c d (stopped c d h)
  handle-Transition Event.gateways_selected c d h =
      stays false c d (process_first_esm_msg-phase c d h)
  handle-Transition Event.detached c d h = stops c d (detach_accept-phase c d h)
  handle-Transition Event.next_hop c d h = stays false c d (get_nh-phase hmac c d h)
  handle-Transition Event.deregistered c d h =
      stays false c d (ground (arith, emm_deregister-phase c))
  handle-Transition (Event.attach_accepted msg) c d h =
      attach_accept-Transition eia2 hmac unset stack uninit overlaid c.state msg c d h
  handle-Transition (Event.esm_sent msg) c d h =
      send_esm-Transition eia2 hmac unset stack uninit overlaid c.state msg c d h
  handle-Transition Event.bearers_released c d h = stays false c d (ground arith)
  handle-Transition (Event.registered e) c d h =
      stays false c d (ground (arith, register_ecm-phase e c))

  -- Any sequence of events that does not end in an abort leaves a user protected, as a new one is.
  pub run-IsProtected :
      (es : List Event) (c d : Ctx)
      → IsProtected (phase_of c)
      → run eia2 hmac unset stack uninit overlaid es c ≡ some d
      → IsProtected (phase_of d)
  unfolding run
  run-IsProtected [] c d p h = subst IsProtected (ground arith) p
  run-IsProtected (e ∷ es) c d p h =
      let (t, first, rest) =
        bind-some (handle eia2 hmac unset stack uninit overlaid e c)
          (run eia2 hmac unset stack uninit overlaid es) d h in
      run-IsProtected es t d (Transition-IsProtected (handle-Transition e c t first) p) rest

  -- The key set is one of 1 to 6, or 7 for none.
  pub run-HasKsi :
      (es : List Event) (c d : Ctx)
      → HasKsi (phase_of c)
      → run eia2 hmac unset stack uninit overlaid es c ≡ some d
      → HasKsi (phase_of d)
  unfolding run
  run-HasKsi [] c d p h = subst HasKsi (ground arith) p
  run-HasKsi (e ∷ es) c d p h =
      let (t, first, rest) =
        bind-some (handle eia2 hmac unset stack uninit overlaid e c)
          (run eia2 hmac unset stack uninit overlaid es) d h in
      run-HasKsi es t d (Transition-HasKsi (handle-Transition e c t first) p) rest

  -- One of the events is an authentic message, when it comes.
  unfoldable pub authentic_in : List Event → Ctx → Bool
  authentic_in [] c = false
  authentic_in (e ∷ es) c =
      authentic_event e c || elim (handle eia2 hmac unset stack uninit overlaid e c) [
        | none ↦ false
        | some d ↦ authentic_in es d
      ]

  -- Without an authentic message among the events, a user who has no security context, and is not
  -- registered or in a specific procedure, gets to neither.
  pub run-IsUnproven :
      (es : List Event) (c d : Ctx)
      → IsUnproven (phase_of c)
      → authentic_in es c ≡ false
      → run eia2 hmac unset stack uninit overlaid es c ≡ some d
      → IsUnproven (phase_of d)
  unfolding run authentic_in
  run-IsUnproven [] c d p a h = subst IsUnproven (ground arith) p
  run-IsUnproven (e ∷ es) c d p a h =
      let (t, first, rest) =
        bind-some (handle eia2 hmac unset stack uninit overlaid e c)
          (run eia2 hmac unset stack uninit overlaid es) d h in
      let forged : authentic_event e c ≡ false = ground arith in
      let moved : Transition false (phase_of c) (phase_of t) =
        subst (λ x. Transition x (phase_of c) (phase_of t)) forged
          (handle-Transition e c t first) in
      run-IsUnproven es t d (Transition-IsUnproven moved p) (ground (arith, first)) rest
