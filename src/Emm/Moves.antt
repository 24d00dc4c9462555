-- ===== src/Emm/Moves.antt =====
-- mme/S1/NAS: every event of a user is a move of the abstract machine.
use aalto_mme.Prelude.{
  ℕ, ◌≡◌, ◌∙◌, ◌⊎◌, ◌≢◌, refl, subst, arith, Bool, true, false, ◌||◌, Option, none, some, List, inl,
  inr, ◌==◌, Mem, Bool-cases, Option-cases,
}
use aalto_mme.Nas.Count.{Direction}
use aalto_mme.Nas.Options.{minus_size}
use aalto_mme.Nas.Security.{Auth, security_header, discriminator, authenticate_msg}
use aalto_mme.Nas.Decode.{NasMessage, EmmBody, Body, dec_nas, dec_sec_nas, is_auth_required}
use aalto_mme.Emm.Ctx.{State, Ctx}
use aalto_mme.Emm.Uplink.{Uplink, Overlay, uplink, uplink_of_type, taken_for, message_type}
use aalto_mme.Emm.Machine.{
  Pdu, gate, open_secured, receive_secured, receive_unsecured, continue_sec, process_sec_msg,
}
use aalto_mme.Emm.Phase.{phase_of}
use aalto_mme.Emm.Transition.{Transition, weaken, can_attach}
use aalto_mme.Emm.Refinement.{state_kept, sci_kept, from_phase}
use aalto_mme.Emm.StateMoves.{
  stays, same_ctx, deregistered_sec-Transition, registered_sec-Transition,
}
use aalto_mme.Emm.ProcedureMoves.{specific-Transition, common_sec-Transition}

-- SECURITY MODE COMPLETE asks for authentication.
complete_is_required :
    (overlaid : Body → Overlay) (b : Body)
    → is_auth_required (message_type b) ≡ false
    → uplink overlaid b ≢ Uplink.security_mode_complete
unfolding uplink uplink_of_type taken_for message_type is_auth_required
complete_is_required overlaid Body.empty f e = ground arith
complete_is_required overlaid (Body.emm type (EmmBody.attach_request m)) f e = ground arith
complete_is_required overlaid (Body.emm type (EmmBody.attach_accept m)) f e = ground arith
complete_is_required overlaid (Body.emm type (EmmBody.attach_complete m)) f e = ground arith
complete_is_required overlaid (Body.emm type (EmmBody.attach_reject m)) f e = ground arith
complete_is_required overlaid (Body.emm type (EmmBody.detach_request m)) f e = ground arith
complete_is_required overlaid (Body.emm type (EmmBody.tau_request m)) f e = ground arith
complete_is_required overlaid (Body.emm type (EmmBody.authentication_response m)) f e = ground arith
complete_is_required overlaid (Body.emm type (EmmBody.authentication_failure m)) f e = ground arith
complete_is_required overlaid (Body.emm type (EmmBody.identity_response m)) f e = ground arith
complete_is_required overlaid (Body.emm type EmmBody.undecoded) f e = ground arith
complete_is_required overlaid (Body.esm pti type b) f e = ground arith

gate_lem :
    (k : Bool → NasMessage → Ctx → Option Ctx) (is_auth : Bool) (m : NasMessage) (c d : Ctx)
    → gate k is_auth m c ≡ some d
    → (phase_of d ≡ phase_of c)
      ⊎ (((is_auth ≡ true) ⊎ (is_auth_required (message_type m.body) ≡ false))
          × (k is_auth m c ≡ some d))
unfolding gate
gate_lem k is_auth m c d h =
    ground (arith, Bool-cases is_auth, Bool-cases (is_auth_required (message_type m.body)))

module _ (eia2 : List ℕ → List ℕ → ℕ → Direction → List ℕ → List ℕ)
    (hmac : List ℕ → List ℕ → List ℕ) (unset : ℕ) (stack : Mem ℕ) (uninit : List ℕ)
    (overlaid : Body → Overlay) where
  -- The authentication code of a message is right.
  unfoldable pub is_authentic : Pdu → Ctx → Bool
  is_authentic m c = elim (authenticate_msg eia2 unset c.parser m.mem 0 m.len Direction.up_link) [
    | none ↦ false
    | some a ↦ a.is_auth
  ]

  -- What a state does behind the test of the authentication code.
  abbrev Moves : State → (Bool → NasMessage → Ctx → Option Ctx) → Type 0
  Moves s k =
      (is_auth : Bool) (m : NasMessage) (c d : Ctx)
      → c.state ≡ s
      → (is_auth ≡ true) ⊎ (is_auth_required (message_type m.body) ≡ false)
      → (is_auth ≡ false) ⊎ (c.sci ≡ true)
      → k is_auth m c ≡ some d
      → Transition is_auth (phase_of c) (phase_of d)

  common-Transition :
      (p : ℕ) (is_auth : Bool) (m : NasMessage) (c d : Ctx)
      → c.state ≡ State.common_procedure
      → (is_auth ≡ true) ⊎ (is_auth_required (message_type m.body) ≡ false)
      → continue_sec eia2 hmac unset stack uninit overlaid State.common_procedure p is_auth m c
        ≡ some d
      → Transition is_auth (phase_of c) (phase_of d)
  unfolding continue_sec
  common-Transition p is_auth m c d e a h =
      common_sec-Transition eia2 hmac unset is_auth (uplink overlaid m.body) c d e (proven a) h
    where
      proven :
          (is_auth ≡ true) ⊎ (is_auth_required (message_type m.body) ≡ false)
          → (is_auth ≡ true) ⊎ (uplink overlaid m.body ≢ Uplink.security_mode_complete)
      proven (inl verified) = inl verified
      proven (inr free) = inr (complete_is_required overlaid m.body free)

  continue_sec-Moves :
      (s : State) (p : ℕ) → Moves s (continue_sec eia2 hmac unset stack uninit overlaid s p)
  unfolding continue_sec can_attach
  continue_sec-Moves State.deregistered p is_auth m c d e a sc h =
      deregistered_sec-Transition eia2 is_auth (uplink overlaid m.body) c d (rw e refl) sc h
  continue_sec-Moves State.registered p is_auth m c d e a sc h =
      registered_sec-Transition eia2 overlaid p is_auth m c d (rw e refl) sc h
  continue_sec-Moves State.specific_procedure p is_auth m c d e a sc h =
      specific-Transition overlaid is_auth p m c d e h
  continue_sec-Moves State.common_procedure p is_auth m c d e a sc h =
      common-Transition p is_auth m c d e a h
  continue_sec-Moves State.deregistered_initiated p is_auth m c d e a sc h = same_ctx is_auth c d h

  is_authentic_lem :
      (m : Pdu) (c : Ctx) (a : Auth)
      → authenticate_msg eia2 unset c.parser m.mem 0 m.len Direction.up_link ≡ some a
      → a.is_auth ≡ is_authentic m c
  unfolding is_authentic
  is_authentic_lem m c a e = rw (e, is_authentic) refl

  -- Behind the authentication: nothing more, or what the state goes on with.
  open_secured_lem :
      (k : Bool → NasMessage → Ctx → Option Ctx) (m : Pdu) (a : Auth) (c d : Ctx)
      → open_secured eia2 hmac unset stack uninit overlaid k m a c ≡ some d
      → (phase_of d ≡ phase_of c)
        ⊎ ((x : NasMessage) × (e : Ctx) × (phase_of e ≡ phase_of c)
            × ((a.is_auth ≡ true) ⊎ (is_auth_required (message_type x.body) ≡ false))
            × (k a.is_auth x e ≡ some d))
  unfolding open_secured
  open_secured_lem k m a c d h = elim (Bool-cases (a.ret == 0)) [
    | inl none_read ↦ absurd (ground (arith, none_read))
    | inr read ↦ elim (Bool-cases (a.ret == 2)) [
      | inl late ↦ inl (ground (arith, read, late))
      | inr on_time ↦ elim (Option-cases (dec_sec_nas unset stack a.handler m.mem 0 m.len)) [
        | inl e ↦ absurd (ground (arith, read, on_time, e))
        | inr (r, e) ↦ elim (Bool-cases r.1) [
          | inr bad ↦ absurd (ground (arith, read, on_time, e, bad))
          | inl good ↦
              let f : Ctx = record c { parser = a.handler } in
              elim (gate_lem k a.is_auth r.0 f d (ground (arith, read, on_time, e, good))) [
                | inl kept ↦ inl kept
                | inr (proof, last) ↦ inr (r.0, f, refl, proof, last)
              ]
        ]
      ]
    ]
  ]

  receive_secured-Transition :
      (k : Bool → NasMessage → Ctx → Option Ctx) (m : Pdu) (c d : Ctx)
      → ((is_auth : Bool) (x : NasMessage) (e f : Ctx)
          → phase_of e ≡ phase_of c
          → (is_auth ≡ true) ⊎ (is_auth_required (message_type x.body) ≡ false)
          → k is_auth x e ≡ some f
          → Transition is_auth (phase_of e) (phase_of f))
      → receive_secured eia2 hmac unset stack uninit overlaid k m c ≡ some d
      → Transition (is_authentic m c) (phase_of c) (phase_of d)
  unfolding receive_secured
  receive_secured-Transition k m c d moves h =
      elim (Option-cases (authenticate_msg eia2 unset c.parser m.mem 0 m.len Direction.up_link)) [
        | inl e ↦ absurd (ground (arith, e))
        | inr (a, e) ↦ elim (open_secured_lem k m a c d (ground (arith, e))) [
          | inl kept ↦ stays (is_authentic m c) c d kept
          | inr (x, f, same, proof, last) ↦
              subst (λ t. Transition t (phase_of c) (phase_of d)) (is_authentic_lem m c a e)
                (from_phase a.is_auth c f d same (moves a.is_auth x f d same proof last))
        ]
      ]

  receive_unsecured-Transition :
      (s : State) (p : ℕ) (m : Pdu) (c d : Ctx)
      → c.state ≡ s
      → receive_unsecured eia2 hmac unset stack uninit overlaid
          (continue_sec eia2 hmac unset stack uninit overlaid s p)
          m
          c
        ≡ some d
      → Transition (is_authentic m c) (phase_of c) (phase_of d)
  unfolding receive_unsecured
  receive_unsecured-Transition s p m c d here h =
      let x : NasMessage = (dec_nas m.mem 6 (minus_size m.len 6)).0 in
      elim (gate_lem (continue_sec eia2 hmac unset stack uninit overlaid s p) false x c d h) [
        | inl kept ↦ stays (is_authentic m c) c d kept
        | inr (proof, last) ↦
            weaken (is_authentic m c)
              (continue_sec-Moves s p false x c d here proof (inl refl) last)
      ]

  with_context :
      (s : State) (p : ℕ) (m : Pdu) (c d : Ctx)
      → c.state ≡ s
      → c.sci ≡ true
      → receive_secured eia2 hmac unset stack uninit overlaid
          (continue_sec eia2 hmac unset stack uninit overlaid s p)
          m
          c
        ≡ some d
      → Transition (is_authentic m c) (phase_of c) (phase_of d)
  with_context s p m c d here sc h =
      receive_secured-Transition (continue_sec eia2 hmac unset stack uninit overlaid s p) m c d
        (λ is_auth x e f same proof last.
          continue_sec-Moves s p is_auth x e f (state_kept c e same ∙ here) proof
            (inr (sci_kept c e same ∙ sc)) last)
        h

  -- A message under a security header.
  pub process_sec_msg-Transition :
      (s : State) (m : Pdu) (c d : Ctx)
      → c.state ≡ s
      → process_sec_msg eia2 hmac unset stack uninit overlaid s m c ≡ some d
      → Transition (is_authentic m c) (phase_of c) (phase_of d)
  unfolding process_sec_msg
  process_sec_msg-Transition State.deregistered m c d e h = elim (Bool-cases c.sci) [
    | inl sc ↦
        with_context State.deregistered (discriminator m.mem 0) m c d e sc (ground (arith, sc))
    | inr sc ↦
        receive_unsecured-Transition State.deregistered (discriminator m.mem 0) m c d e
          (ground (arith, sc))
  ]
  process_sec_msg-Transition State.registered m c d e h = elim (Bool-cases c.sci) [
    | inl sc ↦ with_context State.registered (discriminator m.mem 0) m c d e sc (ground (arith, sc))
    | inr sc ↦ absurd (ground (arith, sc))
  ]
  process_sec_msg-Transition State.specific_procedure m c d e h = elim (Bool-cases c.sci) [
    | inl sc ↦
        with_context State.specific_procedure (discriminator m.mem 0) m c d e sc
          (ground (arith, sc))
    | inr sc ↦ absurd (ground (arith, sc))
  ]
  process_sec_msg-Transition State.common_procedure m c d e h =
      elim (Bool-cases (c.sci || security_header m.mem 0 m.len unset == 4)) [
        | inl new ↦
            let p : ℕ = discriminator m.mem 0 in
            receive_secured-Transition
              (continue_sec eia2 hmac unset stack uninit overlaid State.common_procedure p) m c d
              (λ is_auth x f g same proof last.
                common-Transition p is_auth x f g (state_kept c f same ∙ e) proof last)
              (ground (arith, new))
        | inr old ↦
            receive_unsecured-Transition State.common_procedure (discriminator m.mem 0) m c d e
              (ground (arith, old))
      ]
  process_sec_msg-Transition State.deregistered_initiated m c d e h =
      same_ctx (is_authentic m c) c d h
