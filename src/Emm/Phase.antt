-- ===== src/Emm/Phase.antt =====
-- mme/S1/NAS: a user as an abstract state machine: the state, whether there is a security context, and
-- the key set. What the shared operations leave of it.
use aalto_mme.Prelude.{
  ℕ, ◌≡◌, ◌∙◌, ◌⊎◌, refl, arith, Bool, true, false, Option, none, some, List, [], ◌∷◌, inl, inr,
  read, Bool-cases, Option-cases,
}
use aalto_mme.Nas.Count.{Direction}
use aalto_mme.Nas.Security.{new_msg_sec}
use aalto_mme.Emm.Ctx.{
  State, Effect, AuthQuadruplet, Ctx, ◌>>=◌, emit, change_state, set_timer, t3450, to_ecm, get_tai,
  new_guti, has_no_tmsi,
}
use aalto_mme.Emm.Send.{
  send, send_identity_req, send_auth_request, challenge, attach_accept, accept_with_guti,
  attach_reject_message, attach_accept_message, tau_accept_message, send_service_reject,
  generate_new_ksi, send_secured, send_either, send_attach_reject, send_tau_accept,
  send_security_mode_command,
}

pub data Phase : Type 0 where
  phase : State → Bool → ℕ → Phase

abbrev pub phase_of : Ctx → Phase
phase_of c = Phase.phase c.state c.sci c.ksi

-- Inversion of a chain that ends well.
pub bind-some :
    (m : Option Ctx) (f : Ctx → Option Ctx) (d : Ctx)
    → (m >>= f) ≡ some d
    → (c : Ctx) × (m ≡ some c) × (f c ≡ some d)
bind-some (some c) f d h = (c, refl, h)
bind-some none f d h = absurd (ground arith)

pub to_ecm-phase : (e : Effect) (c d : Ctx) → to_ecm e c ≡ some d → phase_of d ≡ phase_of c
unfolding to_ecm emit
to_ecm-phase e c d h = ground (arith, Option-cases c.ecm)

pub send-phase : (m : List ℕ) (c d : Ctx) → send m c ≡ some d → phase_of d ≡ phase_of c
unfolding send
send-phase m c d h = to_ecm-phase (Effect.sent m) c d h

pub get_tai-phase : (c d : Ctx) → get_tai c ≡ some d → phase_of d ≡ phase_of c
unfolding get_tai
get_tai-phase c d h = ground (arith, Option-cases c.ecm)

pub new_guti-phase : (c d : Ctx) → new_guti c ≡ some d → phase_of d ≡ phase_of c
unfolding new_guti
new_guti-phase c d h = ground (arith, Option-cases c.ecm, Bool-cases (has_no_tmsi c.guti))

pub List-cases : {A : Type 0} (xs : List A) → (xs ≡ []) ⊎ ((x : A) × (ys : List A) × (xs ≡ x ∷ ys))
List-cases [] = inl refl
List-cases (x ∷ xs) = inr (x, xs, refl)

challenge-phase :
    (q : AuthQuadruplet) (c d : Ctx)
    → challenge q c ≡ some d
    → phase_of d ≡ Phase.phase State.common_procedure c.sci (generate_new_ksi c.ksi c.msg_ksi)
unfolding challenge change_state set_timer
challenge-phase q c d h =
    let (s, sent, last) = bind-some _ _ d h in ground (arith, send-phase _ _ s sent, last)

pub send_auth_request-phase :
    (c d : Ctx)
    → send_auth_request c ≡ some d
    → phase_of d ≡ Phase.phase State.common_procedure c.sci (generate_new_ksi c.ksi c.msg_ksi)
unfolding send_auth_request
send_auth_request-phase c d h = elim (List-cases c.auth_quadrs) [
  | inl e ↦ absurd (ground (arith, e))
  | inr (q, qs, e) ↦ challenge-phase q c d (ground (arith, e))
]

pub send_identity_req-phase : (c d : Ctx) → send_identity_req c ≡ some d → phase_of d ≡ phase_of c
unfolding send_identity_req set_timer
send_identity_req-phase c d h = send-phase _ _ d h

module _ (eia2 : List ℕ → List ℕ → ℕ → Direction → List ℕ → List ℕ) where
  pub send_secured-phase :
      (wrap : List ℕ → Effect) (len s : ℕ) (plain : List ℕ) (c d : Ctx)
      → send_secured eia2 wrap len s plain c ≡ some d
      → phase_of d ≡ phase_of c
  unfolding send_secured
  send_secured-phase wrap len s plain c d h =
      elim (Option-cases
        (new_msg_sec eia2 c.parser (λ a. 0) 0 len 0x7 s Direction.down_link plain)) [
          | inl e ↦ absurd (ground (arith, e))
          | inr (r, e) ↦
              let f : Ctx = record c { parser = r.handler } in
              to_ecm-phase (wrap (read r.mem 0 r.len)) f d (ground (arith, e))
        ]

  pub send_either-phase :
      (len : ℕ) (plain : List ℕ) (c d : Ctx)
      → send_either eia2 len plain c ≡ some d
      → phase_of d ≡ phase_of c
  unfolding send_either
  send_either-phase len plain c d h = elim (Bool-cases c.sci) [
    | inl e ↦ send_secured-phase Effect.sent len 2 plain c d (ground (arith, e))
    | inr e ↦ send-phase plain c d (ground (arith, e))
  ]

  pub send_attach_reject-phase :
      (unset cause : ℕ) (msg : List ℕ) (c d : Ctx)
      → send_attach_reject eia2 unset cause msg c ≡ some d
      → phase_of d ≡ phase_of c
  unfolding send_attach_reject
  send_attach_reject-phase unset cause msg c d h = elim (Bool-cases c.attach_started) [
    | inl e ↦
        send_either-phase unset (attach_reject_message cause msg)
          (record c { attach_started = false; s1_bearers_active = false }) d (ground (arith, e))
    | inr e ↦ ground (arith, e)
  ]

  pub send_service_reject-phase :
      (unset cause : ℕ) (c d : Ctx)
      → send_service_reject eia2 unset cause c ≡ some d
      → phase_of d ≡ Phase.phase State.deregistered c.sci c.ksi
  unfolding send_service_reject change_state
  send_service_reject-phase unset cause c d h =
      let (s, sent, last) = bind-some _ _ d h in
      ground (arith, send_either-phase unset _ _ s sent, last)

  pub send_security_mode_command-phase :
      (unset : ℕ) (c d : Ctx)
      → send_security_mode_command eia2 unset c ≡ some d
      → phase_of d ≡ Phase.phase State.common_procedure c.sci c.ksi
  unfolding send_security_mode_command change_state set_timer
  send_security_mode_command-phase unset c d h =
      let (s, sent, last) = bind-some _ _ d h in
      ground (arith, send_secured-phase _ unset _ _ _ s sent, last)

  pub send_tau_accept-phase :
      (c d : Ctx) → send_tau_accept eia2 c ≡ some d → phase_of d ≡ phase_of c
  unfolding send_tau_accept set_timer
  send_tau_accept-phase c d h = elim (Option-cases c.ecm) [
    | inl e ↦ absurd (ground (arith, e))
    | inr (e, has) ↦
        let plain : List ℕ = tau_accept_message e c in
        send_secured-phase Effect.sent 0 2 plain (set_timer t3450 plain c) d (ground (arith, has))
  ]

  accept_with_guti-phase :
      (unset : ℕ) (uninit msg : List ℕ) (c d : Ctx)
      → accept_with_guti eia2 unset uninit msg c ≡ some d
      → phase_of d ≡ phase_of c
  unfolding accept_with_guti set_timer
  accept_with_guti-phase unset uninit msg c d h = elim (Option-cases c.ecm) [
    | inl e ↦ absurd (ground (arith, e))
    | inr (e, has) ↦
        let plain : List ℕ = attach_accept_message uninit msg e c in
        send_secured-phase Effect.context_setup unset 2 plain
          (set_timer t3450 plain (record c { s1_bearers_active = true })) d (ground (arith, has))
  ]

  pub attach_accept-phase :
      (unset : ℕ) (uninit msg : List ℕ) (c d : Ctx)
      → attach_accept eia2 unset uninit msg c ≡ some d
      → phase_of d ≡ phase_of c
  unfolding attach_accept
  attach_accept-phase unset uninit msg c d h = elim (Bool-cases c.attach_started) [
    | inl e ↦
        let started : Ctx = record c { attach_started = false } in
        let go : Ctx → Option Ctx = accept_with_guti eia2 unset uninit msg in
        let (g, made, last) = bind-some (new_guti started) go d (ground (arith, e)) in
        accept_with_guti-phase unset uninit msg g d last ∙ new_guti-phase started g made
    | inr e ↦ ground (arith, e)
  ]
