-- ===== src/Emm/Refinement.antt =====
-- mme/S1/NAS: every step of the procedures of a user is a move of the abstract machine.
use aalto_mme.Prelude.{
  ℕ, ◌≡◌, ◌∙◌, ◌⊎◌, refl, sym, subst, arith, Bool, true, false, ◌||◌, not, Option, some, inl, inr,
  ◌==◌, if◌then◌else◌, Bool-cases, Option-cases,
}
use aalto_mme.Nas.Messages.{AttachRequest, TauRequest, DetachRequest}
use aalto_mme.Nas.Security.{same}
use aalto_mme.Emm.Ctx.{
  State, Effect, Ctx, emit, change_state, set_timer, stop_timer, get_tai, new_guti, normal_release,
}
use aalto_mme.Emm.Send.{send_identity_req, send_auth_request, generate_new_ksi}
use aalto_mme.Emm.Procedures.{
  emm_stop, remove_current_sc, check_sc_availability, check_auth_information, trigger_aka_procedure,
  attach_result_of, update_result_of, process_first_esm_msg,
}
use aalto_mme.Nas.Decode.{opt_lookup}
use aalto_mme.Emm.Requests.{process_attach, process_detach_req, process_tau_req}
use aalto_mme.Emm.Uplink.{
  select_attach, select_update, plain_attach, note_count, start_attach, secured_attach,
  process_detach, release_if, mobile_timeout,
}
use aalto_mme.Emm.Phase.{
  Phase, phase_of, bind-some, to_ecm-phase, get_tai-phase, new_guti-phase, List-cases,
  send_auth_request-phase, send_identity_req-phase,
}
use aalto_mme.Emm.Transition.{Transition, can_attach, generate_new_ksi_lem}

-- A move to the phase that a context has.
pub lands :
    {authentic : Bool} {p q : Phase} (d : Ctx)
    → phase_of d ≡ q
    → Transition authentic p q
    → Transition authentic p (phase_of d)
lands {authentic} {p} d e t = subst (λ r. Transition authentic p r) (sym e) t

pub departs :
    {authentic : Bool} {q r : Phase} (c : Ctx)
    → phase_of c ≡ q
    → Transition authentic q r
    → Transition authentic (phase_of c) r
departs {authentic} {q} {r} c e t = subst (λ p. Transition authentic p r) (sym e) t

pub emm_stop-phase : (c : Ctx) → phase_of (emm_stop c) ≡ Phase.phase State.deregistered c.sci c.ksi
unfolding emm_stop change_state stop_timer emit
emm_stop-phase c = refl

pub process_first_esm_msg-phase :
    (c d : Ctx) → process_first_esm_msg c ≡ some d → phase_of d ≡ phase_of c
unfolding process_first_esm_msg emit
process_first_esm_msg-phase c d h = ground (arith, List-cases c.pending_esm)

check_sc_availability-phase :
    (c d : Ctx)
    → check_sc_availability c ≡ some d
    → phase_of d ≡ Phase.phase State.common_procedure c.sci (generate_new_ksi c.ksi c.msg_ksi)
unfolding check_sc_availability change_state
check_sc_availability-phase c d h = elim (Bool-cases (c.ksi == 7 || not (c.ksi == c.msg_ksi))) [
  | inl e ↦
      let (s, sent, last) =
        bind-some (send_auth_request c) (λ x. some (change_state State.common_procedure x)) d
          (ground (arith, e)) in
      ground (arith, send_auth_request-phase c s sent, last)
  | inr e ↦ absurd (ground (arith, e))
]

check_auth_information-phase :
    (c d : Ctx)
    → check_auth_information c ≡ some d
    → (phase_of d ≡ phase_of c)
      ⊎ (phase_of d ≡ Phase.phase State.common_procedure c.sci (generate_new_ksi c.ksi c.msg_ksi))
unfolding check_auth_information emit
check_auth_information-phase c d h = elim (Bool-cases (c.auth_quadrs_len == 0)) [
  | inl e ↦ inl (ground (arith, e))
  | inr e ↦ inr (check_sc_availability-phase c d (ground (arith, e)))
]

pub trigger_aka_procedure-Transition :
    (authentic : Bool) (c d : Ctx)
    → can_attach c.state ≡ true
    → trigger_aka_procedure c ≡ some d
    → Transition authentic (phase_of c) (phase_of d)
unfolding trigger_aka_procedure remove_current_sc change_state
trigger_aka_procedure-Transition authentic c d a h = elim (Bool-cases (c.imsi == 0)) [
  | inl e ↦
      let dropped : Ctx = remove_current_sc c in
      let (s, sent, last) =
        bind-some (send_identity_req dropped) (λ x. some (change_state State.common_procedure x)) d
          (ground (arith, e)) in
      let there : phase_of d ≡ Phase.phase State.common_procedure false 7 =
        ground (arith, send_identity_req-phase dropped s sent, last) in
      lands d there (Transition.identify a)
  | inr e ↦
      let dropped : Ctx = remove_current_sc c in
      let (s, made, last) =
        bind-some (new_guti dropped) check_auth_information d (ground (arith, e)) in
      let kept : phase_of s ≡ Phase.phase c.state false 7 = new_guti-phase dropped s made in
      elim (check_auth_information-phase s d last) [
        | inl waits ↦ lands d (waits ∙ kept) (Transition.await_vectors a)
        | inr asked ↦
            let no_sc : s.sci ≡ false = cc kept in
            let there : phase_of d
                ≡ Phase.phase State.common_procedure false (generate_new_ksi s.ksi s.msg_ksi) =
              asked ∙ rw no_sc refl in
            lands d there (Transition.renew a (generate_new_ksi_lem s.ksi s.msg_ksi).0)
      ]
]

process_attach-phase : (m : AttachRequest) (c : Ctx) → phase_of (process_attach m c) ≡ phase_of c
unfolding process_attach
process_attach-phase m c = ground (arith, Option-cases (opt_lookup m.optionals 17 0xf))

pub process_tau_req-phase : (m : TauRequest) (c : Ctx) → phase_of (process_tau_req m c) ≡ phase_of c
unfolding process_tau_req
process_tau_req-phase m c = ground (
  arith,
  Option-cases (opt_lookup m.optionals 22 0x58),
  Option-cases (opt_lookup m.optionals 22 0xf),
)

pub select_attach_lem :
    (k : Ctx → Option Ctx) (c d : Ctx)
    → select_attach k c ≡ some d
    → (phase_of d ≡ phase_of c) ⊎ ((e : Ctx) × (phase_of e ≡ phase_of c) × (k e ≡ some d))
unfolding select_attach
select_attach_lem k c d h = elim (Option-cases (attach_result_of c.msg_attach_type)) [
  | inl e ↦ inl (ground (arith, e))
  | inr (r, e) ↦ inr (record c { attach_result = r }, refl, ground (arith, e))
]

pub select_update_lem :
    (k : Ctx → Option Ctx) (c d : Ctx)
    → select_update k c ≡ some d
    → (phase_of d ≡ phase_of c) ⊎ ((e : Ctx) × (phase_of e ≡ phase_of c) × (k e ≡ some d))
unfolding select_update
select_update_lem k c d h = elim (Option-cases (update_result_of c.msg_update_type)) [
  | inl e ↦ inl (ground (arith, e))
  | inr (r, e) ↦ inr (record c { update_result = r }, refl, ground (arith, e))
]

-- The moves from a phase that another context has as well.
pub from_phase :
    (authentic : Bool) (c e d : Ctx)
    → phase_of e ≡ phase_of c
    → Transition authentic (phase_of e) (phase_of d)
    → Transition authentic (phase_of c) (phase_of d)
from_phase authentic c e d same t = subst (λ p. Transition authentic p (phase_of d)) same t

pub state_kept : (c e : Ctx) → phase_of e ≡ phase_of c → e.state ≡ c.state
state_kept c e same = cc same

pub can_attach_kept :
    (c e : Ctx) → phase_of e ≡ phase_of c → can_attach c.state ≡ true → can_attach e.state ≡ true
can_attach_kept c e same a = rw (state_kept c e same) a

pub sci_kept : (c e : Ctx) → phase_of e ≡ phase_of c → e.sci ≡ c.sci
sci_kept c e same = cc same

pub plain_attach-Transition :
    (authentic : Bool) (m : AttachRequest) (c d : Ctx)
    → can_attach c.state ≡ true
    → plain_attach m c ≡ some d
    → Transition authentic (phase_of c) (phase_of d)
unfolding plain_attach
plain_attach-Transition authentic m c d a h =
    let (t, tai, chosen) =
      bind-some (get_tai c) (λ x. select_attach trigger_aka_procedure (process_attach m x)) d h in
    let taken : phase_of (process_attach m t) ≡ phase_of c =
      process_attach-phase m t ∙ get_tai-phase c t tai in
    elim (select_attach_lem trigger_aka_procedure (process_attach m t) d chosen) [
      | inl kept ↦ lands d (kept ∙ taken) Transition.stay
      | inr (e, same, last) ↦ from_phase authentic c e d (same ∙ taken) (
          trigger_aka_procedure-Transition authentic e d (can_attach_kept c e (same ∙ taken) a)
            last)
    ]

start_attach-phase :
    (c d : Ctx)
    → start_attach c ≡ some d
    → phase_of d ≡ Phase.phase State.specific_procedure c.sci c.ksi
unfolding start_attach change_state note_count
start_attach-phase c d h = process_first_esm_msg-phase _ d h

-- What a state that takes an attach request, or an update, does with it: go on, if it is authentic,
-- or else authenticate.
pub go_on-Transition :
    (is_auth : Bool) (go : Ctx → Option Ctx) (c d : Ctx)
    → ((x y : Ctx) → go x ≡ some y → phase_of y ≡ Phase.phase State.specific_procedure x.sci x.ksi)
    → can_attach c.state ≡ true
    → (is_auth ≡ false) ⊎ (c.sci ≡ true)
    → (if is_auth then go c else trigger_aka_procedure c) ≡ some d
    → Transition is_auth (phase_of c) (phase_of d)
go_on-Transition true go c d leads a (inr sc) h =
    let there : phase_of d ≡ Phase.phase State.specific_procedure true c.ksi =
      leads c d h ∙ rw sc refl in
    let here : phase_of c ≡ Phase.phase c.state true c.ksi = rw sc refl in
    lands d there (departs c here (Transition.proceed a refl))
go_on-Transition true go c d leads a (inl never) h = absurd (cc never)
go_on-Transition false go c d leads a s h = trigger_aka_procedure-Transition false c d a h

pub has_context :
    (is_auth : Bool) (c e : Ctx)
    → phase_of e ≡ phase_of c
    → (is_auth ≡ false) ⊎ (c.sci ≡ true)
    → (is_auth ≡ false) ⊎ (e.sci ≡ true)
has_context is_auth c e kept s = elim s [
  | inl never ↦ inl never
  | inr sc ↦ inr (sci_kept c e kept ∙ sc)
]

pub secured_attach-Transition :
    (is_auth : Bool) (m : AttachRequest) (c d : Ctx)
    → can_attach c.state ≡ true
    → (is_auth ≡ false) ⊎ (c.sci ≡ true)
    → secured_attach is_auth m c ≡ some d
    → Transition is_auth (phase_of c) (phase_of d)
unfolding secured_attach
secured_attach-Transition is_auth m c d a s h =
    let go : Ctx → Option Ctx = λ e. if is_auth then start_attach e else trigger_aka_procedure e in
    let (t, tai, chosen) = bind-some (get_tai c) (λ x. select_attach go (process_attach m x)) d h in
    let taken : phase_of (process_attach m t) ≡ phase_of c =
      process_attach-phase m t ∙ get_tai-phase c t tai in
    elim (select_attach_lem go (process_attach m t) d chosen) [
      | inl kept ↦ lands d (kept ∙ taken) Transition.stay
      | inr (e, same, last) ↦ from_phase is_auth c e d (same ∙ taken) (
          go_on-Transition is_auth start_attach e d start_attach-phase
            (can_attach_kept c e (same ∙ taken) a) (has_context is_auth c e (same ∙ taken) s) last)
    ]

pub process_detach-phase :
    (m : DetachRequest) (c d : Ctx) → process_detach m c ≡ some d → phase_of d ≡ phase_of c
unfolding process_detach process_detach_req emit
process_detach-phase m c d h = ground (arith, Bool-cases (c.ksi == m.nas_key_set_id))

pub release_if-phase :
    (test : Bool) (c d : Ctx) → release_if test c ≡ some d → phase_of d ≡ phase_of c
unfolding release_if
release_if-phase true c d h = to_ecm-phase (Effect.released normal_release) c d h
release_if-phase false c d h = ground arith

-- The two timers of reachability leave the phase, or stop.
pub mobile_timeout-Transition :
    (authentic : Bool) (code : ℕ) (c : Ctx)
    → Transition authentic (phase_of c) (phase_of (mobile_timeout code c))
unfolding mobile_timeout set_timer stop_timer emm_stop change_state emit
mobile_timeout-Transition authentic code c = elim (Bool-cases (code == 20)) [
  | inl e ↦ rw e Transition.stay
  | inr e ↦ elim (Bool-cases (code == 21)) [
    | inl f ↦ rw (e, f) Transition.stop
    | inr f ↦ rw (e, f) Transition.stay
  ]
]
