-- ===== src/Emm/Runs.antt =====
-- The theorems on mme/S1/NAS at concrete users.
use aalto_mme.Prelude.{
  ℕ, ◌+◌, ◌%◌, get_or, ◌≡◌, refl, arith, true, false, none, some, List, [], ◌∷◌, Mem, write, store,
  replicate, read,
}
use aalto_mme.Nas.Count.{Direction, NasHandler, nas_count, check_count, received_count}
use aalto_mme.Nas.Security.{
  new_handler, authenticate_msg, authenticate_protected, security_header, discriminator, same, eia,
  octets, protected,
}
use aalto_mme.Nas.Decode.{EmmBody, Body, dec_esm, dec_nas, dec_emm, dec_sec_nas, is_auth_required}
use aalto_mme.Emm.Ctx.{
  State, Effect, AuthQuadruplet, Ctx, emm_init, add_auth_quadruplet, set_timer, stop_timer, emit,
  change_state, to_ecm, mobile_reachable, implicit_detach, t3460,
}
use aalto_mme.Emm.Send.{
  auth_request, next_ksi, generate_new_ksi, challenge, send, send_auth_request,
}
use aalto_mme.Emm.Procedures.{emm_stop, get_nh}
use aalto_mme.Emm.Requests.{id_type, imsi_of}
use aalto_mme.Emm.Uplink.{Uplink, Overlay, uplink, taken_for, message_type}
use aalto_mme.Emm.Machine.{Pdu, Event, handle, run, process_msg}
use aalto_mme.Emm.Phase.{phase_of}
use aalto_mme.Emm.Transition.{Transition, IsProtected, IsUnproven, HasKsi}
use aalto_mme.Emm.Protection.{
  authentic_event, authentic_in, handle-Transition, run-IsProtected, run-HasKsi, run-IsUnproven,
}
use aalto_mme.Emm.Laws.{
  process_msg-forged, run-unreachable, calls, node_key, nth_hop, AreKeys, get_nh-chain,
}
use aalto_mme.Emm.Identity.{spelled, imsi_identity, imsi_of-imsi_identity}

abbrev no_eia2 : List ℕ → List ℕ → ℕ → Direction → List ℕ → List ℕ
no_eia2 = λ key count bearer direction message. replicate 4 0

abbrev ones : List ℕ → List ℕ → List ℕ
ones = λ key message. replicate 32 1

abbrev blank : Mem ℕ
blank = λ a. 0

-- What is found in the memory of a session management message.
abbrev read_back : Body → Overlay
read_back = λ b. record {
  attach_request = record {
    eps_attach_type = 1;
    nas_key_set_id = 7;
    eps_mobile_id = [];
    ue_network_capability = [];
    esm_message_container = [];
    optionals = [];
  };
  attach_complete = [];
  detach_request = record { detach_type = 1; nas_key_set_id = 7; eps_mobile_id = [] };
  tau_request = record { eps_update_type = 0; nas_key_set_id = 7; old_guti = []; optionals = [] };
  authentication_response = [];
  authentication_failure = record { emm_cause = 0; optionals = [] };
  identity_response = [];
}

abbrev user : Ctx
user =
    emm_init (record { sn = 0x42 ∷ 0xf4 ∷ 0x50 ∷ []; tac = 0 ∷ 1 ∷ []; next_guti = replicate 10 1 })

abbrev vector : AuthQuadruplet
vector = record {
  rand = replicate 16 1;
  xres = replicate 8 2;
  autn = replicate 16 3;
  kasme = replicate 32 4;
}

abbrev known : Ctx
known = add_auth_quadruplet vector user

abbrev challenged : Ctx
challenged = change_state State.common_procedure (
    set_timer t3460 (auth_request 2 vector)
      (emit (Effect.sent (auth_request 2 vector)) (record known { ksi = 2 })))

handle-Transition_example :
    Transition
      (authentic_event no_eia2 ones 0 blank [] read_back Event.auth_info_available known)
      (phase_of known)
      (phase_of challenged)
unfolding handle send_auth_request challenge send to_ecm generate_new_ksi next_ksi
    add_auth_quadruplet emit set_timer change_state
handle-Transition_example =
    handle-Transition no_eia2 ones 0 blank [] read_back Event.auth_info_available known challenged
      refl

abbrev procedure : List Event
procedure = Event.auth_quadruplet vector ∷ Event.auth_info_available ∷ Event.synch_error ∷ []

run-IsProtected_example : IsProtected (phase_of (emm_stop challenged))
unfolding run handle send_auth_request challenge send to_ecm generate_new_ksi next_ksi
    add_auth_quadruplet emit set_timer change_state
run-IsProtected_example =
    run-IsProtected no_eia2 ones 0 blank [] read_back procedure user (emm_stop challenged)
      IsProtected.idle refl

run-HasKsi_example : HasKsi (phase_of (emm_stop challenged))
unfolding run handle send_auth_request challenge send to_ecm generate_new_ksi next_ksi
    add_auth_quadruplet emit set_timer change_state
run-HasKsi_example =
    run-HasKsi no_eia2 ones 0 blank [] read_back procedure user (emm_stop challenged)
      (HasKsi.ksi (omega arith) (omega arith)) refl

run-IsUnproven_example : IsUnproven (phase_of (emm_stop challenged))
unfolding run handle send_auth_request challenge send to_ecm generate_new_ksi next_ksi
    add_auth_quadruplet emit set_timer change_state authentic_in authentic_event
run-IsUnproven_example =
    run-IsUnproven no_eia2 ones 0 blank [] read_back procedure user (emm_stop challenged)
      IsUnproven.idle refl refl

-- TRACKING AREA UPDATE COMPLETE with a wrong authentication code.
abbrev forged : Pdu
forged = record { mem = write blank 0 (0x17 ∷ 1 ∷ 2 ∷ 3 ∷ 4 ∷ 0 ∷ 0x07 ∷ 0x4a ∷ []); len = 8 }

abbrev keyed : NasHandler
keyed = record new_handler { is_valid = true; i = 2 }

abbrev protected_user : Ctx
protected_user = record user { state = State.specific_procedure; sci = true; parser = keyed }

process_msg-forged_example :
    process_msg no_eia2 ones 0 blank [] read_back forged protected_user
    ≡ some (stop_timer mobile_reachable protected_user)
unfolding authenticate_msg authenticate_protected security_header protected check_count nas_count
    received_count eia octets read write store same dec_sec_nas dec_nas discriminator dec_emm
    message_type is_auth_required
process_msg-forged_example =
    process_msg-forged no_eia2 ones 0 blank [] read_back forged protected_user
      (record { handler = keyed; is_auth = false; ret = 1 })
      (record {
        header_discriminator = 7;
        header_security = 0;
        body = Body.emm 0x4a EmmBody.undecoded;
      })
      refl (omega arith) (omega arith) (omega arith) refl (omega arith) refl refl refl

abbrev away : Ctx
away = set_timer mobile_reachable [] (record user { state = State.registered })

run-unreachable_example :
    (d : Ctx) × (run no_eia2 ones 0 blank [] read_back
        (Event.timeout mobile_reachable ∷ Event.timeout implicit_detach ∷ [])
        away
      ≡ some d)
    × (d.state ≡ State.deregistered)
    × (d.active_timers mobile_reachable ≡ none)
    × (d.active_timers implicit_detach ≡ none)
unfolding set_timer store
run-unreachable_example = run-unreachable no_eia2 ones 0 blank [] read_back away [] refl refl

-- A key that depends on the third octet of the message.
abbrev mixed : List ℕ → List ℕ → List ℕ
mixed = λ key message. 1 ∷ (get_or message 2 0 + 7) % 256 ∷ replicate 30 5

get_nh-chain_example :
    (get_nh mixed (calls mixed 11 user)).1
    ≡ (nth_hop mixed user.kasme (node_key mixed user.kasme user.nas_ul_count) 11, 3)
unfolding same AreKeys nth_hop
get_nh-chain_example = get_nh-chain mixed user 11 refl (λ j small. refl)

-- Fifteen digits.
abbrev digits : List ℕ
digits = 4 ∷ 4 ∷ 1 ∷ 2 ∷ 1 ∷ 2 ∷ 3 ∷ 4 ∷ 5 ∷ 6 ∷ 7 ∷ 8 ∷ 9 ∷ 0 ∷ []

imsi_of-imsi_identity_example :
    (id_type (imsi_identity 2 digits) ≡ 1) × (imsi_of (imsi_identity 2 digits) ≡ spelled 2 digits)
unfolding spelled
imsi_of-imsi_identity_example =
    imsi_of-imsi_identity 2 digits (omega arith) (ground arith) (omega arith)

-- A plain session management message whose transaction identity is 0x5c.
esm_runs :
    uplink read_back (dec_nas (write blank 0 (2 ∷ 0x5c ∷ 0 ∷ [])) 0 3).0.body
    ≡ Uplink.authentication_failure (record { emm_cause = 0; optionals = [] })
unfolding uplink taken_for dec_nas dec_esm security_header write store
esm_runs = refl
