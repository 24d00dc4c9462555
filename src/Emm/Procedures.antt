-- ===== src/Emm/Procedures.antt =====
-- mme/S1/NAS/NAS_EMM.c: the procedures that several states share.
use aalto_mme.Prelude.{
  ℕ, ◌+◌, ◌%◌, Bool, false, ◌||◌, not, Option, none, some, List, [], ◌∷◌, ◌++◌, length, replicate,
  ◌==◌, if◌then◌else◌, bit_and,
}
use aalto_mme.Nas.Security.{octets, same}
use aalto_mme.Nas.Decode.{NasMessage, dec_nas}
use aalto_mme.Emm.Ctx.{
  State, Effect, Ecm, Ctx, ◌>>=◌, t3413, t3422, t3450, t3460, t3470, mobile_reachable,
  implicit_detach, emit, change_state, set_timer, stop_timer, new_guti,
  remove_first_auth_quadruplet, normal_release,
}
use aalto_mme.Emm.Send.{at_zero, send_identity_req, send_auth_request}

-- `emm_registerECM`: the session before is released.
unfoldable pub register_ecm : Ecm → Ctx → Ctx
register_ecm e c =
    let d : Ctx = elim c.ecm [
      | none ↦ c
      | some session ↦ emit (Effect.released normal_release) c
    ] in
    record d { ecm = some e }

unfoldable pub emm_stop : Ctx → Ctx
emm_stop c = change_state State.deregistered (
    stop_timer implicit_detach (
      stop_timer mobile_reachable (
        stop_timer t3470 (
          stop_timer t3460
            (stop_timer t3450 (stop_timer t3422 (stop_timer t3413 (emit Effect.esm_error c))))))))

-- `emm_deregister`: the ECM session is gone.
unfoldable pub emm_deregister : Ctx → Ctx
emm_deregister c =
    let d : Ctx = elim c.state [ State.deregistered ↦ c | _ ↦ set_timer mobile_reachable [] c ] in
    record d { nh = replicate 32 0; ncc = 0; old_nh = replicate 32 0; old_ncc = 0; ecm = none }

-- `emm_removeCurrentSC`.
unfoldable pub remove_current_sc : Ctx → Ctx
remove_current_sc c = record c {
  old_ksi = c.ksi;
  ksi = 7;
  sci = false;
  ncc = 0;
  old_ncc = 0;
  nh = replicate 32 0;
  old_nh = replicate 32 0;
  nas_ul_count = 0;
}

-- `emm_checkSCAvailability` and what its caller does with the answer: without a request of
-- authentication it is an abort.
unfoldable pub check_sc_availability : Ctx → Option Ctx
check_sc_availability c =
    if c.ksi == 7 || not (c.ksi == c.msg_ksi)
    then (send_auth_request c >>= λ d. some (change_state State.common_procedure d))
    else none

-- `emm_checkAuthInformation`; `!emm->authQuadrsLen>0` compares the negation.
unfoldable pub check_auth_information : Ctx → Option Ctx
check_auth_information c =
    if c.auth_quadrs_len == 0
    then some (emit Effect.auth_information c)
    else check_sc_availability c

-- `emm_triggerAKAprocedure`, with `emm_checkIdentity`.
unfoldable pub trigger_aka_procedure : Ctx → Option Ctx
trigger_aka_procedure c =
    let d : Ctx = remove_current_sc c in
    if d.imsi == 0
    then (send_identity_req d >>= λ e. some (change_state State.common_procedure e))
    else new_guti d >>= check_auth_information

-- `emm_selectAttachType`: the result that the type asks for.
unfoldable pub attach_result_of : ℕ → Option ℕ
attach_result_of type =
    if type == 2 then some 2 else if type == 4 || type == 7 then none else some 1

-- `emm_selectUpdateType`.
unfoldable pub update_result_of : ℕ → Option ℕ
update_result_of type =
    if type == 0 || type == 4 || type == 5
    then some 0
    else if type == 1 || type == 2
    then some 1
    else if type == 3
    then some 0
    else none

-- `emm_processFirstESMmsg`: without a pending message the array has none to decode.
unfoldable pub process_first_esm_msg : Ctx → Option Ctx
process_first_esm_msg c = elim c.pending_esm [
  | [] ↦ none
  | raw ∷ rest ↦
      let m : NasMessage = (dec_nas (at_zero raw) 0 (length raw)).0 in
      some (record (emit (Effect.esm_message m.body) c) { pending_esm = rest })
]

-- `emm_setSecurityQuadruplet`.
unfoldable pub set_security_quadruplet : Ctx → Option Ctx
set_security_quadruplet c = elim c.auth_quadrs [
  | [] ↦ none
  | q ∷ qs ↦ some (remove_first_auth_quadruplet (record c { old_kasme = c.kasme; kasme = q.kasme }))
]

-- `hmac key message` is HMAC-SHA256, 32 octets.
module _ (hmac : List ℕ → List ℕ → List ℕ) where
  -- `emm_getKeNB`, with `generate_KeNB`.
  unfoldable pub get_kenb : Ctx → List ℕ
  get_kenb c = hmac c.kasme (0x11 ∷ (octets c.nas_ul_count ++ (0x00 ∷ 0x04 ∷ [])))

  -- The next hop behind one.
  unfoldable pub hop : List ℕ → List ℕ → List ℕ
  hop kasme before = hmac kasme (0x12 ∷ (before ++ (0x00 ∷ 0x20 ∷ [])))

  -- `emm_getNH`: the context, `nh` and `*ncc`. The counter is a guint8.
  unfoldable pub get_nh : Ctx → Ctx × (List ℕ × ℕ)
  get_nh c =
      let first : Bool = same c.nh (replicate 32 0) in
      let d : Ctx =
        if first
        then record c { old_nh = get_kenb c; old_ncc = 0; ncc = 0 }
        else record c { old_nh = c.nh; old_ncc = c.ncc } in
      let e : Ctx = record d { nh = hop d.kasme d.old_nh; ncc = (d.ncc + 1) % 256 } in
      (e, (e.old_nh, bit_and e.old_ncc 7))
