-- ===== src/S1/Session.antt =====
-- mme/S1/ECMSession.c, ECMSession_Idle.c and ECMSession_Connected.c: the connection of one user to
-- an eNodeB. What the session calls and sends is a list, the last one last; the use of a null
-- pointer is `none`.
use aalto_mme.Prelude.{
  ℕ, Bool, true, false, ◌&&◌, ◌||◌, Option, none, some, List, [], ◌∷◌, ◌==◌, if◌then◌else◌,
}
use aalto_mme.S1ap.Message.{
  Value, Cause, Message, find, get_ie, as_ue_id, as_octets, as_tai, as_cause, new_msg,
  set_value_on_new_ie,
}

-- `TriggeringMessage_e`.
abbrev pub initiating_message : ℕ
initiating_message = 0

abbrev pub successful_outcome : ℕ
successful_outcome = 1

abbrev pub unsuccessful_outcome : ℕ
unsuccessful_outcome = 2

-- Of `ProcedureCode_e`.
abbrev pub id_path_switch_request : ℕ
id_path_switch_request = 3

abbrev pub id_initial_context_setup : ℕ
id_initial_context_setup = 9

abbrev pub id_downlink_nas_transport : ℕ
id_downlink_nas_transport = 11

abbrev pub id_initial_ue_message : ℕ
id_initial_ue_message = 12

abbrev pub id_uplink_nas_transport : ℕ
id_uplink_nas_transport = 13

abbrev pub id_ue_context_release_request : ℕ
id_ue_context_release_request = 18

abbrev pub id_ue_context_release : ℕ
id_ue_context_release = 23

-- Of `IEs_c`.
abbrev pub id_mme_ue_s1ap_id : ℕ
id_mme_ue_s1ap_id = 0

abbrev pub id_cause : ℕ
id_cause = 2

abbrev pub id_enb_ue_s1ap_id : ℕ
id_enb_ue_s1ap_id = 8

abbrev pub id_nas_pdu : ℕ
id_nas_pdu = 26

abbrev pub id_e_rab_setup_list_ctxt_su_res : ℕ
id_e_rab_setup_list_ctxt_su_res = 51

abbrev pub id_tai : ℕ
id_tai = 67

abbrev pub id_s_tmsi : ℕ
id_s_tmsi = 96

abbrev pub id_ue_s1ap_ids : ℕ
id_ue_s1ap_ids = 99

abbrev pub id_eutran_cgi : ℕ
id_eutran_cgi = 100

-- `Presence_e` and `Criticality_e`.
abbrev pub optional : ℕ
optional = 0

abbrev pub mandatory : ℕ
mandatory = 2

abbrev pub reject : ℕ
reject = 0

abbrev pub ignore : ℕ
ignore = 1

pub data EcmState : Type 0 where
  idle connected : EcmState

-- `ECMSession_t`. `assoc` is the file descriptor of the association, `emm` the context of the user,
-- where there is one.
pub record Session : Type 0 where
  pub assoc : ℕ
  pub emm : Option ℕ
  pub state : EcmState
  pub l_sid : ℕ
  pub r_sid_valid : Bool
  pub r_sid : ℕ
  pub mme_ue_id : ℕ
  pub enb_ue_id : ℕ
  pub sn : List ℕ
  pub tac : List ℕ
  pub cell_id : ℕ
  pub cause_release : Option Cause

-- What leaves a session or an association: calls of the EMM, for a context, and messages on a
-- stream of an association.
pub data Effect : Type 0 where
  emm_init : ℕ → ℕ → Effect
  emm_register_ecm : ℕ → ℕ → Effect
  emm_process_msg : ℕ → List ℕ → Effect
  emm_modify_e_rab_list : ℕ → Option Value → Bool → Effect
  emm_ue_context_release_req : ℕ → Effect
  emm_stop : ℕ → Effect
  emm_deregister : ℕ → Effect
  send : ℕ → ℕ → Message → Effect

-- The users of the EMM as a new connection finds them: the tables of the MME by M-TMSI and by IMSI,
-- what `emm_getGUTIfromMsg` and `emm_getIMSIfromAttach` read in a message, and a new context.
pub record Users : Type 0 where
  pub by_tmsi : ℕ → Option ℕ
  pub by_imsi : ℕ → Option ℕ
  pub guti_from_msg : List ℕ → ℕ
  pub imsi_from_attach : List ℕ → ℕ
  pub new_context : ℕ

-- `mme_GUMMEI_IsLocal` is true.
unfoldable pub lookup_user : Users → Option ℕ → List ℕ → Option ℕ
lookup_user u (some tmsi) nas = u.by_tmsi tmsi
lookup_user u none nas =
    if u.guti_from_msg nas == 0
    then u.by_imsi (u.imsi_from_attach nas)
    else u.by_tmsi (u.guti_from_msg nas)

unfoldable pub is_procedure : Message → ℕ → ℕ → Bool
is_procedure m procedure choice = m.procedure_code == procedure && m.choice == choice

-- The user is attached to the session: the context that was found, or a new one.
unfoldable pub attach_user : Users → Session → Option ℕ → List ℕ → Session × List Effect
attach_user u s (some emm) nas = (
  record s { emm = some emm; state = EcmState.connected },
  Effect.emm_register_ecm emm s.mme_ue_id ∷ Effect.emm_process_msg emm nas ∷ [],
)
attach_user u s none nas = (
  record s { emm = some u.new_context; state = EcmState.connected },
  Effect.emm_init u.new_context s.mme_ue_id ∷ Effect.emm_process_msg u.new_context nas ∷ [],
)

-- An INITIAL UE MESSAGE with its elements.
unfoldable pub connect :
    Users → Session → Message → ℕ → ℕ → List ℕ → List ℕ × List ℕ → Session × List Effect
unfolding attach_user lookup_user find
connect u s m r_sid enb nas area =
    let located : Session = record s {
      enb_ue_id = enb;
      sn = area.0;
      tac = area.1;
      l_sid = 1;
      r_sid_valid = if r_sid == 0 then s.r_sid_valid else true;
      r_sid = if r_sid == 0 then s.r_sid else r_sid;
    } in
    attach_user u located (lookup_user u (find as_ue_id m id_s_tmsi) nas) nas

-- `ecm_processMsg` of the idle state.
unfoldable pub idle_process_msg : Users → Session → Message → ℕ → Option (Session × List Effect)
unfolding is_procedure find connect
idle_process_msg u s m r_sid =
    if is_procedure m id_initial_ue_message initiating_message
    then elim (find as_ue_id m id_enb_ue_s1ap_id) [
      | none ↦ none
      | some enb ↦ elim (find as_octets m id_nas_pdu) [
        | none ↦ none
        | some nas ↦ elim (find as_tai m id_tai) [
          | none ↦ none
          | some area ↦ some (connect u s m r_sid enb nas area)
        ]
      ]
    ]
    else some (s, [])

-- What a connected session makes of a message: the session, what left it, and whether it is
-- released.
pub record Outcome : Type 0 where
  pub session : Session
  pub effects : List Effect
  pub released : Bool

abbrev pub kept : Session → List Effect → Outcome
kept s fx = record { session = s; effects = fx; released = false }

-- A call of the EMM through `ecm->emm`.
unfoldable pub call_emm : Session → (ℕ → Effect) → Option Outcome
call_emm s call = elim s.emm [ none ↦ none | some emm ↦ some (kept s (call emm ∷ [])) ]

-- The pair of identities in a message against that of the session; a missing one is the use of a
-- null pointer, but the one of the MME only where the other fits.
unfoldable pub has_ids : Session → Message → Option Bool
unfolding find
has_ids s m = elim (find as_ue_id m id_enb_ue_s1ap_id) [
  | none ↦ none
  | some enb ↦
      if enb == s.enb_ue_id
      then elim (find as_ue_id m id_mme_ue_s1ap_id) [
        | none ↦ none
        | some mme ↦ some (mme == s.mme_ue_id)
      ]
      else some false
]

unfoldable pub context_setup_response : Session → Message → Option Outcome
unfolding has_ids call_emm
context_setup_response s m = elim (has_ids s m) [
  | none ↦ none
  | some false ↦ some (kept s [])
  | some true ↦ call_emm s (λ emm.
      Effect.emm_modify_e_rab_list emm (find (λ v. some v) m id_e_rab_setup_list_ctxt_su_res) false)
]

unfoldable pub uplink_nas : Session → Message → Option Outcome
unfolding has_ids call_emm find
uplink_nas s m = elim (has_ids s m) [
  | none ↦ none
  | some false ↦ some (kept s [])
  | some true ↦ elim (find as_octets m id_nas_pdu) [
    | none ↦ none
    | some nas ↦ call_emm s (λ emm. Effect.emm_process_msg emm nas)
  ]
]

-- `ecm_UEContextRelease`; `s1ap_getIe` takes the cause out of the message.
unfoldable pub ue_context_release : Session → Message → Option Outcome
unfolding call_emm
ue_context_release s m =
    let c : Option Cause = elim (get_ie m.ies id_cause) [ none ↦ none | some r ↦ as_cause r.0 ] in
    call_emm (record s { cause_release = c }) Effect.emm_ue_context_release_req

-- The procedures of a connected session; the others are logged only.
unfoldable pub connected_procedure : Session → Message → Option Outcome
unfolding is_procedure context_setup_response uplink_nas ue_context_release
connected_procedure s m =
    if is_procedure m id_ue_context_release successful_outcome
    then some
        (record { session = record s { cause_release = none }; effects = []; released = true })
    else if is_procedure m id_initial_context_setup successful_outcome
    then context_setup_response s m
    else if is_procedure m id_uplink_nas_transport initiating_message
    then uplink_nas s m
    else if is_procedure m id_ue_context_release_request initiating_message
    then ue_context_release s m
    else some (kept s [])

-- `processMsg` of the connected state: the first message fixes the stream.
unfoldable pub connected_process_msg : Session → Message → ℕ → Option Outcome
unfolding connected_procedure
connected_process_msg s m r_sid =
    if s.r_sid_valid
    then if r_sid == s.r_sid then connected_procedure s m else some (kept s [])
    else connected_procedure (record s { r_sid = r_sid; r_sid_valid = true }) m

-- `ecmSession_processMsg`.
unfoldable pub session_process_msg : Users → Session → Message → ℕ → Option Outcome
unfolding idle_process_msg connected_process_msg
session_process_msg u s m r_sid = elim s.state [
  | idle ↦ elim (idle_process_msg u s m r_sid) [ none ↦ none | some r ↦ some (kept r.0 r.1) ]
  | connected ↦ connected_process_msg s m r_sid
]

-- A message with the two identities in front.
unfoldable pub ue_message : Session → ℕ → ℕ → ℕ → Message
unfolding set_value_on_new_ie new_msg
ue_message s procedure criticality c =
    set_value_on_new_ie
      (set_value_on_new_ie (new_msg initiating_message procedure criticality) id_mme_ue_s1ap_id
        mandatory c (Value.ue_id s.mme_ue_id))
      id_enb_ue_s1ap_id mandatory c (Value.ue_id s.enb_ue_id)

-- `ecm_send`.
unfoldable pub ecm_send : Session → List ℕ → Effect
unfolding ue_message
ecm_send s msg = Effect.send s.assoc s.l_sid (
    set_value_on_new_ie (ue_message s id_downlink_nas_transport ignore reject) id_nas_pdu mandatory
      reject (Value.octets msg))

-- The UE CONTEXT RELEASE COMMAND with a cause.
unfoldable pub release_command : Session → Cause → Effect
unfolding set_value_on_new_ie new_msg
release_command s c = Effect.send s.assoc s.l_sid (
    set_value_on_new_ie
      (set_value_on_new_ie (new_msg initiating_message id_ue_context_release reject) id_ue_s1ap_ids
        mandatory reject (Value.ue_id_pair s.enb_ue_id s.mme_ue_id))
      id_cause mandatory ignore (Value.cause c))

-- `release` of the two states. Only of CauseRadioNetwork (0) and CauseNas (2) is the number set.
unfoldable pub release : Session → Cause → List Effect
unfolding release_command
release s c = elim s.state [
  | idle ↦ []
  | connected ↦
      release_command s (record {
        choice = c.choice;
        value = if c.choice == 0 || c.choice == 2 then c.value else 0;
      })
      ∷ []
]

-- `sendUEContextReleaseCommand`, which the EMM calls back.
unfoldable pub send_ue_context_release_command : Session → Option Effect
unfolding release_command
send_ue_context_release_command s = elim s.cause_release [
  | none ↦ none
  | some c ↦ some (release_command s c)
]
