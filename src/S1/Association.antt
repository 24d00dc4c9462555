-- ===== src/S1/Association.antt =====
-- mme/S1/S1Assoc.c, S1Assoc_NotConfigured.c, S1Assoc_Active.c and `ecmSession_pathSwitchReq` of
-- ECMSession.c: what an association makes of a message. A step is `none` where the code uses a null
-- pointer or a session that was freed.
use aalto_mme.Prelude.{
  ℕ, ◌*◌, ◌%◌, Bool, true, false, ◌&&◌, ◌||◌, not, Option, none, some, List, [], ◌∷◌, ◌==◌,
  if◌then◌else◌, store,
}
use aalto_mme.Nas.Security.{same}
use aalto_mme.S1ap.Message.{
  Value, Cause, SupportedTa, GlobalEnbId, Message, find, get_ie, as_ue_id, as_octets, as_tai,
  as_number, as_global_enb_id, as_supported_tas, new_msg, set_value_on_new_ie,
}
use aalto_mme.S1.Session.{
  Session, Effect, Users, Outcome, initiating_message, successful_outcome, unsuccessful_outcome,
  id_mme_ue_s1ap_id, id_cause, id_enb_ue_s1ap_id, id_tai, id_eutran_cgi, optional, mandatory,
  reject, ignore, session_process_msg,
}
use aalto_mme.S1.Store.{
  AssocState, MmeGlobalEnbId, Assoc, Mme, ◌>>=◌, emit, lookup_entry, set_session, register_in_assoc,
  deregister_in_assoc, release_session,
}

abbrev pub id_reset : ℕ
id_reset = 14

abbrev pub id_s1_setup : ℕ
id_s1_setup = 17

abbrev pub id_e_rab_to_be_switched_dl_list : ℕ
id_e_rab_to_be_switched_dl_list = 22

abbrev pub id_global_enb_id : ℕ
id_global_enb_id = 59

abbrev pub id_enb_name : ℕ
id_enb_name = 60

abbrev pub id_mme_name : ℕ
id_mme_name = 61

abbrev pub id_supported_tas : ℕ
id_supported_tas = 64

abbrev pub id_relative_mme_capacity : ℕ
id_relative_mme_capacity = 87

abbrev pub id_source_mme_ue_s1ap_id : ℕ
id_source_mme_ue_s1ap_id = 88

abbrev pub id_reset_type : ℕ
id_reset_type = 92

abbrev pub id_connection_list_res_ack : ℕ
id_connection_list_res_ack = 93

abbrev pub id_served_gummeis : ℕ
id_served_gummeis = 105

-- `CauseMisc` and `CauseMisc_unknown_PLMN`.
abbrev pub unknown_plmn : Cause
unknown_plmn = record { choice = 4; value = 5 }

-- The configuration of the MME: its name and capacity, and the networks of each of its GUMMEIs.
pub record Config : Type 0 where
  pub name : Option (List ℕ)
  pub served_plmns : List (List (List ℕ))
  pub capacity : ℕ
  pub max_ue : ℕ

unfoldable pub set_assoc : Mme → ℕ → Option Assoc → Mme
unfolding store
set_assoc m fd a = record m { assocs = store m.assocs fd a }

unfoldable pub is_served : List (List ℕ) → List ℕ → Bool
is_served [] p = false
is_served (q ∷ qs) p = same q p || is_served qs p

unfoldable pub is_served_by_any : List (List (List ℕ)) → List ℕ → Bool
unfolding is_served
is_served_by_any [] p = false
is_served_by_any (s ∷ ss) p = is_served s p || is_served_by_any ss p

unfoldable pub any_served : List (List (List ℕ)) → List (List ℕ) → Bool
unfolding is_served_by_any
any_served served [] = false
any_served served (p ∷ ps) = is_served_by_any served p || any_served served ps

-- `mme_containsSupportedTAs`.
unfoldable pub contains_supported_tas : List (List (List ℕ)) → List SupportedTa → Bool
unfolding any_served
contains_supported_tas served [] = false
contains_supported_tas served (t ∷ ts) =
    any_served served t.plmns || contains_supported_tas served ts

-- `globaleNBID_Fill`, of MMEutils.c, into a field of 28 bits.
unfoldable pub globale_nbid_fill : GlobalEnbId → MmeGlobalEnbId
globale_nbid_fill g =
    if g.choice == 0
    then record { plmn = g.plmn; macro_id = true; enb_id = g.enb_id * 16 % 268435456 }
    else record { plmn = g.plmn; macro_id = false; enb_id = g.enb_id * 4096 % 268435456 }

unfoldable pub same_flag : Bool → Bool → Bool
same_flag true b = b
same_flag false b = not b

-- `globaleNBID_Equal`.
unfoldable pub globale_nbid_equal : MmeGlobalEnbId → MmeGlobalEnbId → Bool
unfolding same_flag
globale_nbid_equal a b =
    same a.plmn b.plmn && same_flag a.macro_id b.macro_id && a.enb_id == b.enb_id

-- `mme_registerS1Assoc`.
unfoldable pub register_assoc :
    List (MmeGlobalEnbId × ℕ) → MmeGlobalEnbId → ℕ → List (MmeGlobalEnbId × ℕ)
unfolding globale_nbid_equal
register_assoc [] g fd = (g, fd) ∷ []
register_assoc ((h, x) ∷ rest) g fd =
    let further = register_assoc rest g fd in
    if globale_nbid_equal h g then (h, fd) ∷ rest else (h, x) ∷ further

-- `mme_deregisterS1Assoc`.
unfoldable pub deregister_assoc :
    List (MmeGlobalEnbId × ℕ) → MmeGlobalEnbId → List (MmeGlobalEnbId × ℕ)
unfolding globale_nbid_equal
deregister_assoc [] g = []
deregister_assoc ((h, x) ∷ rest) g =
    let further = deregister_assoc rest g in
    if globale_nbid_equal h g then rest else (h, x) ∷ further

-- `s1Assoc_sendNonUE`.
unfoldable pub send_non_ue : Mme → ℕ → Assoc → Message → Mme
unfolding emit
send_non_ue m fd a msg = emit m (Effect.send fd a.nonue_rsid msg ∷ [])

-- `sendS1SetupResponse`; the served GUMMEIs are not read here.
unfoldable pub setup_response : Config → Message
unfolding new_msg set_value_on_new_ie
setup_response c =
    let msg : Message = new_msg successful_outcome id_s1_setup reject in
    let named : Message = elim c.name [
      | none ↦ msg
      | some name ↦ set_value_on_new_ie msg id_mme_name optional ignore (Value.octets name)
    ] in
    set_value_on_new_ie (set_value_on_new_ie named id_served_gummeis optional reject Value.unread)
      id_relative_mme_capacity optional ignore (Value.number c.capacity)

-- `sendS1SetupReject_UnknownPLMN`.
unfoldable pub setup_reject : Message
unfolding new_msg set_value_on_new_ie
setup_reject =
    set_value_on_new_ie (new_msg unsuccessful_outcome id_s1_setup reject) id_cause mandatory reject
      (Value.cause unknown_plmn)

-- A setup request with both of its elements. The flag is the error of an unknown network.
unfoldable pub configure : Config → Mme → ℕ → Assoc → MmeGlobalEnbId → List SupportedTa → Mme × Bool
unfolding set_assoc register_assoc send_non_ue contains_supported_tas
configure c m fd a g tas =
    let n : Mme =
      set_assoc (record m { by_genbid = register_assoc m.by_genbid g fd }) fd
        (some (
          if contains_supported_tas c.served_plmns tas
          then record a { state = AssocState.active }
          else a)) in
    if contains_supported_tas c.served_plmns tas
    then (send_non_ue n fd a (setup_response c), false)
    else (send_non_ue n fd a setup_reject, true)

-- What an association keeps of a setup request.
unfoldable pub note_request : Assoc → Message → MmeGlobalEnbId → Option (List SupportedTa) → Assoc
unfolding find
note_request a msg g tas = record a {
  enb_name = elim (find as_octets msg id_enb_name) [ none ↦ a.enb_name | some name ↦ name ];
  global_enb_id = g;
  supported_tas = tas;
}

-- `processMsg` of an association that is not configured. The test refuses a message only if it is
-- neither of the procedure nor an initiating one.
unfoldable pub not_configured_process_msg :
    Config → Mme → ℕ → Assoc → Message → ℕ → Option (Mme × Bool)
unfolding find configure set_assoc globale_nbid_fill note_request
not_configured_process_msg c m fd a msg r_sid =
    let streamed : Assoc = record a { nonue_rsid = r_sid } in
    if not (msg.procedure_code == id_s1_setup) && not (msg.choice == initiating_message)
    then some (set_assoc m fd (some streamed), false)
    else elim (find as_global_enb_id msg id_global_enb_id) [
      | none ↦ none
      | some g ↦
          let tas : Option (List SupportedTa) = elim (get_ie msg.ies id_supported_tas) [
            | none ↦ none
            | some r ↦ as_supported_tas r.0
          ] in
          let named : Assoc = note_request streamed msg (globale_nbid_fill g) tas in
          elim tas [
            | none ↦ some (set_assoc m fd (some named), false)
            | some t ↦ some (configure c m fd named (globale_nbid_fill g) t)
          ]
    ]

-- What became of a session under a message.
unfoldable pub store_outcome : Mme → Outcome → Option Mme
unfolding emit set_session release_session
store_outcome m o =
    let n : Mme = set_session (emit m o.effects) o.session.mme_ue_id (some o.session) in
    if o.released then release_session n o.session else some n

-- A message of a user, for the session that the identity of the eNodeB leads to, if the identity of
-- the MME is that of the session.
unfoldable pub ue_associated : Users → Mme → ℕ → Message → ℕ → Option Mme
unfolding find lookup_entry session_process_msg store_outcome
ue_associated u m fd msg r_sid = elim (find as_ue_id msg id_enb_ue_s1ap_id) [
  | none ↦ none
  | some enb ↦ elim (lookup_entry m fd enb) [
    | none ↦ none
    | some none ↦ some m
    | some (some e) ↦ elim (m.sessions e.value) [
      | none ↦ none
      | some s ↦ elim (find as_ue_id msg id_mme_ue_s1ap_id) [
        | none ↦ none
        | some mme ↦
            if mme == s.mme_ue_id
            then session_process_msg u s msg r_sid >>= store_outcome m
            else some m
      ]
    ]
  ]
]

-- The end of `ecmSession_pathSwitchReq`: the cell, and the bearers for the EMM.
unfoldable pub finish_switch : Mme → Session → Message → Option Mme
unfolding find set_session emit
finish_switch m s msg = elim (find as_number msg id_eutran_cgi) [
  | none ↦ none
  | some cell ↦ elim s.emm [
    | none ↦ none
    | some emm ↦ some (
        emit (set_session m s.mme_ue_id (some (record s { cell_id = cell }))) (
          Effect.emm_modify_e_rab_list emm (find (λ v. some v) msg id_e_rab_to_be_switched_dl_list)
            true
          ∷ []))
  ]
]

-- `ecmSession_pathSwitchReq`, once the identity of the eNodeB and the area are found. The answer is
-- sent when the EMM calls back.
unfoldable pub path_switch : Mme → Session → ℕ → Message → ℕ → ℕ → List ℕ × List ℕ → Option Mme
unfolding deregister_in_assoc register_in_assoc set_session finish_switch
path_switch m s fd msg r_sid enb area =
    let moved : Session = record s {
      assoc = fd;
      r_sid = r_sid;
      enb_ue_id = enb;
      sn = area.0;
      tac = area.1;
    } in
    deregister_in_assoc m s.assoc s.enb_ue_id >>= λ n.
    register_in_assoc (set_session n s.mme_ue_id (some moved)) fd moved >>= λ o.
    finish_switch o moved msg

-- A PATH SWITCH REQUEST, on any stream; without a session of the source identity a null pointer is
-- used.
unfoldable pub path_switch_request : Mme → ℕ → Message → ℕ → Option Mme
unfolding find path_switch
path_switch_request m fd msg r_sid = elim (find as_ue_id msg id_source_mme_ue_s1ap_id) [
  | none ↦ none
  | some mme ↦ elim (m.sessions mme) [
    | none ↦ none
    | some s ↦ elim (find as_ue_id msg id_enb_ue_s1ap_id) [
      | none ↦ none
      | some enb ↦ elim (find as_tai msg id_tai) [
        | none ↦ none
        | some area ↦ path_switch m s fd msg r_sid enb area
      ]
    ]
  ]
]
