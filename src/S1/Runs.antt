-- ===== src/S1/Runs.antt =====
-- mme/S1: runs of associations and sessions.
use aalto_mme.Prelude.{
  ℕ, ◌<◌, ◌≤◌, ◌≡◌, ◌≢◌, ◌⊎◌, ◌↔◌, refl, arith, Bool, true, false, ◌&&◌, Option, none, some, List,
  [], ◌∷◌, ◌++◌, ◌==◌, if◌then◌else◌, store,
}
use aalto_mme.S1ap.Message.{
  Value, ProtocolIe, Message, ConnectionItem, ResetType, find, find_ie, as_ue_id, as_reset,
  as_octets, as_tai, as_global_enb_id,
}
use aalto_mme.S1.Session.{
  Session, attach_user, connect, lookup_user, idle_process_msg, Effect, EcmState, Users, Outcome,
  connected_process_msg, is_procedure, id_initial_ue_message, initiating_message, id_enb_ue_s1ap_id,
  id_mme_ue_s1ap_id, id_nas_pdu, id_tai, id_uplink_nas_transport,
}
use aalto_mme.S1.Store.{
  deregister_in_assoc, Assoc, AssocState, Mme, ecm_session_init, first_free, fresh_session, Entry,
  freed, leave_nodes, left_behind, register_ecm, set_session, register_in_assoc, set_entry, emit,
  deregister_ecm, free_local_ue_id, contains, lookup_entry, new_local_ue_id, MmeGlobalEnbId,
}
use aalto_mme.S1.Association.{
  id_supported_tas, Config, id_reset, id_reset_type, id_s1_setup, id_global_enb_id,
  not_configured_process_msg,
}
use aalto_mme.S1.Machine.{
  Event, reset_item, named_session, reset_ecm, process_reset, reset_ack, step, run, process_msg,
  active_process_msg,
}
use aalto_mme.S1.Links.{IsConsistent, node}
use aalto_mme.S1.Ending.{
  Visits, LeavesOthers, process_reset-reset_all, step-closed, reset_item-foreign,
}
use aalto_mme.S1.Laws.{connected_process_msg-stream, new_local_ue_id_lem}
use aalto_mme.S1.SetupTests.{is_setup}
use aalto_mme.S1.Setup.{Configured, not_configured_process_msg-Configured}

-- A session that is connected through descriptor 4, and an active association there.
abbrev connected_session : Session
connected_session = record {
  assoc = 4;
  emm = some 50;
  state = EcmState.connected;
  l_sid = 1;
  r_sid_valid = true;
  r_sid = 2;
  mme_ue_id = 1;
  enb_ue_id = 7;
  sn = 2 ∷ 244 ∷ 16 ∷ [];
  tac = 0 ∷ 1 ∷ [];
  cell_id = 0;
  cause_release = none;
}

abbrev macro_cell : MmeGlobalEnbId
macro_cell = record { plmn = 2 ∷ 244 ∷ 16 ∷ []; macro_id = true; enb_id = 0x1230 }

abbrev association : AssocState → Assoc
association s = record {
  state = s;
  nonue_rsid = 0;
  enb_name = [];
  global_enb_id = macro_cell;
  supported_tas = none;
}

abbrev busy : Mme
busy = record {
  assocs = λ fd. if fd == 4 then some (association AssocState.active) else none;
  sessions = λ k. if k == 1 then some connected_session else none;
  tables = λ fd id. if fd == 4 && id == 7 then some (node 1) else none;
  local_ids = 1 ∷ [];
  by_genbid = (macro_cell, 4) ∷ [];
  effects = [];
}

busy-IsConsistent : IsConsistent busy
unfolding contains
busy-IsConsistent = record {
  node_session = λ fd id e h. (connected_session, ground arith, refl, ground arith, ground arith);
  session_node = λ k s h.
      let is_it : connected_session ≡ s = ground arith in
      (ground arith, ground arith, ground arith, λ f. absurd cc);
}

abbrev users : Users
users = record {
  by_tmsi = λ t. none;
  by_imsi = λ i. if i == 3 then some 51 else none;
  guti_from_msg = λ nas. 0;
  imsi_from_attach = λ nas. 3;
  new_context = 60;
}

abbrev config : Config
config = record {
  name = none;
  served_plmns = ((2 ∷ 244 ∷ 16 ∷ []) ∷ []) ∷ [];
  capacity = 255;
  max_ue = 10;
}

abbrev ie : ℕ → Value → ProtocolIe
ie id v = record { id = id; presence = 2; criticality = 0; value = v }

abbrev initial_ue : Message
initial_ue = record {
  choice = initiating_message;
  procedure_code = id_initial_ue_message;
  criticality = 1;
  ies =
      ie id_enb_ue_s1ap_id (Value.ue_id 9)
      ∷ ie id_nas_pdu (Value.octets (7 ∷ 65 ∷ []))
      ∷ ie id_tai (Value.tai (2 ∷ 244 ∷ 16 ∷ []) (0 ∷ 1 ∷ []))
      ∷ [];
}

abbrev uplink_message : Message
uplink_message = record {
  choice = initiating_message;
  procedure_code = id_uplink_nas_transport;
  criticality = 1;
  ies =
      ie id_mme_ue_s1ap_id (Value.ue_id 1)
      ∷ ie id_enb_ue_s1ap_id (Value.ue_id 7)
      ∷ ie id_nas_pdu (Value.octets (7 ∷ 65 ∷ []))
      ∷ [];
}

abbrev reset : ResetType → Message
reset t = record {
  choice = initiating_message;
  procedure_code = id_reset;
  criticality = 0;
  ies = ie id_reset_type (Value.reset t) ∷ [];
}

abbrev events : List Event
events = Event.received 4 initial_ue 3 [] ∷ Event.closed 4 (7 ∷ 9 ∷ []) ∷ []

abbrev or_busy : Option Mme → Mme
or_busy none = busy
or_busy (some m) = m

-- Where no identity is left, the second connection takes the 0 of the first one, whose node stays.
abbrev second_ue : Message
second_ue = record initial_ue {
  ies =
      ie id_enb_ue_s1ap_id (Value.ue_id 10)
      ∷ ie id_nas_pdu (Value.octets (7 ∷ 65 ∷ []))
      ∷ ie id_tai (Value.tai (2 ∷ 244 ∷ 16 ∷ []) (0 ∷ 1 ∷ []))
      ∷ [];
}

node_of : Option Mme → ℕ → Option Entry
node_of none id = none
node_of (some m) id = m.tables 4 id

second_runs :
    (node_of
        (run users
          (record config { max_ue = 0 })
          busy
          (Event.received 4 initial_ue 3 [] ∷ Event.received 4 second_ue 4 [] ∷ []))
        9
      ≡ some (node freed))
    × (node_of
          (run users
            (record config { max_ue = 0 })
            busy
            (Event.received 4 initial_ue 3 [] ∷ Event.received 4 second_ue 4 [] ∷ []))
          10
        ≡ some (node 0))
unfolding run step process_msg active_process_msg is_procedure ecm_session_init new_local_ue_id
    first_free contains fresh_session idle_process_msg find find_ie as_ue_id as_octets as_tai
    connect lookup_user attach_user register_ecm set_session register_in_assoc lookup_entry
    set_entry emit store deregister_ecm free_local_ue_id leave_nodes left_behind node_of
second_runs = (refl, refl)

busy-Visits : Visits busy 4 (7 ∷ [])
unfolding contains
busy-Visits id e h = ground arith

process_reset-reset_all_example :
    (n : Mme) × (process_reset busy 4
        (association AssocState.active)
        (7 ∷ [])
        (reset ResetType.reset_all)
      ≡ some n)
    × IsConsistent n
    × LeavesOthers busy n 4
    × ((before : List Effect) × (n.effects
          ≡ before ++ (Effect.send 4 0 (reset_ack ResetType.reset_all) ∷ [])))
unfolding find find_ie as_reset
process_reset-reset_all_example =
    process_reset-reset_all busy 4 (association AssocState.active) (7 ∷ [])
      (reset ResetType.reset_all) busy-IsConsistent busy-Visits refl

step-closed_example :
    (n : Mme) × (step users config busy (Event.closed 4 (7 ∷ [])) ≡ some n)
    × IsConsistent n
    × (n.assocs 4 ≡ none)
    × LeavesOthers busy n 4
step-closed_example =
    step-closed users config busy 4 (association AssocState.active) (7 ∷ []) busy-IsConsistent
      busy-Visits refl

-- An item of a reset that came on descriptor 5.
abbrev foreign : ConnectionItem
foreign = record { opt = 0x80; mme_ue = some 1; enb_ue = none }

reset_foreign : reset_item busy 5 foreign ≡ some (or_busy (reset_item busy 5 foreign))
unfolding reset_item named_session deregister_in_assoc lookup_entry reset_ecm emit deregister_ecm
    set_session store free_local_ue_id
reset_foreign = refl

reset_item-foreign_example :
    ((or_busy (reset_item busy 5 foreign)).sessions 1 ≡ none)
    × (lookup_entry (or_busy (reset_item busy 5 foreign)) 4 7 ≡ none)
reset_item-foreign_example =
    reset_item-foreign busy (or_busy (reset_item busy 5 foreign)) 5 1 connected_session foreign
      busy-IsConsistent refl (λ h. absurd (omega (arith, h))) refl refl reset_foreign

connected_process_msg-stream_example :
    (connected_session.r_sid_valid ≡ true
      → 3 ≢ connected_session.r_sid
      → connected_process_msg connected_session uplink_message 3
        ≡ some (record { session = connected_session; effects = []; released = false }))
    × ((o : Outcome)
        → connected_process_msg connected_session uplink_message 3 ≡ some o
        → (o.session.r_sid_valid ≡ true)
          × (o.session.r_sid
              ≡ (if connected_session.r_sid_valid then connected_session.r_sid else 3)))
connected_process_msg-stream_example =
    connected_process_msg-stream connected_session uplink_message 3

new_local_ue_id_lem_example :
    let i = new_local_ue_id 10 (1 ∷ 2 ∷ 4 ∷ []) in
    ((i ≡ (0, 1 ∷ 2 ∷ 4 ∷ [])) × ((j : ℕ) → 1 ≤ j → j ≤ 10 → contains (1 ∷ 2 ∷ 4 ∷ []) j ≡ true))
    ⊎ ((1 ≤ i.0)
        × (i.0 ≤ 10)
        × (contains (1 ∷ 2 ∷ 4 ∷ []) i.0 ≡ false)
        × ((j : ℕ) → 1 ≤ j → j < i.0 → contains (1 ∷ 2 ∷ 4 ∷ []) j ≡ true)
        × (contains i.1 i.0 ≡ true)
        × ((j : ℕ) → j ≢ i.0 → contains i.1 j ≡ contains (1 ∷ 2 ∷ 4 ∷ []) j))
new_local_ue_id_lem_example = new_local_ue_id_lem 10 (1 ∷ 2 ∷ 4 ∷ [])

-- The third identity is the first one free.
new_local_ue_id-run : new_local_ue_id 10 (1 ∷ 2 ∷ 4 ∷ []) ≡ (3, 3 ∷ 1 ∷ 2 ∷ 4 ∷ [])
unfolding new_local_ue_id first_free contains
new_local_ue_id-run = refl

abbrev setup : Message
setup = record {
  choice = initiating_message;
  procedure_code = id_s1_setup;
  criticality = 0;
  ies =
      ie id_global_enb_id
        (Value.global_enb_id (record { plmn = 2 ∷ 244 ∷ 16 ∷ []; choice = 0; enb_id = 0x123 }))
      ∷ ie id_supported_tas
          (Value.supported_tas (record { tac = 0 ∷ 1 ∷ []; plmns = (2 ∷ 244 ∷ 16 ∷ []) ∷ [] } ∷ []))
      ∷ [];
}

not_configured_process_msg-Configured_example :
    ((not_configured_process_msg config busy 5 (association AssocState.not_configured) setup 0
        ≡ none)
      ↔ ((is_setup setup ≡ true) × (find as_global_enb_id setup id_global_enb_id ≡ none)))
    × ((r : Mme × Bool)
        → not_configured_process_msg config busy 5 (association AssocState.not_configured) setup 0
          ≡ some r
        → Configured config busy 5 (association AssocState.not_configured) setup 0 r)
not_configured_process_msg-Configured_example =
    not_configured_process_msg-Configured config busy 5 (association AssocState.not_configured)
      setup 0 refl
