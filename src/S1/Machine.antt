-- ===== src/S1/Machine.antt =====
-- mme/S1/S1Assoc.c, S1Assoc_Active.c, MME_S1.c and `mme_paging` of MME.c: the reset, an active
-- association, and what arrives at the sockets, as events.
use aalto_mme.Prelude.{
  ℕ, false, ◌&&◌, Option, none, some, List, [], ◌∷◌, ◌==◌, if◌then◌else◌, bit_and,
}
use aalto_mme.S1ap.Message.{
  Value, ConnectionItem, ResetType, Message, find, as_reset, new_msg, set_value_on_new_ie,
}
use aalto_mme.S1.Session.{
  Session, Effect, Users, initiating_message, successful_outcome, id_path_switch_request,
  id_initial_ue_message, mandatory, reject, ignore, is_procedure,
}
use aalto_mme.S1.Store.{
  AssocState, Assoc, Mme, ◌>>=◌, emit, lookup_entry, set_entry, deregister_in_assoc, deregister_ecm,
  ecm_session_init,
}
use aalto_mme.S1.Association.{
  Config, id_reset, id_reset_type, id_connection_list_res_ack, set_assoc, send_non_ue,
  deregister_assoc, not_configured_process_msg, ue_associated, path_switch_request,
}

-- `s1Assoc_resetECM`.
unfoldable pub reset_ecm : Mme → Session → Option Mme
unfolding emit deregister_ecm
reset_ecm m s = elim s.emm [
  | none ↦ none
  | some emm ↦ deregister_ecm (emit m (Effect.emm_stop emm ∷ [])) s
]

-- One node of a table that is emptied: what `free` does with its session, and the node is gone.
unfoldable pub remove_node : (Mme → Session → Option Mme) → Mme → ℕ → ℕ → Option Mme
unfolding set_entry
remove_node free m fd id = elim (m.tables fd id) [
  | none ↦ some m
  | some e ↦ elim (m.sessions e.value) [
    | none ↦ none
    | some s ↦ free m s >>= λ n. some (set_entry n fd id none)
  ]
]

-- `g_hash_table_foreach_remove`, in the order of `visit`.
unfoldable pub foreach_remove : (Mme → Session → Option Mme) → Mme → ℕ → List ℕ → Option Mme
unfolding remove_node
foreach_remove free m fd [] = some m
foreach_remove free m fd (id ∷ ids) = remove_node free m fd id >>= λ n. foreach_remove free n fd ids

-- The session that an item of a reset names, where there is one.
unfoldable pub named_session : Mme → ℕ → ConnectionItem → Option (Option Session)
unfolding lookup_entry
named_session m fd item =
    if bit_and item.opt 0x40 == 0x40
    then elim item.enb_ue [
      | none ↦ none
      | some enb ↦ elim (lookup_entry m fd enb) [
        | none ↦ none
        | some none ↦ some none
        | some (some e) ↦ elim (m.sessions e.value) [ none ↦ none | some s ↦ some (some s) ]
      ]
    ]
    else if bit_and item.opt 0x80 == 0x80
    then elim item.mme_ue [ none ↦ none | some mme ↦ some (m.sessions mme) ]
    else some none

-- The node is taken from the table of the association that the reset came on.
unfoldable pub reset_item : Mme → ℕ → ConnectionItem → Option Mme
unfolding named_session deregister_in_assoc reset_ecm
reset_item m fd item = elim (named_session m fd item) [
  | none ↦ none
  | some none ↦ some m
  | some (some s) ↦ deregister_in_assoc m fd s.enb_ue_id >>= λ n. reset_ecm n s
]

unfoldable pub reset_items : Mme → ℕ → List ConnectionItem → Option Mme
unfolding reset_item
reset_items m fd [] = some m
reset_items m fd (item ∷ items) = reset_item m fd item >>= λ n. reset_items n fd items

-- The acknowledgement, with the list of the request where it had one.
unfoldable pub reset_ack : ResetType → Message
unfolding new_msg set_value_on_new_ie
reset_ack (ResetType.part_of_s1_interface items) =
    set_value_on_new_ie (new_msg successful_outcome id_reset reject) id_connection_list_res_ack
      mandatory ignore (Value.connections items)
reset_ack _ = new_msg successful_outcome id_reset reject

unfoldable pub reset_sessions : Mme → ℕ → List ℕ → ResetType → Option Mme
unfolding foreach_remove reset_ecm reset_items
reset_sessions m fd visit ResetType.reset_all = foreach_remove reset_ecm m fd visit
reset_sessions m fd visit (ResetType.part_of_s1_interface items) = reset_items m fd items
reset_sessions m fd visit ResetType.other_reset = some m

-- `process_reset`; without the type of the reset a null pointer is used.
unfoldable pub process_reset : Mme → ℕ → Assoc → List ℕ → Message → Option Mme
unfolding find reset_sessions send_non_ue reset_ack
process_reset m fd a visit msg = elim (find as_reset msg id_reset_type) [
  | none ↦ none
  | some t ↦ reset_sessions m fd visit t >>= λ n. some (send_non_ue n fd a (reset_ack t))
]

-- `processMsg` of an active association. What is only logged changes nothing.
unfoldable pub active_process_msg :
    Users → Config → Mme → ℕ → Assoc → List ℕ → Message → ℕ → Option Mme
unfolding is_procedure process_reset ecm_session_init path_switch_request ue_associated
active_process_msg u c m fd a visit msg r_sid =
    if r_sid == a.nonue_rsid && msg.procedure_code == id_reset
    then process_reset m fd a visit msg
    else if is_procedure msg id_initial_ue_message initiating_message
    then ecm_session_init u c.max_ue m fd msg r_sid
    else if is_procedure msg id_path_switch_request initiating_message
    then path_switch_request m fd msg r_sid
    else if r_sid == a.nonue_rsid
    then some m
    else ue_associated u m fd msg r_sid

-- The end of an association: `mme_deregisterS1Assoc`, and `s1_deregisterAssoc`, which frees it with
-- its sessions (`s1Assoc_free`).
unfoldable pub teardown : Mme → ℕ → List ℕ → Option Mme
unfolding deregister_assoc foreach_remove deregister_ecm set_assoc
teardown m fd visit = elim (m.assocs fd) [
  | none ↦ some m
  | some a ↦
      foreach_remove deregister_ecm
        (record m { by_genbid = deregister_assoc m.by_genbid a.global_enb_id }) fd visit
      >>= λ n. some (set_assoc n fd none)
]

-- `s1Assoc_init` and `s1Assoc_accept`, on a descriptor that the kernel gives.
unfoldable pub accept : Mme → ℕ → Mme
unfolding set_assoc
accept m fd = set_assoc m fd (
    some (record {
      state = AssocState.not_configured;
      nonue_rsid = 0;
      enb_name = [];
      global_enb_id = record { plmn = 0 ∷ 0 ∷ 0 ∷ []; macro_id = false; enb_id = 0 };
      supported_tas = none;
    }))

-- What happens at a socket: a new association, its end, and a message on a stream. `visit` is the
-- order in which the table of sessions is gone through.
pub data Event : Type 0 where
  accepted : ℕ → Event
  closed : ℕ → List ℕ → Event
  received : ℕ → Message → ℕ → List ℕ → Event

unfoldable pub process_msg : Users → Config → Mme → ℕ → Assoc → List ℕ → Message → ℕ → Option Mme
unfolding not_configured_process_msg active_process_msg teardown
process_msg u c m fd a visit msg r_sid = elim a.state [
  | AssocState.not_configured ↦ elim (not_configured_process_msg c m fd a msg r_sid) [
    | none ↦ none
    | some r ↦ if r.1 then teardown r.0 fd visit else some r.0
  ]
  | AssocState.active ↦ active_process_msg u c m fd a visit msg r_sid
]

-- `s1_accept_new_eNB` and `s1_accept`; a descriptor without an association has no callback.
unfoldable pub step : Users → Config → Mme → Event → Option Mme
unfolding accept teardown process_msg
step u c m (Event.accepted fd) = some (accept m fd)
step u c m (Event.closed fd visit) = teardown m fd visit
step u c m (Event.received fd msg r_sid visit) = elim (m.assocs fd) [
  | none ↦ some m
  | some a ↦ process_msg u c m fd a visit msg r_sid
]

-- A sequence of events, up to the use of a null pointer.
unfoldable pub run : Users → Config → Mme → List Event → Option Mme
unfolding step
run u c m [] = some m
run u c m (e ∷ es) = step u c m e >>= λ n. run u c n es
