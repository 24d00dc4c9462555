-- ===== src/S1ap/Message.antt =====
-- S1AP/src/S1AP.c, S1AP/src/Containers.c and S1AP/src/S1AP_PDU.c: a message as the state machines
-- see it, with the elements in its container and the functions that find, take and add one.
use aalto_mme.Prelude.{ℕ, ◌+◌, Option, none, some, List, [], ◌∷◌, ◌++◌, length, ◌==◌, if◌then◌else◌}

-- `Cause_t`: which of the causes it is, and the number without extension.
pub record Cause : Type 0 where
  pub choice : ℕ
  pub value : ℕ

-- `UE_associatedLogicalS1_ConnectionItem_t`.
pub record ConnectionItem : Type 0 where
  pub opt : ℕ
  pub mme_ue : Option ℕ
  pub enb_ue : Option ℕ

-- `ResetType_t`.
pub data ResetType : Type 0 where
  reset_all : ResetType
  part_of_s1_interface : List ConnectionItem → ResetType
  other_reset : ResetType

-- `SupportedTAs_Item_t`: the area code, and the networks that are broadcast.
pub record SupportedTa : Type 0 where
  pub tac : List ℕ
  pub plmns : List (List ℕ)

-- `Global_ENB_ID_t`: the network, whether it is a macro cell, and the identity.
pub record GlobalEnbId : Type 0 where
  pub plmn : List ℕ
  pub choice : ℕ
  pub enb_id : ℕ

-- What `value` points to, of the elements that the state machines of S1 read and write.
pub data Value : Type 0 where
  ue_id : ℕ → Value
  octets : List ℕ → Value
  tai : List ℕ → List ℕ → Value
  number : ℕ → Value
  cause : Cause → Value
  reset : ResetType → Value
  connections : List ConnectionItem → Value
  global_enb_id : GlobalEnbId → Value
  supported_tas : List SupportedTa → Value
  ue_id_pair : ℕ → ℕ → Value
  unread : Value

-- `S1AP_PROTOCOL_IES_t`.
pub record ProtocolIe : Type 0 where
  pub id : ℕ
  pub presence : ℕ
  pub criticality : ℕ
  pub value : Value

-- `S1AP_Message_t` with its PDU; the container is the list of its elements.
pub record Message : Type 0 where
  pub choice : ℕ
  pub procedure_code : ℕ
  pub criticality : ℕ
  pub ies : List ProtocolIe

-- `s1ap_findIe`: the first element of the identity, or NULL.
unfoldable pub find_ie : List ProtocolIe → ℕ → Option Value
find_ie [] id = none
find_ie (e ∷ es) id = let rest = find_ie es id in if e.id == id then some e.value else rest

-- `s1ap_getIe`: the last element of the identity, and the container without it.
unfoldable pub get_ie : List ProtocolIe → ℕ → Option (Value × List ProtocolIe)
get_ie [] id = none
get_ie (e ∷ es) id = elim (get_ie es id) [
  | some r ↦ some (r.0, e ∷ r.1)
  | none ↦ if e.id == id then some (e.value, es) else none
]

abbrev pub max_protocol_ies : ℕ
max_protocol_ies = 65535

-- `protocolIE_Container_addIE`, where memory does not run out.
unfoldable pub add_ie : List ProtocolIe → ProtocolIe → List ProtocolIe
add_ie es e = if length es + 1 == max_protocol_ies then es else es ++ (e ∷ [])

-- `s1ap_setValueOnNewIE`, and `s1ap_newIE` once its value is filled.
unfoldable pub set_value_on_new_ie : Message → ℕ → ℕ → ℕ → Value → Message
unfolding add_ie
set_value_on_new_ie m id p c v = record m {
  ies = add_ie m.ies (record { id = id; presence = p; criticality = c; value = v });
}

-- `S1AP_newMsg`, with its choice, procedure and criticality.
unfoldable pub new_msg : ℕ → ℕ → ℕ → Message
new_msg choice procedure criticality = record {
  choice = choice;
  procedure_code = procedure;
  criticality = criticality;
  ies = [];
}

-- The casts of a value to the type that its identity has.
unfoldable pub as_ue_id : Value → Option ℕ
as_ue_id (ue_id n) = some n
as_ue_id _ = none

unfoldable pub as_octets : Value → Option (List ℕ)
as_octets (octets xs) = some xs
as_octets _ = none

unfoldable pub as_tai : Value → Option (List ℕ × List ℕ)
as_tai (tai sn tac) = some (sn, tac)
as_tai _ = none

unfoldable pub as_number : Value → Option ℕ
as_number (number n) = some n
as_number _ = none

unfoldable pub as_cause : Value → Option Cause
as_cause (cause c) = some c
as_cause _ = none

unfoldable pub as_reset : Value → Option ResetType
as_reset (reset r) = some r
as_reset _ = none

unfoldable pub as_global_enb_id : Value → Option GlobalEnbId
as_global_enb_id (global_enb_id g) = some g
as_global_enb_id _ = none

unfoldable pub as_supported_tas : Value → Option (List SupportedTa)
as_supported_tas (supported_tas t) = some t
as_supported_tas _ = none

-- An element found and cast. NULL and, which no decoder yields, a value of another type are `none`.
unfoldable pub find {ℓ} : {A : Type ℓ} → (Value → Option A) → Message → ℕ → Option A
find as_type m id = elim (find_ie m.ies id) [ none ↦ none | some v ↦ as_type v ]
