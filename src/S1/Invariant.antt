-- ===== src/S1/Invariant.antt =====
-- mme/S1: the invariant of the tables over any sequence of events.
use aalto_mme.Prelude.{◌≡◌, true, none, some, List, [], ◌∷◌, ◌||◌}
use aalto_mme.S1ap.Message.{Message}
use aalto_mme.S1.Session.{
  Users, is_procedure, initiating_message, id_initial_ue_message, id_path_switch_request,
}
use aalto_mme.S1.Store.{Mme, new_local_ue_id}
use aalto_mme.S1.Association.{Config}
use aalto_mme.S1.Machine.{Event, step}
use aalto_mme.S1.Steps.{IsNewPlace}
use aalto_mme.S1.Closing.{AreOwn}

-- A message that announces a connection has an identity that is new in its association; when all
-- identities of the MME are taken, so that it gives 0, no session has that; and the items of a reset
-- name sessions of the association.
abbrev pub IsOrderly : Config → Mme → Event → Type 0
IsOrderly c m (Event.accepted fd) = Unit {0}
IsOrderly c m (Event.closed fd visit) = Unit {0}
IsOrderly c m (Event.received fd msg r_sid visit) =
    ((is_procedure msg id_initial_ue_message initiating_message
          || is_procedure msg id_path_switch_request initiating_message)
        ≡ true
      → IsNewPlace m fd msg)
    × ((new_local_ue_id c.max_ue m.local_ids).0 ≡ 0 → m.sessions 0 ≡ none)
    × AreOwn m fd msg

-- Each event is orderly in the state that it meets.
unfoldable pub AreOrderly : Users → Config → Mme → List Event → Type 0
AreOrderly u c m [] = Unit {0}
AreOrderly u c m (e ∷ es) =
    IsOrderly c m e × ((n : Mme) → step u c m e ≡ some n → AreOrderly u c n es)
