-- ===== src/S1ap/Container.antt =====
-- S1AP/src/S1AP.c: what is added to a message is found in it and taken out again.
use aalto_mme.Prelude.{
  ℕ, ◌<◌, ◌≡◌, ◌∙◌, refl, ap, arith, none, some, List, [], ◌∷◌, ◌++◌, length, ◌==◌, Option,
  if◌then◌else◌,
}
use mathlib.Core.List.{append-nil}
use aalto_mme.S1ap.Message.{
  Value, ProtocolIe, Message, find_ie, get_ie, add_ie, set_value_on_new_ie,
}

get_ie-last :
    (es : List ProtocolIe) (e : ProtocolIe)
    → get_ie (es ++ (e ∷ [])) e.id ≡ some (e.value, es ++ [])
unfolding get_ie
get_ie-last [] e = ground arith
get_ie-last (x ∷ xs) e = rw (get_ie-last xs e) refl

find_ie-last :
    (es : List ProtocolIe) (e : ProtocolIe) (id : ℕ)
    → find_ie (es ++ (e ∷ [])) id
      ≡ elim (find_ie es id) [ some v ↦ some v | none ↦ if e.id == id then some e.value else none ]
unfolding find_ie
find_ie-last [] e id = refl
find_ie-last (x ∷ xs) e id = ground (arith, find_ie-last xs e id)

-- A container takes 65534 elements at most.
pub add_ie-room :
    (es : List ProtocolIe) (e : ProtocolIe) → length es < 65534 → add_ie es e ≡ es ++ (e ∷ [])
unfolding add_ie
add_ie-room es e h = ground arith

-- The element that a search finds once another one stands behind the others.
abbrev pub found_behind : Option Value → ℕ → ℕ → Value → Option Value
found_behind before id other v = elim before [
  | some w ↦ some w
  | none ↦ if id == other then some v else none
]

-- A value that is put into a message with fewer than 65534 elements is taken out again, and leaves
-- the elements as they were; a search by any identity finds what it found before, and the new
-- value where it found nothing and the identity is that of the new element.
pub get_ie-set_value_on_new_ie :
    (m : Message) (id p c : ℕ) (v : Value)
    → length m.ies < 65534
    → (get_ie (set_value_on_new_ie m id p c v).ies id ≡ some (v, m.ies))
      × ((other : ℕ)
          → find_ie (set_value_on_new_ie m id p c v).ies other
            ≡ found_behind (find_ie m.ies other) id other v)
unfolding set_value_on_new_ie
get_ie-set_value_on_new_ie m id p c v room =
    let e : ProtocolIe = record { id = id; presence = p; criticality = c; value = v } in
    rw (add_ie-room m.ies e room) (
      get_ie-last m.ies e ∙ ap (λ es. some (v, es)) (append-nil m.ies),
      λ other. find_ie-last m.ies e other,
    )
