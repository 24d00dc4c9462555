-- ===== src/S1/Closing.antt =====
-- mme/S1: a reset, the end of an association and a setup keep the tables linked.
use aalto_mme.Prelude.{
  ℕ, ◌≡◌, ◌∙◌, sym, arith, none, some, List, Option, Bool, inl, inr, Option-cases, All,
}
use aalto_mme.S1ap.Message.{Message, ConnectionItem, ResetType, find, as_reset}
use aalto_mme.S1.Session.{Session}
use aalto_mme.S1.Store.{Assoc, Mme, ◌>>=◌, emit, deregister_ecm}
use aalto_mme.S1.Association.{
  Config, id_reset_type, not_configured_process_msg, note_request, configure, set_assoc,
  send_non_ue, deregister_assoc,
}
use aalto_mme.S1.Machine.{
  reset_sessions, reset_ecm, process_reset, reset_ack, teardown, foreach_remove,
}
use aalto_mme.S1.Links.{IsConsistent}
use aalto_mme.S1.Release.{deregister_ecm-Freed, reset_ecm-Freed, >>=-eq-some}
use aalto_mme.S1.Empty.{Frees, deregister_ecm-ne-none, reset_ecm-ne-none, foreach_remove-Leaves}
use aalto_mme.S1.Steps.{IsOwn, reset_items-IsConsistent}

pub some_eq {ℓ} : {A : Type ℓ} {a b : A} → some a ≡ some b → a ≡ b
some_eq h = cc

-- The items of a reset name sessions of the association.
abbrev pub AreOwn : Mme → ℕ → Message → Type 0
AreOwn m fd msg =
    (items : List ConnectionItem)
    → find as_reset msg id_reset_type ≡ some (ResetType.part_of_s1_interface items)
    → All (IsOwn m fd) items

abbrev pub reset_ecm-Frees : Frees reset_ecm
reset_ecm-Frees = record { freed = reset_ecm-Freed; succeeds = reset_ecm-ne-none }

abbrev pub deregister_ecm-Frees : Frees deregister_ecm
deregister_ecm-Frees = record { freed = deregister_ecm-Freed; succeeds = deregister_ecm-ne-none }

-- The loop that empties a table, from a result of it.
foreach_remove-IsConsistent :
    (free : Mme → Session → Option Mme)
    → Frees free
    → (m n : Mme) (fd : ℕ) (ids : List ℕ) → IsConsistent m
    → foreach_remove free m fd ids ≡ some n
    → IsConsistent n
foreach_remove-IsConsistent free frees m n fd ids w h =
    let (o, ends, linked, leaves, same) = foreach_remove-Leaves free frees m fd ids w in
    let it : o ≡ n = some_eq (sym ends ∙ h) in rw (← it) linked

pub process_reset-IsConsistent :
    (m n : Mme) (fd : ℕ) (a : Assoc) (visit : List ℕ) (msg : Message)
    → IsConsistent m
    → AreOwn m fd msg
    → process_reset m fd a visit msg ≡ some n
    → IsConsistent n
unfolding process_reset reset_sessions send_non_ue emit
process_reset-IsConsistent m n fd a visit msg w own h =
    elim (Option-cases (find as_reset msg id_reset_type)) [
      | inl e ↦ absurd (ground (arith, e))
      | inr (t, e) ↦
          let opened : (reset_sessions m fd visit t >>= λ x.
          some (send_non_ue x fd a (reset_ack t)))
              ≡ some n =
            ground (arith, e) in
          let (o, done, last) =
            >>=-eq-some (reset_sessions m fd visit t) (λ x. some (send_non_ue x fd a (reset_ack t)))
              opened in
          let state : send_non_ue o fd a (reset_ack t) ≡ n = some_eq last in
          rw (← state) (reset_type t e done)
    ]
  where
    reset_type :
        {o : Mme} (t : ResetType)
        → find as_reset msg id_reset_type ≡ some t
        → reset_sessions m fd visit t ≡ some o
        → IsConsistent o
    reset_type {o} ResetType.reset_all e done =
        foreach_remove-IsConsistent reset_ecm reset_ecm-Frees m o fd visit w done
    reset_type {o} (ResetType.part_of_s1_interface items) e done =
        reset_items-IsConsistent m o fd items w (own items e) done
    reset_type {o} ResetType.other_reset e done = let same : m ≡ o = some_eq done in rw (← same) w

pub teardown-IsConsistent :
    (m n : Mme) (fd : ℕ) (visit : List ℕ)
    → IsConsistent m
    → teardown m fd visit ≡ some n
    → IsConsistent n
unfolding teardown set_assoc
teardown-IsConsistent m n fd visit w h = elim (Option-cases (m.assocs fd)) [
  | inl e ↦ let same : m ≡ n = ground (arith, e) in rw (← same) w
  | inr (a, e) ↦
      let left : Mme = record m { by_genbid = deregister_assoc m.by_genbid a.global_enb_id } in
      let opened : (foreach_remove deregister_ecm left fd visit >>= λ x. some (set_assoc x fd none))
          ≡ some n =
        ground (arith, e) in
      let (o, done, last) =
        >>=-eq-some (foreach_remove deregister_ecm left fd visit) (λ x. some (set_assoc x fd none))
          opened in
      let state : set_assoc o fd none ≡ n = some_eq last in
      rw (← state)
        (foreach_remove-IsConsistent deregister_ecm deregister_ecm-Frees left o fd visit w done)
]

-- A setup, whatever comes of it, leaves the sessions and their tables alone.
pub not_configured_process_msg-same :
    (c : Config) (m : Mme) (fd : ℕ) (a : Assoc) (msg : Message) (r_sid : ℕ) (r : Mme × Bool)
    → not_configured_process_msg c m fd a msg r_sid ≡ some r
    → (r.0.sessions ≡ m.sessions) × (r.0.tables ≡ m.tables) × (r.0.local_ids ≡ m.local_ids)
unfolding not_configured_process_msg configure note_request set_assoc send_non_ue emit
not_configured_process_msg-same c m fd a msg r_sid r h = ground arith
