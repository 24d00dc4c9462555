-- ===== src/S1/Laws.antt =====
-- mme/S1/ECMSession_Connected.c and `mme_newLocalUEid` of mme/MME.c: the stream of a session, and
-- its identity.
use aalto_mme.Prelude.{
  ℕ, zero, suc, ◌+◌, ◌<◌, ◌≤◌, ◌≡◌, ◌≢◌, ◌⊎◌, ◌∙◌, refl, ap, arith, true, false, some, List, [],
  ◌==◌, if◌then◌else◌, Bool-cases, inl, inr, ==_iff,
}
use aalto_mme.S1ap.Message.{Message}
use aalto_mme.S1.Session.{Session, Outcome, connected_process_msg}
use aalto_mme.S1.Store.{contains, first_free, new_local_ue_id}
use aalto_mme.S1.Consistency.{connected_procedure-Keeps}

-- Of the messages that an association hands to a connected session: once the session has its stream,
-- one on another stream is not looked at; in a session without a stream the first one fixes it; and
-- none of them changes the stream that is fixed. A path switch request, which the association takes
-- itself, is not one of them.
pub connected_process_msg-stream :
    (s : Session) (msg : Message) (r_sid : ℕ)
    → (s.r_sid_valid ≡ true
        → r_sid ≢ s.r_sid
        → connected_process_msg s msg r_sid
          ≡ some (record { session = s; effects = []; released = false }))
      × ((o : Outcome)
          → connected_process_msg s msg r_sid ≡ some o
          → (o.session.r_sid_valid ≡ true)
            × (o.session.r_sid ≡ (if s.r_sid_valid then s.r_sid else r_sid)))
unfolding connected_process_msg
connected_process_msg-stream s msg r_sid = (
  λ valid other. ground arith,
  λ o h. ground (
    arith,
    connected_procedure-Keeps s msg o,
    connected_procedure-Keeps (record s { r_sid = r_sid; r_sid_valid = true }) msg o,
  ),
)

-- What the loop over the identities finds.
first_free_lem :
    (taken : List ℕ) (i left : ℕ)
    → ((first_free taken i left ≡ 0) × ((j : ℕ) → i ≤ j → j < i + left → contains taken j ≡ true)
        ⊎ (contains taken (first_free taken i left) ≡ false)
          × (i ≤ first_free taken i left)
          × (first_free taken i left < i + left)
          × ((j : ℕ) → i ≤ j → j < first_free taken i left → contains taken j ≡ true))
unfolding first_free
first_free_lem taken i zero = inl (refl, λ j low high. absurd (omega arith))
first_free_lem taken i (suc left) = elim (Bool-cases (contains taken i)) [
  | inr e ↦ inr (rw e (e, omega arith, omega arith, λ j low high. absurd (omega arith)))
  | inl e ↦ elim (first_free_lem taken (i + 1) left) [
    | inl (zero_, all) ↦ inl (
      rw e zero_,
      λ j low high. elim (Bool-cases (j == i)) [
        | inl f ↦ ap (contains taken) ((==_iff j i).0 f) ∙ e
        | inr f ↦ all j (ground arith) (omega arith)
      ],
    )
    | inr (free, low, high, below) ↦ inr (
        rw e (
          free,
          omega (arith, low),
          omega (arith, high),
          λ j above under. elim (Bool-cases (j == i)) [
            | inl f ↦ ap (contains taken) ((==_iff j i).0 f) ∙ e
            | inr f ↦ below j (ground arith) under
          ],
        ))
  ]
]

-- A new identity is the lowest one from 1 to the number of users that is not taken, and it is taken
-- from then on; or it is 0, where all of them are taken, and nothing changes.
pub new_local_ue_id_lem :
    (max_ue : ℕ) (taken : List ℕ)
    → let i = new_local_ue_id max_ue taken in
      ((i ≡ (0, taken)) × ((j : ℕ) → 1 ≤ j → j ≤ max_ue → contains taken j ≡ true))
      ⊎ ((1 ≤ i.0)
          × (i.0 ≤ max_ue)
          × (contains taken i.0 ≡ false)
          × ((j : ℕ) → 1 ≤ j → j < i.0 → contains taken j ≡ true)
          × (contains i.1 i.0 ≡ true)
          × ((j : ℕ) → j ≢ i.0 → contains i.1 j ≡ contains taken j))
unfolding new_local_ue_id contains
new_local_ue_id_lem max_ue taken = elim (first_free_lem taken 1 max_ue) [
  | inl (none_, all) ↦ inl (rw none_ refl, λ j low high. all j low (omega arith))
  | inr (free, low, high, below) ↦
      let some_ : (first_free taken 1 max_ue == 0) ≡ false = ground (arith, low) in
      inr (rw some_ (low, omega (arith, high), free, below, ground arith, λ j apart. ground arith))
]
