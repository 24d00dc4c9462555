-- ===== src/S1/Consistency.antt =====
-- mme/S1: whatever the eNodeBs send, the tables of the associations and the sessions stay linked, as
-- long as an identity that announces a connection is new in its association, and a reset names
-- sessions of its own association.
use aalto_mme.Prelude.{
  ℕ, ◌≡◌, ◌⊎◌, ◌∙◌, refl, sym, ap, arith, true, false, some, ◌==◌, Bool-cases, inl, inr,
  Option-cases,
}
use aalto_mme.S1ap.Message.{Message, find, as_ue_id}
use aalto_mme.S1.Session.{
  Session, Effect, Users, Outcome, call_emm, context_setup_response, uplink_nas, ue_context_release,
  connected_procedure, connected_process_msg, is_procedure, idle_process_msg, session_process_msg,
  initiating_message, id_initial_ue_message, id_enb_ue_s1ap_id, id_mme_ue_s1ap_id,
}
use aalto_mme.S1.Store.{
  Mme, ◌>>=◌, emit, set_session, deregister_in_assoc, release_session, deregister_ecm,
}
use aalto_mme.S1.Association.{store_outcome, ue_associated}
use aalto_mme.S1.Links.{IsConsistent, lookup_entry-IsConsistent, IsLinked-update, store_at}
use aalto_mme.S1.Release.{deregister_ecm-Freed, >>=-eq-some, deregister_in_assoc-IsConsistent}

-- The session keeps its identities, its association and its user.
abbrev pub SamePlace : Session → Session → Type 0
SamePlace s t =
    (t.mme_ue_id ≡ s.mme_ue_id)
    × (t.assoc ≡ s.assoc)
    × (t.enb_ue_id ≡ s.enb_ue_id)
    × (t.emm ≡ s.emm)

-- And its stream.
abbrev pub Keeps : Session → Session → Type 0
Keeps s t = SamePlace s t × (t.r_sid_valid ≡ s.r_sid_valid) × (t.r_sid ≡ s.r_sid)

call_emm-Keeps :
    (s : Session) (call : ℕ → Effect) (o : Outcome) → call_emm s call ≡ some o → Keeps s o.session
unfolding call_emm
call_emm-Keeps s call o h = elim (Option-cases s.emm) [
  | inl e ↦ absurd (ground (arith, e))
  | inr (emm, e) ↦ ground (arith, e)
]

context_setup_response-Keeps :
    (s : Session) (msg : Message) (o : Outcome)
    → context_setup_response s msg ≡ some o
    → Keeps s o.session
unfolding context_setup_response
context_setup_response-Keeps s msg o h = ground (arith, call_emm-Keeps s)

uplink_nas-Keeps :
    (s : Session) (msg : Message) (o : Outcome) → uplink_nas s msg ≡ some o → Keeps s o.session
unfolding uplink_nas call_emm
uplink_nas-Keeps s msg o h = ground arith

ue_context_release-Keeps :
    (s : Session) (msg : Message) (o : Outcome)
    → ue_context_release s msg ≡ some o
    → Keeps s o.session
unfolding ue_context_release call_emm
ue_context_release-Keeps s msg o h = ground arith

pub connected_procedure-Keeps :
    (s : Session) (msg : Message) (o : Outcome)
    → connected_procedure s msg ≡ some o
    → Keeps s o.session
unfolding connected_procedure
connected_procedure-Keeps s msg o h = ground (
  arith,
  context_setup_response-Keeps s msg o,
  uplink_nas-Keeps s msg o,
  ue_context_release-Keeps s msg o,
)

pub connected_process_msg-SamePlace :
    (s : Session) (msg : Message) (r_sid : ℕ) (o : Outcome)
    → connected_process_msg s msg r_sid ≡ some o
    → SamePlace s o.session
unfolding connected_process_msg
connected_process_msg-SamePlace s msg r_sid o h = ground (
  arith,
  connected_procedure-Keeps s msg o,
  connected_procedure-Keeps (record s { r_sid = r_sid; r_sid_valid = true }) msg o,
)

session_process_msg-SamePlace :
    (u : Users) (s : Session) (msg : Message) (r_sid : ℕ) (o : Outcome)
    → is_procedure msg id_initial_ue_message initiating_message ≡ false
    → session_process_msg u s msg r_sid ≡ some o
    → SamePlace s o.session
unfolding session_process_msg idle_process_msg
session_process_msg-SamePlace u s msg r_sid o other h =
    ground (arith, connected_process_msg-SamePlace s msg r_sid o)

-- A message that a session takes leaves the tables linked, and its release takes it away with its
-- node.
store_outcome-IsConsistent :
    (m n : Mme) (k : ℕ) (s : Session) (o : Outcome)
    → IsConsistent m
    → m.sessions k ≡ some s
    → SamePlace s o.session
    → store_outcome m o ≡ some n
    → IsConsistent n
unfolding store_outcome release_session set_session emit
store_outcome-IsConsistent m n k s o w live place h =
    let own = (w.session_node k s live).0 in
    let kept : Mme = set_session (emit m o.effects) o.session.mme_ue_id (some o.session) in
    let at : o.session.mme_ue_id ≡ k = place.0 ∙ own in
    let linked : IsConsistent kept =
      IsLinked-update w o.session.mme_ue_id s o.session (ap m.sessions at ∙ live) place.0 place.1
        place.2 place.3 in
    elim (Bool-cases o.released) [
      | inl e ↦
          let freed : (deregister_in_assoc kept o.session.assoc o.session.enb_ue_id >>= λ x.
          deregister_ecm x o.session)
              ≡ some n =
            ground (arith, e) in
          (deregister_in_assoc-IsConsistent deregister_ecm deregister_ecm-Freed kept n
            o.session.mme_ue_id o.session linked
            (store_at m.sessions o.session.mme_ue_id o.session.mme_ue_id (some o.session) refl)
            freed).0
      | inr e ↦ let same : kept ≡ n = ground (arith, e) in rw (← same) linked
    ]

pub ue_associated-cases :
    (u : Users) (m n : Mme) (fd : ℕ) (msg : Message) (r_sid : ℕ)
    → IsConsistent m
    → ue_associated u m fd msg r_sid ≡ some n
    → (m ≡ n)
      ⊎ ((s : Session) × (o : Outcome) × (m.sessions s.mme_ue_id ≡ some s)
          × (s.assoc ≡ fd)
          × (find as_ue_id msg id_enb_ue_s1ap_id ≡ some s.enb_ue_id)
          × (find as_ue_id msg id_mme_ue_s1ap_id ≡ some s.mme_ue_id)
          × (session_process_msg u s msg r_sid ≡ some o)
          × (store_outcome m o ≡ some n))
unfolding ue_associated
ue_associated-cases u m n fd msg r_sid w h =
    elim (Option-cases (find as_ue_id msg id_enb_ue_s1ap_id)) [
      | inl e ↦ absurd (ground (arith, e))
      | inr (enb, e) ↦
          let looked = lookup_entry-IsConsistent m fd enb w in
          elim (Option-cases (m.tables fd enb)) [
            | inl f ↦ inl (ground (arith, e, f, looked))
            | inr (x, f) ↦
                let (s, key, live, here, ident) = w.node_session fd enb x f in
                let value : m.sessions x.value ≡ some s = rw key live in
                elim (Option-cases (find as_ue_id msg id_mme_ue_s1ap_id)) [
                  | inl g ↦ absurd (ground (arith, e, f, looked, value, g))
                  | inr (mme, g) ↦ elim (Bool-cases (mme == s.mme_ue_id)) [
                    | inr no_match ↦ inl (ground (arith, e, f, looked, value, g))
                    | inl match ↦
                        let opened : (session_process_msg u s msg r_sid >>= store_outcome m)
                            ≡ some n =
                          ground (arith, e, f, looked, value, g) in
                        let (o, taken, stored) =
                          >>=-eq-some (session_process_msg u s msg r_sid) (store_outcome m)
                            opened in
                        inr (
                          s,
                          o,
                          live,
                          here,
                          e ∙ ap some (sym ident),
                          g ∙ ap some (ground arith),
                          taken,
                          stored,
                        )
                  ]
                ]
          ]
    ]

pub ue_associated-IsConsistent :
    (u : Users) (m n : Mme) (fd : ℕ) (msg : Message) (r_sid : ℕ)
    → IsConsistent m
    → is_procedure msg id_initial_ue_message initiating_message ≡ false
    → ue_associated u m fd msg r_sid ≡ some n
    → IsConsistent n
ue_associated-IsConsistent u m n fd msg r_sid w other h =
    elim (ue_associated-cases u m n fd msg r_sid w h) [
      | inl same ↦ rw (← same) w
      | inr (s, o, live, here, enb, mme, taken, stored) ↦
          store_outcome-IsConsistent m n s.mme_ue_id s o w live
            (session_process_msg-SamePlace u s msg r_sid o other taken) stored
    ]
