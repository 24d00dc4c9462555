-- ===== src/S1/Connection.antt =====
-- mme/S1/ECMSession.c: a new connection keeps the tables linked.
use aalto_mme.Prelude.{
  ℕ, zero, suc, ◌+◌, ◌⊎◌, refl, false, inl, inr, ◌==◌, Bool-cases, Option-cases, ◌≡◌, ◌≢◌, ◌∙◌, ap,
  arith, true, none, some, List, ◌∷◌, store, subst,
}
use aalto_mme.S1ap.Message.{Message, find, as_ue_id}
use aalto_mme.S1.Session.{
  Session, Effect, Users, is_procedure, idle_process_msg, connect, attach_user, initiating_message,
  id_initial_ue_message, id_enb_ue_s1ap_id,
}
use aalto_mme.S1.Store.{
  Mme, ◌>>=◌, emit, contains, first_free, new_local_ue_id, fresh_session, lookup_entry, set_entry,
  set_session, register_in_assoc, register_ecm, ecm_session_init,
}
use aalto_mme.S1.Links.{IsLinked, IsConsistent, node, put, IsLinked-add, IsLinked-more}
use aalto_mme.S1.Release.{>>=-eq-some}

idle_process_msg-place :
    (u : Users) (s : Session) (msg : Message) (r_sid : ℕ) (r : Session × List Effect)
    → is_procedure msg id_initial_ue_message initiating_message ≡ true
    → idle_process_msg u s msg r_sid ≡ some r
    → (r.0.mme_ue_id ≡ s.mme_ue_id)
      × (r.0.assoc ≡ s.assoc)
      × (find as_ue_id msg id_enb_ue_s1ap_id ≡ some r.0.enb_ue_id)
      × (r.0.emm ≢ none)
unfolding idle_process_msg connect attach_user
idle_process_msg-place u s msg r_sid r initial h = ground arith

new_local_ue_id-taken :
    (max_ue : ℕ) (taken : List ℕ)
    → (contains (0 ∷ (new_local_ue_id max_ue taken).1) (new_local_ue_id max_ue taken).0 ≡ true)
      × ((j : ℕ)
          → contains (0 ∷ taken) j ≡ true
          → contains (0 ∷ (new_local_ue_id max_ue taken).1) j ≡ true)
unfolding new_local_ue_id contains
new_local_ue_id-taken max_ue taken = (ground arith, λ j h. ground arith)

register_ecm-some :
    (m n : Mme) (s : Session)
    → m.sessions s.mme_ue_id ≡ none
    → register_ecm m s ≡ some n
    → n ≡ set_session m s.mme_ue_id (some s)
unfolding register_ecm
register_ecm-some m n s unused h = ground (arith, unused)

pub register_in_assoc-free :
    (m n : Mme) (fd : ℕ) (s : Session)
    → m.tables fd s.enb_ue_id ≡ none
    → register_in_assoc m fd s ≡ some n
    → n ≡ set_entry m fd s.enb_ue_id (some (node s.mme_ue_id))
unfolding register_in_assoc lookup_entry
register_in_assoc-free m n fd s free h = ground (arith, free)

first_free-free :
    (taken : List ℕ) (i left : ℕ)
    → (first_free taken i left ≡ 0) ⊎ (contains taken (first_free taken i left) ≡ false)
unfolding first_free
first_free-free taken i zero = inl refl
first_free-free taken i (suc left) = elim (Bool-cases (contains taken i)) [
  | inl e ↦ rw e (first_free-free taken (i + 1) left)
  | inr e ↦ rw e (inr e)
]

-- In linked tables no session has the identity that a new one gets, unless that is 0.
new_local_ue_id-unused :
    (max_ue : ℕ) (m : Mme)
    → IsConsistent m
    → ((new_local_ue_id max_ue m.local_ids).0 ≡ 0 → m.sessions 0 ≡ none)
    → m.sessions (new_local_ue_id max_ue m.local_ids).0 ≡ none
unfolding new_local_ue_id contains
new_local_ue_id-unused max_ue m w zero_free =
    let i : ℕ = first_free m.local_ids 1 max_ue in
    elim (Bool-cases (i == 0)) [
      | inl e ↦
          let none_left : (new_local_ue_id max_ue m.local_ids).0 ≡ 0 = ground (arith, e) in
          ap m.sessions none_left ∙ zero_free none_left
      | inr e ↦
          let given : (new_local_ue_id max_ue m.local_ids).0 ≡ i = ground (arith, e) in
          ap m.sessions given ∙ elim (Option-cases (m.sessions i)) [
            | inl g ↦ g
            | inr (s, g) ↦
                let known : contains (0 ∷ m.local_ids) i ≡ true = (w.session_node i s g).1 in
                elim (first_free-free m.local_ids 1 max_ue) [
                  | inl z ↦ absurd (ground (arith, e, z))
                  | inr f ↦ absurd (ground (arith, e, f, known))
                ]
          ]
    ]

pub ecm_session_init-IsConsistent :
    (u : Users) (max_ue : ℕ) (m n : Mme) (fd : ℕ) (msg : Message) (r_sid : ℕ)
    → IsConsistent m
    → is_procedure msg id_initial_ue_message initiating_message ≡ true
    → ((enb : ℕ) → find as_ue_id msg id_enb_ue_s1ap_id ≡ some enb → m.tables fd enb ≡ none)
    → ((new_local_ue_id max_ue m.local_ids).0 ≡ 0 → m.sessions 0 ≡ none)
    → ecm_session_init u max_ue m fd msg r_sid ≡ some n
    → IsConsistent n
unfolding ecm_session_init set_session set_entry emit fresh_session
ecm_session_init-IsConsistent u max_ue m n fd msg r_sid w initial fresh zero_free h =
    let i = new_local_ue_id max_ue m.local_ids in
    let (r, taken, stored) =
      >>=-eq-some (idle_process_msg u (fresh_session fd i.0 r_sid) msg r_sid)
        (λ r. register_ecm (emit (record m { local_ids = i.1 }) r.1) r.0 >>= λ o.
          register_in_assoc o fd r.0)
        h in
    let place = idle_process_msg-place u (fresh_session fd i.0 r_sid) msg r_sid r initial taken in
    let before : Mme = emit (record m { local_ids = i.1 }) r.1 in
    let (o, registered, last) =
      >>=-eq-some (register_ecm before r.0) (λ o. register_in_assoc o fd r.0) stored in
    let unused : m.sessions r.0.mme_ue_id ≡ none =
      ap m.sessions place.0 ∙ new_local_ue_id-unused max_ue m w zero_free in
    let set = register_ecm-some before o r.0 unused registered in
    let free : m.tables fd r.0.enb_ue_id ≡ none = fresh r.0.enb_ue_id place.2 in
    let free_o : o.tables fd r.0.enb_ue_id ≡ none =
      ap (λ (x : Mme). x.tables fd r.0.enb_ue_id) set ∙ free in
    let end = register_in_assoc-free o n fd r.0 free_o last in
    let ids = new_local_ue_id-taken max_ue m.local_ids in
    let added =
      IsLinked-add (IsLinked-more w (0 ∷ i.1) ids.1) r.0 unused
        (ap (contains (0 ∷ i.1)) place.0 ∙ ids.0)
        (ap (λ a. m.tables a r.0.enb_ue_id) place.1 ∙ free) place.3 in
    let state : n
        ≡ set_entry (set_session before r.0.mme_ue_id (some r.0)) fd r.0.enb_ue_id
            (some (node r.0.mme_ue_id)) =
      end ∙ ap (λ x. set_entry x fd r.0.enb_ue_id (some (node r.0.mme_ue_id))) set in
    rw state (
      subst
        (λ a.
          IsLinked (store m.sessions r.0.mme_ue_id (some r.0))
            (put m.tables a r.0.enb_ue_id (some (node r.0.mme_ue_id))) (0 ∷ i.1))
        place.1 added)
