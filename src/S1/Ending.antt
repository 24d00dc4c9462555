-- ===== src/S1/Ending.antt =====
-- mme/S1/S1Assoc.c and S1Assoc_Active.c: a reset, and the end of an association.
use aalto_mme.Prelude.{
  ℕ, ◌≡◌, ◌≢◌, ◌↔◌, ◌∙◌, refl, sym, ap, arith, true, false, none, some, List, [], ◌∷◌, ◌++◌, ◌==◌,
  inl, inr, Option-cases, bit_and, store,
}
use aalto_mme.S1ap.Message.{Message, ConnectionItem, ResetType, find, as_reset}
use aalto_mme.S1.Session.{Session, Effect, Users}
use aalto_mme.S1.Store.{
  Entry, Assoc, Mme, ◌>>=◌, emit, contains, lookup_entry, set_entry, deregister_in_assoc,
  deregister_ecm,
}
use aalto_mme.S1.Association.{Config, id_reset_type, set_assoc, send_non_ue, deregister_assoc}
use aalto_mme.S1.Machine.{
  Event, named_session, reset_item, reset_sessions, reset_ecm, process_reset, reset_ack, teardown,
  step, foreach_remove,
}
use aalto_mme.S1.Links.{IsConsistent, node, lookup_entry-IsConsistent, store_at, store_apart}
use aalto_mme.S1.Release.{>>=-eq-some, reset_ecm-Freed, Leaves}
use aalto_mme.S1.Empty.{foreach_remove-Leaves}
use aalto_mme.S1.Closing.{reset_ecm-Frees, deregister_ecm-Frees}

-- The order in which a table is gone through has every identity of it.
abbrev pub Visits : Mme → ℕ → List ℕ → Type 0
Visits m fd visit = (id : ℕ) (e : Entry) → m.tables fd id ≡ some e → contains visit id ≡ true

-- The sessions of one association are gone, and the others are as they were.
abbrev pub LeavesOthers : Mme → Mme → ℕ → Type 0
LeavesOthers m n fd =
    (k : ℕ) (s : Session) → (n.sessions k ≡ some s) ↔ ((m.sessions k ≡ some s) × (s.assoc ≢ fd))

Leaves-all :
    (m n : Mme) (fd : ℕ) (visit : List ℕ)
    → IsConsistent m
    → Visits m fd visit
    → Leaves m n fd visit
    → LeavesOthers m n fd
Leaves-all m n fd visit w visits leaves k s = (
  λ h.
      let (there, out) = (leaves k s).0 h in
      (
        there,
        λ at. out (
          at,
          visits s.enb_ue_id (node k)
              (ap (λ a. m.tables a s.enb_ue_id) (sym at) ∙ (w.session_node k s there).2),
        ),
      ),
  λ h. (leaves k s).1 (h.0, λ at. h.1 at.0),
)

-- A reset of all that comes on linked tables, where the order has every identity of the table: it
-- is carried out without a fault, leaves the tables linked, and no session of the association is
-- left, while those of the others are as they were; and the last that is sent is the
-- acknowledgement, on the stream that is for no user.
pub process_reset-reset_all :
    (m : Mme) (fd : ℕ) (a : Assoc) (visit : List ℕ) (msg : Message)
    → IsConsistent m
    → Visits m fd visit
    → find as_reset msg id_reset_type ≡ some ResetType.reset_all
    → (n : Mme) × (process_reset m fd a visit msg ≡ some n)
      × IsConsistent n
      × LeavesOthers m n fd
      × ((before : List Effect) × (n.effects
            ≡ before ++ (Effect.send fd a.nonue_rsid (reset_ack ResetType.reset_all) ∷ [])))
unfolding process_reset reset_sessions send_non_ue emit
process_reset-reset_all m fd a visit msg w visits asked =
    let (o, ends, linked, leaves, same) =
      foreach_remove-Leaves reset_ecm reset_ecm-Frees m fd visit w in
    (
      send_non_ue o fd a (reset_ack ResetType.reset_all),
      rw (asked, process_reset) (rw ends refl),
      linked,
      Leaves-all m o fd visit w visits leaves,
      (o.effects, refl),
    )

teardown-some :
    (m o : Mme) (fd : ℕ) (a : Assoc) (visit : List ℕ)
    → m.assocs fd ≡ some a
    → foreach_remove deregister_ecm
        (record m { by_genbid = deregister_assoc m.by_genbid a.global_enb_id })
        fd
        visit
      ≡ some o
    → teardown m fd visit ≡ some (set_assoc o fd none)
unfolding teardown
teardown-some m o fd a visit there ends = rw (there, teardown) (rw ends refl)

-- When the connection of an association with linked tables is closed, and the order has every
-- identity of its table, it is gone with all its sessions, without a fault; the tables are linked
-- and the sessions of the others are as they were.
pub step-closed :
    (u : Users) (c : Config) (m : Mme) (fd : ℕ) (a : Assoc) (visit : List ℕ)
    → IsConsistent m
    → Visits m fd visit
    → m.assocs fd ≡ some a
    → (n : Mme) × (step u c m (Event.closed fd visit) ≡ some n)
      × IsConsistent n
      × (n.assocs fd ≡ none)
      × LeavesOthers m n fd
unfolding step set_assoc
step-closed u c m fd a visit w visits there =
    let left : Mme = record m { by_genbid = deregister_assoc m.by_genbid a.global_enb_id } in
    let (o, ends, linked, leaves, same) =
      foreach_remove-Leaves deregister_ecm deregister_ecm-Frees left fd visit w in
    (
      set_assoc o fd none,
      teardown-some m o fd a visit there ends,
      linked,
      store_at o.assocs fd fd none refl,
      Leaves-all m o fd visit w visits leaves,
    )

-- What is taken out of the table of another association.
deregister_in_assoc-apart :
    (m o : Mme) (fd id other : ℕ)
    → IsConsistent m
    → other ≢ fd
    → deregister_in_assoc m fd id ≡ some o
    → (o.sessions ≡ m.sessions) × (o.tables other id ≡ m.tables other id)
unfolding deregister_in_assoc set_entry
deregister_in_assoc-apart m o fd id other w apart h =
    let looked = lookup_entry-IsConsistent m fd id w in
    elim (Option-cases (m.tables fd id)) [
      | inl e ↦
          let same : m ≡ o = ground (arith, looked, e) in
          (ap (λ x. x.sessions) (sym same), ap (λ x. x.tables other id) (sym same))
      | inr (x, e) ↦
          let state : set_entry m fd id none ≡ o = ground (arith, looked, e) in
          (
            ap (λ x. x.sessions) (sym state),
            ap (λ x. x.tables other id) (sym state)
                ∙ ap (λ t. t id)
                    (store_apart m.tables fd other (store (m.tables fd) id none) apart),
          )
    ]

named_session-foreign :
    (m : Mme) (fd k : ℕ) (s : Session) (item : ConnectionItem)
    → m.sessions k ≡ some s
    → item.opt ≡ 0x80
    → item.mme_ue ≡ some k
    → named_session m fd item ≡ some (some s)
unfolding named_session
named_session-foreign m fd k s item live bits named =
    let by_mme : (bit_and item.opt 0x40 == 0x40) ≡ false = rw bits refl in
    let marked : (bit_and item.opt 0x80 == 0x80) ≡ true = rw bits refl in
    rw (by_mme, marked) (rw (named, named_session) (rw live refl))

-- The code as it is: on linked tables, an item of a reset that names, by the identity of the MME, a
-- session of another association frees that session, and leaves its node there: looking up the
-- identity of the session in its association then reads the session that was freed.
pub reset_item-foreign :
    (m n : Mme) (fd k : ℕ) (s : Session) (item : ConnectionItem)
    → IsConsistent m
    → m.sessions k ≡ some s
    → s.assoc ≢ fd
    → item.opt ≡ 0x80
    → item.mme_ue ≡ some k
    → reset_item m fd item ≡ some n
    → (n.sessions k ≡ none) × (lookup_entry n s.assoc s.enb_ue_id ≡ none)
unfolding reset_item lookup_entry
reset_item-foreign m n fd k s item w live apart bits named h =
    let own = w.session_node k s live in
    let found = named_session-foreign m fd k s item live bits named in
    let opened : (deregister_in_assoc m fd s.enb_ue_id >>= λ o. reset_ecm o s) ≡ some n =
      ground (arith, found) in
    let (o, first, last) =
      >>=-eq-some (deregister_in_assoc m fd s.enb_ue_id) (λ o. reset_ecm o s) opened in
    let (sessions, nodes) = deregister_in_assoc-apart m o fd s.enb_ue_id s.assoc w apart first in
    let f = reset_ecm-Freed o s n last in
    let gone : n.sessions k ≡ none =
      ap (λ g. g k) f.gone ∙ store_at o.sessions s.mme_ue_id k none (sym own.0) in
    let left : n.tables s.assoc s.enb_ue_id ≡ some (node k) =
      ap (λ t. t s.assoc s.enb_ue_id) f.nodes ∙ nodes ∙ own.2 in
    (gone, rw (left, lookup_entry) (rw gone refl))
