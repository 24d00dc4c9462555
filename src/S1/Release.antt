-- ===== src/S1/Release.antt =====
-- mme/S1/S1Assoc.c, S1Assoc_Active.c and ECMSession.c: a session that is freed, alone, in a reset or
-- with its association, leaves the tables linked.
use aalto_mme.Prelude.{
  ℕ, ◌≡◌, ◌≢◌, ◌↔◌, ◌∙◌, refl, sym, ap, arith, true, none, some, List, [], ◌∷◌, ◌==◌, Option,
  Bool-cases, inl, inr, store, Option-cases,
}
use aalto_mme.S1.Session.{Session}
use aalto_mme.S1.Store.{
  Entry, Mme, ◌>>=◌, emit, contains, free_local_ue_id, lookup_entry, set_entry, set_session,
  deregister_in_assoc, deregister_ecm,
}
use aalto_mme.S1.Machine.{reset_ecm}
use aalto_mme.S1.Links.{
  IsConsistent, node, put, lookup_entry-IsConsistent, contains-free_local_ue_id, IsLinked-remove,
}

-- What it is to free a session: it and its identity are gone, and all else stays.
pub record Freed (m : Mme) (s : Session) (n : Mme) : Type 0 where
  pub gone : n.sessions ≡ store m.sessions s.mme_ue_id none
  pub nodes : n.tables ≡ m.tables
  pub unused : n.local_ids ≡ free_local_ue_id m.local_ids s.mme_ue_id
  pub rest : n.assocs ≡ m.assocs

pub deregister_ecm-Freed :
    (m : Mme) (s : Session) (n : Mme) → deregister_ecm m s ≡ some n → Freed m s n
unfolding deregister_ecm set_session emit
deregister_ecm-Freed m s n h = elim (Option-cases s.emm) [
  | inl e ↦ absurd (ground (arith, e))
  | inr (emm, e) ↦ ground (arith, e)
]

pub reset_ecm-Freed : (m : Mme) (s : Session) (n : Mme) → reset_ecm m s ≡ some n → Freed m s n
unfolding reset_ecm deregister_ecm set_session emit
reset_ecm-Freed m s n h = elim (Option-cases s.emm) [
  | inl e ↦ absurd (ground (arith, e))
  | inr (emm, e) ↦ ground (arith, e)
]

-- Inversion of a chain.
pub >>=-eq-some {ℓ κ} :
    {A : Type ℓ} {B : Type κ} (o : Option A) (f : A → Option B) {b : B}
    → (o >>= f) ≡ some b
    → (a : A) × (o ≡ some a) × (f a ≡ some b)
>>=-eq-some none f h = absurd (ground arith)
>>=-eq-some (some a) f h = (a, refl, h)

still_used :
    (ids : List ℕ) (j k : ℕ)
    → j ≢ k
    → contains (0 ∷ ids) j ≡ true
    → contains (0 ∷ free_local_ue_id ids k) j ≡ true
unfolding contains
still_used ids j k apart used = ground (arith, contains-free_local_ue_id ids j k)

-- A consistent state without one session and its node.
pub IsConsistent-removed :
    (m n : Mme) (k : ℕ) (s : Session)
    → IsConsistent m
    → m.sessions k ≡ some s
    → n.sessions ≡ store m.sessions s.mme_ue_id none
    → n.tables ≡ put m.tables s.assoc s.enb_ue_id none
    → n.local_ids ≡ free_local_ue_id m.local_ids s.mme_ue_id
    → IsConsistent n
IsConsistent-removed m n k s w live gone nodes unused =
    let own : m.sessions s.mme_ue_id ≡ some s = ap m.sessions (w.session_node k s live).0 ∙ live in
    rw (gone, nodes, unused)
      (IsLinked-remove w s.mme_ue_id s (0 ∷ free_local_ue_id m.local_ids s.mme_ue_id) own
        (λ j apart used. still_used m.local_ids j s.mme_ue_id apart used))

-- A node that is there is taken away.
pub deregister_in_assoc-some :
    (m : Mme) (fd id : ℕ) (e : Entry)
    → IsConsistent m
    → m.tables fd id ≡ some e
    → deregister_in_assoc m fd id ≡ some (set_entry m fd id none)
unfolding deregister_in_assoc
deregister_in_assoc-some m fd id e w h =
    let found : lookup_entry m fd id ≡ some (some e) =
      lookup_entry-IsConsistent m fd id w ∙ ap some h in
    rw (found, deregister_in_assoc) refl

-- The free of a session of an association, behind its node.
pub deregister_in_assoc-IsConsistent :
    (free : Mme → Session → Option Mme)
    → ((m : Mme) (s : Session) (n : Mme) → free m s ≡ some n → Freed m s n)
    → (m n : Mme) (k : ℕ) (s : Session) → IsConsistent m
    → m.sessions k ≡ some s
    → (deregister_in_assoc m s.assoc s.enb_ue_id >>= λ o. free o s) ≡ some n
    → IsConsistent n × (n.sessions ≡ store m.sessions s.mme_ue_id none)
unfolding set_entry
deregister_in_assoc-IsConsistent free frees m n k s w live h =
    let own = w.session_node k s live in
    let done : free (set_entry m s.assoc s.enb_ue_id none) s ≡ some n =
      sym (
        ap (λ o. o >>= λ x. free x s)
          (deregister_in_assoc-some m s.assoc s.enb_ue_id (node k) w own.2))
      ∙ h in
    let f = frees (set_entry m s.assoc s.enb_ue_id none) s n done in
    (IsConsistent-removed m n k s w live f.gone f.nodes f.unused, f.gone)

-- The sessions that are left are those that are not in the association under one of the identities.
abbrev pub Leaves : Mme → Mme → ℕ → List ℕ → Type 0
Leaves m n fd ids =
    (k : ℕ) (s : Session)
    → (n.sessions k ≡ some s)
      ↔ ((m.sessions k ≡ some s) × ¬ ((s.assoc ≡ fd) × (contains ids s.enb_ue_id ≡ true)))

-- Without one session, the others are as they were.
pub Leaves-one :
    (m n : Mme) (r : Session)
    → IsConsistent m
    → m.sessions r.mme_ue_id ≡ some r
    → n.sessions ≡ store m.sessions r.mme_ue_id none
    → Leaves m n r.assoc (r.enb_ue_id ∷ [])
unfolding contains store
Leaves-one m n r w live gone k s = (
  λ h.
      let here : store m.sessions r.mme_ue_id none k ≡ some s = sym (ap (λ f. f k) gone) ∙ h in
      let there : m.sessions k ≡ some s = ground arith in
      (
        there,
        λ at.
            let first : m.tables r.assoc r.enb_ue_id ≡ some (node r.mme_ue_id) =
              (w.session_node r.mme_ue_id r live).2 in
            let second : m.tables s.assoc s.enb_ue_id ≡ some (node k) =
              (w.session_node k s there).2 in
            let place : m.tables s.assoc s.enb_ue_id ≡ m.tables r.assoc r.enb_ue_id =
              ground arith in
            ground arith,
      ),
  λ h. ap (λ f. f k) gone ∙ elim (Bool-cases (k == r.mme_ue_id)) [
    | inl e ↦
        let key : k ≡ r.mme_ue_id = ground arith in
        let same : some s ≡ some r = sym h.0 ∙ ap m.sessions key ∙ live in
        absurd (h.1 (ground arith, ground arith))
    | inr e ↦ ground (arith, e, h.0)
  ],
)
