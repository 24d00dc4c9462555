-- ===== src/S1/Steps.antt =====
-- mme/S1: a handover, a reset, the end of an association and every other step keep the tables
-- linked.
use aalto_mme.Prelude.{
  ℕ, ◌≡◌, ◌∙◌, refl, sym, ap, arith, none, some, List, [], ◌∷◌, ◌==◌, Option, if◌then◌else◌,
  Bool-cases, inl, inr, Mem, store, Option-cases, fun_ext, bit_and, subst, All,
}
use aalto_mme.S1ap.Message.{ConnectionItem, Message, find, as_ue_id, as_number, as_tai}
use aalto_mme.S1.Session.{Session, id_enb_ue_s1ap_id, id_eutran_cgi, id_tai}
use aalto_mme.S1.Store.{
  Mme, ◌>>=◌, emit, contains, set_entry, set_session, deregister_in_assoc, register_in_assoc,
}
use aalto_mme.S1.Association.{
  id_source_mme_ue_s1ap_id, path_switch, path_switch_request, finish_switch,
}
use aalto_mme.S1.Machine.{named_session, reset_item, reset_items, reset_ecm}
use aalto_mme.S1.Links.{
  IsLinked, IsConsistent, node, put, lookup_entry-IsConsistent, IsLinked-add, IsLinked-remove,
  store_at, put_lem,
}
use aalto_mme.S1.Release.{
  reset_ecm-Freed, >>=-eq-some, deregister_in_assoc-some, deregister_in_assoc-IsConsistent,
}
use aalto_mme.S1.Connection.{register_in_assoc-free}

store_twice {ℓ} : {A : Type ℓ} (m : Mem A) (k : ℕ) (a b : A) → store (store m k a) k b ≡ store m k b
unfolding store
store_twice m k a b = fun_ext (λ j. ground arith)

store_cases {ℓ} :
    {A : Type ℓ} (m : Mem A) (k j : ℕ) (a : A) → store m k a j ≡ (if j == k then a else m j)
unfolding store
store_cases m k j a = refl

All-map {ℓ κ} :
    {A : Type ℓ} {P Q : A → Type κ} (xs : List A) → ((x : A) → P x → Q x) → All P xs → All Q xs
All-map [] f h = tt
All-map (x ∷ xs) f h = (f x h.0, All-map xs f h.1)

-- A session that moves to a place where there is none.
IsLinked-move :
    (m : Mme) (s t : Session)
    → IsConsistent m
    → m.sessions s.mme_ue_id ≡ some s
    → t.mme_ue_id ≡ s.mme_ue_id
    → m.tables t.assoc t.enb_ue_id ≡ none
    → t.emm ≡ s.emm
    → IsLinked
        (store m.sessions s.mme_ue_id (some t))
        (put (put m.tables s.assoc s.enb_ue_id none) t.assoc t.enb_ue_id (some (node s.mme_ue_id)))
        (0 ∷ m.local_ids)
IsLinked-move m s t w live same free user =
    let k : ℕ = s.mme_ue_id in
    let left = IsLinked-remove w k s (0 ∷ m.local_ids) live (λ j apart used. used) in
    let room : put m.tables s.assoc s.enb_ue_id none t.assoc t.enb_ue_id ≡ none =
      ground (arith, put_lem m.tables s.assoc s.enb_ue_id none t.assoc t.enb_ue_id) in
    let added =
      IsLinked-add left t (store_at m.sessions k t.mme_ue_id none same)
        (ap (contains (0 ∷ m.local_ids)) same ∙ (w.session_node k s live).1) room
        (λ lost. (w.session_node k s live).3 (sym user ∙ lost)) in
    subst
      (λ x.
        IsLinked x (put (put m.tables s.assoc s.enb_ue_id none) t.assoc t.enb_ue_id (some (node k)))
          (0 ∷ m.local_ids))
      (store_twice m.sessions k none (some t))
      (subst
        (λ j.
          IsLinked (store (store m.sessions k none) j (some t))
            (put (put m.tables s.assoc s.enb_ue_id none) t.assoc t.enb_ue_id (some (node j)))
            (0 ∷ m.local_ids))
        same added)

finish_switch-some :
    (m n : Mme) (s : Session) (msg : Message)
    → finish_switch m s msg ≡ some n
    → (cell : ℕ) × (n.sessions ≡ store m.sessions s.mme_ue_id (some (record s { cell_id = cell })))
      × (n.tables ≡ m.tables)
      × (n.local_ids ≡ m.local_ids)
unfolding finish_switch set_session emit
finish_switch-some m n s msg h = elim (Option-cases (find as_number msg id_eutran_cgi)) [
  | inl e ↦ absurd (ground (arith, e))
  | inr (cell, e) ↦ (cell, ground (arith, e), ground (arith, e), ground (arith, e))
]

path_switch-IsConsistent :
    (m n : Mme) (k : ℕ) (s : Session) (fd : ℕ) (msg : Message) (r_sid enb : ℕ)
    (area : List ℕ × List ℕ)
    → IsConsistent m
    → m.sessions k ≡ some s
    → m.tables fd enb ≡ none
    → path_switch m s fd msg r_sid enb area ≡ some n
    → IsConsistent n
unfolding path_switch set_session set_entry
path_switch-IsConsistent m n k s fd msg r_sid enb area w live free h =
    let own = w.session_node k s live in
    let here : m.sessions s.mme_ue_id ≡ some s = ap m.sessions own.0 ∙ live in
    let moved : Session = record s {
      assoc = fd;
      r_sid = r_sid;
      enb_ue_id = enb;
      sn = area.0;
      tac = area.1;
    } in
    let left : Mme = set_entry m s.assoc s.enb_ue_id none in
    let placed : Mme = set_session left s.mme_ue_id (some moved) in
    let register : Mme → Option Mme = λ x.
      register_in_assoc (set_session x s.mme_ue_id (some moved)) fd moved >>= λ o.
      finish_switch o moved msg in
    let opened : (register_in_assoc placed fd moved >>= λ o. finish_switch o moved msg) ≡ some n =
      sym
        (ap (λ x. x >>= register) (deregister_in_assoc-some m s.assoc s.enb_ue_id (node k) w own.2))
      ∙ h in
    let (o, registered, last) =
      >>=-eq-some (register_in_assoc placed fd moved) (λ o. finish_switch o moved msg) opened in
    let room : placed.tables fd enb ≡ none =
      ground (arith, put_lem m.tables s.assoc s.enb_ue_id none fd enb) in
    let at = register_in_assoc-free placed o fd moved room registered in
    let (cell, sessions, tables, ids) = finish_switch-some o n moved msg last in
    let there : Session = record moved { cell_id = cell } in
    rw
      (
        sessions
            ∙ ap (λ (x : Mme). store x.sessions s.mme_ue_id (some there)) at
            ∙ store_twice m.sessions s.mme_ue_id (some moved) (some there),
        tables ∙ ap (λ (x : Mme). x.tables) at,
        ids ∙ ap (λ (x : Mme). x.local_ids) at,
      )
      (IsLinked-move m s there w here refl free refl)

-- What an identity that announces a connection, and an item of a reset, have to be.
abbrev pub IsNewPlace : Mme → ℕ → Message → Type 0
IsNewPlace m fd msg =
    (enb : ℕ) → find as_ue_id msg id_enb_ue_s1ap_id ≡ some enb → m.tables fd enb ≡ none

pub path_switch_request-IsConsistent :
    (m n : Mme) (fd : ℕ) (msg : Message) (r_sid : ℕ)
    → IsConsistent m
    → IsNewPlace m fd msg
    → path_switch_request m fd msg r_sid ≡ some n
    → IsConsistent n
unfolding path_switch_request
path_switch_request-IsConsistent m n fd msg r_sid w fresh h =
    elim (Option-cases (find as_ue_id msg id_source_mme_ue_s1ap_id)) [
      | inl e ↦ absurd (ground (arith, e))
      | inr (mme, e) ↦ elim (Option-cases (m.sessions mme)) [
        | inl f ↦ absurd (ground (arith, e, f))
        | inr (s, f) ↦ elim (Option-cases (find as_ue_id msg id_enb_ue_s1ap_id)) [
          | inl g ↦ absurd (ground (arith, e, f, g))
          | inr (enb, g) ↦ elim (Option-cases (find as_tai msg id_tai)) [
            | inl t ↦ absurd (ground (arith, e, f, g, t))
            | inr (area, t) ↦
                path_switch-IsConsistent m n mme s fd msg r_sid enb area w f (fresh enb g)
                  (ground (arith, e, f, g, t))
          ]
        ]
      ]
    ]

-- An item that names a session by the identity of the MME names one of the association.
abbrev pub IsOwn : Mme → ℕ → ConnectionItem → Type 0
IsOwn m fd item =
    (k : ℕ) (s : Session) → item.mme_ue ≡ some k → m.sessions k ≡ some s → s.assoc ≡ fd

pub named_session-own :
    (m : Mme) (fd : ℕ) (item : ConnectionItem) (s : Session)
    → IsConsistent m
    → IsOwn m fd item
    → named_session m fd item ≡ some (some s)
    → (m.sessions s.mme_ue_id ≡ some s) × (s.assoc ≡ fd)
unfolding named_session
named_session-own m fd item s w own h = elim (Bool-cases (bit_and item.opt 0x40 == 0x40)) [
  | inl e ↦ elim (Option-cases item.enb_ue) [
    | inl f ↦ absurd (ground (arith, e, f))
    | inr (enb, f) ↦
        let looked = lookup_entry-IsConsistent m fd enb w in
        elim (Option-cases (m.tables fd enb)) [
          | inl g ↦ absurd (ground (arith, e, f, g, looked))
          | inr (x, g) ↦
              let (r, key, live, here, ident) = w.node_session fd enb x g in
              let value : m.sessions x.value ≡ some r = rw key live in
              let same : r ≡ s = ground (arith, e, f, g, looked, value) in
              (rw (← same) live, rw (← same) here)
        ]
  ]
  | inr e ↦ elim (Bool-cases (bit_and item.opt 0x80 == 0x80)) [
    | inr f ↦ absurd (ground (arith, e, f))
    | inl f ↦ elim (Option-cases item.mme_ue) [
      | inl g ↦ absurd (ground (arith, e, f, g))
      | inr (k, g) ↦
          let live : m.sessions k ≡ some s = ground (arith, e, f, g) in
          (ap m.sessions (w.session_node k s live).0 ∙ live, own k s g live)
    ]
  ]
]

-- No session appears.
abbrev Shrinks : Mme → Mme → Type 0
Shrinks m n = (k : ℕ) (s : Session) → n.sessions k ≡ some s → m.sessions k ≡ some s

reset_item-IsConsistent :
    (m n : Mme) (fd : ℕ) (item : ConnectionItem)
    → IsConsistent m
    → IsOwn m fd item
    → reset_item m fd item ≡ some n
    → IsConsistent n × Shrinks m n
unfolding reset_item
reset_item-IsConsistent m n fd item w own h = elim (Option-cases (named_session m fd item)) [
  | inl e ↦ absurd (ground (arith, e))
  | inr (none, e) ↦
      let same : m ≡ n = ground (arith, e) in (rw (← same) w, λ k s live. rw same live)
  | inr (some s, e) ↦
      let (live, here) = named_session-own m fd item s w own e in
      let opened : (deregister_in_assoc m fd s.enb_ue_id >>= λ o. reset_ecm o s) ≡ some n =
        ground (arith, e) in
      let at : (deregister_in_assoc m s.assoc s.enb_ue_id >>= λ o. reset_ecm o s) ≡ some n =
        ap (λ a. deregister_in_assoc m a s.enb_ue_id >>= λ o. reset_ecm o s) here ∙ opened in
      let (linked, gone) =
        deregister_in_assoc-IsConsistent reset_ecm reset_ecm-Freed m n s.mme_ue_id s w live at in
      (
        linked,
        λ k r h.
            let without : store m.sessions s.mme_ue_id none k ≡ some r =
              sym (ap (λ f. f k) gone) ∙ h in
            ground (arith, store_cases m.sessions s.mme_ue_id k none),
      )
]

pub reset_items-IsConsistent :
    (m n : Mme) (fd : ℕ) (items : List ConnectionItem)
    → IsConsistent m
    → All (IsOwn m fd) items
    → reset_items m fd items ≡ some n
    → IsConsistent n
unfolding reset_items
reset_items-IsConsistent m n fd [] w own h = let same : m ≡ n = ground arith in rw (← same) w
reset_items-IsConsistent m n fd (item ∷ items) w own h =
    let (o, first, others) = >>=-eq-some (reset_item m fd item) (λ x. reset_items x fd items) h in
    let (linked, shrinks) = reset_item-IsConsistent m o fd item w own.0 first in
    reset_items-IsConsistent o n fd items linked
      (All-map items (λ i its k s named live. its k s named (shrinks k s live)) own.1) others
