-- ===== src/S1/Links.antt =====
-- mme/S1/S1Assoc.c and mme/S1/ECMSession.c: the tables of the associations and the sessions point at
-- one another.
use aalto_mme.Prelude.{
  ℕ, ◌≡◌, ◌≢◌, ◌∙◌, refl, sym, ap, arith, true, none, some, List, [], ◌∷◌, ◌==◌, ◌&&◌, Option,
  if◌then◌else◌, Bool-cases, inl, inr, Mem, store,
}
use aalto_mme.S1.Session.{Session}
use aalto_mme.S1.Store.{Entry, Mme, contains, free_local_ue_id, lookup_entry}

-- The node of a session.
abbrev pub node : ℕ → Entry
node k = record { owner = k; value = k }

-- Every node has a session as its key and its value, which is in this association under this
-- identity; every session is found under its identity, which is one of `ids`, has its node, and has
-- a user.
pub record IsLinked (sessions : Mem (Option Session)) (tables : Mem (Mem (Option Entry)))
    (ids : List ℕ) : Type 0 where
  pub node_session :
      (fd id : ℕ) (e : Entry)
      → tables fd id ≡ some e
      → (s : Session) × (e ≡ node s.mme_ue_id)
        × (sessions s.mme_ue_id ≡ some s)
        × (s.assoc ≡ fd)
        × (s.enb_ue_id ≡ id)
  pub session_node :
      (k : ℕ) (s : Session)
      → sessions k ≡ some s
      → (s.mme_ue_id ≡ k)
        × (contains ids k ≡ true)
        × (tables s.assoc s.enb_ue_id ≡ some (node k))
        × (s.emm ≢ none)

-- 0 is the identity of a session when all others are taken.
abbrev pub IsConsistent : Mme → Type 0
IsConsistent m = IsLinked m.sessions m.tables (0 ∷ m.local_ids)

-- In linked tables no lookup reads a freed session, and it finds what the table has.
pub lookup_entry-IsConsistent :
    (m : Mme) (fd id : ℕ) → IsConsistent m → lookup_entry m fd id ≡ some (m.tables fd id)
unfolding lookup_entry
lookup_entry-IsConsistent m fd id w = found (m.tables fd id) refl
  where
    found : (o : Option Entry) → m.tables fd id ≡ o → lookup_entry m fd id ≡ some (m.tables fd id)
    found none h = rw (h, lookup_entry) refl
    found (some e) h =
        let (s, key, live, here, ident) = w.node_session fd id e h in
        let owner : m.sessions e.owner ≡ some s = rw key live in
        let same : (s.enb_ue_id == id) ≡ true = ground arith in
        rw (h, lookup_entry) (rw (owner, lookup_entry) (rw same refl))

pub contains-free_local_ue_id :
    (ids : List ℕ) (j k : ℕ)
    → j ≢ k
    → contains ids j ≡ true
    → contains (free_local_ue_id ids k) j ≡ true
unfolding contains free_local_ue_id
contains-free_local_ue_id [] j k ne h = h
contains-free_local_ue_id (x ∷ xs) j k ne h = ground (arith, contains-free_local_ue_id xs j k ne)

pub store_at {ℓ} : {A : Type ℓ} (m : Mem A) (k j : ℕ) (a : A) → j ≡ k → store m k a j ≡ a
unfolding store
store_at m k j a h = ground arith

pub store_apart {ℓ} : {A : Type ℓ} (m : Mem A) (k j : ℕ) (a : A) → j ≢ k → store m k a j ≡ m j
unfolding store
store_apart m k j a h = ground arith

one_session :
    (sessions : Mem (Option Session)) (j k : ℕ) (r s : Session)
    → sessions j ≡ some r
    → sessions k ≡ some s
    → j ≡ k
    → r ≡ s
one_session sessions j k r s hr hs e =
    let both : some r ≡ some s = sym hr ∙ ap sessions e ∙ hs in cc

-- A node that is set or taken away.
abbrev pub put : Mem (Mem (Option Entry)) → ℕ → ℕ → Option Entry → Mem (Mem (Option Entry))
put tables fd id e = store tables fd (store (tables fd) id e)

pub put_lem :
    (tables : Mem (Mem (Option Entry))) (fd id : ℕ) (e : Option Entry) (fd' id' : ℕ)
    → put tables fd id e fd' id' ≡ (if fd' == fd && id' == id then e else tables fd' id')
unfolding store
put_lem tables fd id e fd' id' = elim (Bool-cases (fd' == fd)) [
  | inl h ↦
      let same : fd' ≡ fd = ground arith in
      rw h (elim (Bool-cases (id' == id)) [
        | inl k ↦ rw k refl
        | inr k ↦ rw k (ap (λ x. tables x id') (sym same))
      ])
  | inr h ↦ rw h refl
]

module _ {sessions : Mem (Option Session)} {tables : Mem (Mem (Option Entry))} {ids : List ℕ}
    (w : IsLinked sessions tables ids) where
  pub IsLinked-more :
      (more : List ℕ)
      → ((j : ℕ) → contains ids j ≡ true → contains more j ≡ true)
      → IsLinked sessions tables more
  IsLinked-more more grows = record {
    node_session = w.node_session;
    session_node =
        λ k s live. (let its = w.session_node k s live in (its.0, grows k its.1, its.2, its.3));
  }

  -- A session that keeps its identities and its association.
  pub IsLinked-update :
      (k : ℕ) (s t : Session)
      → sessions k ≡ some s
      → t.mme_ue_id ≡ s.mme_ue_id
      → t.assoc ≡ s.assoc
      → t.enb_ue_id ≡ s.enb_ue_id
      → t.emm ≡ s.emm
      → IsLinked (store sessions k (some t)) tables ids
  unfolding store
  IsLinked-update k s t live mme assoc enb user =
      let own : s.mme_ue_id ≡ k = (w.session_node k s live).0 in
      record {
        node_session = λ fd id e h.
            (let (r, key, there, here, ident) = w.node_session fd id e h in
              elim (Bool-cases (r.mme_ue_id == k)) [
                | inl e1 ↦
                    let same : r ≡ s =
                      one_session sessions r.mme_ue_id k r s there live (ground arith) in
                    (
                      t,
                      key ∙ ap (λ (x : Session). node x.mme_ue_id) same ∙ ap node (sym mme),
                      store_at sessions k t.mme_ue_id (some t) (omega (arith, mme, own)),
                      assoc ∙ ap (λ (x : Session). x.assoc) (sym same) ∙ here,
                      enb ∙ ap (λ (x : Session). x.enb_ue_id) (sym same) ∙ ident,
                    )
                | inr e1 ↦ (r, key, rw e1 there, here, ident)
              ]);
        session_node = λ j r h. (elim (Bool-cases (j == k)) [
          | inl e ↦
              let it : t ≡ r = ground (arith, store_at sessions k j (some t)) in
              let its = w.session_node k s live in
              rw (← it) (
                ground arith,
                ground (arith, ap (contains ids), its),
                ground (arith, its),
                λ lost. its.3 (sym user ∙ lost),
              )
          | inr e ↦ w.session_node j r (sym (store_apart sessions k j (some t) (ground arith)) ∙ h)
        ]);
      }

  -- A session that is taken away with its node.
  pub IsLinked-remove :
      (k : ℕ) (s : Session) (left : List ℕ)
      → sessions k ≡ some s
      → ((j : ℕ) → j ≢ k → contains ids j ≡ true → contains left j ≡ true)
      → IsLinked (store sessions k none) (put tables s.assoc s.enb_ue_id none) left
  IsLinked-remove k s left live others =
      let own = w.session_node k s live in
      record {
        node_session = λ fd id e h.
            (let was : tables fd id ≡ some e =
                ground (arith, put_lem tables s.assoc s.enb_ue_id none fd id) in
              let (r, key, there, here, ident) = w.node_session fd id e was in
              elim (Bool-cases (r.mme_ue_id == k)) [
                | inl e1 ↦
                    let same : r ≡ s =
                      one_session sessions r.mme_ue_id k r s there live (ground arith) in
                    absurd (ground (arith, put_lem tables s.assoc s.enb_ue_id none fd id, same))
                | inr e1 ↦ (
                  r,
                  key,
                  store_apart sessions k r.mme_ue_id none (ground arith) ∙ there,
                  here,
                  ident,
                )
              ]);
        session_node = λ j r h.
            (let apart : j ≢ k = λ e. ground (arith, store_at sessions k j none e) in
              let there : sessions j ≡ some r = sym (store_apart sessions k j none apart) ∙ h in
              let its = w.session_node j r there in
              (
                its.0,
                others j apart its.1,
                ground
                    (arith, put_lem tables s.assoc s.enb_ue_id none r.assoc r.enb_ue_id, its, own),
                its.3,
              ));
      }

  -- A session that is new, or takes another place, with a node where there was none.
  pub IsLinked-add :
      (s : Session)
      → sessions s.mme_ue_id ≡ none
      → contains ids s.mme_ue_id ≡ true
      → tables s.assoc s.enb_ue_id ≡ none
      → s.emm ≢ none
      → IsLinked
          (store sessions s.mme_ue_id (some s))
          (put tables s.assoc s.enb_ue_id (some (node s.mme_ue_id)))
          ids
  IsLinked-add s fresh used free user = record {
    node_session = λ fd id e h. (elim (Bool-cases (fd == s.assoc && id == s.enb_ue_id)) [
      | inl at ↦
          let placed : some (node s.mme_ue_id) ≡ some e =
            ground (arith, put_lem tables s.assoc s.enb_ue_id (some (node s.mme_ue_id)) fd id) in
          (
            s,
            cc,
            store_at sessions s.mme_ue_id s.mme_ue_id (some s) refl,
            ground arith,
            ground arith,
          )
      | inr away ↦
          let was : tables fd id ≡ some e =
            ground (arith, put_lem tables s.assoc s.enb_ue_id (some (node s.mme_ue_id)) fd id) in
          let (r, key, there, here, ident) = w.node_session fd id e was in
          let apart : r.mme_ue_id ≢ s.mme_ue_id = λ same. ground (arith, ap sessions same) in
          (r, key, store_apart sessions s.mme_ue_id r.mme_ue_id (some s) apart ∙ there, here, ident)
    ]);
    session_node = λ j r h. (elim (Bool-cases (j == s.mme_ue_id)) [
      | inl at ↦
          let it : r ≡ s = ground (arith, store_at sessions s.mme_ue_id j (some s)) in
          rw it (
            ground arith,
            ground (arith, ap (contains ids)),
            ground (
              arith,
              put_lem tables s.assoc s.enb_ue_id (some (node s.mme_ue_id)) s.assoc s.enb_ue_id,
            ),
            user,
          )
      | inr away ↦
          let there : sessions j ≡ some r =
            sym (store_apart sessions s.mme_ue_id j (some s) (ground arith)) ∙ h in
          let its = w.session_node j r there in
          (
            its.0,
            its.1,
            ground (
              arith,
              put_lem tables s.assoc s.enb_ue_id (some (node s.mme_ue_id)) r.assoc r.enb_ue_id,
              its,
            ),
            its.3,
          )
    ]);
  }
