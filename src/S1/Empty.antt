-- ===== src/S1/Empty.antt =====
-- mme/S1/S1Assoc.c and S1Assoc_Active.c: a table that is emptied. With linked tables no node on the
-- way leads to a session that was freed, so that the loop comes to its end.
use aalto_mme.Prelude.{
  ℕ, ◌≡◌, ◌≢◌, ◌∙◌, refl, sym, ap, arith, none, some, List, [], ◌∷◌, ◌==◌, Option, Bool-cases, inl,
  inr, Option-cases, subst,
}
use aalto_mme.S1.Session.{Session}
use aalto_mme.S1.Store.{Mme, contains, set_entry, deregister_ecm}
use aalto_mme.S1.Machine.{reset_ecm, remove_node, foreach_remove}
use aalto_mme.S1.Links.{IsConsistent, put}
use aalto_mme.S1.Release.{Freed, IsConsistent-removed, Leaves, Leaves-one}

-- How a session is freed: it is gone then, and nothing stops it where it has a user.
pub record Frees (free : Mme → Session → Option Mme) : Type 0 where
  pub freed : (m : Mme) (s : Session) (n : Mme) → free m s ≡ some n → Freed m s n
  pub succeeds : (m : Mme) (s : Session) → s.emm ≢ none → free m s ≢ none

pub deregister_ecm-ne-none : (m : Mme) (s : Session) → s.emm ≢ none → deregister_ecm m s ≢ none
unfolding deregister_ecm
deregister_ecm-ne-none m s user h = elim (Option-cases s.emm) [
  | inl e ↦ user e
  | inr (emm, e) ↦ ground (arith, e)
]

pub reset_ecm-ne-none : (m : Mme) (s : Session) → s.emm ≢ none → reset_ecm m s ≢ none
unfolding reset_ecm deregister_ecm
reset_ecm-ne-none m s user h = elim (Option-cases s.emm) [
  | inl e ↦ user e
  | inr (emm, e) ↦ ground (arith, e)
]

module _ (free : Mme → Session → Option Mme) (frees : Frees free) where
  -- One node.
  remove_node-Leaves :
      (m : Mme) (fd id : ℕ)
      → IsConsistent m
      → (n : Mme) × (remove_node free m fd id ≡ some n)
        × IsConsistent n
        × Leaves m n fd (id ∷ [])
        × (n.assocs ≡ m.assocs)
  unfolding remove_node set_entry contains
  remove_node-Leaves m fd id w = elim (Option-cases (m.tables fd id)) [
    | inl e ↦ (
      m,
      ground (arith, e),
      w,
      λ k s. (
        λ live. (
          live,
          λ at. ground (arith, w.session_node k s live, e, ap (λ a. m.tables a s.enb_ue_id) at.0),
        ),
        λ h. h.0,
      ),
      refl,
    )
    | inr (e, there) ↦
        let (s, key, live, here, ident) = w.node_session fd id e there in
        let value : m.sessions e.value ≡ some s = rw key live in
        let user : s.emm ≢ none = (w.session_node s.mme_ue_id s live).3 in
        elim (Option-cases (free m s)) [
          | inl stop ↦ absurd (frees.succeeds m s user stop)
          | inr (o, done) ↦
              let f = frees.freed m s o done in
              let n : Mme = set_entry o fd id none in
              (
                n,
                ground (arith, there, value, done),
                IsConsistent-removed m n s.mme_ue_id s w live f.gone
                    (ap (λ t. put t fd id none) f.nodes
                      ∙ ap (λ a. put m.tables a id none) (sym here)
                      ∙ ap (λ i. put m.tables s.assoc i none) (sym ident))
                    f.unused,
                subst (λ i. Leaves m n fd (i ∷ [])) ident
                    (subst (λ a. Leaves m n a (s.enb_ue_id ∷ [])) here
                      (Leaves-one m n s w live f.gone)),
                f.rest,
              )
        ]
  ]

  Leaves-append :
      (m o n : Mme) (fd id : ℕ) (ids : List ℕ)
      → Leaves m o fd (id ∷ [])
      → Leaves o n fd ids
      → Leaves m n fd (id ∷ ids)
  unfolding contains
  Leaves-append m o n fd id ids first others k s = (
    λ h.
        let (there, out) = (others k s).0 h in
        let (here, not_first) = (first k s).0 there in
        (
          here,
          λ at. elim (Bool-cases (id == s.enb_ue_id)) [
            | inl e ↦ not_first (at.0, rw e refl)
            | inr e ↦ out (at.0, ground (arith, e, at.1))
          ],
        ),
    λ h. (others k s).1 (
      (first k s).1 (h.0, λ at. h.1 (at.0, ground (arith, at.1))),
      λ at. h.1 (at.0, ground (arith, at.1)),
    ),
  )

  -- The table is emptied of the identities that are visited: the loop ends, the tables stay linked,
  -- and the sessions that are left are those of other associations or identities, as they were.
  pub foreach_remove-Leaves :
      (m : Mme) (fd : ℕ) (ids : List ℕ)
      → IsConsistent m
      → (n : Mme) × (foreach_remove free m fd ids ≡ some n)
        × IsConsistent n
        × Leaves m n fd ids
        × (n.assocs ≡ m.assocs)
  unfolding foreach_remove contains
  foreach_remove-Leaves m fd [] w = (m, refl, w, λ k s. (λ live. (live, λ at. cc), λ h. h.0), refl)
  foreach_remove-Leaves m fd (id ∷ ids) w =
      let (o, first, linked, leaves, same) = remove_node-Leaves m fd id w in
      let (n, others, linked_n, leaves_n, same_n) = foreach_remove-Leaves o fd ids linked in
      (
        n,
        rw (first, foreach_remove) others,
        linked_n,
        Leaves-append m o n fd id ids leaves leaves_n,
        same_n ∙ same,
      )
