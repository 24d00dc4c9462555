-- ===== src/S1/SetupTests.antt =====
-- mme/S1/S1Assoc_NotConfigured.c: what becomes of a setup request, with the tests as the code makes them.
use aalto_mme.Prelude.{
  ℕ, ◌≡◌, ◌↔◌, ◌∙◌, refl, sym, arith, true, false, none, some, List, ◌==◌, ◌&&◌, ◌||◌, not, Option,
  Bool, if◌then◌else◌, Bool-cases, inl, inr, Option-cases,
}
use aalto_mme.S1ap.Message.{Message, SupportedTa, find, get_ie, as_global_enb_id, as_supported_tas}
use aalto_mme.S1.Session.{initiating_message}
use aalto_mme.S1.Store.{MmeGlobalEnbId, Assoc, AssocState, Mme, emit}
use aalto_mme.S1.Association.{
  Config, id_s1_setup, id_global_enb_id, id_supported_tas, not_configured_process_msg, note_request,
  globale_nbid_fill, configure, contains_supported_tas, set_assoc, send_non_ue,
}
use aalto_mme.S1.Links.{store_at}
use aalto_mme.S1.Closing.{some_eq}

-- What makes a setup request of a message: the code takes any initiating message, and any message
-- of the setup procedure.
abbrev pub is_setup : Message → Bool
is_setup msg = msg.procedure_code == id_s1_setup || msg.choice == initiating_message

abbrev pub tas_of : Message → Option (List SupportedTa)
tas_of msg = elim (get_ie msg.ies id_supported_tas) [ none ↦ none | some r ↦ as_supported_tas r.0 ]

-- Whether the code accepts a setup request, and whether it is refused.
abbrev pub is_accepted : Config → Message → Bool
is_accepted c msg =
    is_setup msg
    && elim (tas_of msg) [ none ↦ false | some t ↦ contains_supported_tas c.served_plmns t ]

abbrev pub is_refused : Config → Message → Bool
is_refused c msg =
    is_setup msg
    && elim (tas_of msg) [ none ↦ false | some t ↦ not (contains_supported_tas c.served_plmns t) ]

-- What becomes of an association that is not configured, with the tests as the code computes them.
abbrev pub Tested : Config → Mme → ℕ → Assoc → Message → ℕ → Mme × Bool → Type 0
Tested c m fd a msg r_sid r =
    ((b : Assoc) × (r.0.assocs fd ≡ some b)
      × (b.state ≡ (if is_accepted c msg then AssocState.active else AssocState.not_configured))
      × (b.nonue_rsid ≡ r_sid)
      × (is_setup msg ≡ false → b ≡ record a { nonue_rsid = r_sid }))
    × (r.1 ≡ is_refused c msg)
    × (r.0.sessions ≡ m.sessions)

configure-Tested :
    (c : Config) (m : Mme) (fd : ℕ) (a : Assoc) (g : MmeGlobalEnbId) (t : List SupportedTa)
    (msg : Message) (old : Assoc) (r_sid : ℕ)
    → a.state ≡ AssocState.not_configured
    → a.nonue_rsid ≡ r_sid
    → is_setup msg ≡ true
    → tas_of msg ≡ some t
    → Tested c m fd old msg r_sid (configure c m fd a g t)
unfolding configure set_assoc send_non_ue emit
configure-Tested c m fd a g t msg old r_sid idle stream setup tas =
    elim (Bool-cases (contains_supported_tas c.served_plmns t)) [
      | inl e ↦ rw e (
        (
          record a { state = AssocState.active },
          store_at m.assocs fd fd _ refl,
          ground (arith, setup, tas, e),
          stream,
          λ other. absurd (ground (arith, setup, other)),
        ),
        ground (arith, setup, tas, e),
        refl,
      )
      | inr e ↦ rw e (
        (
          a,
          store_at m.assocs fd fd _ refl,
          idle ∙ ground (arith, setup, tas, e),
          stream,
          λ other. absurd (ground (arith, setup, other)),
        ),
        ground (arith, setup, tas, e),
        refl,
      )
    ]

pub not_configured_process_msg-Tested :
    (c : Config) (m : Mme) (fd : ℕ) (a : Assoc) (msg : Message) (r_sid : ℕ)
    → a.state ≡ AssocState.not_configured
    → ((not_configured_process_msg c m fd a msg r_sid ≡ none)
        ↔ ((is_setup msg ≡ true) × (find as_global_enb_id msg id_global_enb_id ≡ none)))
      × ((r : Mme × Bool)
          → not_configured_process_msg c m fd a msg r_sid ≡ some r
          → Tested c m fd a msg r_sid r)
unfolding not_configured_process_msg set_assoc note_request
not_configured_process_msg-Tested c m fd a msg r_sid idle =
    let streamed : Assoc = record a { nonue_rsid = r_sid } in
    elim (Bool-cases (is_setup msg)) [
      | inr e ↦
          let result : not_configured_process_msg c m fd a msg r_sid
              ≡ some (set_assoc m fd (some streamed), false) =
            ground (arith, e) in
          (
            (λ h. cc, λ h. cc),
            λ r h.
                let same : (set_assoc m fd (some streamed), false) ≡ r = some_eq (sym result ∙ h) in
                rw (← same) (
                  (
                    streamed,
                    store_at m.assocs fd fd _ refl,
                    idle ∙ ground (arith, e),
                    refl,
                    λ o. refl,
                  ),
                  ground (arith, e),
                  refl,
                ),
          )
      | inl e ↦ elim (Option-cases (find as_global_enb_id msg id_global_enb_id)) [
        | inl f ↦
            let result : not_configured_process_msg c m fd a msg r_sid ≡ none =
              ground (arith, e, f) in
            ((λ h. (e, f), λ h. result), λ r h. cc)
        | inr (g, f) ↦ elim (Option-cases (tas_of msg)) [
          | inl t ↦
              let b : Assoc = note_request streamed msg (globale_nbid_fill g) none in
              let result : not_configured_process_msg c m fd a msg r_sid
                  ≡ some (set_assoc m fd (some b), false) =
                ground (arith, e, f, t) in
              (
                (λ h. cc, λ h. cc),
                λ r h.
                    let same : (set_assoc m fd (some b), false) ≡ r = some_eq (sym result ∙ h) in
                    rw (← same) (
                      (
                        b,
                        store_at m.assocs fd fd _ refl,
                        idle ∙ ground (arith, e, t),
                        refl,
                        λ other. absurd (ground (arith, e, other)),
                      ),
                      ground (arith, e, t),
                      refl,
                    ),
              )
          | inr (tas, t) ↦
              let b : Assoc = note_request streamed msg (globale_nbid_fill g) (some tas) in
              let result : not_configured_process_msg c m fd a msg r_sid
                  ≡ some (configure c m fd b (globale_nbid_fill g) tas) =
                ground (arith, e, f, t) in
              (
                (λ h. cc, λ h. cc),
                λ r h.
                    let same : configure c m fd b (globale_nbid_fill g) tas ≡ r =
                      some_eq (sym result ∙ h) in
                    rw (← same) (
                      configure-Tested c m fd b (globale_nbid_fill g) tas msg a r_sid idle refl e
                        t),
              )
        ]
      ]
    ]
