-- ===== src/S1/Setup.antt =====
-- mme/S1/S1Assoc_NotConfigured.c: what becomes of a setup request.
use aalto_mme.Prelude.{
  ℕ, ◌≡◌, ◌↔◌, ◌∙◌, sym, ap, arith, true, false, none, some, List, Bool, if◌then◌else◌, Bool-cases,
  inl, inr, Option-cases,
}
use aalto_mme.S1ap.Message.{Message, SupportedTa, find, as_global_enb_id}
use aalto_mme.S1.Store.{Assoc, AssocState, Mme}
use aalto_mme.S1.Association.{
  Config, id_global_enb_id, not_configured_process_msg, contains_supported_tas,
}
use aalto_mme.S1.Served.{IsServed, contains_supported_tas-IsServed}
use aalto_mme.S1.SetupTests.{
  is_setup, tas_of, is_accepted, is_refused, Tested, not_configured_process_msg-Tested,
}

-- A setup request with areas of which one is served, and one with areas of which none is.
abbrev pub IsAccepted : Config → Message → Type 0
IsAccepted c msg =
    (is_setup msg ≡ true)
    × ((t : List SupportedTa) × (tas_of msg ≡ some t) × IsServed c.served_plmns t)

abbrev pub IsRefused : Config → Message → Type 0
IsRefused c msg =
    (is_setup msg ≡ true)
    × ((t : List SupportedTa) × (tas_of msg ≡ some t) × ¬ IsServed c.served_plmns t)

is_accepted-IsAccepted :
    (c : Config) (msg : Message) → (is_accepted c msg ≡ true) ↔ IsAccepted c msg
is_accepted-IsAccepted c msg = (found, back)
  where
    found : is_accepted c msg ≡ true → IsAccepted c msg
    found h = elim (Option-cases (tas_of msg)) [
      | inl e ↦ absurd (ground (arith, h, e, Bool-cases (is_setup msg)))
      | inr (t, e) ↦ (
        ground (arith, h, Bool-cases (is_setup msg)),
        (
          t,
          e,
          (contains_supported_tas-IsServed c.served_plmns t).0
              (ground (arith, h, e, Bool-cases (is_setup msg))),
        ),
      )
    ]

    back : IsAccepted c msg → is_accepted c msg ≡ true
    back (setup, (t, e, served)) =
        let holds = (contains_supported_tas-IsServed c.served_plmns t).1 served in
        ground (arith, setup, e, holds)

is_refused-IsRefused : (c : Config) (msg : Message) → (is_refused c msg ≡ true) ↔ IsRefused c msg
is_refused-IsRefused c msg = (found, back)
  where
    found : is_refused c msg ≡ true → IsRefused c msg
    found h = elim (Option-cases (tas_of msg)) [
      | inl e ↦ absurd (ground (arith, h, e, Bool-cases (is_setup msg)))
      | inr (t, e) ↦
          let none_served : contains_supported_tas c.served_plmns t ≡ false = ground (
            arith,
            h,
            e,
            Bool-cases (is_setup msg),
            Bool-cases (contains_supported_tas c.served_plmns t),
          ) in
          (
            ground (arith, h, Bool-cases (is_setup msg)),
            (
              t,
              e,
              λ served. absurd (
                  ground (
                    arith,
                    none_served,
                    (contains_supported_tas-IsServed c.served_plmns t).1 served,
                  )),
            ),
          )
    ]

    back : IsRefused c msg → is_refused c msg ≡ true
    back (setup, (t, e, unserved)) = elim (Bool-cases (contains_supported_tas c.served_plmns t)) [
      | inl f ↦ absurd (unserved ((contains_supported_tas-IsServed c.served_plmns t).0 f))
      | inr f ↦ ground (arith, setup, e, f)
    ]

-- What becomes of an association that is not configured.
abbrev pub Configured : Config → Mme → ℕ → Assoc → Message → ℕ → Mme × Bool → Type 0
Configured c m fd a msg r_sid r =
    ((b : Assoc) × (r.0.assocs fd ≡ some b)
      × ((b.state ≡ AssocState.active) ↔ IsAccepted c msg)
      × (b.nonue_rsid ≡ r_sid)
      × (is_setup msg ≡ false → b ≡ record a { nonue_rsid = r_sid }))
    × ((r.1 ≡ true) ↔ IsRefused c msg)
    × (r.0.sessions ≡ m.sessions)

idle-ne-active : ¬ (AssocState.not_configured ≡ AssocState.active)
idle-ne-active h = ground (arith, h)

active-IsAccepted :
    (c : Config) (msg : Message) (x : AssocState)
    → x ≡ (if is_accepted c msg then AssocState.active else AssocState.not_configured)
    → (x ≡ AssocState.active) ↔ IsAccepted c msg
active-IsAccepted c msg x h =
    let (found, back) = is_accepted-IsAccepted c msg in
    (
      λ active. elim (Bool-cases (is_accepted c msg)) [
        | inl e ↦ found e
        | inr e ↦
            let idle : x ≡ AssocState.not_configured =
              h ∙ ap (λ t. if t then AssocState.active else AssocState.not_configured) e in
            absurd (idle-ne-active (sym idle ∙ active))
      ],
      λ accepted.
          h ∙ ap (λ t. if t then AssocState.active else AssocState.not_configured) (back accepted),
    )

Tested-Configured :
    (c : Config) (m : Mme) (fd : ℕ) (a : Assoc) (msg : Message) (r_sid : ℕ) (r : Mme × Bool)
    → Tested c m fd a msg r_sid r
    → Configured c m fd a msg r_sid r
Tested-Configured c m fd a msg r_sid r ((b, there, state, stream, other), given_up, kept) =
    let (found, back) = is_refused-IsRefused c msg in
    (
      (b, there, active-IsAccepted c msg b.state state, stream, other),
      (λ h. found (sym given_up ∙ h), λ h. given_up ∙ back h),
      kept,
    )

-- For an association that is not configured, a message is a fault exactly when it is taken for a
-- setup request, which any initiating message is, without the identity of the eNodeB. Otherwise the
-- association becomes active exactly when the message is a setup request with areas of which one has
-- a network that is equal to one of those the MME serves; it is given up exactly when it is one with
-- areas of which none has; it notes the stream of the message, and nothing else of it changes if the
-- message is not taken for a setup request; and no session changes.
pub not_configured_process_msg-Configured :
    (c : Config) (m : Mme) (fd : ℕ) (a : Assoc) (msg : Message) (r_sid : ℕ)
    → a.state ≡ AssocState.not_configured
    → ((not_configured_process_msg c m fd a msg r_sid ≡ none)
        ↔ ((is_setup msg ≡ true) × (find as_global_enb_id msg id_global_enb_id ≡ none)))
      × ((r : Mme × Bool)
          → not_configured_process_msg c m fd a msg r_sid ≡ some r
          → Configured c m fd a msg r_sid r)
not_configured_process_msg-Configured c m fd a msg r_sid idle =
    let (fault, result) = not_configured_process_msg-Tested c m fd a msg r_sid idle in
    (fault, λ r h. Tested-Configured c m fd a msg r_sid r (result r h))
