-- ===== src/Nas/MessagesRoundTrip.antt =====
-- NAS/src/NASMessages.c: the decoders against the layout of the messages in 3GPP TS 24.301.
use aalto_mme.Prelude.{
  ℕ, suc, ◌+◌, ◌*◌, ◌/◌, ◌%◌, ◌<◌, ◌≡◌, refl, sym, ap, ◌∙◌, arith, true, Option, List, [], ◌∷◌,
  ◌++◌, length, length-append, ◌==◌, Mem, read, Holds, get_u16, Bool-cases, inl, inr, IsU64, ==_iff,
}
use aalto_mme.Prelude.Bits.{low_nibble, high_nibble}
use aalto_mme.Gtp.Layout.{Holds-append}
use aalto_mme.Nas.Options.{
  Cursor, minus_size, Opt, dec_options, Chosen, option_bytes, stored_options, clash_free,
}
use aalto_mme.Nas.OptionsRoundTrip.{dec_options-option_bytes, dec_options_end}
use aalto_mme.Nas.Messages.{
  lv, lv_e, attach_request_options, optionals_at, dec_attach_request, tau_request_options,
  dec_tracking_area_update_request, pdn_connectivity_options, dec_pdn_connectivity_request,
}

-- A length octet and the value; two length octets and the value.
abbrev pub lv_bytes : List ℕ → List ℕ
lv_bytes v = length v ∷ v

abbrev pub lv_e_bytes : List ℕ → List ℕ
lv_e_bytes v = length v / 256 ∷ length v % 256 ∷ v

-- A value with a length octet, and where the octets behind it start.
lv-Holds :
    (mem : Mem ℕ) (p : ℕ) (v rest : List ℕ)
    → Holds mem p (lv_bytes v ++ rest)
    → (mem p ≡ length v) × (lv mem p ≡ v) × Holds mem (p + (mem p + 1)) rest
unfolding lv
lv-Holds mem p v rest r =
    let (own, later) = Holds-append mem p (lv_bytes v) rest r in
    let here : mem p ≡ length v = unfold read in ground arith in
    let body : read mem (p + 1) (length v) ≡ v = unfold read in ground arith in
    let next : p + suc (length v) ≡ p + (mem p + 1) = omega (arith, here) in
    (here, ap (read mem (p + 1)) here ∙ body, rw next at later)

lv_e-Holds :
    (mem : Mem ℕ) (p : ℕ) (v rest : List ℕ)
    → Holds mem p (lv_e_bytes v ++ rest)
    → (get_u16 mem p ≡ length v) × (lv_e mem p ≡ v) × Holds mem (p + 2 + get_u16 mem p) rest
unfolding lv_e
lv_e-Holds mem p v rest r =
    let (own, later) = Holds-append mem p (lv_e_bytes v) rest r in
    let here : get_u16 mem p ≡ length v = unfold read get_u16 in ground arith in
    let body : read mem (p + 2) (length v) ≡ v = unfold read in ground arith in
    let next : p + suc (suc (length v)) ≡ p + 2 + get_u16 mem p = omega (arith, here) in
    (here, ap (read mem (p + 2)) here ∙ body, rw next at later)

first_octet : (mem : Mem ℕ) (p b : ℕ) → Holds mem p (b ∷ []) → mem p ≡ b
unfolding read
first_octet mem p b r = ground arith

optionals_at-option_bytes :
    (mem : Mem ℕ) (table : List Opt) (es : List (Option (List ℕ))) (p size : ℕ)
    → clash_free table ≡ true
    → Chosen table es
    → Holds mem p (option_bytes es)
    → size ≡ length (option_bytes es)
    → IsU64 size
    → optionals_at mem table p size ≡ stored_options table es
unfolding optionals_at
optionals_at-option_bytes mem table es p size free f r s h =
    let c : Cursor = record { pos = p; size = size; opts = [] } in
    let all : (dec_options mem table c).opts ≡ stored_options table es =
      ap (λ (d : Cursor). d.opts) (dec_options-option_bytes mem table es c free f r s h) in
    elim (Bool-cases (size == 0)) [
      | inl end ↦ rw end (
          sym (ap (λ (d : Cursor). d.opts) (dec_options_end mem table c ((==_iff size 0).0 end)))
          ∙ all)
      | inr more ↦ rw more all
    ]

-- An attach request as the UE sends it, behind the message type.
abbrev pub attach_request_bytes : ℕ → ℕ → List ℕ → List ℕ → List ℕ → List (Option (List ℕ)) → List ℕ
attach_request_bytes type ksi id capability esm es =
    ((type + ksi * 16) ∷ [])
    ++ (lv_bytes id ++ (lv_bytes capability ++ (lv_e_bytes esm ++ option_bytes es)))

attach_table : clash_free attach_request_options ≡ true
attach_table = refl

-- An attach request is decoded into its fields and its optionals, for any selection of the
-- optionals in the order of the table.
pub dec_attach_request-bytes :
    (mem : Mem ℕ) (buffer s type ksi : ℕ) (id capability esm : List ℕ) (es : List (Option (List ℕ)))
    → type < 16
    → ksi < 16
    → Chosen attach_request_options es
    → Holds mem buffer (attach_request_bytes type ksi id capability esm es)
    → s ≡ length (attach_request_bytes type ksi id capability esm es)
    → IsU64 s
    → dec_attach_request mem buffer s ≡ record {
      eps_attach_type = type;
      nas_key_set_id = ksi;
      eps_mobile_id = id;
      ue_network_capability = capability;
      esm_message_container = esm;
      optionals = stored_options attach_request_options es;
    }
unfolding dec_attach_request
dec_attach_request-bytes mem buffer s type ksi id capability esm es ht hk f r sized h =
    let (own, r1) = Holds-append mem buffer ((type + ksi * 16) ∷ []) _ r in
    let head = first_octet mem buffer (type + ksi * 16) own in
    let id_at : ℕ = buffer + 1 in
    let (n2, v2, r2) = lv-Holds mem id_at id _ r1 in
    let cap_at : ℕ = id_at + (mem id_at + 1) in
    let (n3, v3, r3) = lv-Holds mem cap_at capability _ r2 in
    let esm_at : ℕ = cap_at + (mem cap_at + 1) in
    let (n4, v4, r4) = lv_e-Holds mem esm_at esm (option_bytes es) r3 in
    let left =
      minus_size
        (minus_size (minus_size (minus_size (minus_size s 1) (mem id_at + 1)) (mem cap_at + 1)) 2)
        (get_u16 mem esm_at) in
    let total : s
        ≡ 5 + (length id + (length capability + (length esm + length (option_bytes es)))) =
      omega (
        arith,
        length-append id (lv_bytes capability ++ (lv_e_bytes esm ++ option_bytes es)),
        length-append capability (lv_e_bytes esm ++ option_bytes es),
        length-append esm (option_bytes es),
      ) in
    let rest : left ≡ length (option_bytes es) = omega (arith, n2, n3, n4, total) in
    let opts =
      optionals_at-option_bytes mem attach_request_options es (esm_at + 2 + get_u16 mem esm_at) left
        attach_table f r4 rest (omega arith) in
    ground (arith, head, low_nibble (mem buffer), high_nibble (mem buffer), v2, v3, v4, opts)

-- A tracking area update request behind the message type.
abbrev pub tau_request_bytes : ℕ → ℕ → List ℕ → List (Option (List ℕ)) → List ℕ
tau_request_bytes type ksi guti es = ((type + ksi * 16) ∷ []) ++ (lv_bytes guti ++ option_bytes es)

tau_table : clash_free tau_request_options ≡ true
tau_table = refl

-- A tracking area update request is decoded into its fields and its optionals, for any selection of
-- the optionals in the order of the table.
dec_tau_request-bytes :
    (mem : Mem ℕ) (buffer s type ksi : ℕ) (guti : List ℕ) (es : List (Option (List ℕ)))
    → type < 16
    → ksi < 16
    → Chosen tau_request_options es
    → Holds mem buffer (tau_request_bytes type ksi guti es)
    → s ≡ length (tau_request_bytes type ksi guti es)
    → IsU64 s
    → dec_tracking_area_update_request mem buffer s ≡ record {
      eps_update_type = type;
      nas_key_set_id = ksi;
      old_guti = guti;
      optionals = stored_options tau_request_options es;
    }
unfolding dec_tracking_area_update_request
dec_tau_request-bytes mem buffer s type ksi guti es ht hk f r sized h =
    let (own, r1) = Holds-append mem buffer ((type + ksi * 16) ∷ []) _ r in
    let head = first_octet mem buffer (type + ksi * 16) own in
    let guti_at : ℕ = buffer + 1 in
    let (n2, v2, r2) = lv-Holds mem guti_at guti (option_bytes es) r1 in
    let left = minus_size (minus_size s 1) (mem guti_at + 1) in
    let total : s ≡ 2 + (length guti + length (option_bytes es)) =
      omega (arith, length-append guti (option_bytes es)) in
    let rest : left ≡ length (option_bytes es) = omega (arith, n2, total) in
    let opts =
      optionals_at-option_bytes mem tau_request_options es (guti_at + (mem guti_at + 1)) left
        tau_table f r2 rest (omega arith) in
    ground (arith, head, low_nibble (mem buffer), high_nibble (mem buffer), v2, opts)

-- A PDN connectivity request behind the transaction identity and the message type.
abbrev pub pdn_connectivity_bytes : ℕ → ℕ → List (Option (List ℕ)) → List ℕ
pdn_connectivity_bytes request pdn es = ((request + pdn * 16) ∷ []) ++ option_bytes es

pdn_table : clash_free pdn_connectivity_options ≡ true
pdn_table = refl

-- A PDN connectivity request is decoded into its fields and its optionals, for any selection of
-- the optionals in the order of the table.
dec_pdn_connectivity-bytes :
    (mem : Mem ℕ) (buffer s request pdn : ℕ) (es : List (Option (List ℕ)))
    → request < 16
    → pdn < 16
    → Chosen pdn_connectivity_options es
    → Holds mem buffer (pdn_connectivity_bytes request pdn es)
    → s ≡ length (pdn_connectivity_bytes request pdn es)
    → IsU64 s
    → dec_pdn_connectivity_request mem buffer s ≡ record {
      request_type = request;
      pdn_type = pdn;
      optionals = stored_options pdn_connectivity_options es;
    }
unfolding dec_pdn_connectivity_request
dec_pdn_connectivity-bytes mem buffer s request pdn es hr hp f r sized h =
    let (own, r1) = Holds-append mem buffer ((request + pdn * 16) ∷ []) (option_bytes es) r in
    let head = first_octet mem buffer (request + pdn * 16) own in
    let left = minus_size s 1 in
    let rest : left ≡ length (option_bytes es) = omega arith in
    let opts =
      optionals_at-option_bytes mem pdn_connectivity_options es (buffer + 1) left pdn_table f r1
        rest (omega arith) in
    ground (arith, head, low_nibble (mem buffer), high_nibble (mem buffer), opts)
