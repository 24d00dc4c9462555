-- ===== src/Nas/Decode.antt =====
-- NAS/src/NAS.c: the dispatch on protocol discriminator and message type, and `dec_secNAS`. A
-- message whose decoder the source does not have, or has empty, keeps its type alone: `undecoded`.
use aalto_mme.Prelude.{
  ℕ, zero, suc, ◌+◌, ◌/◌, Bool, true, false, ◌||◌, not, Option, none, some, List, [], ◌∷◌, ◌==◌,
  if◌then◌else◌, bit_and, Mem, read, write, get_or,
}
use aalto_mme.Nas.Options.{minus_size}
use aalto_mme.Nas.Messages.{
  AttachRequest, dec_attach_request, AttachAccept, dec_attach_accept, dec_attach_complete,
  dec_attach_reject, DetachRequest, dec_detach_request_ue_orig, TauRequest,
  dec_tracking_area_update_request, dec_authentication_response, AuthenticationFailure,
  dec_authentication_failure, dec_identity_response, PdnConnectivityRequest,
  dec_pdn_connectivity_request,
}
use aalto_mme.Nas.Count.{NasHandler}
use aalto_mme.Nas.Security.{security_header, discriminator}

pub data EmmBody : Type 0 where
  attach_request : AttachRequest → EmmBody
  attach_accept : AttachAccept → EmmBody
  attach_complete : List ℕ → EmmBody
  attach_reject : ℕ → EmmBody
  detach_request : DetachRequest → EmmBody
  tau_request : TauRequest → EmmBody
  authentication_response : List ℕ → EmmBody
  authentication_failure : AuthenticationFailure → EmmBody
  identity_response : List ℕ → EmmBody
  undecoded : EmmBody

pub data EsmBody : Type 0 where
  pdn_connectivity_request : PdnConnectivityRequest → EsmBody
  undecoded : EsmBody

-- The union behind the header, zero before it is decoded.
pub data Body : Type 0 where
  empty : Body
  emm : ℕ → EmmBody → Body
  esm : ℕ → ℕ → EsmBody → Body

pub record NasMessage : Type 0 where
  pub header_discriminator : ℕ
  pub header_security : ℕ
  pub body : Body

unfoldable pub dec_emm : Mem ℕ → ℕ → ℕ → Body
dec_emm mem buf s =
    let type : ℕ = mem buf in
    let p : ℕ = buf + 1 in
    let size : ℕ = minus_size s 1 in
    if type == 0x41
    then Body.emm type (EmmBody.attach_request (dec_attach_request mem p size))
    else if type == 0x42
    then Body.emm type (EmmBody.attach_accept (dec_attach_accept mem p size))
    else if type == 0x43
    then Body.emm type (EmmBody.attach_complete (dec_attach_complete mem p size))
    else if type == 0x44
    then Body.emm type (EmmBody.attach_reject (dec_attach_reject mem p size))
    else if type == 0x45
    then Body.emm type (EmmBody.detach_request (dec_detach_request_ue_orig mem p size))
    else if type == 0x48
    then Body.emm type (EmmBody.tau_request (dec_tracking_area_update_request mem p size))
    else if type == 0x53
    then Body.emm type (EmmBody.authentication_response (dec_authentication_response mem p size))
    else if type == 0x5c
    then Body.emm type (EmmBody.authentication_failure (dec_authentication_failure mem p size))
    else if type == 0x56
    then Body.emm type (EmmBody.identity_response (dec_identity_response mem p size))
    else Body.emm type EmmBody.undecoded

-- The decoder under ActivateDefaultEPSBearerContextRequest is that of the accept, which is empty.
unfoldable pub dec_esm : Mem ℕ → ℕ → ℕ → Body
dec_esm mem buf s =
    let type : ℕ = mem (buf + 1) in
    if type == 0xd0
    then Body.esm (mem buf) type (
        EsmBody.pdn_connectivity_request
          (dec_pdn_connectivity_request mem (buf + 2) (minus_size s 2)))
    else Body.esm (mem buf) type EsmBody.undecoded

-- `memset(msg, 0, sizeof(GenericNASMsg_t))`.
abbrev pub no_message : NasMessage
no_message = record { header_discriminator = 0; header_security = 0; body = Body.empty }

-- The message and what is returned.
unfoldable pub dec_nas : Mem ℕ → ℕ → ℕ → NasMessage × Bool
unfolding discriminator
dec_nas mem buf size =
    if size == 0
    then (no_message, false)
    else let p : ℕ = discriminator mem buf in
      let s : ℕ = security_header mem buf size 0 in
      let with_body : Body → NasMessage =
        λ b. record { header_discriminator = p; header_security = s; body = b } in
      if not (s == 0) || not (not (p == 0x2) || not (p == 0x7))
      then (with_body Body.empty, false)
      else if p == 0x7
      then (with_body (dec_emm mem (buf + 1) (minus_size size 1)), true)
      else (with_body (dec_esm mem (buf + 1) (minus_size size 1)), true)

-- `plain` is an array on the stack, with `stack` in it; EEA0, the only entry of `eea_dec_cb`, copies
-- into it. `none` is a call through a null entry.
unfoldable pub dec_sec_nas : ℕ → Mem ℕ → NasHandler → Mem ℕ → ℕ → ℕ → Option (NasMessage × Bool)
dec_sec_nas unset stack n mem buf size =
    let s : ℕ = security_header mem buf size unset in
    let left : ℕ = minus_size size 6 in
    if s == 1
    then some ((dec_nas mem (buf + 6) left).0, true)
    else if not (s == 2 || s == 4 || s == 12)
    then some (no_message, false)
    else if not n.is_valid
    then some (no_message, false)
    else if n.e == 0
    then some (dec_nas (write stack 0 (read mem (buf + 6) left)) 0 left)
    else none

unfoldable pub is_auth_required : ℕ → Bool
is_auth_required type = not (
    type == 0x41
    || type == 0x56
    || type == 0x53
    || type == 0x5c
    || type == 0x5f
    || type == 0x45
    || type == 0x46
    || type == 0x48
    || type == 0x4c)

-- The optional of an identifier among the stored ones; a slot whose first octet is zero ends the
-- search. An identifier of half an octet is compared with the high nibble.
unfoldable pub opt_lookup : List (List ℕ) → ℕ → ℕ → Option (List ℕ)
opt_lookup optionals zero iei = none
opt_lookup [] (suc max) iei = none
opt_lookup (o ∷ os) (suc max) iei =
    let rest = opt_lookup os max iei in
    if get_or o 0 0 == 0
    then none
    else if bit_and iei 0xf8 == 0x08
    then if get_or o 0 0 / 16 == iei then some o else rest
    else if get_or o 0 0 == iei
    then some o
    else rest
