-- ===== src/Emm/Uplink.antt =====
-- mme/S1/NAS: the messages that the states of a user tell apart, and what the states do alike.
use aalto_mme.Prelude.{ℕ, Bool, Option, none, some, List, [], ◌==◌, if◌then◌else◌}
use aalto_mme.Nas.Count.{Direction, get_last_count}
use aalto_mme.Nas.Messages.{AttachRequest, TauRequest, DetachRequest, AuthenticationFailure}
use aalto_mme.Nas.Decode.{EmmBody, Body}
use aalto_mme.Emm.Ctx.{
  State, Effect, Ctx, ◌>>=◌, emit, change_state, stop_timer, to_ecm, set_timer, mobile_reachable,
  implicit_detach, get_tai, normal_release,
}
use aalto_mme.Emm.Procedures.{
  emm_stop, trigger_aka_procedure, attach_result_of, update_result_of, process_first_esm_msg,
}
use aalto_mme.Emm.Requests.{process_attach, process_detach_req}

-- A message that the states tell apart.
pub data Uplink : Type 0 where
  attach_request : AttachRequest → Uplink
  attach_complete : List ℕ → Uplink
  detach_request : DetachRequest → Uplink
  tau_request : TauRequest → Uplink
  tau_complete : Uplink
  authentication_response : List ℕ → Uplink
  authentication_failure : AuthenticationFailure → Uplink
  identity_response : List ℕ → Uplink
  security_mode_complete : Uplink
  security_mode_reject : Uplink
  detach_accept : Uplink
  other : Uplink

-- `msg.plain.eMM.messageType`: of a session management message it is the transaction identity.
unfoldable pub message_type : Body → ℕ
message_type Body.empty = 0
message_type (Body.emm type b) = type
message_type (Body.esm pti type b) = pti

-- The cases of `switch(msg.plain.eMM.messageType)`.
unfoldable pub uplink_of_type : ℕ → Uplink
uplink_of_type type =
    if type == 0x46
    then Uplink.detach_accept
    else if type == 0x4a
    then Uplink.tau_complete
    else if type == 0x5e
    then Uplink.security_mode_complete
    else if type == 0x5f
    then Uplink.security_mode_reject
    else Uplink.other

-- The body of a session management message lies in the same memory as that of a mobility message.
-- For each type of which the states read more than the type: what that memory holds, read as a
-- message of that type. A read through a pointer in it that leads nowhere ends the program.
pub record Overlay : Type 0 where
  pub attach_request : AttachRequest
  pub attach_complete : List ℕ
  pub detach_request : DetachRequest
  pub tau_request : TauRequest
  pub authentication_response : List ℕ
  pub authentication_failure : AuthenticationFailure
  pub identity_response : List ℕ

-- A session management message whose transaction identity spells the type of a mobility message.
unfoldable pub taken_for : ℕ → Overlay → Uplink
taken_for type o =
    if type == 0x41
    then Uplink.attach_request o.attach_request
    else if type == 0x43
    then Uplink.attach_complete o.attach_complete
    else if type == 0x45
    then Uplink.detach_request o.detach_request
    else if type == 0x48
    then Uplink.tau_request o.tau_request
    else if type == 0x53
    then Uplink.authentication_response o.authentication_response
    else if type == 0x5c
    then Uplink.authentication_failure o.authentication_failure
    else if type == 0x56
    then Uplink.identity_response o.identity_response
    else uplink_of_type type

-- The states look at the message type of the body whatever the protocol of the message is.
unfoldable pub uplink : (Body → Overlay) → Body → Uplink
uplink overlaid Body.empty = Uplink.other
uplink overlaid (Body.emm type (EmmBody.attach_request m)) = Uplink.attach_request m
uplink overlaid (Body.emm type (EmmBody.attach_accept m)) = Uplink.other
uplink overlaid (Body.emm type (EmmBody.attach_complete m)) = Uplink.attach_complete m
uplink overlaid (Body.emm type (EmmBody.attach_reject m)) = Uplink.other
uplink overlaid (Body.emm type (EmmBody.detach_request m)) = Uplink.detach_request m
uplink overlaid (Body.emm type (EmmBody.tau_request m)) = Uplink.tau_request m
uplink overlaid (Body.emm type (EmmBody.authentication_response m)) =
    Uplink.authentication_response m
uplink overlaid (Body.emm type (EmmBody.authentication_failure m)) = Uplink.authentication_failure m
uplink overlaid (Body.emm type (EmmBody.identity_response m)) = Uplink.identity_response m
uplink overlaid (Body.emm type EmmBody.undecoded) = uplink_of_type type
uplink overlaid (Body.esm pti type b) = taken_for pti (overlaid (Body.esm pti type b))

unfoldable pub select_attach : (Ctx → Option Ctx) → Ctx → Option Ctx
select_attach continue c = elim (attach_result_of c.msg_attach_type) [
  | none ↦ some c
  | some r ↦ continue (record c { attach_result = r })
]

unfoldable pub select_update : (Ctx → Option Ctx) → Ctx → Option Ctx
select_update continue c = elim (update_result_of c.msg_update_type) [
  | none ↦ some c
  | some r ↦ continue (record c { update_result = r })
]

-- An attach request that is not authenticated starts an authentication.
unfoldable pub plain_attach : AttachRequest → Ctx → Option Ctx
plain_attach m c = get_tai c >>= λ d. select_attach trigger_aka_procedure (process_attach m d)

-- `nas_getLastCount`.
unfoldable pub note_count : Ctx → Ctx
note_count c = record c { nas_ul_count = get_last_count c.parser Direction.up_link }

unfoldable pub start_attach : Ctx → Option Ctx
start_attach c = process_first_esm_msg (change_state State.specific_procedure (note_count c))

unfoldable pub secured_attach : Bool → AttachRequest → Ctx → Option Ctx
secured_attach is_auth m c = get_tai c >>= λ d.
    select_attach (λ e. if is_auth then start_attach e else trigger_aka_procedure e)
      (process_attach m d)

unfoldable pub process_detach : DetachRequest → Ctx → Option Ctx
process_detach m c =
    let d : Ctx = process_detach_req m c in
    if d.ksi == d.msg_ksi then some (emit Effect.esm_detach d) else some d

unfoldable pub release_if : Bool → Ctx → Option Ctx
release_if test c = if test then to_ecm (Effect.released normal_release) c else some c

-- The two timers that three states treat alike: out of reach, and then detached.
unfoldable pub mobile_timeout : ℕ → Ctx → Ctx
mobile_timeout code c =
    if code == mobile_reachable
    then set_timer implicit_detach [] (stop_timer mobile_reachable c)
    else if code == implicit_detach
    then emm_stop (stop_timer implicit_detach c)
    else c
