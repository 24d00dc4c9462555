-- ===== src/Emm/Ctx.antt =====
-- mme/S1/NAS/EMMCtx.h and EMMCtx.c, EMM_FSMConfig.c and EMM_Timers.c: what the MME knows of a user,
-- and the small steps on it. The ECM, the ESM, the S6a and what they send are effects: what they
-- call back is a step of its own. `none` is an abort or a call through a null pointer.
use aalto_mme.Prelude.{
  ℕ, ◌+◌, ◌%◌, Bool, false, Option, none, some, List, [], ◌∷◌, ◌++◌, take, drop, replicate,
  if◌then◌else◌, Mem, store,
}
use aalto_mme.Nas.Count.{NasHandler}
use aalto_mme.Nas.Security.{same, new_handler}
use aalto_mme.Nas.Decode.{Body}

pub data State : Type 0 where
  deregistered registered specific_procedure common_procedure deregistered_initiated : State

-- `EMM_TimerCode`, for the network's side.
abbrev pub t3413 : ℕ
t3413 = 15

abbrev pub t3422 : ℕ
t3422 = 16

abbrev pub t3450 : ℕ
t3450 = 17

abbrev pub t3460 : ℕ
t3460 = 18

abbrev pub t3470 : ℕ
t3470 = 19

abbrev pub mobile_reachable : ℕ
mobile_reachable = 20

abbrev pub implicit_detach : ℕ
implicit_detach = 21

-- What leaves the context: to the ECM, to the S6a, and to the ESM.
pub data Effect : Type 0 where
  sent : List ℕ → Effect
  context_setup : List ℕ → Effect
  released : ℕ → Effect
  auth_information : Effect
  synch_auth_vector : List ℕ → Effect
  update_location : Effect
  esm_message : Body → Effect
  esm_detach : Effect
  esm_error : Effect

-- `CauseNas_normal_release` and `CauseNas_detach`.
abbrev pub normal_release : ℕ
normal_release = 0

abbrev pub detach : ℕ
detach = 2

-- The ECM session: its tracking area, and the GUTI that it makes next.
pub record Ecm : Type 0 where
  pub sn : List ℕ
  pub tac : List ℕ
  pub next_guti : List ℕ

pub record AuthQuadruplet : Type 0 where
  pub rand : List ℕ
  pub xres : List ℕ
  pub autn : List ℕ
  pub kasme : List ℕ

-- `EMMCtx_t`. A GUTI is its ten octets, the last four of them the M-TMSI; `active_timers` has the
-- message of each running timer.
pub record Ctx : Type 0 where
  pub ecm : Option Ecm
  pub state : State
  pub active_timers : Mem (Option (List ℕ))
  pub imsi : ℕ
  pub guti : List ℕ
  pub t3412 : ℕ
  pub attach_started : Bool
  pub s1_bearers_active : Bool
  pub attach_result : ℕ
  pub update_result : ℕ
  pub pending_esm : List (List ℕ)
  pub msg_attach_type : ℕ
  pub msg_detach_type : ℕ
  pub msg_update_type : ℕ
  pub msg_active_flag : ℕ
  pub msg_ksi : ℕ
  pub msg_guti : List ℕ
  pub msg_additional_update_type : Bool
  pub msg_sms_only : ℕ
  pub msg_bearer_ctx : Option (List ℕ)
  pub sn : List ℕ
  pub tac : List ℕ
  pub ksi : ℕ
  pub old_ksi : ℕ
  pub parser : NasHandler
  pub sci : Bool
  pub nas_ul_count : ℕ
  pub kasme : List ℕ
  pub old_kasme : List ℕ
  pub auth_quadrs : List AuthQuadruplet
  pub auth_quadrs_len : ℕ
  pub nh : List ℕ
  pub ncc : ℕ
  pub old_nh : List ℕ
  pub old_ncc : ℕ
  pub ue_capabilities : Mem ℕ
  pub ue_capabilities_len : ℕ
  pub ms_net_cap : Mem ℕ
  pub out : List Effect

infixl 5 ◌>>=◌
abbrev pub ◌>>=◌ : Option Ctx → (Ctx → Option Ctx) → Option Ctx
none >>= f = none
some c >>= f = f c

unfoldable pub emit : Effect → Ctx → Ctx
emit e c = record c { out = e ∷ c.out }

-- `emmChangeState`.
unfoldable pub change_state : State → Ctx → Ctx
change_state s c = record c { state = s }

-- `emmCtx_init` and `emm_init`.
abbrev pub emm_init : Ecm → Ctx
emm_init e = record {
  ecm = some e;
  state = State.deregistered;
  active_timers = λ t. none;
  imsi = 0;
  guti = replicate 10 0;
  t3412 = 0x49;
  attach_started = false;
  s1_bearers_active = false;
  attach_result = 0;
  update_result = 0;
  pending_esm = [];
  msg_attach_type = 0;
  msg_detach_type = 0;
  msg_update_type = 0;
  msg_active_flag = 0;
  msg_ksi = 1;
  msg_guti = replicate 10 0;
  msg_additional_update_type = false;
  msg_sms_only = 0;
  msg_bearer_ctx = none;
  sn = replicate 3 0;
  tac = replicate 2 0;
  ksi = 7;
  old_ksi = 0;
  parser = new_handler;
  sci = false;
  nas_ul_count = 0;
  kasme = replicate 32 0;
  old_kasme = replicate 32 0;
  auth_quadrs = [];
  auth_quadrs_len = 0;
  nh = replicate 32 0;
  ncc = 0;
  old_nh = replicate 32 0;
  old_ncc = 0;
  ue_capabilities = λ a. 0;
  ue_capabilities_len = 0;
  ms_net_cap = λ a. 0;
  out = [];
}

-- A running timer of the code is replaced.
unfoldable pub set_timer : ℕ → List ℕ → Ctx → Ctx
unfolding store
set_timer code msg c = record c { active_timers = store c.active_timers code (some msg) }

unfoldable pub stop_timer : ℕ → Ctx → Ctx
unfolding store
stop_timer code c = record c { active_timers = store c.active_timers code none }

-- `ecm_send`, `ecm_sendCtxtSUReq` and `ecm_sendUEContextReleaseCommand` on the session.
unfoldable pub to_ecm : Effect → Ctx → Option Ctx
unfolding emit
to_ecm e c = elim c.ecm [ none ↦ none | some session ↦ some (emit e c) ]

unfoldable pub get_tai : Ctx → Option Ctx
get_tai c = elim c.ecm [ none ↦ none | some e ↦ some (record c { sn = e.sn; tac = e.tac }) ]

-- `guti.mtmsi == 0`.
unfoldable pub has_no_tmsi : List ℕ → Bool
has_no_tmsi guti = same (take 4 (drop 6 guti)) (replicate 4 0)

-- `emmCtx_newGUTI`, where the caller asks for no copy.
unfoldable pub new_guti : Ctx → Option Ctx
new_guti c =
    if has_no_tmsi c.guti
    then elim c.ecm [ none ↦ none | some e ↦ some (record c { guti = e.next_guti }) ]
    else some c

-- `emmCtx_setNewAuthQuadruplet`, with `g_ptr_array_add`. The length is a gsize.
unfoldable pub add_auth_quadruplet : AuthQuadruplet → Ctx → Ctx
add_auth_quadruplet q c = record c {
  auth_quadrs = c.auth_quadrs ++ (q ∷ []);
  auth_quadrs_len = (c.auth_quadrs_len + 1) % 18446744073709551616;
}

-- `emmCtx_removeFirstAuthQuadruplet`: of an empty array nothing is removed, and the length wraps.
unfoldable pub remove_first_auth_quadruplet : Ctx → Ctx
remove_first_auth_quadruplet c = record c {
  auth_quadrs = drop 1 c.auth_quadrs;
  auth_quadrs_len = (c.auth_quadrs_len + 18446744073709551615) % 18446744073709551616;
}
