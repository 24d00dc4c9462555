-- ===== src/S11/Session.antt =====
-- mme/S11/S11_User.c, the states of mme/S11 (S11_NoCtx.c, S11_WCtxRsp.c, S11_UlCtx.c,
-- S11_WModBearerRsp.c, S11_Ctx.c, S11_WDel.c) and the dispatch of mme/S11/MME_S11.c, for one
-- session. A request is its type, its sequence number and its tunnel identifier; the elements in it
-- are not here. A call of `returnControl` is the effect `control`, whether there is a callback or not.
use aalto_mme.Prelude.{
  ℕ, ◌+◌, ◌*◌, ◌%◌, Bool, true, false, ◌&&◌, ◌||◌, not, Option, none, some, List, [], ◌∷◌, ltb,
  ◌==◌, if◌then◌else◌, bit_and, Mem,
}
use aalto_mme.Nas.Security.{same}
use aalto_mme.Gtp.Ie.{gtp2ie_decap, gtp2ie_decaps_group, gtp2ie_gettliv}
use aalto_mme.S11.Peer.{Peer, is_first_session, unref_session, has_restarted}

pub data State : Type 0 where
  no_ctx w_ctx_rsp ul_ctx w_mod_bearer_rsp ctx w_del : State

-- What leaves the session, the last one first.
pub data Effect : Type 0 where
  request : ℕ → ℕ → ℕ → Effect
  acknowledged : ℕ → ℕ → Effect
  control : Effect
  paging : Effect
  session_removed : Effect

-- The packet of a message, and the address it came from.
pub record Packet : Type 0 where
  pub mem : Mem ℕ
  pub len : ℕ
  pub peer : List ℕ

-- `gtp2l.h.type`, and the bit field `gtp2l.h.seq`.
abbrev pub type_of : Mem ℕ → ℕ
type_of mem = mem 1

abbrev pub seq_of : Mem ℕ → ℕ
seq_of mem = mem 8 + mem 9 * 256 + mem 10 * 65536

-- `active_trxn`: its sequence number, the message in it, and the elements found in that.
pub record Trxn : Type 0 where
  pub seq : ℕ
  pub i_msg : Mem ℕ
  pub i_len : ℕ
  pub ie : Mem (Option ℕ)

-- `S11_user_t`, with the sequence number and the peers of the stack it belongs to. `trxns` has the
-- keys of the table; `ebi` is the identity of the session's default bearer.
pub record Session : Type 0 where
  pub state : State
  pub r_teid : ℕ
  pub r_addr : List ℕ
  pub cause : ℕ
  pub ebi : ℕ
  pub trxns : List ℕ
  pub active : Trxn
  pub next_seq : ℕ
  pub peers : List Peer
  pub out : List Effect

unfoldable pub emit : Effect → Session → Session
emit e s = record s { out = e ∷ s.out }

unfoldable pub change_state : State → Session → Session
change_state x s = record s { state = x }

unfoldable pub has_pending : List ℕ → ℕ → Bool
has_pending [] seq = false
has_pending (x ∷ xs) seq = x == seq || has_pending xs seq

-- `stack` is what fresh memory holds.
module _ (stack : Mem ℕ) (stack_ie : Mem (Option ℕ)) where
  unfoldable pub new_trxn : ℕ → Trxn
  new_trxn seq = record { seq = seq; i_msg = stack; i_len = 0; ie = stack_ie }

  -- `s11u_newTrxn`, with `getNextSeq` on 24 bits.
  unfoldable pub open_trxn : Session → Session
  open_trxn s = record s {
    next_seq = (s.next_seq + 1) % 16777216;
    trxns = if has_pending s.trxns s.next_seq then s.trxns else s.next_seq ∷ s.trxns;
    active = new_trxn s.next_seq;
  }

  -- A request in a transaction of its own.
  unfoldable pub send_request : ℕ → Session → Session
  send_request type s =
      let opened : Session = open_trxn s in
      emit (Effect.request type opened.active.seq opened.r_teid) opened

  -- `isFirstSessionForSGW` counts the session at its gateway.
  unfoldable pub send_create_session_req : Session → Session
  unfolding send_request
  send_create_session_req s =
      let counted : Session = record s { peers = (is_first_session s.peers s.r_addr).1 } in
      send_request 32 counted

  -- The element of a type and an instance, copied over a buffer: its size, and the buffer.
  unfoldable pub element : Session → ℕ → ℕ → Mem ℕ → Mem ℕ × ℕ
  element s type instance_no buffer =
      let r = gtp2ie_gettliv s.active.ie s.active.i_msg type instance_no buffer in (r.1, r.2)

  unfoldable pub parse_ies : Session → Session
  parse_ies s =
      let t : Trxn = s.active in
      let found = gtp2ie_decap t.ie t.i_msg 0 t.i_len in
      record s { active = record t { ie = found.1 } }

  -- `accepted`; `if(vsize=2)` assigns, so the test holds for every cause.
  unfoldable pub note_cause : Session → Session
  note_cause s = record s { cause = (element s 2 0 stack).0 0 }

  -- `s11u_setS11fteid`: `none` is the abort on an unexpected interface type.
  unfoldable pub set_fteid : Mem ℕ → Session → Option Session
  set_fteid v s =
      if bit_and (v 0) 0x3f == 11
      then some (record s { r_teid = v 1 * 16777216 + v 2 * 65536 + v 3 * 256 + v 4 })
      else none

  -- The tunnel identifier of the gateway, and its restart counter. The bearer context in between
  -- fills the EPS session, and with a wrong bearer identity it ends the function before the recovery
  -- element.
  unfoldable pub parse_ctx_rsp : Session → Option Session
  parse_ctx_rsp s =
      let (fteid, fsize) = element s 87 0 (λ a. 0) in
      let with_teid : Option Session = if ltb 0 fsize then set_fteid fteid s else some s in
      elim with_teid [
        | none ↦ none
        | some t ↦
            let (group, gsize) = element t 93 0 stack in
            let found = gtp2ie_decaps_group (λ j. none) group 0 gsize in
            let bearer = gtp2ie_gettliv found.0.1 group 73 0 stack in
            if ltb 0 gsize && not (bearer.1 0 == t.ebi)
            then some t
            else let (r, rsize) = element t 3 0 stack in
              if ltb 0 rsize
              then some (record t { peers = (has_restarted t.peers t.r_addr (r 0)).1 })
              else some t
      ]

  -- Whether there is no parse error: `vsize != 1 && ebi != *value` asks for both.
  unfoldable pub parse_mod_bearer_rsp : Session → Bool
  parse_mod_bearer_rsp s =
      let (group, gsize) = element s 93 0 stack in
      if ltb 0 gsize
      then (let found = gtp2ie_decaps_group stack_ie group 0 gsize in
          let bearer = gtp2ie_gettliv found.0.1 group 73 0 group in
          not (not (bearer.2 == 1) && not (s.ebi == bearer.1 0)))
      else true

  -- `state->processMsg`.
  unfoldable pub state_process_msg : Session → Option Session
  state_process_msg s = elim s.state [
    | State.no_ctx ↦ some s
    | State.w_ctx_rsp ↦
        let t : Session = parse_ies s in
        if type_of t.active.i_msg == 33
        then elim (parse_ctx_rsp (note_cause t)) [
          | none ↦ none
          | some u ↦ some (emit Effect.control (change_state State.ul_ctx u))
        ]
        else some t
    | State.ul_ctx ↦
        let t : Session = parse_ies s in
        if type_of t.active.i_msg == 176
        then some (emit Effect.paging (emit (Effect.acknowledged t.active.seq t.r_teid) t))
        else some t
    | State.w_mod_bearer_rsp ↦
        let t : Session = parse_ies s in
        let u : Session = note_cause t in
        if type_of t.active.i_msg == 35
        then (if parse_mod_bearer_rsp u
            then some (emit Effect.control (change_state State.ctx u))
            else some u)
        else if type_of t.active.i_msg == 171
        then some (emit Effect.control (change_state State.ul_ctx u))
        else some t
    | State.ctx ↦ some s
    | State.w_del ↦
        let t : Session = parse_ies s in
        if type_of t.active.i_msg == 37
        then (let u : Session = change_state State.no_ctx (record (note_cause t) { r_teid = 0 }) in
            elim (unref_session u.peers u.r_addr) [
              | none ↦ none
              | some ps ↦
                  some (emit Effect.control (emit Effect.session_removed (record u { peers = ps })))
            ])
        else some t
  ]

  -- The message in its transaction, pending or new; the element pointers of the transaction are not
  -- defined until they are parsed.
  unfoldable pub store_message : Packet → Session → Session
  store_message m s = record s {
    active = record (new_trxn (seq_of m.mem)) { i_msg = m.mem; i_len = m.len };
  }

  -- The message is stored before its source is compared.
  unfoldable pub process_msg : Packet → Session → Option Session
  process_msg m s =
      if same s.r_addr m.peer
      then state_process_msg (store_message m s)
      else some (store_message m s)

  unfoldable pub attach : Session → Session
  attach s = elim s.state [
    | State.no_ctx ↦ change_state State.w_ctx_rsp (send_create_session_req s)
    | _ ↦ s
  ]

  unfoldable pub detach : Session → Session
  detach s = elim s.state [
    | State.ul_ctx ↦ change_state State.w_del (send_request 36 s)
    | State.ctx ↦ change_state State.w_del (send_request 36 s)
    | _ ↦ s
  ]

  unfoldable pub mod_bearer : Session → Session
  mod_bearer s = elim s.state [
    | State.ul_ctx ↦ change_state State.w_mod_bearer_rsp (send_request 34 s)
    | State.ctx ↦ change_state State.w_mod_bearer_rsp (send_request 34 s)
    | _ ↦ s
  ]

  unfoldable pub release_access : Session → Session
  release_access s = elim s.state [
    | State.ctx ↦ change_state State.w_mod_bearer_rsp (send_request 170 s)
    | _ ↦ s
  ]
