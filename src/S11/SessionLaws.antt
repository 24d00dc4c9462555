-- ===== src/S11/SessionLaws.antt =====
-- mme/S11: what the state machine of a session keeps, over any sequence of calls and messages.
use aalto_mme.Prelude.{
  ℕ, suc, ◌+◌, ◌≡◌, refl, sym, ap, arith, Bool, true, false, Option, none, some, List, [], ◌∷◌,
  ◌==◌, if◌then◌else◌, Mem, Bool-cases, Option-cases, subst, inl, inr, ◌⊎◌,
}
use aalto_mme.Nas.Security.{same}
use aalto_mme.S11.Session.{
  State, Effect, Packet, Session, type_of, emit, change_state, send_request,
  send_create_session_req, open_trxn, parse_ies, note_cause, set_fteid, parse_ctx_rsp,
  state_process_msg, process_msg, store_message, attach, detach, mod_bearer, release_access,
}

-- A procedure is under way.
unfoldable pub waiting : State → ℕ
waiting State.no_ctx = 0
waiting State.w_ctx_rsp = 1
waiting State.ul_ctx = 0
waiting State.w_mod_bearer_rsp = 1
waiting State.ctx = 0
waiting State.w_del = 1

-- The gateway has answered the create session request, and the session is not deleted.
unfoldable pub created : State → Bool
created State.no_ctx = false
created State.w_ctx_rsp = false
created State.ul_ctx = true
created State.w_mod_bearer_rsp = true
created State.ctx = true
created State.w_del = true

unfoldable pub requests : List Effect → ℕ
requests [] = 0
requests (Effect.request t q i ∷ es) = suc (requests es)
requests (Effect.acknowledged q i ∷ es) = requests es
requests (Effect.control ∷ es) = requests es
requests (Effect.paging ∷ es) = requests es
requests (Effect.session_removed ∷ es) = requests es

unfoldable pub controls : List Effect → ℕ
controls [] = 0
controls (Effect.request t q i ∷ es) = controls es
controls (Effect.acknowledged q i ∷ es) = controls es
controls (Effect.control ∷ es) = suc (controls es)
controls (Effect.paging ∷ es) = controls es
controls (Effect.session_removed ∷ es) = controls es

-- Every request has been answered to the caller, but the one under way; and the session has no
-- tunnel before it is created.
pub record IsOrderly (s : Session) : Type 0 where
  pub balance : requests s.out ≡ controls s.out + waiting s.state
  pub no_tunnel : (s.r_teid ≡ 0) ⊎ (created s.state ≡ true)

some_injective : {s t : Session} → some s ≡ some t → s ≡ t
some_injective h = ground arith

-- The state behind the answer to the request that a state waits for.
unfoldable pub answer : State → ℕ → Option State
answer State.no_ctx type = none
answer State.w_ctx_rsp type = if type == 33 then some State.ul_ctx else none
answer State.ul_ctx type = none
answer State.w_mod_bearer_rsp type =
    if type == 35 then some State.ctx else if type == 171 then some State.ul_ctx else none
answer State.ctx type = none
answer State.w_del type = if type == 37 then some State.no_ctx else none

State-cases :
    (x : State)
    → (x ≡ State.no_ctx)
      ⊎ ((x ≡ State.w_ctx_rsp)
          ⊎ ((x ≡ State.ul_ctx)
              ⊎ ((x ≡ State.w_mod_bearer_rsp) ⊎ ((x ≡ State.ctx) ⊎ (x ≡ State.w_del)))))
State-cases State.no_ctx = inl refl
State-cases State.w_ctx_rsp = inr (inl refl)
State-cases State.ul_ctx = inr (inr (inl refl))
State-cases State.w_mod_bearer_rsp = inr (inr (inr (inl refl)))
State-cases State.ctx = inr (inr (inr (inr (inl refl))))
State-cases State.w_del = inr (inr (inr (inr (inr refl))))

module _ (stack : Mem ℕ) (stack_ie : Mem (Option ℕ)) where
  -- A call of the interface or a message.
  pub data Step : Session → Session → Type 0 where
    attached : {s : Session} → Step s (attach stack stack_ie s)
    detached : {s : Session} → Step s (detach stack stack_ie s)
    modified : {s : Session} → Step s (mod_bearer stack stack_ie s)
    released : {s : Session} → Step s (release_access stack stack_ie s)
    received : {s s' : Session} (m : Packet) → process_msg stack stack_ie m s ≡ some s' → Step s s'

  pub data Run : Session → Session → Type 0 where
    done : {s : Session} → Run s s
    next : {s s' s'' : Session} → Run s s' → Step s' s'' → Run s s''

  parse_ctx_rsp-keeps :
      (s t : Session)
      → parse_ctx_rsp stack stack_ie s ≡ some t
      → (t.state ≡ s.state) × (t.out ≡ s.out)
  unfolding parse_ctx_rsp set_fteid
  parse_ctx_rsp-keeps s t h = ground arith

  attach-IsOrderly : (s : Session) → IsOrderly s → IsOrderly (attach stack stack_ie s)
  unfolding attach send_create_session_req send_request open_trxn emit change_state requests
      controls waiting created
  attach-IsOrderly s o = record {
    balance = ground (arith, State-cases s.state, o.balance);
    no_tunnel = ground (arith, State-cases s.state, o.no_tunnel);
  }

  detach-IsOrderly : (s : Session) → IsOrderly s → IsOrderly (detach stack stack_ie s)
  unfolding detach send_request open_trxn emit change_state requests controls waiting created
  detach-IsOrderly s o = record {
    balance = ground (arith, State-cases s.state, o.balance);
    no_tunnel = ground (arith, State-cases s.state, o.no_tunnel);
  }

  mod_bearer-IsOrderly : (s : Session) → IsOrderly s → IsOrderly (mod_bearer stack stack_ie s)
  unfolding mod_bearer send_request open_trxn emit change_state requests controls waiting created
  mod_bearer-IsOrderly s o = record {
    balance = ground (arith, State-cases s.state, o.balance);
    no_tunnel = ground (arith, State-cases s.state, o.no_tunnel);
  }

  release_access-IsOrderly :
      (s : Session) → IsOrderly s → IsOrderly (release_access stack stack_ie s)
  unfolding release_access send_request open_trxn emit change_state requests controls waiting
      created
  release_access-IsOrderly s o = record {
    balance = ground (arith, State-cases s.state, o.balance);
    no_tunnel = ground (arith, State-cases s.state, o.no_tunnel);
  }

  -- The answer to a create session request: what comes of it.
  w_ctx_rsp-outcome :
      (s s' : Session)
      → s.state ≡ State.w_ctx_rsp
      → state_process_msg stack stack_ie s ≡ some s'
      → ((s'.state ≡ s.state) × (s'.out ≡ s.out) × (s'.r_teid ≡ s.r_teid))
        ⊎ ((s'.state ≡ State.ul_ctx)
            × (s'.out ≡ Effect.control ∷ s.out)
            × (type_of s.active.i_msg ≡ 33))
  unfolding state_process_msg parse_ies note_cause emit change_state
  w_ctx_rsp-outcome s s' x h =
      let t : Session = note_cause stack stack_ie (parse_ies stack stack_ie s) in
      elim (Option-cases (parse_ctx_rsp stack stack_ie t)) [
        | inl aborted ↦ ground (arith, x, aborted)
        | inr (u, parsed) ↦ ground (arith, x, parsed, parse_ctx_rsp-keeps t u parsed)
      ]

  state_process_msg-IsOrderly :
      (s s' : Session) → IsOrderly s → state_process_msg stack stack_ie s ≡ some s' → IsOrderly s'
  unfolding state_process_msg parse_ies note_cause emit change_state requests controls waiting
      created
  state_process_msg-IsOrderly s s' o h = elim (State-cases s.state) [
    | inl x ↦ record {
      balance = ground (arith, x, o.balance);
      no_tunnel = ground (arith, x, o.no_tunnel);
    }
    | inr (inl x) ↦ record {
      balance = ground (arith, w_ctx_rsp-outcome s s' x h, x, o.balance);
      no_tunnel = ground (arith, w_ctx_rsp-outcome s s' x h, x, o.no_tunnel);
    }
    | inr (inr rest) ↦ record {
      balance = ground (arith, rest, o.balance);
      no_tunnel = ground (arith, rest, o.no_tunnel);
    }
  ]

  store_message-IsOrderly :
      (m : Packet) (s : Session) → IsOrderly s → IsOrderly (store_message stack stack_ie m s)
  unfolding store_message
  store_message-IsOrderly m s o = record { balance = o.balance; no_tunnel = o.no_tunnel }

  process_msg-IsOrderly :
      (m : Packet) (s s' : Session)
      → IsOrderly s
      → process_msg stack stack_ie m s ≡ some s'
      → IsOrderly s'
  unfolding process_msg
  process_msg-IsOrderly m s s' o h =
      let stored : Session = store_message stack stack_ie m s in
      let orderly : IsOrderly stored = store_message-IsOrderly m s o in
      elim (Bool-cases (same s.r_addr m.peer)) [
        | inl own ↦ state_process_msg-IsOrderly stored s' orderly (ground (arith, own))
        | inr foreign ↦
            let unmoved : stored ≡ s' = some_injective (ground (arith, foreign)) in
            subst IsOrderly unmoved orderly
      ]

  -- Any sequence of calls and messages keeps a session orderly, as it is when it is created: the
  -- requests sent, less the returns of control to the caller, are one while a procedure is under
  -- way and none otherwise; and the tunnel identifier is zero unless the session is created.
  pub Run-IsOrderly : {s s' : Session} → Run s s' → IsOrderly s → IsOrderly s'
  Run-IsOrderly Run.done o = o
  Run-IsOrderly (Run.next run Step.attached) o = attach-IsOrderly _ (Run-IsOrderly run o)
  Run-IsOrderly (Run.next run Step.detached) o = detach-IsOrderly _ (Run-IsOrderly run o)
  Run-IsOrderly (Run.next run Step.modified) o = mod_bearer-IsOrderly _ (Run-IsOrderly run o)
  Run-IsOrderly (Run.next run Step.released) o = release_access-IsOrderly _ (Run-IsOrderly run o)
  Run-IsOrderly (Run.next run (Step.received m h)) o =
      process_msg-IsOrderly m _ _ (Run-IsOrderly run o) h

  -- A packet that does not come from the gateway of the session is processed without an abort, and
  -- leaves the state, the tunnel, the pending transactions, the peers and the effects as they were.
  process_msg-foreign :
      (m : Packet) (s : Session)
      → same s.r_addr m.peer ≡ false
      → (s' : Session) × (process_msg stack stack_ie m s ≡ some s')
        × (s'.state ≡ s.state)
        × (s'.r_teid ≡ s.r_teid)
        × (s'.trxns ≡ s.trxns)
        × (s'.peers ≡ s.peers)
        × (s'.out ≡ s.out)
  unfolding process_msg store_message
  process_msg-foreign m s foreign =
      (store_message stack stack_ie m s, ground (arith, foreign), refl, refl, refl, refl, refl)

  state_process_msg-answer :
      (s s' : Session)
      → state_process_msg stack stack_ie s ≡ some s'
      → (s'.state ≡ s.state)
        ⊎ ((waiting s.state ≡ 1)
            × (answer s.state (type_of s.active.i_msg) ≡ some s'.state)
            × (controls s'.out ≡ suc (controls s.out)))
  unfolding state_process_msg parse_ies note_cause emit change_state controls waiting answer
  state_process_msg-answer s s' h = elim (State-cases s.state) [
    | inl x ↦ inl (ground (arith, x))
    | inr (inl x) ↦ ground (arith, w_ctx_rsp-outcome s s' x h, x)
    | inr (inr (inl x)) ↦ inl (ground (arith, x))
    | inr (inr (inr (inl x))) ↦ ground (arith, x)
    | inr (inr (inr (inr (inl x)))) ↦ inl (ground (arith, x))
    | inr (inr (inr (inr (inr x)))) ↦ ground (arith, x)
  ]

  -- A message that is processed without an abort either leaves the state, or comes from the
  -- gateway of the session, finds it in a state that waits, and is an answer to the request under
  -- way; then the session is in the state behind that answer, and control is returned to the
  -- caller once.
  pub process_msg-answer :
      (m : Packet) (s s' : Session)
      → process_msg stack stack_ie m s ≡ some s'
      → (s'.state ≡ s.state)
        ⊎ ((same s.r_addr m.peer ≡ true)
            × (waiting s.state ≡ 1)
            × (answer s.state (type_of m.mem) ≡ some s'.state)
            × (controls s'.out ≡ suc (controls s.out)))
  unfolding process_msg
  process_msg-answer m s s' h =
      let stored : Session = store_message stack stack_ie m s in
      elim (Bool-cases (same s.r_addr m.peer)) [
        | inl own ↦ elim (state_process_msg-answer stored s' (ground (arith, own))) [
          | inl stays ↦ inl (unfold store_message in stays)
          | inr (w, a, c) ↦ unfold store_message in inr (own, w, a, c)
        ]
        | inr foreign ↦
            let unmoved : stored ≡ s' = some_injective (ground (arith, foreign)) in
            inl (unfold store_message in ap (λ (x : Session). x.state) (sym unmoved))
      ]
