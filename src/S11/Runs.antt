-- ===== src/S11/Runs.antt =====
-- The theorems on mme/S11 at concrete sessions.
use aalto_mme.Prelude.{
  ℕ, ◌↔◌, suc, ◌≡◌, refl, arith, true, false, Option, none, some, [], ◌∷◌, Mem, write, store, inl,
  ◌⊎◌,
}
use aalto_mme.Nas.Security.{same}
use aalto_mme.S11.Peer.{Peer, get, has_restarted}
use aalto_mme.S11.PeerLaws.{Newer, has_restarted-get}
use aalto_mme.S11.Session.{
  State, Packet, Session, attach, process_msg, type_of, Effect, emit, change_state, note_cause,
  parse_ies, store_message, state_process_msg,
}
use aalto_mme.S11.SessionLaws.{
  waiting, created, requests, controls, answer, IsOrderly, Step, Run, Run-IsOrderly,
  process_msg-answer,
}

abbrev blank : Mem ℕ
blank = λ a. 0

abbrev no_ie : Mem (Option ℕ)
no_ie = λ a. none

abbrev new_session : Session
new_session = record {
  state = State.no_ctx;
  r_teid = 0;
  r_addr = 10 ∷ 0 ∷ 0 ∷ 1 ∷ [];
  cause = 0;
  ebi = 5;
  trxns = [];
  active = record { seq = 0; i_msg = blank; i_len = 0; ie = no_ie };
  next_seq = 0;
  peers = [];
  out = [];
}

new_session-IsOrderly : IsOrderly new_session
unfolding requests controls waiting created
new_session-IsOrderly = record { balance = omega arith; no_tunnel = inl refl }

Run-IsOrderly_example : IsOrderly (attach blank no_ie new_session)
Run-IsOrderly_example =
    Run-IsOrderly blank no_ie (Run.next {s = new_session} Run.done Step.attached)
      new_session-IsOrderly

-- A packet from another address.
abbrev stray : Packet
stray = record { mem = write blank 0 (0x48 ∷ 33 ∷ []); len = 12; peer = 10 ∷ 0 ∷ 0 ∷ 2 ∷ [] }

-- The answer to a release of the access bearers, without elements.
abbrev releasing : Session
releasing = record new_session { state = State.w_mod_bearer_rsp }

abbrev release_rsp : Packet
release_rsp = record {
  mem = write blank 0 (0x48 ∷ 171 ∷ 0 ∷ 8 ∷ []);
  len = 12;
  peer = 10 ∷ 0 ∷ 0 ∷ 1 ∷ [];
}

abbrev released : Session
released = emit Effect.control (
    change_state State.ul_ctx (
      note_cause blank no_ie
        (parse_ies blank no_ie (store_message blank no_ie release_rsp releasing))))

process_msg-answer_example :
    (released.state ≡ State.w_mod_bearer_rsp)
    ⊎ ((same releasing.r_addr release_rsp.peer ≡ true)
        × (waiting State.w_mod_bearer_rsp ≡ 1)
        × (answer State.w_mod_bearer_rsp (type_of release_rsp.mem) ≡ some released.state)
        × (controls released.out ≡ suc (controls releasing.out)))
unfolding process_msg same state_process_msg store_message parse_ies write store
process_msg-answer_example = process_msg-answer blank no_ie release_rsp releasing released refl

abbrev gateway : Peer
gateway = record {
  addr = 10 ∷ 0 ∷ 0 ∷ 1 ∷ [];
  num_sessions = 2;
  restart_valid = true;
  restart_counter = 255;
}

-- The counter of the gateway wraps.
has_restarted-get_example :
    (((has_restarted (gateway ∷ []) (10 ∷ 0 ∷ 0 ∷ 1 ∷ []) 0).0 ≡ true)
      ↔ ((true ≡ true) × Newer 255 0))
    × (Newer 255 0
        → get (has_restarted (gateway ∷ []) (10 ∷ 0 ∷ 0 ∷ 1 ∷ []) 0).1 (10 ∷ 0 ∷ 0 ∷ 1 ∷ [])
          ≡ some (record gateway { restart_counter = 0; restart_valid = true }))
    × (¬ Newer 255 0
        → get (has_restarted (gateway ∷ []) (10 ∷ 0 ∷ 0 ∷ 1 ∷ []) 0).1 (10 ∷ 0 ∷ 0 ∷ 1 ∷ [])
          ≡ some (record gateway { restart_valid = true }))
    × ((has_restarted
          (has_restarted (gateway ∷ []) (10 ∷ 0 ∷ 0 ∷ 1 ∷ []) 0).1
          (10 ∷ 0 ∷ 0 ∷ 1 ∷ [])
          0).0
        ≡ false)
unfolding get same
has_restarted-get_example =
    has_restarted-get (gateway ∷ []) (10 ∷ 0 ∷ 0 ∷ 1 ∷ []) gateway 0 refl (omega arith)
      (omega arith)
