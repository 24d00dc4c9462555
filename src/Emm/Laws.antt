-- ===== src/Emm/Laws.antt =====
-- mme/S1/NAS: what the handlers of a user ignore and where they abort, the
-- chain of next hops, and the end of a user out of reach.
use aalto_mme.Prelude.{
  ℕ, zero, suc, ◌+◌, ◌%◌, ◌/◌, ◌<◌, ◌++◌, ◌≤◌, ◌≡◌, ◌∙◌, ◌≢◌, refl, arith, true, false, none, some,
  List, [], ◌∷◌, inl, inr, bit_and, Mem, replicate, store,
}
use aalto_mme.Prelude.Bits.{bit_and_ones}
use aalto_mme.Nas.Count.{Direction}
use aalto_mme.Nas.Security.{Auth, same, octets, security_header, authenticate_msg}
use aalto_mme.Nas.SecurityLaws.{authenticate_msg-genuine}
use aalto_mme.Nas.Decode.{NasMessage, Body, dec_sec_nas, is_auth_required}
use aalto_mme.Emm.Ctx.{
  State, Ctx, stop_timer, set_timer, emit, change_state, mobile_reachable, implicit_detach,
}
use aalto_mme.Emm.Procedures.{emm_stop, get_nh, get_kenb, hop}
use aalto_mme.Emm.Uplink.{Overlay, message_type, mobile_timeout}
use aalto_mme.Emm.Protection.{State-cases}
use aalto_mme.Emm.Machine.{
  Pdu, Event, gate, open_secured, receive_secured, process_sec_msg, process_msg, process_timeout,
  handle, run,
}

module _ (eia2 : List ℕ → List ℕ → ℕ → Direction → List ℕ → List ℕ)
    (hmac : List ℕ → List ℕ → List ℕ) (unset : ℕ) (stack : Mem ℕ) (uninit : List ℕ)
    (overlaid : Body → Overlay) where
  sec_msg-forged :
      (m : Pdu) (c : Ctx) (a : Auth) (x : NasMessage)
      → c.sci ≡ true
      → authenticate_msg eia2 unset c.parser m.mem 0 m.len Direction.up_link ≡ some a
      → a.ret ≢ 0
      → a.is_auth ≡ false
      → a.handler ≡ c.parser
      → dec_sec_nas unset stack a.handler m.mem 0 m.len ≡ some (x, true)
      → is_auth_required (message_type x.body) ≡ true
      → process_sec_msg eia2 hmac unset stack uninit overlaid c.state m c ≡ some c
  unfolding process_sec_msg receive_secured open_secured gate
  sec_msg-forged m c a x sc checked known wrong kept decoded required =
      ground (arith, State-cases c.state, checked, decoded)

  -- Under a security context, a secured message whose authentication code is wrong, and whose type
  -- has to be authenticated, changes nothing in any state but that the timer of reachability is
  -- stopped.
  pub process_msg-forged :
      (m : Pdu) (c : Ctx) (a : Auth) (x : NasMessage)
      → c.sci ≡ true
      → 1 ≤ m.len
      → 1 ≤ security_header m.mem 0 m.len unset
      → security_header m.mem 0 m.len unset ≤ 4
      → authenticate_msg eia2 unset c.parser m.mem 0 m.len Direction.up_link ≡ some a
      → a.ret ≢ 0
      → a.is_auth ≡ false
      → dec_sec_nas unset stack a.handler m.mem 0 m.len ≡ some (x, true)
      → is_auth_required (message_type x.body) ≡ true
      → process_msg eia2 hmac unset stack uninit overlaid m c ≡ some (stop_timer mobile_reachable c)
  unfolding process_msg stop_timer
  process_msg-forged m c a x sc len low high checked known wrong decoded required =
      let kept : a.handler ≡ c.parser =
        elim (authenticate_msg-genuine eia2 c.parser m.mem 0 m.len Direction.up_link a unset
          checked) [
            | inl (forged, same_handler) ↦ same_handler
            | inr (valid, genuine, rest) ↦ absurd (ground arith)
          ] in
      let ignored =
        sec_msg-forged m (stop_timer mobile_reachable c) a x sc checked known wrong kept decoded
          required in
      ground (arith, ignored)

  -- A secured message is an abort while a registered user has no security context.
  process_msg-dropped :
      (m : Pdu) (c : Ctx)
      → c.state ≡ State.registered
      → c.sci ≡ false
      → 1 ≤ m.len
      → 1 ≤ security_header m.mem 0 m.len unset
      → security_header m.mem 0 m.len unset ≤ 4
      → process_msg eia2 hmac unset stack uninit overlaid m c ≡ none
  unfolding process_msg process_sec_msg stop_timer
  process_msg-dropped m c s sc len low high = ground arith

  -- A registered user whose timer of reachability runs is detached when it and then the implicit
  -- detach timer expire: the run ends in the deregistered state, without an abort, and neither of
  -- the two timers runs any more.
  pub run-unreachable :
      (c : Ctx) (msg : List ℕ)
      → c.state ≡ State.registered
      → c.active_timers mobile_reachable ≡ some msg
      → (d : Ctx) × (run eia2 hmac unset stack uninit overlaid
            (Event.timeout mobile_reachable ∷ Event.timeout implicit_detach ∷ [])
            c
          ≡ some d)
        × (d.state ≡ State.deregistered)
        × (d.active_timers mobile_reachable ≡ none)
        × (d.active_timers implicit_detach ≡ none)
  unfolding run handle process_timeout mobile_timeout set_timer stop_timer emm_stop emit
      change_state store
  run-unreachable c msg s running = (
    emm_stop
        (stop_timer implicit_detach (set_timer implicit_detach [] (stop_timer mobile_reachable c))),
    ground (arith, running),
    refl,
    refl,
    refl,
  )

-- The keys of TS 33.401, A.3 and A.4: of the first access node, from the uplink count in four
-- octets, the high one first, and of a next hop, from the key before it. `hmac` is HMAC-SHA256.
module _ (hmac : List ℕ → List ℕ → List ℕ) where
  unfoldable pub node_key : List ℕ → ℕ → List ℕ
  node_key kasme count = hmac kasme (
      0x11
      ∷ count / 16777216 % 256
      ∷ count / 65536 % 256
      ∷ count / 256 % 256
      ∷ count % 256
      ∷ 0x00
      ∷ 0x04
      ∷ [])

  unfoldable pub nth_hop : List ℕ → List ℕ → ℕ → List ℕ
  nth_hop kasme kenb zero = kenb
  nth_hop kasme kenb (suc n) = hmac kasme (0x12 ∷ (nth_hop kasme kenb n ++ (0x00 ∷ 0x20 ∷ [])))

  -- What is left, and what is returned last, by a number of calls.
  unfoldable pub calls : ℕ → Ctx → Ctx
  calls zero c = c
  calls (suc n) c = (get_nh hmac (calls n c)).0

  pub data IsChained (kasme kenb : List ℕ) (n : ℕ) (c : Ctx) : Type 0 where
    chained :
        c.kasme ≡ kasme
        → c.old_nh ≡ nth_hop kasme kenb n
        → c.nh ≡ nth_hop kasme kenb (suc n)
        → c.old_ncc ≡ n % 256
        → c.ncc ≡ (n + 1) % 256
        → IsChained kasme kenb n c

  first_hop :
      (c : Ctx)
      → same c.nh (replicate 32 0) ≡ true
      → IsChained c.kasme (node_key c.kasme c.nas_ul_count) 0 (get_nh hmac c).0
  unfolding get_nh nth_hop get_kenb hop node_key octets
  first_hop c none_yet = rw none_yet (IsChained.chained refl refl refl refl refl)

  later_hop :
      (kasme kenb : List ℕ) (n : ℕ) (c : Ctx)
      → same c.nh (replicate 32 0) ≡ false
      → IsChained kasme kenb n c
      → IsChained kasme kenb (suc n) (get_nh hmac c).0
  unfolding get_nh nth_hop hop
  later_hop kasme kenb n c some_nh (IsChained.chained k o h oc nc) =
      rw (some_nh) (IsChained.chained k h (rw (k, h) refl) (omega (arith, nc)) (omega (arith, nc)))

  -- None of the first next hops, behind the key of the access node, is all zero.
  unfoldable pub AreKeys : List ℕ → List ℕ → ℕ → Type 0
  AreKeys kasme kenb n =
      (j : ℕ) → j < n → same (nth_hop kasme kenb (suc j)) (replicate 32 0) ≡ false

  calls-IsChained :
      (c : Ctx) (n : ℕ)
      → c.nh ≡ replicate 32 0
      → AreKeys c.kasme (node_key c.kasme c.nas_ul_count) n
      → IsChained c.kasme (node_key c.kasme c.nas_ul_count) n (calls (suc n) c)
  unfolding calls same AreKeys
  calls-IsChained c zero start fresh = first_hop c (rw start refl)
  calls-IsChained c (suc n) start fresh =
      let kenb : List ℕ = node_key c.kasme c.nas_ul_count in
      let before : IsChained c.kasme kenb n (calls (suc n) c) =
        calls-IsChained c n start (λ j small. fresh j (omega (arith, small))) in
      later_hop c.kasme kenb n (calls (suc n) c) (is_some before) before
    where
      is_some :
          IsChained c.kasme (node_key c.kasme c.nas_ul_count) n (calls (suc n) c)
          → same (calls (suc n) c).nh (replicate 32 0) ≡ false
      is_some (IsChained.chained k o h oc nc) = rw h (fresh n (omega arith))

  given :
      (kasme kenb : List ℕ) (n : ℕ) (c : Ctx)
      → IsChained kasme kenb n (get_nh hmac c).0
      → (get_nh hmac c).1 ≡ (nth_hop kasme kenb n, n % 8)
  unfolding get_nh
  given kasme kenb n c (IsChained.chained k o h oc nc) =
      let position : bit_and (get_nh hmac c).0.old_ncc 7 ≡ n % 8 =
        bit_and_ones 3 (get_nh hmac c).0.old_ncc ∙ omega (arith, oc) in
      λ i. (o i, position i)

  -- The next hops that a user's context gives out one after the other are the chain of the
  -- standard: first the key of the access node, derived from the uplink count, and then each derived
  -- from the one before by the key of the context; and with each goes its position in the chain,
  -- modulo 8. The context starts without a next hop, and none of the next hops derived so far is all
  -- zero, which the code takes for none.
  pub get_nh-chain :
      (c : Ctx) (n : ℕ)
      → c.nh ≡ replicate 32 0
      → AreKeys c.kasme (node_key c.kasme c.nas_ul_count) n
      → (get_nh hmac (calls n c)).1 ≡ (nth_hop c.kasme (node_key c.kasme c.nas_ul_count) n, n % 8)
  unfolding calls
  get_nh-chain c n start fresh =
      given c.kasme (node_key c.kasme c.nas_ul_count) n (calls n c)
        (calls-IsChained c n start fresh)
