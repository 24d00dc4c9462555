-- ===== src/S11/Peer.antt =====
-- mme/S11/S11_Peer.c: the serving gateways that are tracked, with their sessions and their restart
-- counters. The hash table, keyed by address and length, is a list with one entry for each address;
-- a lookup finds the first.
use aalto_mme.Prelude.{
  ℕ, ◌+◌, ◌%◌, Bool, true, false, ◌&&◌, ◌||◌, Option, none, some, List, [], ◌∷◌, ltb, ◌==◌,
  if◌then◌else◌,
}
use aalto_mme.Nas.Security.{same}

pub record Peer : Type 0 where
  pub addr : List ℕ
  pub num_sessions : ℕ
  pub restart_valid : Bool
  pub restart_counter : ℕ

-- `s11peer_get` and the lookups of the other functions.
unfoldable pub get : List Peer → List ℕ → Option Peer
get [] a = none
get (p ∷ ps) a = let rest = get ps a in if same p.addr a then some p else rest

-- An update through the pointer that the lookup gave.
unfoldable pub update : List Peer → List ℕ → (Peer → Peer) → List Peer
update [] a f = []
update (p ∷ ps) a f = let rest = update ps a f in if same p.addr a then f p ∷ ps else p ∷ rest

unfoldable pub remove : List Peer → List ℕ → List Peer
remove [] a = []
remove (p ∷ ps) a = let rest = remove ps a in if same p.addr a then ps else p ∷ rest

-- `num_sessions` is a guint32.
unfoldable pub is_first_session : List Peer → List ℕ → Bool × List Peer
is_first_session peers a = elim (get peers a) [
  | some q ↦
      (false, update peers a (λ p. record p { num_sessions = (p.num_sessions + 1) % 4294967296 }))
  | none ↦ (
    true,
    record { addr = a; num_sessions = 1; restart_valid = false; restart_counter = 0 } ∷ peers,
  )
]

-- `S11_unrefSession`; `none` is the use of a null pointer, for a peer that is not tracked.
unfoldable pub unref_session : List Peer → List ℕ → Option (List Peer)
unref_session peers a = elim (get peers a) [
  | none ↦ none
  | some q ↦
      let left : ℕ = (q.num_sessions + 4294967295) % 4294967296 in
      if left == 0
      then some (remove peers a)
      else some (update peers a (λ p. record p { num_sessions = left }))
]

-- The counter of a peer against the one received.
unfoldable pub is_newer : ℕ → ℕ → Bool
is_newer stored counter = ltb stored counter || (ltb counter 2 && ltb 254 stored)

unfoldable pub has_restarted : List Peer → List ℕ → ℕ → Bool × List Peer
has_restarted peers a counter = elim (get peers a) [
  | none ↦ (false, peers)
  | some q ↦
      if is_newer q.restart_counter counter
      then (
        q.restart_valid,
        update peers a (λ p. record p { restart_counter = counter; restart_valid = true }),
      )
      else (false, update peers a (λ p. record p { restart_valid = true }))
]
