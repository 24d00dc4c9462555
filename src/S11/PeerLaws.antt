-- ===== src/S11/PeerLaws.antt =====
-- mme/S11/S11_Peer.c: the count of sessions and the detection of a restart.
use aalto_mme.Prelude.{
  ℕ, ltb, ◌↔◌, ◌+◌, ◌%◌, ◌<◌, ◌≡◌, refl, ◌∙◌, ap, arith, Bool, true, false, ◌&&◌, none, some, List,
  [], ◌∷◌, ◌==◌, Bool-cases, inl, inr,
}
use aalto_mme.Nas.Security.{same}
use aalto_mme.Nas.SecurityLaws.{same_refl}
use aalto_mme.S11.Peer.{
  Peer, get, update, remove, is_first_session, unref_session, has_restarted, is_newer,
}

-- The entry that a lookup finds after an update that keeps its address.
get-update :
    (ps : List Peer) (a : List ℕ) (f : Peer → Peer) (q : Peer)
    → ((p : Peer) → (f p).addr ≡ p.addr)
    → get ps a ≡ some q
    → get (update ps a f) a ≡ some (f q)
unfolding get update
get-update [] a f q keeps h = absurd (ground arith)
get-update (p ∷ ps) a f q keeps h = elim (Bool-cases (same p.addr a)) [
  | inl here ↦ ground (arith, here, keeps p)
  | inr further ↦ ground (arith, further, get-update ps a f q keeps)
]

-- For a tracked gateway with at least one session and less than 2 ^ 32 - 1 of them, one session
-- more and then one session less leave its entry as it was.
unref_session-is_first_session :
    (ps : List Peer) (a : List ℕ) (q : Peer)
    → get ps a ≡ some q
    → 0 < q.num_sessions
    → q.num_sessions < 4294967295
    → (ps' : List Peer) × (unref_session (is_first_session ps a).1 a ≡ some ps')
      × (get ps' a ≡ some q)
unfolding is_first_session unref_session
unref_session-is_first_session ps a q h some_left room =
    let more : Peer → Peer = λ p. record p { num_sessions = (p.num_sessions + 1) % 4294967296 } in
    let counted : (is_first_session ps a).1 ≡ update ps a more = rw (h, is_first_session) refl in
    let found : get (update ps a more) a ≡ some (more q) = get-update ps a more q (λ p. refl) h in
    let less : Peer → Peer =
      λ p. record p { num_sessions = ((more q).num_sessions + 4294967295) % 4294967296 } in
    let many : ((more q).num_sessions + 4294967295) % 4294967296 ≡ q.num_sessions = omega arith in
    let tracked : (((more q).num_sessions + 4294967295) % 4294967296 == 0) ≡ false =
      ground (arith, many) in
    let result : unref_session (update ps a more) a ≡ some (update (update ps a more) a less) =
      rw (found, unref_session) (rw tracked refl) in
    (
      update (update ps a more) a less,
      ap (λ xs. unref_session xs a) counted ∙ result,
      get-update (update ps a more) a less (more q) (λ p. refl) found
          ∙ ap (λ n. some (record q { num_sessions = n })) many,
    )

-- For a gateway that is not tracked, a session is its first one, and its end leaves the table as
-- it was.
unref_session-first :
    (ps : List Peer) (a : List ℕ)
    → get ps a ≡ none
    → ((is_first_session ps a).0 ≡ true) × (unref_session (is_first_session ps a).1 a ≡ some ps)
unfolding is_first_session unref_session get remove
unref_session-first ps a h = ground (arith, same_refl a)

and_true : (b : Bool) → b ≡ (b && true)
and_true true = refl
and_true false = refl

and_false : (b : Bool) → false ≡ (b && false)
and_false true = refl
and_false false = refl

is_newer_irreflexive : (c : ℕ) → is_newer c c ≡ false
unfolding is_newer
is_newer_irreflexive c = ground arith

has_restarted_newer :
    (ps : List Peer) (a : List ℕ) (q : Peer) (counter : ℕ)
    → get ps a ≡ some q
    → is_newer q.restart_counter counter ≡ true
    → has_restarted ps a counter ≡ (
      q.restart_valid,
      update ps a (λ p. record p { restart_counter = counter; restart_valid = true }),
    )
unfolding has_restarted
has_restarted_newer ps a q counter h newer = rw (h, has_restarted) (rw newer refl)

has_restarted_older :
    (ps : List Peer) (a : List ℕ) (q : Peer) (counter : ℕ)
    → get ps a ≡ some q
    → is_newer q.restart_counter counter ≡ false
    → has_restarted ps a counter ≡ (false, update ps a (λ p. record p { restart_valid = true }))
unfolding has_restarted
has_restarted_older ps a q counter h older = rw (h, has_restarted) (rw older refl)

-- A counter of one octet that a gateway has started again with: a higher one, or one of the first
-- two behind the last.
pub data Newer (stored counter : ℕ) : Type 0 where
  higher : stored < counter → Newer stored counter
  wrapped : stored ≡ 255 → counter < 2 → Newer stored counter

is_newer-Newer :
    (stored counter : ℕ)
    → stored < 256
    → counter < 256
    → (is_newer stored counter ≡ true) ↔ Newer stored counter
unfolding is_newer
is_newer-Newer stored counter s c = (found, back)
  where
    found : is_newer stored counter ≡ true → Newer stored counter
    found h = elim (Bool-cases (ltb stored counter)) [
      | inl e ↦ Newer.higher (ground (arith, e))
      | inr e ↦ Newer.wrapped (ground (arith, e, h)) (ground (arith, e, h))
    ]

    back : Newer stored counter → is_newer stored counter ≡ true
    back (Newer.higher e) = ground (arith, e)
    back (Newer.wrapped e f) = ground (arith, e, f)

-- For a tracked gateway and restart counters of one octet, a restart is reported exactly when a
-- counter of it was known and the one received is newer: higher, or 0 or 1 behind 255. Afterwards
-- a counter is known, the received one if that is newer and the old one otherwise, and the rest of
-- the entry is as it was; and the same counter received again at once is not reported.
pub has_restarted-get :
    (ps : List Peer) (a : List ℕ) (q : Peer) (counter : ℕ)
    → get ps a ≡ some q
    → q.restart_counter < 256
    → counter < 256
    → (((has_restarted ps a counter).0 ≡ true)
        ↔ ((q.restart_valid ≡ true) × Newer q.restart_counter counter))
      × (Newer q.restart_counter counter
          → get (has_restarted ps a counter).1 a
            ≡ some (record q { restart_counter = counter; restart_valid = true }))
      × (¬ Newer q.restart_counter counter
          → get (has_restarted ps a counter).1 a ≡ some (record q { restart_valid = true }))
      × ((has_restarted (has_restarted ps a counter).1 a counter).0 ≡ false)
has_restarted-get ps a q counter h s c =
    let (is_so, so) = is_newer-Newer q.restart_counter counter s c in
    let renewed : Peer → Peer = λ p. record p { restart_counter = counter; restart_valid = true } in
    let known : Peer → Peer = λ p. record p { restart_valid = true } in
    elim (Bool-cases (is_newer q.restart_counter counter)) [
      | inl newer ↦
          let first = has_restarted_newer ps a q counter h newer in
          let found : get (update ps a renewed) a ≡ some (renewed q) =
            get-update ps a renewed q (λ p. refl) h in
          let again =
            has_restarted_older (update ps a renewed) a (renewed q) counter found
              (is_newer_irreflexive counter) in
          rw first (
            (λ v. (v, is_so newer), λ v. v.0),
            λ n. found,
            λ n. absurd (n (is_so newer)),
            ap (λ r. r.0) again,
          )
      | inr older ↦
          let not_so : ¬ Newer q.restart_counter counter =
            λ n. absurd (ground (arith, so n, older)) in
          let first = has_restarted_older ps a q counter h older in
          let found : get (update ps a known) a ≡ some (known q) =
            get-update ps a known q (λ p. refl) h in
          let again = has_restarted_older (update ps a known) a (known q) counter found older in
          rw first (
            (λ v. absurd (ground (arith, v)), λ v. absurd (not_so v.1)),
            λ n. absurd (not_so n),
            λ n. found,
            ap (λ r. r.0) again,
          )
    ]
