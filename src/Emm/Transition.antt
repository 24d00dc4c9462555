-- ===== src/Emm/Transition.antt =====
-- mme/S1/NAS: the moves of the abstract machine of a user, and what they keep.
use aalto_mme.Prelude.{ℕ, ◌≤◌, ◌≡◌, ◌≢◌, arith, Bool, true, false}
use aalto_mme.Emm.Ctx.{State}
use aalto_mme.Emm.Send.{next_ksi, generate_new_ksi}
use aalto_mme.Emm.Phase.{Phase}

-- The states that take an attach request.
unfoldable pub can_attach : State → Bool
can_attach State.deregistered = true
can_attach State.registered = true
can_attach State.specific_procedure = false
can_attach State.common_procedure = false
can_attach State.deregistered_initiated = false

abbrev pub IsKsi : ℕ → Type 0
IsKsi k = (1 ≤ k) × (k ≤ 6)

-- `authentic` says that the event is a message whose authentication code is right.
pub data Transition (authentic : Bool) : Phase → Phase → Type 0 where
  stay : {p : Phase} → Transition authentic p p
  stop :
      {s : State} {b : Bool} {k : ℕ}
      → Transition authentic (Phase.phase s b k) (Phase.phase State.deregistered b k)
  await_vectors :
      {s : State} {b : Bool} {k : ℕ}
      → can_attach s ≡ true
      → Transition authentic (Phase.phase s b k) (Phase.phase s false 7)
  identify :
      {s : State} {b : Bool} {k : ℕ}
      → can_attach s ≡ true
      → Transition authentic (Phase.phase s b k) (Phase.phase State.common_procedure false 7)
  renew :
      {s : State} {b : Bool} {k k' : ℕ}
      → can_attach s ≡ true
      → IsKsi k'
      → Transition authentic (Phase.phase s b k) (Phase.phase State.common_procedure false k')
  challenge :
      {s : State} {b : Bool} {k k' : ℕ}
      → IsKsi k'
      → k' ≢ k
      → Transition authentic (Phase.phase s b k) (Phase.phase State.common_procedure b k')
  proceed :
      {s : State} {k : ℕ}
      → can_attach s ≡ true
      → authentic ≡ true
      → Transition authentic (Phase.phase s true k) (Phase.phase State.specific_procedure true k)
  complete :
      {b : Bool} {k : ℕ}
      → authentic ≡ true
      → Transition authentic
          (Phase.phase State.common_procedure b k)
          (Phase.phase State.specific_procedure true k)
  register :
      {b : Bool} {k : ℕ}
      → Transition authentic
          (Phase.phase State.specific_procedure b k)
          (Phase.phase State.registered b k)

-- What is not authentic might as well be.
pub weaken : (authentic : Bool) {p q : Phase} → Transition false p q → Transition authentic p q
weaken authentic Transition.stay = Transition.stay
weaken authentic Transition.stop = Transition.stop
weaken authentic (Transition.await_vectors a) = Transition.await_vectors a
weaken authentic (Transition.identify a) = Transition.identify a
weaken authentic (Transition.renew a r) = Transition.renew a r
weaken authentic (Transition.challenge r n) = Transition.challenge r n
weaken authentic (Transition.proceed a never) = absurd (cc never)
weaken authentic (Transition.complete never) = absurd (cc never)
weaken authentic Transition.register = Transition.register

-- A new key set identifier is one of 1 to 6, and neither of the two it is made from, whatever they
-- are: a network and a user that hold different key sets are given a third.
pub generate_new_ksi_lem :
    (k1 k2 : ℕ)
    → IsKsi (generate_new_ksi k1 k2) × (generate_new_ksi k1 k2 ≢ k1) × (generate_new_ksi k1 k2 ≢ k2)
unfolding generate_new_ksi next_ksi
generate_new_ksi_lem k1 k2 = (ground arith, ground arith, ground arith)

-- In a specific procedure there is a security context. A user who is registered has one, unless it
-- has been dropped for a new authentication whose vectors are awaited.
pub data IsProtected : Phase → Type 0 where
  idle : {b : Bool} {k : ℕ} → IsProtected (Phase.phase State.deregistered b k)
  common : {b : Bool} {k : ℕ} → IsProtected (Phase.phase State.common_procedure b k)
  detaching : {b : Bool} {k : ℕ} → IsProtected (Phase.phase State.deregistered_initiated b k)
  specific : {k : ℕ} → IsProtected (Phase.phase State.specific_procedure true k)
  registered : {k : ℕ} → IsProtected (Phase.phase State.registered true k)
  dropped : IsProtected (Phase.phase State.registered false 7)

pub Transition-IsProtected :
    {authentic : Bool} {p q : Phase} → Transition authentic p q → IsProtected p → IsProtected q
unfolding can_attach
Transition-IsProtected Transition.stay h = h
Transition-IsProtected Transition.stop h = IsProtected.idle
Transition-IsProtected (Transition.await_vectors a) IsProtected.idle = IsProtected.idle
Transition-IsProtected (Transition.await_vectors a) IsProtected.registered = IsProtected.dropped
Transition-IsProtected (Transition.await_vectors a) IsProtected.dropped = IsProtected.dropped
Transition-IsProtected (Transition.await_vectors a) IsProtected.common = absurd (ground arith)
Transition-IsProtected (Transition.await_vectors a) IsProtected.detaching = absurd (ground arith)
Transition-IsProtected (Transition.await_vectors a) IsProtected.specific = absurd (ground arith)
Transition-IsProtected (Transition.identify a) h = IsProtected.common
Transition-IsProtected (Transition.renew a r) h = IsProtected.common
Transition-IsProtected (Transition.challenge r n) h = IsProtected.common
Transition-IsProtected (Transition.proceed a au) h = IsProtected.specific
Transition-IsProtected (Transition.complete au) h = IsProtected.specific
Transition-IsProtected Transition.register IsProtected.specific = IsProtected.registered

-- No security context, and in none of the states that ask for one.
pub data IsUnproven : Phase → Type 0 where
  idle : {k : ℕ} → IsUnproven (Phase.phase State.deregistered false k)
  common : {k : ℕ} → IsUnproven (Phase.phase State.common_procedure false k)
  detaching : {k : ℕ} → IsUnproven (Phase.phase State.deregistered_initiated false k)

pub Transition-IsUnproven : {p q : Phase} → Transition false p q → IsUnproven p → IsUnproven q
unfolding can_attach
Transition-IsUnproven Transition.stay h = h
Transition-IsUnproven Transition.stop IsUnproven.idle = IsUnproven.idle
Transition-IsUnproven Transition.stop IsUnproven.common = IsUnproven.idle
Transition-IsUnproven Transition.stop IsUnproven.detaching = IsUnproven.idle
Transition-IsUnproven (Transition.await_vectors a) IsUnproven.idle = IsUnproven.idle
Transition-IsUnproven (Transition.await_vectors a) IsUnproven.common = IsUnproven.common
Transition-IsUnproven (Transition.await_vectors a) IsUnproven.detaching = IsUnproven.detaching
Transition-IsUnproven (Transition.identify a) h = IsUnproven.common
Transition-IsUnproven (Transition.renew a r) h = IsUnproven.common
Transition-IsUnproven (Transition.challenge r n) IsUnproven.idle = IsUnproven.common
Transition-IsUnproven (Transition.challenge r n) IsUnproven.common = IsUnproven.common
Transition-IsUnproven (Transition.challenge r n) IsUnproven.detaching = IsUnproven.common
Transition-IsUnproven (Transition.proceed a never) h = absurd (cc never)
Transition-IsUnproven (Transition.complete never) h = absurd (cc never)
Transition-IsUnproven Transition.register h = elim h [ ]

pub data HasKsi : Phase → Type 0 where
  ksi : {s : State} {b : Bool} {k : ℕ} → 1 ≤ k → k ≤ 7 → HasKsi (Phase.phase s b k)

pub Transition-HasKsi :
    {authentic : Bool} {p q : Phase} → Transition authentic p q → HasKsi p → HasKsi q
Transition-HasKsi Transition.stay h = h
Transition-HasKsi Transition.stop (HasKsi.ksi l u) = HasKsi.ksi l u
Transition-HasKsi (Transition.await_vectors a) h = HasKsi.ksi (omega arith) (omega arith)
Transition-HasKsi (Transition.identify a) h = HasKsi.ksi (omega arith) (omega arith)
Transition-HasKsi (Transition.renew a r) h = HasKsi.ksi r.0 (omega (arith, r.1))
Transition-HasKsi (Transition.challenge r n) h = HasKsi.ksi r.0 (omega (arith, r.1))
Transition-HasKsi (Transition.proceed a au) (HasKsi.ksi l u) = HasKsi.ksi l u
Transition-HasKsi (Transition.complete au) (HasKsi.ksi l u) = HasKsi.ksi l u
Transition-HasKsi Transition.register (HasKsi.ksi l u) = HasKsi.ksi l u
