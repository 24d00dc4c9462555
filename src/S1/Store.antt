-- ===== src/S1/Store.antt =====
-- mme/MME.c, mme/S1/S1Assoc.c and mme/S1/ECMSession.c: the tables of the sessions. A table of glib is
-- a map from keys to entries; the table of an association has a pointer to a session as its key as
-- well as its value, and a lookup reads the key through it. `none` is the use of a null pointer, or
-- of a session that was freed.
use aalto_mme.Prelude.{
  ℕ, zero, suc, ◌+◌, Bool, true, false, Option, none, some, List, [], ◌∷◌, ◌++◌, ◌==◌,
  if◌then◌else◌, Mem, store,
}
use aalto_mme.S1ap.Message.{Message, SupportedTa}
use aalto_mme.S1.Session.{Session, Effect, EcmState, Users, idle_process_msg}

-- A node of `ecm_sessions`: the sessions that its key and its value point to.
pub record Entry : Type 0 where
  pub owner : ℕ
  pub value : ℕ

pub data AssocState : Type 0 where
  not_configured active : AssocState

-- `mme_GlobaleNBid`.
pub record MmeGlobalEnbId : Type 0 where
  pub plmn : List ℕ
  pub macro_id : Bool
  pub enb_id : ℕ

-- `S1Assoc_t`; its table of sessions is in `Mme`.
pub record Assoc : Type 0 where
  pub state : AssocState
  pub nonue_rsid : ℕ
  pub enb_name : List ℕ
  pub global_enb_id : MmeGlobalEnbId
  pub supported_tas : Option (List SupportedTa)

-- `mme_t` as the S1 interface uses it, with the associations by file descriptor, the sessions by
-- their identity, which is where the pointers to them lead, and the table of each association by
-- file descriptor and hash, the identity of the eNodeB.
pub record Mme : Type 0 where
  pub assocs : Mem (Option Assoc)
  pub sessions : Mem (Option Session)
  pub tables : Mem (Mem (Option Entry))
  pub local_ids : List ℕ
  pub by_genbid : List (MmeGlobalEnbId × ℕ)
  pub effects : List Effect

infixl 5 ◌>>=◌
abbrev pub ◌>>=◌ {ℓ κ} : {A : Type ℓ} {B : Type κ} → Option A → (A → Option B) → Option B
none >>= f = none
some a >>= f = f a

unfoldable pub emit : Mme → List Effect → Mme
emit m fx = record m { effects = m.effects ++ fx }

unfoldable pub contains : List ℕ → ℕ → Bool
contains [] a = false
contains (x ∷ xs) a = let rest = contains xs a in if x == a then true else rest

-- The loop of `mme_newLocalUEid`, from `i` on, with `left` identities to try; 0 if all are taken.
unfoldable pub first_free : List ℕ → ℕ → ℕ → ℕ
first_free taken i zero = 0
first_free taken i (suc left) =
    let rest = first_free taken (i + 1) left in if contains taken i then rest else i

-- `mme_newLocalUEid`, for `max_ue` users.
unfoldable pub new_local_ue_id : ℕ → List ℕ → ℕ × List ℕ
unfolding first_free
new_local_ue_id max_ue taken =
    let i : ℕ = first_free taken 1 max_ue in if i == 0 then (0, taken) else (i, i ∷ taken)

-- `mme_freeLocalUEid`.
unfoldable pub free_local_ue_id : List ℕ → ℕ → List ℕ
free_local_ue_id [] id = []
free_local_ue_id (x ∷ xs) id = let rest = free_local_ue_id xs id in if x == id then xs else x ∷ rest

-- The node of an identity: it has the hash of the identity, and the key that it points to is equal.
unfoldable pub lookup_entry : Mme → ℕ → ℕ → Option (Option Entry)
lookup_entry m fd id = elim (m.tables fd id) [
  | none ↦ some none
  | some e ↦ elim (m.sessions e.owner) [
    | none ↦ none
    | some s ↦ some (if s.enb_ue_id == id then some e else none)
  ]
]

unfoldable pub set_entry : Mme → ℕ → ℕ → Option Entry → Mme
unfolding store
set_entry m fd id e = record m { tables = store m.tables fd (store (m.tables fd) id e) }

unfoldable pub set_session : Mme → ℕ → Option Session → Mme
unfolding store
set_session m k s = record m { sessions = store m.sessions k s }

-- `s1Assoc_registerECMSession`: a node with an equal key gets the new value and keeps its key.
unfoldable pub register_in_assoc : Mme → ℕ → Session → Option Mme
unfolding lookup_entry set_entry
register_in_assoc m fd s = elim (lookup_entry m fd s.enb_ue_id) [
  | none ↦ none
  | some none ↦
      some (set_entry m fd s.enb_ue_id (some (record { owner = s.mme_ue_id; value = s.mme_ue_id })))
  | some (some e) ↦
      some (set_entry m fd s.enb_ue_id (some (record { owner = e.owner; value = s.mme_ue_id })))
]

-- `s1Assoc_deregisterECMSession`, on the identity of a session.
unfoldable pub deregister_in_assoc : Mme → ℕ → ℕ → Option Mme
unfolding lookup_entry set_entry
deregister_in_assoc m fd id = elim (lookup_entry m fd id) [
  | none ↦ none
  | some none ↦ some m
  | some (some e) ↦ some (set_entry m fd id none)
]

-- `mme_deregisterECM`, which frees the session: `ecmSession_free`.
unfoldable pub deregister_ecm : Mme → Session → Option Mme
unfolding set_session emit
deregister_ecm m s = elim s.emm [
  | none ↦ none
  | some emm ↦ some (
      emit
        (set_session (record m { local_ids = free_local_ue_id m.local_ids s.mme_ue_id }) s.mme_ue_id
          none)
        (Effect.emm_deregister emm ∷ []))
]

-- A session that is taken out of the table of its association and freed.
unfoldable pub release_session : Mme → Session → Option Mme
unfolding deregister_in_assoc deregister_ecm
release_session m s = deregister_in_assoc m s.assoc s.enb_ue_id >>= λ n. deregister_ecm n s

-- A new session, before its first message.
unfoldable pub fresh_session : ℕ → ℕ → ℕ → Session
fresh_session fd mme r_sid = record {
  assoc = fd;
  emm = none;
  state = EcmState.idle;
  l_sid = 0;
  r_sid_valid = false;
  r_sid = r_sid;
  mme_ue_id = mme;
  enb_ue_id = 0;
  sn = 0 ∷ 0 ∷ 0 ∷ [];
  tac = 0 ∷ 0 ∷ [];
  cell_id = 0;
  cause_release = none;
}

-- Where a pointer leads that is left behind by a session: to no identity, which has 32 bits.
abbrev pub freed : ℕ
freed = 4294967296

unfoldable pub left_behind : ℕ → ℕ → ℕ
left_behind k p = if p == k then freed else p

-- The nodes that point to a session keep their pointers when it is freed.
unfoldable pub leave_nodes : Mme → ℕ → Mme
unfolding left_behind
leave_nodes m k = record m {
  tables = λ fd id. elim (m.tables fd id) [
    | none ↦ none
    | some e ↦ some (record { owner = left_behind k e.owner; value = left_behind k e.value })
  ];
}

-- `mme_registerECM`: over an identity that is in use, which only 0 can be, the session that has it is
-- freed. The key that the table of the identities keeps lies in the freed session and is still read
-- as 0.
unfoldable pub register_ecm : Mme → Session → Option Mme
unfolding set_session deregister_ecm leave_nodes
register_ecm m s = elim (m.sessions s.mme_ue_id) [
  | none ↦ some (set_session m s.mme_ue_id (some s))
  | some other ↦ deregister_ecm (leave_nodes m other.mme_ue_id) other >>= λ n.
      some (set_session n s.mme_ue_id (some s))
]

-- `ecmSession_init`. The session is in the heap before the tables know it, so that its key can be
-- read.
unfoldable pub ecm_session_init : Users → ℕ → Mme → ℕ → Message → ℕ → Option Mme
unfolding new_local_ue_id fresh_session idle_process_msg register_ecm register_in_assoc emit
ecm_session_init u max_ue m fd msg r_sid =
    let i = new_local_ue_id max_ue m.local_ids in
    idle_process_msg u (fresh_session fd i.0 r_sid) msg r_sid >>= λ r.
    register_ecm (emit (record m { local_ids = i.1 }) r.1) r.0 >>= λ n. register_in_assoc n fd r.0
