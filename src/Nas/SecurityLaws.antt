-- ===== src/Nas/SecurityLaws.antt =====
-- NAS/src/NAS.c: what an authenticated message has proved, and what a refused one leaves.
use aalto_mme.Prelude.{
  ℕ, ◌+◌, ◌*◌, ◌/◌, ◌%◌, ◌<◌, ◌≡◌, refl, ◌∙◌, arith, true, false, some, List, [], ◌∷◌, take, drop,
  ◌==◌, bit_and, Mem, read, Bool-cases, inl, inr, ◌⊎◌, ==_iff,
}
use aalto_mme.Nas.Count.{
  Direction, NasHandler, nas_count, put_count, received_count, received_count_short, set_count,
  set_count_short, check_count, check_count_short,
}
use aalto_mme.Nas.CountLaws.{set_count-check_count}
use aalto_mme.Nas.Security.{
  octets, same, security_header, protected, Auth, eia, authenticate_protected, authenticate_short,
  authenticate_msg,
}

pub same_sound : (xs ys : List ℕ) → same xs ys ≡ true → xs ≡ ys
unfolding same
same_sound [] [] h = refl
same_sound (x ∷ xs) (y ∷ ys) h = ground (arith, same_sound xs ys)
same_sound [] (y ∷ ys) h = ground arith
same_sound (x ∷ xs) [] h = ground arith

pub same_refl : (xs : List ℕ) → same xs xs ≡ true
unfolding same
same_refl [] = refl
same_refl (x ∷ xs) = ground (arith, same_refl xs)

pub put_count-is_valid :
    (n : NasHandler) (d : Direction) (c : ℕ) → (put_count n d c).is_valid ≡ n.is_valid
unfolding put_count
put_count-is_valid n Direction.up_link c = refl
put_count-is_valid n Direction.down_link c = refl

pub protected_header : (s : ℕ) → protected s ≡ true → ((s == 0) ≡ false) × ((s == 12) ≡ false)
unfolding protected
protected_header s h = ground arith

pub set_count-is_valid :
    (n : NasHandler) (d : Direction) (recv : ℕ) → (set_count n d recv).0.is_valid ≡ n.is_valid
unfolding set_count
set_count-is_valid n d recv = put_count-is_valid n d (received_count (nas_count n d) recv + 1)

module _ (eia2 : List ℕ → List ℕ → ℕ → Direction → List ℕ → List ℕ) where
  -- The MAC of a protected message under 128-EIA2: over the octets from the sequence number on, with
  -- the COUNT of the message.
  abbrev pub expected_mac : NasHandler → Mem ℕ → ℕ → ℕ → Direction → List ℕ
  expected_mac n mem buf size d = take 4 (
      eia2 n.ikey (octets (received_count (nas_count n d) (mem (buf + 5)))) 0 d
        (read mem (buf + 5) ((size + 4294967291) * 8 % 4294967296 / 8)))

  -- The two octets of a service request: the last two of the MAC over its first two octets.
  abbrev pub expected_short_mac : NasHandler → Mem ℕ → ℕ → Direction → List ℕ
  expected_short_mac n mem buf d = drop 2 (
      take 4 (
        eia2 n.ikey (octets (received_count_short (nas_count n d) (bit_and (mem (buf + 1)) 0x1f))) 0
          d (read mem buf 2)))

  module _ (n : NasHandler) (mem : Mem ℕ) (buf size : ℕ) (d : Direction) (r : Auth) where
    protected_outcome :
        authenticate_protected eia2 n mem buf size d ≡ some r
        → ((r.is_auth ≡ true)
            × (check_count (nas_count n d) (mem (buf + 5)) ≡ true)
            × (r.handler ≡ (set_count n d (mem (buf + 5))).0)
            × ((n.i ≡ 0) ⊎ ((n.i ≡ 2) × (read mem (buf + 1) 4 ≡ expected_mac n mem buf size d))))
          ⊎ ((r.is_auth ≡ false) × (r.handler ≡ n))
    unfolding authenticate_protected eia
    protected_outcome h = elim (Bool-cases (check_count (nas_count n d) (mem (buf + 5)))) [
      | inl fresh ↦ elim (Bool-cases (n.i == 0)) [
        | inl null ↦ ground arith
        | inr keyed ↦
            ground (arith, same_sound (read mem (buf + 1) 4) (expected_mac n mem buf size d))
      ]
      | inr stale ↦ ground arith
    ]

    short_outcome :
        authenticate_short eia2 n mem buf d ≡ some r
        → ((r.is_auth ≡ true)
            × (check_count_short (nas_count n d) (bit_and (mem (buf + 1)) 0x1f) ≡ true)
            × (r.handler ≡ (set_count_short n d (bit_and (mem (buf + 1)) 0x1f)).0)
            × ((n.i ≡ 0) ⊎ ((n.i ≡ 2) × (read mem (buf + 2) 2 ≡ expected_short_mac n mem buf d))))
          ⊎ ((r.is_auth ≡ false) × (r.handler ≡ n))
    unfolding authenticate_short eia
    short_outcome h =
        elim (Bool-cases (check_count_short (nas_count n d) (bit_and (mem (buf + 1)) 0x1f))) [
          | inl fresh ↦ elim (Bool-cases (n.i == 0)) [
            | inl null ↦ ground arith
            | inr keyed ↦
                ground (arith, same_sound (read mem (buf + 2) 2) (expected_short_mac n mem buf d))
          ]
          | inr stale ↦ ground arith
        ]

    -- Whatever the message is, a message that is not authenticated leaves the handler as it was. One
    -- that is authenticated has met a valid context and is either a protected message or a service
    -- request; its sequence number was in the window, the COUNT moved to the one behind it, and the
    -- algorithm is either EIA0 or 128-EIA2 with the expected MAC.
    pub authenticate_msg-genuine :
        (unset : ℕ)
        → authenticate_msg eia2 unset n mem buf size d ≡ some r
        → ((r.is_auth ≡ false) × (r.handler ≡ n))
          ⊎ ((n.is_valid ≡ true)
              × (r.is_auth ≡ true)
              × (((protected (security_header mem buf size unset) ≡ true)
                    × (check_count (nas_count n d) (mem (buf + 5)) ≡ true)
                    × (r.handler ≡ (set_count n d (mem (buf + 5))).0)
                    × ((n.i ≡ 0)
                        ⊎ ((n.i ≡ 2) × (read mem (buf + 1) 4 ≡ expected_mac n mem buf size d))))
                  ⊎ ((security_header mem buf size unset ≡ 12)
                      × (check_count_short (nas_count n d) (bit_and (mem (buf + 1)) 0x1f) ≡ true)
                      × (r.handler ≡ (set_count_short n d (bit_and (mem (buf + 1)) 0x1f)).0)
                      × ((n.i ≡ 0)
                          ⊎ ((n.i ≡ 2)
                              × (read mem (buf + 2) 2 ≡ expected_short_mac n mem buf d))))))
    unfolding authenticate_msg
    authenticate_msg-genuine unset h =
        let s : ℕ = security_header mem buf size unset in
        elim (Bool-cases n.is_valid) [
          | inr invalid ↦ ground arith
          | inl valid ↦ elim (Bool-cases (s == 0)) [
            | inl plain ↦ ground arith
            | inr header ↦ elim (Bool-cases (protected s)) [
              | inl kind ↦
                  let run : authenticate_protected eia2 n mem buf size d ≡ some r = ground arith in
                  elim (protected_outcome run) [
                    | inl (a, c, m, e) ↦ inr (valid, a, inl (kind, c, m, e))
                    | inr refused ↦ inl refused
                  ]
              | inr other ↦ elim (Bool-cases (s == 12)) [
                | inr unknown ↦ ground arith
                | inl request ↦
                    let run : authenticate_short eia2 n mem buf d ≡ some r = ground arith in
                    elim (short_outcome run) [
                      | inl (a, c, m, e) ↦ inr (valid, a, inr ((==_iff s 12).0 request, c, m, e))
                      | inr refused ↦ inl refused
                    ]
              ]
            ]
          ]
        ]

    -- With a stored COUNT below 2 ^ 24, a protected message that was authenticated is refused when
    -- it comes again, with the return value of a retransmission and no change, if its sequence
    -- number is below 255.
    pub authenticate_msg-replay :
        (unset : ℕ)
        → nas_count n d < 16777216
        → mem (buf + 5) < 255
        → protected (security_header mem buf size unset) ≡ true
        → authenticate_msg eia2 unset n mem buf size d ≡ some r
        → r.is_auth ≡ true
        → authenticate_msg eia2 unset r.handler mem buf size d
          ≡ some (record { handler = r.handler; is_auth = false; ret = 2 })
    unfolding authenticate_msg authenticate_protected
    authenticate_msg-replay unset small below kind h genuine =
        let sqn : ℕ = mem (buf + 5) in
        let (header, service) = protected_header (security_header mem buf size unset) kind in
        elim (authenticate_msg-genuine unset h) [
          | inl (refused, e) ↦ absurd (ground (arith, refused, genuine))
          | inr (valid, a, inr (request, _, _, _)) ↦ absurd (ground (arith, request, service))
          | inr (valid, a, inl (k, fresh, moved, mac)) ↦
              let again : check_count (nas_count (set_count n d sqn).0 d) sqn ≡ false =
                elim ((set_count-check_count n d sqn (omega arith) small fresh).3) [
                  | inl wrapped ↦ absurd (omega arith)
                  | inr refused ↦ refused
                ] in
              let still : (set_count n d sqn).0.is_valid ≡ true =
                set_count-is_valid n d sqn ∙ valid in
              rw moved (ground (arith, again, still, header, kind))
        ]
