-- ===== src/Gtp/Accept.antt =====
-- libgtp/gtpie.c: which packets the decoders accept, whatever their bytes are.
use aalto_mme.Prelude.{ℕ, zero, suc, ◌+◌, ◌≤◌, ◌≡◌, ◌↔◌, arith, Option, List, length, Mem, get_u16}
use aalto_mme.Gtp.Ie.{ok, gtpie_size, decap_loop, decap_finish, ie_start, gtp2ie_decap}

-- The address behind `n` elements, as their length fields say.
abbrev pub behind : Mem ℕ → ℕ → ℕ → ℕ
behind mem zero p = p
behind mem (suc n) p = behind mem n (p + (4 + get_u16 mem (p + 1)))

le-behind : (mem : Mem ℕ) (n p : ℕ) → p ≤ behind mem n p
le-behind mem zero p = omega arith
le-behind mem (suc n) p = omega (arith, le-behind mem n (p + (4 + get_u16 mem (p + 1))))

landed :
    (mem : Mem ℕ) (slots p end : ℕ)
    → (decap_loop mem slots p end).1 ≡ end
    → (length (decap_loop mem slots p end).0 ≤ slots)
      × (behind mem (length (decap_loop mem slots p end).0) p ≡ end)
unfolding decap_loop
landed mem zero p end e = (omega arith, e)
landed mem (suc slots) p end e =
    ground (arith, landed mem slots (p + (4 + get_u16 mem (p + 1))) end)

lands :
    (mem : Mem ℕ) (slots n p end : ℕ)
    → n ≤ slots
    → behind mem n p ≡ end
    → (decap_loop mem slots p end).1 ≡ end
unfolding decap_loop
lands mem zero zero p end few e = e
lands mem zero (suc n) p end few e = absurd (omega arith)
lands mem (suc slots) zero p end few e = ground arith
lands mem (suc slots) (suc n) p end few e = ground (
  arith,
  lands mem slots n (p + (4 + get_u16 mem (p + 1))) end,
  le-behind mem n (p + (4 + get_u16 mem (p + 1))),
)

finish_ok :
    (ie : Mem (Option ℕ)) (r : List ℕ × ℕ) (end : ℕ)
    → ((decap_finish ie r end).0 ≡ ok) ↔ (r.1 ≡ end)
unfolding decap_finish
finish_ok ie (ps, p) end = ground arith

-- A packet is accepted exactly when at most 256 elements, each as long as its length field says,
-- lead from the end of the header to the end of the packet.
pub decap_accepts :
    (ie : Mem (Option ℕ)) (mem : Mem ℕ) (pack len : ℕ)
    → ((gtp2ie_decap ie mem pack len).0 ≡ ok)
      ↔ ((n : ℕ) × (n ≤ gtpie_size) × (behind mem n (ie_start mem pack) ≡ pack + len))
unfolding gtp2ie_decap
decap_accepts ie mem pack len =
    let loop = decap_loop mem gtpie_size (ie_start mem pack) (pack + len) in
    let final = finish_ok ie loop (pack + len) in
    (
      λ accepted.
          let (few, there) =
            landed mem gtpie_size (ie_start mem pack) (pack + len) (final.0 accepted) in
          (length loop.0, few, there),
      λ run. final.1 (lands mem gtpie_size run.0 (ie_start mem pack) (pack + len) run.1 run.2),
    )
