-- ===== src/Timers/Expiry.antt =====
-- Common/timermgr.c: how a timer ends.
use aalto_mme.Prelude.{
  ℕ, zero, suc, ◌+◌, ◌%◌, ◌<◌, ◌≤◌, ◌≡◌, ◌∙◌, ◌⊎◌, refl, sym, ap, arith, Bool, true, false, ◌&&◌,
  ◌||◌, not, some, List, [], ◌∷◌, ltb, leb, ◌==◌, inl, inr, Bool-cases,
}
use aalto_mme.Timers.Timer.{Call, Timer, tm_add_timer, timer_cb, expire, expiries}

unfoldable pub timeouts : ℕ → List Call
timeouts zero = []
timeouts (suc n) = Call.cb_to ∷ timeouts n

-- A timer after a number of expiries, at most its maximum: either it is still managed, and has
-- called the callback each time, or it was stopped before.
data Ticked (n max : ℕ) (has_max : Bool) (t : Timer) : Type 0 where
  running :
      t.is_managed ≡ true
      → t.rtx ≡ n
      → t.max_rtx ≡ max
      → t.has_max_to ≡ has_max
      → t.calls ≡ timeouts n
      → (has_max ≡ true) ⊎ (n < max)
      → Ticked n max has_max t
  stopped : (k : ℕ) → t.is_managed ≡ false → k ≤ n → t.calls ≡ timeouts k → Ticked n max has_max t

-- What is left of a timer after an expiry below the maximum.
unfoldable after_timeout : (ℕ → Bool) → Timer → Timer
after_timeout stops t =
    let rtx : ℕ = (t.rtx + 1) % 4294967296 in
    record t {
      rtx = rtx;
      is_managed = not (stops rtx) && not (not t.has_max_to && rtx == t.max_rtx);
      calls = Call.cb_to ∷ t.calls;
    }

expire-timeout :
    (stops : ℕ → Bool) (t : Timer)
    → t.is_managed ≡ true
    → t.rtx < t.max_rtx
    → t.max_rtx < 4294967296
    → expire stops t ≡ some (after_timeout stops t)
unfolding expire timer_cb after_timeout
expire-timeout stops t m below word =
    let fits : leb ((t.rtx + 1) % 4294967296) t.max_rtx ≡ true = ground arith in rw (m, fits) refl

more_left :
    (n max : ℕ) (has_max stop : Bool)
    → suc n ≤ max
    → (not stop && not (not has_max && suc n == max)) ≡ true
    → (has_max ≡ true) ⊎ (suc n < max)
more_left n max true stop h e = inl refl
more_left n max false stop h e = inr (ground arith)

tick :
    (stops : ℕ → Bool) (n max : ℕ) (has_max : Bool) (t : Timer)
    → Ticked n max has_max t
    → suc n ≤ max
    → max < 4294967296
    → (u : Timer) × (expire stops t ≡ some u) × Ticked (suc n) max has_max u
unfolding expire timeouts after_timeout
tick stops n max has_max t (Ticked.stopped k gone low c) h word =
    (t, rw gone refl, Ticked.stopped k gone (omega arith) c)
tick stops n max has_max t (Ticked.running m r x y c left) h word =
    let u : Timer = after_timeout stops t in
    let count : u.rtx ≡ suc n = omega arith in
    let next : (t.rtx + 1) % 4294967296 ≡ suc n = omega arith in
    let shape : u.is_managed ≡ (not (stops (suc n)) && not (not has_max && suc n == max)) =
      rw (next, x, y) refl in
    let called : u.calls ≡ timeouts (suc n) = ap (λ l. Call.cb_to ∷ l) c in
    (
      u,
      expire-timeout stops t m (omega arith) (omega arith),
      elim (Bool-cases u.is_managed) [
        | inl e ↦
            Ticked.running e count x y called
              (more_left n max has_max (stops (suc n)) h (sym shape ∙ e))
        | inr e ↦ Ticked.stopped (suc n) e (omega arith) called
      ],
    )

expiries-Ticked :
    (stops : ℕ → Bool) (n max : ℕ) (has_max : Bool) (t : Timer)
    → Ticked 0 max has_max t
    → n ≤ max
    → max < 4294967296
    → (u : Timer) × (expiries stops n t ≡ some u) × Ticked n max has_max u
unfolding expiries
expiries-Ticked stops zero max has_max t start h word = (t, refl, start)
expiries-Ticked stops (suc n) max has_max t start h word =
    let (u, got, so_far) = expiries-Ticked stops n max has_max t start (omega arith) word in
    let (v, next, now) = tick stops n max has_max u so_far h word in (v, rw got next, now)

expire-exhausted :
    (stops : ℕ → Bool) (t : Timer)
    → t.is_managed ≡ true
    → t.rtx ≡ t.max_rtx
    → t.max_rtx < 4294967295
    → t.has_max_to ≡ true
    → (u : Timer) × (expire stops t ≡ some u)
      × (u.is_managed ≡ false)
      × (u.calls ≡ Call.cb_max_to ∷ t.calls)
unfolding expire timer_cb
expire-exhausted stops t m at word has =
    let over : leb ((t.rtx + 1) % 4294967296) t.max_rtx ≡ false = ground arith in
    (
      record t {
        rtx = (t.rtx + 1) % 4294967296;
        is_managed = false;
        calls = Call.cb_max_to ∷ t.calls;
      },
      rw (m, over, has) refl,
      refl,
      refl,
    )

-- What a timer has called that is no longer managed: its callback at most `max` times, and then,
-- if it was as often as that, at most once the one for the end.
unfoldable pub IsOver : ℕ → Timer → Type 0
IsOver max u =
    (u.is_managed ≡ false)
    × ((k : ℕ) × (k ≤ max)
        × ((u.calls ≡ timeouts k) ⊎ ((k ≡ max) × (u.calls ≡ Call.cb_max_to ∷ timeouts k))))

absurd_less : (n : ℕ) → n < n → ⊥
absurd_less n h = omega arith

add_timer-Ticked :
    (tv_sec tv_usec max_rtx : ℕ) (has_max_to : Bool)
    → 0 < tv_sec + tv_usec
    → 0 < max_rtx
    → (t : Timer) × (tm_add_timer tv_sec tv_usec max_rtx true has_max_to ≡ some t)
      × Ticked 0 max_rtx has_max_to t
unfolding tm_add_timer timeouts
add_timer-Ticked tv_sec tv_usec max_rtx has_max_to time some_rtx =
    let refused : ((tv_sec == 0 && tv_usec == 0) || ltb max_rtx 1) ≡ false = ground arith in
    (
      record { rtx = 0; max_rtx = max_rtx; has_max_to = has_max_to; is_managed = true; calls = [] },
      rw refused refl,
      Ticked.running refl refl refl refl refl (inr some_rtx),
    )

last_expiry :
    (stops : ℕ → Bool) (max : ℕ) (has_max : Bool) (t : Timer)
    → Ticked max max has_max t
    → max < 4294967295
    → (u : Timer) × (expire stops t ≡ some u) × IsOver max u
unfolding expire IsOver
last_expiry stops max has_max t (Ticked.stopped k gone low c) word =
    (t, rw gone refl, (gone, (k, low, inl c)))
last_expiry stops max has_max t (Ticked.running m r x y c (inl has)) word =
    let (u, done, gone, called) =
      expire-exhausted stops t m (r ∙ sym x) (omega (arith, x)) (y ∙ has) in
    (u, done, (gone, (max, omega arith, inr (refl, called ∙ ap (λ l. Call.cb_max_to ∷ l) c))))
last_expiry stops max has_max t (Ticked.running m r x y c (inr low)) word =
    elim (absurd_less max low) [ ]

-- A timer that `tm_add_timer` takes with a time and a maximum below 2^32 - 1 is no longer managed
-- after one expiry more than the maximum, whichever of its callbacks stop it: its callback was
-- called at most as often as the maximum, then the one for the end at most once and only after
-- the maximum, and no callback was called that is not there.
pub expiries-IsOver :
    (stops : ℕ → Bool) (tv_sec tv_usec max_rtx : ℕ) (has_max_to : Bool)
    → 0 < tv_sec + tv_usec
    → 0 < max_rtx
    → max_rtx < 4294967295
    → (t : Timer) × (u : Timer) × (tm_add_timer tv_sec tv_usec max_rtx true has_max_to ≡ some t)
      × (expiries stops (suc max_rtx) t ≡ some u)
      × IsOver max_rtx u
unfolding expiries
expiries-IsOver stops tv_sec tv_usec max_rtx has_max_to time some_rtx word =
    let (t, added, start) = add_timer-Ticked tv_sec tv_usec max_rtx has_max_to time some_rtx in
    let (u, got, so_far) =
      expiries-Ticked stops max_rtx max_rtx has_max_to t start (omega arith) (omega arith) in
    let (v, last, over) = last_expiry stops max_rtx has_max_to u so_far word in
    (t, v, added, rw got last, over)
