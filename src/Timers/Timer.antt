-- ===== src/Timers/Timer.antt =====
-- Common/timermgr.c: a timer that libevent lets expire again and again. Whether a callback stops the
-- timer is an argument: `stops` of the number of the expiry.
use aalto_mme.Prelude.{
  ℕ, ◌+◌, ◌%◌, Bool, true, false, ◌&&◌, ◌||◌, not, Option, none, some, List, [], ◌∷◌, ltb, leb,
  ◌==◌, if◌then◌else◌,
}

-- The callbacks that are called.
pub data Call : Type 0 where
  cb_to cb_max_to : Call

-- `Timer_t`, and whether the manager has it; `calls` are the callbacks so far, the last one first.
pub record Timer : Type 0 where
  pub rtx : ℕ
  pub max_rtx : ℕ
  pub has_max_to : Bool
  pub is_managed : Bool
  pub calls : List Call

-- `tm_add_timer`: the seconds and microseconds, the number of expiries, and whether there are the
-- callbacks.
unfoldable pub tm_add_timer : ℕ → ℕ → ℕ → Bool → Bool → Option Timer
tm_add_timer tv_sec tv_usec max_rtx has_to has_max_to =
    if not has_to || (tv_sec == 0 && tv_usec == 0) || ltb max_rtx 1
    then none
    else some (record {
      rtx = 0;
      max_rtx = max_rtx;
      has_max_to = has_max_to;
      is_managed = true;
      calls = [];
    })

-- `timer_cb`; `rtx` is a guint32. `none` is a call of a callback that is not there.
unfoldable pub timer_cb : (ℕ → Bool) → Timer → Option Timer
timer_cb stops t =
    let rtx : ℕ = (t.rtx + 1) % 4294967296 in
    if leb rtx t.max_rtx
    then some (record t {
      rtx = rtx;
      is_managed = not (stops rtx) && not (not t.has_max_to && rtx == t.max_rtx);
      calls = Call.cb_to ∷ t.calls;
    })
    else if t.has_max_to
    then some (record t { rtx = rtx; is_managed = false; calls = Call.cb_max_to ∷ t.calls })
    else none

-- An expiry, of a timer that the manager has.
unfoldable pub expire : (ℕ → Bool) → Timer → Option Timer
expire stops t = if t.is_managed then timer_cb stops t else some t

unfoldable pub expiries : (ℕ → Bool) → ℕ → Timer → Option Timer
expiries stops ℕ.zero t = some t
expiries stops (ℕ.suc n) t = elim (expiries stops n t) [ none ↦ none | some u ↦ expire stops u ]
