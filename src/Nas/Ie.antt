-- ===== src/Nas/Ie.antt =====
-- NAS/src/StandardIeSchemas.c: the standard formats of information elements, written at a moving
-- pointer. A value (`const uint8_t *v`) is memory read from 0 on.
use aalto_mme.Prelude.{ℕ, ◌+◌, ◌*◌, ◌/◌, ◌%◌, Mem, read, write, store}

-- The buffer and `*p`.
pub record Out : Type 0 where
  pub mem : Mem ℕ
  pub p : ℕ

-- The low nibble of the octet; the pointer stays.
unfoldable pub v_t1_l : ℕ → Out → Out
unfolding store
v_t1_l v o = record o { mem = store o.mem o.p (o.mem o.p / 16 * 16 + v % 16) }

-- The high nibble of the octet.
unfoldable pub v_t1_h : ℕ → Out → Out
unfolding store
v_t1_h v o = record { mem = store o.mem o.p (o.mem o.p % 16 + v % 16 * 16); p = o.p + 1 }

-- `ie_tv_t1_t` declares `t` before `v`, so the type takes the low nibble.
unfoldable pub tv_t1 : ℕ → ℕ → Out → Out
unfolding store
tv_t1 t v o = record { mem = store o.mem o.p (t % 16 + v % 16 * 16); p = o.p + 1 }

unfoldable pub t_t2 : ℕ → Out → Out
unfolding store
t_t2 t o = record { mem = store o.mem o.p (t % 256); p = o.p + 1 }

-- The copy loop that the other formats share, `for(i=0; i<vsize; i++) (*p)[i] = v[i]; (*p) += vsize`.
unfoldable pub copy_out : Mem ℕ → ℕ → Out → Out
copy_out v vsize o = record { mem = write o.mem o.p (read v 0 vsize); p = o.p + vsize }

-- `vsize` is a uint8_t.
unfoldable pub v_t3 : Mem ℕ → ℕ → Out → Out
unfolding copy_out
v_t3 v vsize o = copy_out v (vsize % 256) o

unfoldable pub tv_t3 : ℕ → Mem ℕ → ℕ → Out → Out
unfolding copy_out t_t2
tv_t3 t v vsize o = copy_out v (vsize % 256) (t_t2 t o)

unfoldable pub lv_t4 : Mem ℕ → ℕ → Out → Out
unfolding copy_out t_t2
lv_t4 v len o = copy_out v (len % 256) (t_t2 len o)

unfoldable pub tlv_t4 : ℕ → Mem ℕ → ℕ → Out → Out
unfolding copy_out t_t2
tlv_t4 t v len o = copy_out v (len % 256) (t_t2 len (t_t2 t o))

-- `htons(len)` in front of the value.
unfoldable pub put_length : ℕ → Out → Out
unfolding t_t2
put_length len o = t_t2 len (t_t2 (len / 256) o)

unfoldable pub lv_t6 : Mem ℕ → ℕ → Out → Out
unfolding copy_out put_length
lv_t6 v len o = copy_out v (len % 65536) (put_length len o)

unfoldable pub tlv_t6 : ℕ → Mem ℕ → ℕ → Out → Out
unfolding copy_out put_length t_t2
tlv_t6 t v len o = copy_out v (len % 65536) (put_length len (t_t2 t o))
