-- ===== src/Prelude/Memory.antt =====
-- Memory as the C code sees it: a total map from addresses to cells. `read` is what a copy out of
-- memory takes, `write` what a copy into memory leaves.
use Prim.Native.Nat.add
use Prim.Native.Nat.{ℕ, zero, suc, ◌+◌, ◌*◌, ◌/◌, ◌%◌, ◌≤◌, ◌<◌}
use mathlib.Core.Path.{◌≡◌, refl, ap, ◌∙◌}
use mathlib.Core.Logic.{◌⊎◌}
use mathlib.Core.Bool.{◌&&◌}
use mathlib.Core.List.{List, [], ◌∷◌, ◌++◌}
use native.Mathlib.Omega.{arith}
use aalto_mme.Prelude.Tests.{ltb, leb, ◌==◌, if◌then◌else◌}
use aalto_mme.Prelude.Lists.{length}

abbrev pub Mem {ℓ} : Type ℓ → Type ℓ
Mem A = ℕ → A

module _ {ℓ} {A : Type ℓ} where
  unfoldable pub read : Mem A → ℕ → ℕ → List A
  read m p zero = []
  read m p (suc n) = m p ∷ read m (p + 1) n

  unfoldable pub store : Mem A → ℕ → A → Mem A
  store m p b a = if a == p then b else m a

  -- `memcpy`, lowest address first.
  unfoldable pub write : Mem A → ℕ → List A → Mem A
  write m p [] = m
  write m p (b ∷ bs) = write (store m p b) (p + 1) bs

  -- `memset`.
  unfoldable pub fill : Mem A → ℕ → ℕ → A → Mem A
  fill m p n b a = if leb p a && ltb a (p + n) then b else m a

  pub write_below : (m : Mem A) (p : ℕ) (bs : List A) (a : ℕ) → a < p → write m p bs a ≡ m a
  unfolding write store
  write_below m p [] a h = refl
  write_below m p (b ∷ bs) a h = write_below (store m p b) (p + 1) bs a (omega arith) ∙ ground arith

  pub write_above :
      (m : Mem A) (p : ℕ) (bs : List A) (a : ℕ) → p + length bs ≤ a → write m p bs a ≡ m a
  unfolding write store
  write_above m p [] a h = refl
  write_above m p (b ∷ bs) a h = write_above (store m p b) (p + 1) bs a (omega arith) ∙ ground arith

  pub fill_outside : (m : Mem A) (p n : ℕ) (b : A) (a : ℕ) → a < p → fill m p n b a ≡ m a
  unfolding fill
  fill_outside m p n b a h = ground arith

  pub fill_apart :
      (m : Mem A) (p n : ℕ) (b : A) (a : ℕ) → (a < p) ⊎ (p + n ≤ a) → fill m p n b a ≡ m a
  unfolding fill
  fill_apart m p n b a h = ground arith

  -- The bytes `bs` stand in memory from `p` on.
  abbrev pub Holds : Mem A → ℕ → List A → Type ℓ
  Holds m p bs = read m p (length bs) ≡ bs

  pub read_congr :
      (m m' : Mem A) (p n : ℕ)
      → ((a : ℕ) → p ≤ a → a < p + n → m a ≡ m' a)
      → read m p n ≡ read m' p n
  unfolding read
  read_congr m m' p zero h = refl
  read_congr m m' p (suc n) h = ground (
    arith,
    h p (omega arith) (omega arith),
    read_congr m m' (p + 1) n (λ a l u. h a (omega arith) (omega arith)),
  )

  pub write-Holds : (m : Mem A) (p : ℕ) (bs : List A) → Holds (write m p bs) p bs
  unfolding read write store
  write-Holds m p [] = refl
  write-Holds m p (b ∷ bs) = ground (
    arith,
    write_below (store m p b) (p + 1) bs p (omega arith),
    write-Holds (store m p b) (p + 1) bs,
  )

  -- What lies apart from a write stays.
  pub read-write_below :
      (m : Mem A) (p : ℕ) (bs : List A) (q n : ℕ) → q + n ≤ p → read (write m p bs) q n ≡ read m q n
  read-write_below m p bs q n h = read_congr _ _ q n (λ a l u. write_below m p bs a (omega arith))

  pub read-write_above :
      (m : Mem A) (p : ℕ) (bs : List A) (q n : ℕ)
      → p + length bs ≤ q
      → read (write m p bs) q n ≡ read m q n
  read-write_above m p bs q n h = read_congr _ _ q n (λ a l u. write_above m p bs a (omega arith))

  -- A cell of a range that was copied.
  pub write-read_cell :
      (m src : Mem A) (p q n i : ℕ) → i < n → write m p (read src q n) (p + i) ≡ src (q + i)
  unfolding read write store
  write-read_cell m src p q zero i h = absurd (omega arith)
  write-read_cell m src p q (suc n) zero h =
      ground (arith, write_below (store m p (src q)) (p + 1) (read src (q + 1) n) p (omega arith))
  write-read_cell m src p q (suc n) (suc i) h =
      ground (arith, write-read_cell (store m p (src q)) src (p + 1) (q + 1) n i (omega arith))

  pub length-read : (m : Mem A) (p n : ℕ) → length (read m p n) ≡ n
  unfolding read
  length-read m p zero = refl
  length-read m p (suc n) = ap suc (length-read m (p + 1) n)

  pub read-add : (m : Mem A) (p a b : ℕ) → read m p (a + b) ≡ read m p a ++ read m (p + a) b
  unfolding read
  read-add m p zero b = ground arith
  read-add m p (suc a) b = rw add.suc (
      ap (◌∷◌ (m p))
        (read-add m (p + 1) a b ∙ ap (λ q. read m (p + 1) a ++ read m q b) (omega arith)))

-- A 16-bit field in network order, as `ntoh16` reads it and `hton16` leaves it.
unfoldable pub get_u16 : Mem ℕ → ℕ → ℕ
get_u16 m p = m p * 256 + m (p + 1)

unfoldable pub set_u16 : Mem ℕ → ℕ → ℕ → Mem ℕ
unfolding write store
set_u16 m p v = write m p (v % 65536 / 256 ∷ v % 256 ∷ [])
