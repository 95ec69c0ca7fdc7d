-- ===== src/Base/Memory.antt =====
-- Mapped memory, addressed by byte: the little-endian accesses of `encoding/binary` on a slice of it,
-- and Go's `copy` and `clear`.
use Prim.Native.Nat.{ℕ, zero, suc, ◌+◌, ◌*◌, ◌/◌, ◌%◌, ◌<◌, ◌≤◌}
use mathlib.Core.Path.{◌≡◌, refl}
use mathlib.Core.Logic.{◌⊎◌}
use mathlib.Core.Bool.{Bool, true, false, ◌&&◌}
use mathlib.Core.List.{List, [], ◌∷◌}
use native.Mathlib.Omega.{arith}
use styx.Base.Tests.{◌==◌, ltb, leb, if◌then◌else◌}
use styx.Base.Lists.{length}
use styx.Base.Bytes.{span, AllBytes}

abbrev pub Memory : Type 0
Memory = ℕ → ℕ

abbrev pub store : ℕ → ℕ → Memory → Memory
store o b m = λ k. if k == o then b else m k

-- The field of `w` bytes at `o`.
unfoldable pub load : ℕ → ℕ → Memory → ℕ
load o zero m = 0
load o (suc w) m = m o + 256 * load (o + 1) w m

unfoldable pub save : ℕ → ℕ → ℕ → Memory → Memory
save o zero v m = m
save o (suc w) v m = store o (v % 256) (save (o + 1) w (v / 256) m)

unfoldable pub copy_out : ℕ → ℕ → Memory → List ℕ
copy_out o zero m = []
copy_out o (suc n) m = m o ∷ copy_out (o + 1) n m

unfoldable pub copy_in : ℕ → List ℕ → Memory → Memory
copy_in o [] m = m
copy_in o (b ∷ bs) m = store o b (copy_in (o + 1) bs m)

abbrev pub clear : ℕ → ℕ → Memory → Memory
clear o n m = λ k. if leb o k && ltb k (o + n) then 0 else m k

-- The bytes from `o` to `o + n` are 0.
unfoldable pub is_zero : ℕ → ℕ → Memory → Bool
is_zero o zero m = true
is_zero o (suc n) m = if m o == 0 then is_zero (o + 1) n m else false

-- The two memories agree from `o` to `o + n`.
abbrev pub Agree : ℕ → ℕ → Memory → Memory → Type 0
Agree o n m m' = (k : ℕ) → o ≤ k → k < o + n → m k ≡ m' k

pub load_congr : (o w : ℕ) (m m' : Memory) → Agree o w m m' → load o w m ≡ load o w m'
unfolding load
load_congr o zero m m' h = refl
load_congr o (suc w) m m' h = omega (
  arith,
  h o (omega arith) (omega arith),
  load_congr (o + 1) w m m' (λ k p q. h k (omega arith) (omega arith)),
)

pub copy_out_congr : (o n : ℕ) (m m' : Memory) → Agree o n m m' → copy_out o n m ≡ copy_out o n m'
unfolding copy_out
copy_out_congr o zero m m' h = refl
copy_out_congr o (suc n) m m' h = rw (
  h o (omega arith) (omega arith),
  copy_out_congr (o + 1) n m m' (λ k p q. h k (omega arith) (omega arith)),
)

pub is_zero_congr : (o n : ℕ) (m m' : Memory) → Agree o n m m' → is_zero o n m ≡ is_zero o n m'
unfolding is_zero
is_zero_congr o zero m m' h = refl
is_zero_congr o (suc n) m m' h = rw (
  h o (omega arith) (omega arith),
  is_zero_congr (o + 1) n m m' (λ k p q. h k (omega arith) (omega arith)),
)

-- A store outside the byte leaves it.
pub save-outside : (o w v k : ℕ) (m : Memory) → (k < o) ⊎ (o + w ≤ k) → save o w v m k ≡ m k
unfolding save
save-outside o zero v k m h = refl
save-outside o (suc w) v k m h = ground (arith, save-outside (o + 1) w (v / 256) k m (omega arith))

pub copy_in-outside :
    (o k : ℕ) (bs : List ℕ) (m : Memory) → (k < o) ⊎ (o + length bs ≤ k) → copy_in o bs m k ≡ m k
unfolding copy_in
copy_in-outside o k [] m h = refl
copy_in-outside o k (b ∷ bs) m h = ground (arith, copy_in-outside (o + 1) k bs m (omega arith))

store_self : (o b : ℕ) (m : Memory) → store o b m o ≡ b
store_self o b m = ground arith

store_other : (o b k : ℕ) (m : Memory) → o < k → store o b m k ≡ m k
store_other o b k m h = ground arith

pub load-save : (o w v : ℕ) (m : Memory) → v < span w → load o w (save o w v m) ≡ v
unfolding load save
load-save o zero v m small = omega arith
load-save o (suc w) v m small =
    let rest : Memory = save (o + 1) w (v / 256) m in
    omega (
      arith,
      store_self o (v % 256) rest,
      load_congr (o + 1) w (store o (v % 256) rest) rest
          (λ k p q. store_other o (v % 256) k rest (omega arith)),
      load-save (o + 1) w (v / 256) m (omega arith),
    )

pub copy_out-copy_in :
    (o : ℕ) (bs : List ℕ) (m : Memory) → copy_out o (length bs) (copy_in o bs m) ≡ bs
unfolding copy_out copy_in
copy_out-copy_in o [] m = refl
copy_out-copy_in o (b ∷ bs) m =
    let rest : Memory = copy_in (o + 1) bs m in
    rw (
      store_self o b rest,
      copy_out_congr (o + 1) (length bs) (store o b rest) rest
          (λ k p q. store_other o b k rest (omega arith)),
      copy_out-copy_in (o + 1) bs m,
    )

-- Bytes are below 256.
abbrev pub IsBytes : Memory → Type 0
IsBytes m = (k : ℕ) → m k < 256

pub load-lt : (o w : ℕ) (m : Memory) → IsBytes m → load o w m < span w
unfolding load
load-lt o zero m h = omega arith
load-lt o (suc w) m h = omega (arith, h o, load-lt (o + 1) w m h)

pub is_zero-zeroed :
    (o n : ℕ) (m : Memory) → ((k : ℕ) → o ≤ k → k < o + n → m k ≡ 0) → is_zero o n m ≡ true
unfolding is_zero
is_zero-zeroed o zero m h = refl
is_zero-zeroed o (suc n) m h = ground (
  arith,
  h o (omega arith) (omega arith),
  is_zero-zeroed (o + 1) n m (λ k p q. h k (omega arith) (omega arith)),
)

-- Every store writes a byte.
pub save-IsBytes : (o w v : ℕ) (m : Memory) → IsBytes m → IsBytes (save o w v m)
unfolding save
save-IsBytes o zero v m h = h
save-IsBytes o (suc w) v m h =
    let rest = save-IsBytes (o + 1) w (v / 256) m h in λ k. ground (arith, rest k)

pub copy_in-IsBytes :
    (o : ℕ) (bs : List ℕ) (m : Memory) → AllBytes bs → IsBytes m → IsBytes (copy_in o bs m)
unfolding copy_in
copy_in-IsBytes o [] m b h = h
copy_in-IsBytes o (x ∷ bs) m b h =
    let rest = copy_in-IsBytes (o + 1) bs m b.1 h in λ k. ground (arith, rest k, b.0)
