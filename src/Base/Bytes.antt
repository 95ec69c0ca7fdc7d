-- ===== src/Base/Bytes.antt =====
-- Little-endian fields of a byte array (`encoding/binary.LittleEndian`): `read_at o w` reads `w`
-- bytes from offset `o`, `write_at o w v` stores the low `w` bytes of `v` there.
use Prim.Native.Nat.{ℕ, zero, suc, ◌+◌, ◌*◌, ◌/◌, ◌%◌, ◌<◌, ◌≤◌}
use mathlib.Core.Path.{◌≡◌, refl, ◌∙◌}
use mathlib.Core.Logic.{◌⊎◌}
use mathlib.Core.List.{List, [], ◌∷◌}
use native.Mathlib.Omega.{arith}
use styx.Base.Lists.{length, get_or, set, length-set, get_or-set_self, get_or-set_ne}

abbrev pub Bytes : Type 0
Bytes = List ℕ

-- The number of values of a field of `w` bytes.
abbrev pub span : ℕ → ℕ
span zero = 1
span (suc w) = 256 * span w

unfoldable pub read_at : ℕ → ℕ → Bytes → ℕ
read_at o zero bs = 0
read_at o (suc w) bs = get_or bs o 0 + 256 * read_at (o + 1) w bs

unfoldable pub write_at : ℕ → ℕ → ℕ → Bytes → Bytes
write_at o zero v bs = bs
write_at o (suc w) v bs = set (write_at (o + 1) w (v / 256) bs) o (v % 256)

pub length-write_at : (o w v : ℕ) (bs : Bytes) → length (write_at o w v bs) ≡ length bs
unfolding write_at
length-write_at o zero v bs = refl
length-write_at o (suc w) v bs =
    length-set (write_at (o + 1) w (v / 256) bs) o (v % 256)
    ∙ length-write_at (o + 1) w (v / 256) bs

-- Bytes outside the field stay.
pub get_or-write_at :
    (o w v i : ℕ) (bs : Bytes)
    → (i < o) ⊎ (o + w ≤ i)
    → get_or (write_at o w v bs) i 0 ≡ get_or bs i 0
unfolding write_at
get_or-write_at o zero v i bs h = refl
get_or-write_at o (suc w) v i bs h =
    get_or-set_ne (write_at (o + 1) w (v / 256) bs) o i (v % 256) 0 (omega arith)
    ∙ get_or-write_at (o + 1) w (v / 256) i bs (omega arith)

-- A field depends on its own bytes.
pub read_at_congr :
    (o w : ℕ) (xs ys : Bytes)
    → ((i : ℕ) → o ≤ i → i < o + w → get_or xs i 0 ≡ get_or ys i 0)
    → read_at o w xs ≡ read_at o w ys
unfolding read_at
read_at_congr o zero xs ys h = refl
read_at_congr o (suc w) xs ys h = omega (
  arith,
  h o (omega arith) (omega arith),
  read_at_congr (o + 1) w xs ys (λ i p q. h i (omega arith) (omega arith)),
)

pub read_at-write_at_ne :
    (o w v o' w' : ℕ) (bs : Bytes)
    → (o' + w' ≤ o) ⊎ (o + w ≤ o')
    → read_at o' w' (write_at o w v bs) ≡ read_at o' w' bs
read_at-write_at_ne o w v o' w' bs h =
    read_at_congr o' w' (write_at o w v bs) bs (λ i p q. get_or-write_at o w v i bs (omega arith))

pub read_at-write_at :
    (o w v : ℕ) (bs : Bytes) → o + w ≤ length bs → v < span w → read_at o w (write_at o w v bs) ≡ v
unfolding read_at write_at
read_at-write_at o zero v bs fits small = omega arith
read_at-write_at o (suc w) v bs fits small =
    let rest : Bytes = write_at (o + 1) w (v / 256) bs in
    omega (
      arith,
      get_or-set_self rest o (v % 256) 0 (omega (arith, length-write_at (o + 1) w (v / 256) bs)),
      read_at_congr (o + 1) w (set rest o (v % 256)) rest
          (λ i p q. get_or-set_ne rest o i (v % 256) 0 (omega arith)),
      read_at-write_at (o + 1) w (v / 256) bs (omega arith) (omega arith),
    )

-- Bytes are below 256.
abbrev pub AllBytes : Bytes → Type 0
AllBytes [] = Unit
AllBytes (b ∷ bs) = (b < 256) × AllBytes bs

get_or-lt : (bs : Bytes) (i : ℕ) → AllBytes bs → get_or bs i 0 < 256
get_or-lt [] i h = omega arith
get_or-lt (b ∷ bs) zero h = h.0
get_or-lt (b ∷ bs) (suc i) h = get_or-lt bs i h.1

pub read_at-lt : (o w : ℕ) (bs : Bytes) → AllBytes bs → read_at o w bs < span w
unfolding read_at
read_at-lt o zero bs h = omega arith
read_at-lt o (suc w) bs h = omega (arith, get_or-lt bs o h, read_at-lt (o + 1) w bs h)

-- A one-byte read of a two-byte field that holds a byte.
pub low_byte :
    (o k : ℕ) (bs : Bytes) → o + 2 ≤ length bs → k < 256 → read_at o 1 (write_at o 2 k bs) ≡ k
unfolding read_at
low_byte o k bs fits small = omega (arith, read_at-write_at o 2 k bs fits (omega arith))
