-- ===== src/Arena/Select.antt =====
-- The selection rule that producer and consumer share: the smallest class that fits.
use styx.Base.{
  ℕ, zero, suc, ◌+◌, ◌-◌, ◌≤◌, ◌<◌, ◌≡◌, arith, Bool-cases, inl, inr, Option, none, some, List, [],
  ◌∷◌, leb, length,
}
use styx.Geometry.{SizeClass}
pub use styx.Geometry.{class_at}
use styx.Arena.{select_from, select_class}

-- Every class from number `i` on whose number is below `k` is too small.
abbrev TooSmallBelow : ℕ → ℕ → ℕ → List SizeClass → Type 0
TooSmallBelow i k size [] = Unit
TooSmallBelow i k size (c ∷ cs) = (i < k → c.slab_size < size) × TooSmallBelow (i + 1) k size cs

-- `none`: no class fits. `some k`: class `k` exists and fits, and every earlier one is too small.
abbrev pub Chosen : List SizeClass → ℕ → Option ℕ → Type 0
Chosen cs size none = (j : ℕ) → j < length cs → (class_at cs j).slab_size < size
Chosen cs size (some k) =
    (k < length cs)
    × (size ≤ (class_at cs k).slab_size)
    × ((j : ℕ) → j < k → (class_at cs j).slab_size < size)

-- `Chosen` for a scan that starts at number `i`.
abbrev ChosenFrom : ℕ → List SizeClass → ℕ → Option ℕ → Type 0
ChosenFrom i cs size none = (j : ℕ) → j < length cs → (class_at cs j).slab_size < size
ChosenFrom i cs size (some k) =
    (i ≤ k)
    × (k - i < length cs)
    × (size ≤ (class_at cs (k - i)).slab_size)
    × ((j : ℕ) → j < k - i → (class_at cs j).slab_size < size)

small_cons :
    (c : SizeClass) (cs : List SizeClass) (size n : ℕ)
    → c.slab_size < size
    → ((j : ℕ) → j < n → (class_at cs j).slab_size < size)
    → (j : ℕ) → j < suc n
    → (class_at (c ∷ cs) j).slab_size < size
small_cons c cs size n small rest zero lt = small
small_cons c cs size n small rest (suc j) lt = rest j (omega arith)

from_later :
    (i : ℕ) (c : SizeClass) (cs : List SizeClass) (size : ℕ) (o : Option ℕ)
    → c.slab_size < size
    → ChosenFrom (i + 1) cs size o
    → ChosenFrom i (c ∷ cs) size o
from_later i c cs size none small h = small_cons c cs size (length cs) small h
from_later i c cs size (some k) small (le, lt, fits, rest) =
    let e : k - i ≡ suc (k - (i + 1)) = omega arith in
    (omega arith, omega arith, rw e fits, rw e (small_cons c cs size (k - (i + 1)) small rest))

select_from-ChosenFrom :
    (i : ℕ) (cs : List SizeClass) (size : ℕ) → ChosenFrom i cs size (select_from i cs size)
unfolding select_from
select_from-ChosenFrom i [] size = λ j lt. absurd (omega arith)
select_from-ChosenFrom i (c ∷ cs) size = elim (Bool-cases (leb size c.slab_size)) [
  | inl fits ↦
      let e : i - i ≡ 0 = omega arith in
      rw fits
        (omega arith, rw e (omega arith), rw e (ground arith), rw e (λ j lt. absurd (omega arith)))
  | inr small ↦ rw small (
      from_later i c cs size (select_from (i + 1) cs size) (ground arith)
        (select_from-ChosenFrom (i + 1) cs size))
]

to_start :
    (cs : List SizeClass) (size : ℕ) (o : Option ℕ) → ChosenFrom 0 cs size o → Chosen cs size o
to_start cs size none h = h
to_start cs size (some k) (le, lt, fits, rest) =
    let e : k - 0 ≡ k = omega arith in (rw e at lt, rw e at fits, rw e at rest)

-- `SelectClass` answers with the first class whose slabs hold `size`, all earlier classes being too
-- small; and it answers that there is none only if every class is too small.
pub select_class-Chosen : (cs : List SizeClass) (size : ℕ) → Chosen cs size (select_class cs size)
unfolding select_class
select_class-Chosen cs size =
    to_start cs size (select_from 0 cs size) (select_from-ChosenFrom 0 cs size)
