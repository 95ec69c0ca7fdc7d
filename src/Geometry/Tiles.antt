-- ===== src/Geometry/Tiles.antt =====
-- Slabs of a tiled table: inside the arena, and disjoint.
use styx.Base.{ℕ, zero, suc, ◌+◌, ◌*◌, ◌≤◌, ◌<◌, ◌≢◌, ◌⊎◌, inl, inr, arith, List, [], ◌∷◌, length}
use native.Mathlib.Decide.{dec_lt, ℕ_discrete}
use styx.Geometry.{SizeClass, class_at}
use styx.Geometry.Tables.{IsTiled}

abbrev pub class_start : List SizeClass → ℕ → ℕ
class_start cs ci = (class_at cs ci).class_base_offset

-- Where slab `i` of class `ci` begins, and its size.
abbrev pub slab_start : List SizeClass → ℕ → ℕ → ℕ
slab_start cs ci i = class_start cs ci + i * (class_at cs ci).slab_size

abbrev pub slab_bytes : List SizeClass → ℕ → ℕ
slab_bytes cs ci = (class_at cs ci).slab_size

abbrev class_bytes : List SizeClass → ℕ → ℕ
class_bytes cs ci = (class_at cs ci).slab_size * (class_at cs ci).slab_count

pub class_inside :
    (base : ℕ) (cs : List SizeClass) (end ci : ℕ)
    → IsTiled base cs end
    → ci < length cs
    → (base ≤ class_start cs ci) × (class_start cs ci + class_bytes cs ci ≤ end)
class_inside base [] end ci t lt = absurd (omega arith)
class_inside base (c ∷ []) end zero t lt = (omega arith, omega arith)
class_inside base (c ∷ []) end (suc ci) t lt = absurd (omega arith)
class_inside base (c ∷ d ∷ cs) end zero t lt =
    let next = class_inside (base + c.slab_size * c.slab_count) (d ∷ cs) end 0 t.1 (omega arith) in
    (omega arith, omega arith)
class_inside base (c ∷ d ∷ cs) end (suc ci) t lt =
    let next = class_inside (base + c.slab_size * c.slab_count) (d ∷ cs) end ci t.1 (omega arith) in
    (omega arith, omega arith)

pub class_order :
    (base : ℕ) (cs : List SizeClass) (end ci cj : ℕ)
    → IsTiled base cs end
    → ci < cj
    → cj < length cs
    → class_start cs ci + class_bytes cs ci ≤ class_start cs cj
class_order base [] end ci cj t lt lt' = absurd (omega arith)
class_order base (c ∷ cs) end ci zero t lt lt' = absurd (omega arith)
class_order base (c ∷ cs) end zero (suc cj) t lt lt' =
    let later = class_inside (base + c.slab_size * c.slab_count) cs end cj t.1 (omega arith) in
    omega arith
class_order base (c ∷ cs) end (suc ci) (suc cj) t lt lt' =
    class_order (base + c.slab_size * c.slab_count) cs end ci cj t.1 (omega arith) (omega arith)

slab_in_class : (i size count : ℕ) → i < count → i * size + size ≤ size * count
slab_in_class i size count lt = grind arith

slab_order : (i j size : ℕ) → i < j → i * size + size ≤ j * size
slab_order i j size lt = grind arith

module _ (cs : List SizeClass) (end : ℕ) (t : IsTiled 0 cs end) where
  pub slab_inside :
      (ci i : ℕ)
      → ci < length cs
      → i < (class_at cs ci).slab_count
      → slab_start cs ci i + slab_bytes cs ci ≤ end
  slab_inside ci i lt lt' = omega (
    arith,
    class_inside 0 cs end ci t lt,
    slab_in_class i (class_at cs ci).slab_size (class_at cs ci).slab_count lt',
  )

  earlier_class :
      (ci i cj j : ℕ)
      → ci < cj
      → cj < length cs
      → i < (class_at cs ci).slab_count
      → slab_start cs ci i + slab_bytes cs ci ≤ slab_start cs cj j
  earlier_class ci i cj j lt lt' in_ci = omega (
    arith,
    class_order 0 cs end ci cj t lt lt',
    slab_in_class i (class_at cs ci).slab_size (class_at cs ci).slab_count in_ci,
  )

  -- Two different slabs of a tiled table do not overlap.
  pub slabs_disjoint :
      (ci i cj j : ℕ)
      → ci < length cs
      → cj < length cs
      → i < (class_at cs ci).slab_count
      → j < (class_at cs cj).slab_count
      → (ci ≢ cj) ⊎ (i ≢ j)
      → (slab_start cs ci i + slab_bytes cs ci ≤ slab_start cs cj j)
        ⊎ (slab_start cs cj j + slab_bytes cs cj ≤ slab_start cs ci i)
  slabs_disjoint ci i cj j hi hj in_i in_j ne = elim (ℕ_discrete ci cj) [
    | yes e ↦ elim (dec_lt i j) [
      | yes lt ↦ inl (rw e (omega (arith, slab_order i j (class_at cs cj).slab_size lt)))
      | no ge ↦ inr (rw e (omega (arith, slab_order j i (class_at cs cj).slab_size (omega arith))))
    ]
    | no apart ↦ elim (dec_lt ci cj) [
      | yes lt ↦ inl (earlier_class ci i cj j lt hj in_i)
      | no ge ↦ inr (earlier_class cj j ci i (omega arith) hi in_j)
    ]
  ]
