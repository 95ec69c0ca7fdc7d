-- ===== src/Geometry/Tables.antt =====
-- Size-class tables: what validateSlabBounds accepts, and that the computed base offsets tile the
-- arena.
use styx.Base.{
  ℕ, ◌+◌, ◌*◌, ◌%◌, ◌≤◌, ◌<◌, ◌≡◌, ◌↔◌, refl, arith, Bool, true, false, some, List, [], ◌∷◌,
  u32_mod, u64_mod,
}
use styx.Base.Maybe.{>>=-eq-some}
use styx.Geometry.{
  SizeClass, cache_line, min_largest_slab_size, slab_bounds_from, last_class, validate_slab_bounds,
  add_overflow_safe, class_base_offsets, with_bases,
}
use styx.Geometry.Spans.{add_overflow_safe_lem}

-- Slab sizes ascend from above `prev`, are multiples of the cache line, and no count is 0.
abbrev pub IsBounded : ℕ → List SizeClass → Type 0
IsBounded prev [] = Unit
IsBounded prev (c ∷ cs) =
    (prev < c.slab_size)
    × (c.slab_size % cache_line ≡ 0)
    × (0 < c.slab_count)
    × IsBounded c.slab_size cs

bounds_sound :
    (first : Bool) (prev : ℕ) (cs : List SizeClass)
    → (first ≡ true → prev ≡ 0)
    → slab_bounds_from first prev cs ≡ true
    → IsBounded prev cs
unfolding slab_bounds_from
bounds_sound first prev [] z e = tt
bounds_sound first prev (c ∷ cs) z e =
    ground (arith, z, bounds_sound false c.slab_size cs (λ q. absurd (cc q)))

bounds_complete :
    (first : Bool) (prev : ℕ) (cs : List SizeClass)
    → IsBounded prev cs
    → slab_bounds_from first prev cs ≡ true
unfolding slab_bounds_from
bounds_complete first prev [] b = refl
bounds_complete first prev (c ∷ cs) b = ground (arith, bounds_complete false c.slab_size cs)

-- What a valid table is.
abbrev pub IsTable : List SizeClass → Type 0
IsTable [] = ⊥
IsTable (c ∷ cs) = IsBounded 0 (c ∷ cs) × (min_largest_slab_size ≤ (last_class c cs).slab_size)

-- `validateSlabBounds` accepts exactly the tables with at least one class, whose slab sizes are positive
-- multiples of 64 in strictly ascending order, whose counts are positive and whose last slab size is
-- at least 4096.
pub validate_slab_bounds_iff : (cs : List SizeClass) → (validate_slab_bounds cs ≡ true) ↔ IsTable cs
unfolding validate_slab_bounds
validate_slab_bounds_iff [] = (λ e. absurd (cc e), λ h. absurd h)
validate_slab_bounds_iff (c ∷ cs) = (
  λ e. (bounds_sound true 0 (c ∷ cs) (λ q. refl) (ground arith), ground arith),
  λ h. rw (bounds_complete true 0 (c ∷ cs) h.0) (ground arith),
)

-- The fields are uint32.
abbrev pub AllU32 : List SizeClass → Type 0
AllU32 [] = Unit
AllU32 (c ∷ cs) = (c.slab_size < u32_mod) × (c.slab_count < u32_mod) × AllU32 cs

-- From `base` on, each class begins where the one before ends; the last ends at `end`.
abbrev pub IsTiled : ℕ → List SizeClass → ℕ → Type 0
IsTiled base [] end = base ≡ end
IsTiled base (c ∷ cs) end =
    (c.class_base_offset ≡ base) × IsTiled (base + c.slab_size * c.slab_count) cs end

-- The same slab sizes and counts.
abbrev pub SameShape : List SizeClass → List SizeClass → Type 0
SameShape [] [] = Unit
SameShape [] (d ∷ ds) = ⊥
SameShape (c ∷ cs) [] = ⊥
SameShape (c ∷ cs) (d ∷ ds) =
    (c.slab_size ≡ d.slab_size) × (c.slab_count ≡ d.slab_count) × SameShape cs ds

product_fits : (a b : ℕ) → a < u32_mod → b < u32_mod → a * b < u64_mod
product_fits a b ha hb = grind arith

pub no_overflow :
    (base size count n : ℕ)
    → base < u64_mod
    → size < u32_mod
    → count < u32_mod
    → add_overflow_safe base (size * count % u64_mod) ≡ some n
    → (n ≡ base + size * count) × (n < u64_mod)
no_overflow base size count n hb hs hc e =
    let p : size * count < u64_mod = product_fits size count hs hc in
    ground (arith, add_overflow_safe_lem base (size * count % u64_mod))

pub class_base_offsets_lem :
    (base : ℕ) (cs : List SizeClass) (bs : List ℕ) (t : ℕ)
    → AllU32 cs
    → base < u64_mod
    → class_base_offsets base cs ≡ some (bs, t)
    → (base ≤ t)
      × (t < u64_mod)
      × (t < u32_mod → IsTiled base (with_bases cs bs) t × SameShape cs (with_bases cs bs))
unfolding class_base_offsets
class_base_offsets_lem base [] bs t u hb e =
    let same : base ≡ t = cc in (omega arith, omega arith, λ lt. (same, tt))
class_base_offsets_lem base (c ∷ cs) bs t u hb e =
    let (n, en, e') =
      >>=-eq-some (add_overflow_safe base (c.slab_size * c.slab_count % u64_mod)) _ e in
    let (rest, er, e'') = >>=-eq-some (class_base_offsets n cs) _ e' in
    let (exact, hn) = no_overflow base c.slab_size c.slab_count n hb u.0 u.1 en in
    let same_bases : base ∷ rest.0 ≡ bs = cc in
    let same_total : rest.1 ≡ t = cc in
    let (le, small, tiles) = class_base_offsets_lem n cs rest.0 rest.1 u.2 hn er in
    (
      omega arith,
      omega arith,
      λ lt.
          let (tiled, shape) = tiles (omega arith) in
          rw (← same_bases, ← same_total) ((omega arith, rw exact at tiled), (refl, refl, shape)),
    )
