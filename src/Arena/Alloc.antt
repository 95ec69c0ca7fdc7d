-- ===== src/Arena/Alloc.antt =====
-- What Alloc returns and what it changes.
use styx.Base.{
  ℕ, ◌+◌, ◌*◌, ◌%◌, ◌≡◌, ◌≢◌, ◌⊎◌, refl, arith, true, false, List, [], ◌∷◌, none, some,
  Option-cases, inl, inr, ◌==◌, u32_mod, add64, set,
}
use native.Mathlib.Decide.{ℕ_discrete}
use styx.Geometry.{SizeClass}
use styx.Arena.{
  Arena, after_seq, SlabHandle, Slice, exhausted, too_large, zero_length, AllocResult, allocated,
  refused, select_class, take_slab, alloc,
}
use styx.Arena.Select.{class_at}
use styx.Arena.Invariant.{pool_at}

-- The arena with slab `x` of class `ci`, the top of the stack above `rest`, stamped.
abbrev pub with_slab : Arena → ℕ → ℕ → List ℕ → Arena
with_slab a ci x rest = record a {
  pools =
      set a.pools ci
        (record { free = rest; live_seq = set (pool_at a.pools ci).live_seq x a.next_seq });
  next_seq = after_seq a.next_seq;
  occupancy = add64 a.occupancy (class_at a.classes ci).slab_size;
}

-- The handle and the slice of slab `x` of class `ci`.
abbrev pub slab_offset : SizeClass → ℕ → ℕ
slab_offset c x = (c.class_base_offset + x * c.slab_size % u32_mod) % u32_mod

abbrev pub handle_of : Arena → ℕ → ℕ → ℕ → SlabHandle
handle_of a ci x size = record {
  offset = slab_offset (class_at a.classes ci) x;
  handle_len = size;
  generation = a.generation;
  sequence = a.next_seq;
  class = ci;
  index = x;
  owner = a.id;
}

abbrev pub slice_of : Arena → ℕ → ℕ → Slice
slice_of a ci x = record {
  low = slab_offset (class_at a.classes ci) x;
  high = (slab_offset (class_at a.classes ci) x + (class_at a.classes ci).slab_size) % u32_mod;
}

-- A run of `alloc`, by its cases.
pub data AllocCase (size : ℕ) (a : Arena) : AllocResult → Arena → Type 0 where
  no_size : size ≡ 0 → AllocCase size a (refused zero_length) a
  no_class_fits :
      size ≢ 0 → select_class a.classes size ≡ none → AllocCase size a (refused too_large) a
  none_free :
      (ci : ℕ)
      → size ≢ 0
      → select_class a.classes size ≡ some ci
      → (pool_at a.pools ci).free ≡ []
      → AllocCase size a (refused exhausted) a
  took :
      (ci x : ℕ) (rest : List ℕ)
      → size ≢ 0
      → select_class a.classes size ≡ some ci
      → (pool_at a.pools ci).free ≡ x ∷ rest
      → AllocCase size a
          (allocated (handle_of a ci x size) (slice_of a ci x))
          (with_slab a ci x rest)

List-cases : (xs : List ℕ) → (xs ≡ []) ⊎ ((x : ℕ) × (rest : List ℕ) × (xs ≡ x ∷ rest))
List-cases [] = inl refl
List-cases (x ∷ xs) = inr (x, xs, refl)

take_case :
    (size ci : ℕ) (a : Arena)
    → size ≢ 0
    → select_class a.classes size ≡ some ci
    → AllocCase size a (take_slab a ci size).0 (take_slab a ci size).1
unfolding take_slab
take_case size ci a ne chosen = elim (List-cases (pool_at a.pools ci).free) [
  | inl e ↦ rw (e, take_slab) (none_free ci ne chosen e)
  | inr (x, rest, e) ↦ rw (e, take_slab) (took ci x rest ne chosen e)
]

pub alloc-AllocCase : (size : ℕ) (a : Arena) → AllocCase size a (alloc size a).0 (alloc size a).1
unfolding alloc
alloc-AllocCase size a = elim (ℕ_discrete size 0) [
  | yes z ↦ let t : (size == 0) ≡ true = ground arith in rw (t, alloc) (no_size z)
  | no ne ↦
      let t : (size == 0) ≡ false = ground arith in
      elim (Option-cases (select_class a.classes size)) [
        | inl e ↦ rw (t, e, alloc) (no_class_fits ne e)
        | inr (ci, e) ↦ rw (t, e, alloc) (take_case size ci a ne e)
      ]
]
