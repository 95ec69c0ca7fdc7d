-- ===== src/Geometry/Build.antt =====
-- buildArenaGeometry: what a successful build guarantees.
use styx.Base.{
  ℕ, ◌+◌, ◌%◌, ◌≤◌, ◌<◌, ◌≡◌, arith, true, some, Option-cases, inl, inr, List, [], ◌∷◌, u32_mod,
  u64_mod,
}
use styx.Geometry.{
  SizeClass, max_arena_bytes, page_size, last_class, validate_slab_bounds, add_overflow_safe,
  roundup_page_size, compute_class_base_offsets, with_bases, build_arena_geometry,
}
use styx.Geometry.Tables.{
  IsBounded, IsTable, AllU32, IsTiled, SameShape, validate_slab_bounds_iff, class_base_offsets_lem,
}

IsBounded-shape :
    (prev : ℕ) (cs ds : List SizeClass) → SameShape cs ds → IsBounded prev cs → IsBounded prev ds
IsBounded-shape prev [] [] s b = tt
IsBounded-shape prev [] (d ∷ ds) s b = absurd s
IsBounded-shape prev (c ∷ cs) [] s b = absurd s
IsBounded-shape prev (c ∷ cs) (d ∷ ds) s b = (
  rw (← s.0) b.0,
  rw (← s.0) b.1,
  rw (← s.1) b.2,
  IsBounded-shape d.slab_size cs ds s.2 (rw (← s.0) b.3),
)

last-shape :
    (c d : SizeClass) (cs ds : List SizeClass)
    → SameShape (c ∷ cs) (d ∷ ds)
    → (last_class c cs).slab_size ≡ (last_class d ds).slab_size
last-shape c d [] [] s = s.0
last-shape c d [] (e ∷ ds) s = absurd s.2
last-shape c d (b ∷ cs) [] s = absurd s.2
last-shape c d (b ∷ cs) (e ∷ ds) s = last-shape b e cs ds s.2

IsTable-shape : (cs ds : List SizeClass) → SameShape cs ds → IsTable cs → IsTable ds
IsTable-shape [] ds s h = absurd h
IsTable-shape (c ∷ cs) [] s h = absurd s
IsTable-shape (c ∷ cs) (d ∷ ds) s h =
    (IsBounded-shape 0 (c ∷ cs) (d ∷ ds) s h.0, rw (← last-shape c d cs ds s) h.1)

-- An arena of `bytes` bytes whose table `ds` tiles it from 0 up to `total`; the rest is padding.
pub record IsBuilt (cs ds : List SizeClass) (bytes : ℕ) : Type 0 where
  pub table : IsTable ds
  pub shape : SameShape cs ds
  pub total : ℕ
  pub tiled : IsTiled 0 ds total
  pub padded : (total ≤ bytes) × (bytes < total + page_size) × (bytes % page_size ≡ 0)
  pub below : bytes < u32_mod

pub round_lem :
    (n m : ℕ)
    → n < u64_mod
    → roundup_page_size n ≡ some m
    → (n ≤ m) × (m < n + page_size) × (m % page_size ≡ 0)
unfolding roundup_page_size add_overflow_safe
round_lem n m h e = ground arith

pub build_inversion :
    (cs ds : List SizeClass) (bytes : ℕ)
    → build_arena_geometry cs ≡ some (ds, bytes)
    → (computed : List ℕ × ℕ) × (compute_class_base_offsets cs ≡ some computed)
      × (validate_slab_bounds cs ≡ true)
      × (roundup_page_size computed.1 ≡ some bytes)
      × (bytes ≤ max_arena_bytes)
      × (with_bases cs computed.0 ≡ ds)
unfolding build_arena_geometry
build_inversion cs ds bytes e = elim (Option-cases (compute_class_base_offsets cs)) [
  | inl failed ↦ absurd (ground arith)
  | inr (computed, found) ↦
      (computed, found, ground arith, ground arith, ground arith, ground arith)
]

-- If `buildArenaGeometry` succeeds on uint32 sizes and counts, the table is valid and has the given
-- sizes and counts, the class bases tile the arena from offset 0 without gap or overlap, with none
-- cut off by its uint32 field, and the arena is that total rounded up to a page, below 2^32.
pub build_arena_geometry-IsBuilt :
    (cs ds : List SizeClass) (bytes : ℕ)
    → AllU32 cs
    → build_arena_geometry cs ≡ some (ds, bytes)
    → IsBuilt cs ds bytes
unfolding compute_class_base_offsets
build_arena_geometry-IsBuilt cs ds bytes u e =
    let (computed, found, valid, rounded, small, same) = build_inversion cs ds bytes e in
    let (low, fits, tiles) =
      class_base_offsets_lem 0 cs computed.0 computed.1 u (omega arith) found in
    let padded = round_lem computed.1 bytes fits rounded in
    let (tiled, shape) = tiles (omega arith) in
    rw (← same) (record {
      table =
          IsTable-shape cs (with_bases cs computed.0) shape ((validate_slab_bounds_iff cs).0 valid);
      shape = shape;
      total = computed.1;
      tiled = tiled;
      padded = padded;
      below = omega arith;
    })
