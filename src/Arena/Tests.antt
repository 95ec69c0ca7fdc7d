-- ===== src/Arena/Tests.antt =====
-- An arena of two classes, at concrete inputs.
use styx.Base.{
  ◌≢◌, ◌^◌, ◌-◌, ℕ, ◌≡◌, ◌≤◌, ◌+◌, ◌↔◌, ◌⊎◌, refl, arith, true, some, List, [], ◌∷◌, ◌==◌,
  if◌then◌else◌, ◌&&◌,
}
use styx.Geometry.{
  SizeClass, build_arena_geometry, validate_slab_bounds, compute_class_base_offsets,
  add_overflow_safe, roundup_page_size,
}
use styx.Geometry.Build.{IsBuilt, build_arena_geometry-IsBuilt}
use styx.Geometry.Tables.{AllU32}
use styx.Arena.{Arena, SlabHandle, Slice, allocated, alloc, free_slab, validate, new, new_pools}
use styx.Arena.Invariant.{IsArena, stamp}
use styx.Arena.Grant.{AllocSpec, alloc-IsArena, alloc_lem}
use styx.Arena.Free.{Names, free_iff, free_lem}
use styx.Arena.RoundTrip.{restamped, free-alloc}
use styx.Arena.Span.{fresh_arena, fresh-IsArena, new_built}
use styx.Arena.{mint_arena_id}
use styx.Arena.Mint.{mint_arena_id_lem}
use styx.Arena.Bounds.{IsSpan, IsPlaced, alloc_in_bounds, alloc_apart}

abbrev small_class : SizeClass
small_class = record { slab_size = 64; slab_count = 3; class_base_offset = 0 }

abbrev large_class : SizeClass
large_class = record { slab_size = 4096; slab_count = 2; class_base_offset = 192 }

abbrev two_classes : List SizeClass
two_classes = small_class ∷ large_class ∷ []

abbrev fresh : Arena
fresh = fresh_arena 12288 two_classes 1 7

fresh_ok : IsArena fresh
fresh_ok = fresh-IsArena 12288 two_classes 1 7

-- The first grant of 40 bytes: slab 1 of class 0.
abbrev granted : SlabHandle
granted = record {
  offset = 64;
  handle_len = 40;
  generation = 1;
  sequence = 1;
  class = 0;
  index = 1;
  owner = 7;
}

abbrev granted_bytes : Slice
granted_bytes = record { low = 64; high = 128 }

abbrev one_used : Arena
unfolding alloc
one_used = (alloc 40 fresh).1

alloc-fresh : alloc 40 fresh ≡ (allocated granted granted_bytes, one_used)
unfolding alloc new_pools
alloc-fresh = refl

one_used_ok : IsArena one_used
unfolding alloc
one_used_ok = alloc-IsArena 40 fresh fresh_ok

free_granted : (free_slab granted one_used).0 ≡ true
unfolding free_slab alloc new_pools
free_granted = refl

span : IsSpan fresh
span = record {
  table = ((omega arith, refl, omega arith, (omega arith, refl, omega arith, tt)), omega arith);
  end = 8384;
  tiled = (refl, (refl, refl));
  inside = omega arith;
  addressable = omega arith;
}

used_span : IsSpan one_used
unfolding alloc new_pools
used_span = record {
  table = span.table;
  end = 8384;
  tiled = (refl, (refl, refl));
  inside = omega arith;
  addressable = omega arith;
}

abbrev next_handle : SlabHandle
next_handle = record {
  offset = 128;
  handle_len = 50;
  generation = 1;
  sequence = 2;
  class = 0;
  index = 2;
  owner = 7;
}

abbrev granted_next : Slice
granted_next = record { low = 128; high = 192 }

still_valid : validate granted one_used ≡ true
unfolding validate alloc new_pools
still_valid = refl

alloc-IsArena_example : IsArena (alloc 40 fresh).1
alloc-IsArena_example = alloc-IsArena 40 fresh fresh_ok

alloc_lem_example : AllocSpec 40 one_used (alloc 40 one_used).0 (alloc 40 one_used).1
alloc_lem_example = alloc_lem 40 one_used one_used_ok

free_iff_example :
    (((free_slab granted one_used).0 ≡ true) ↔ Names granted one_used)
    × (((validate granted one_used) ≡ true) ↔ Names granted one_used)
    × (((free_slab granted one_used).0 ≡ true) ⊎ ((free_slab granted one_used).1 ≡ one_used))
free_iff_example = free_iff granted one_used

free_lem_example :
    IsArena (free_slab granted one_used).1
    × ((c i : ℕ)
        → stamp (free_slab granted one_used).1 c i
          ≡ (if c == 0 && i == 1 then 0 else stamp one_used c i))
free_lem_example = free_lem granted one_used one_used_ok free_granted

free-alloc_example :
    (validate granted one_used ≡ true) × (free_slab granted one_used ≡ (true, restamped fresh))
free-alloc_example = free-alloc 40 fresh granted granted_bytes fresh_ok alloc-fresh

alloc_in_bounds_example : IsPlaced 40 fresh granted granted_bytes
unfolding alloc new_pools
alloc_in_bounds_example = alloc_in_bounds 40 fresh granted granted_bytes fresh_ok span refl

alloc_apart_example :
    ((granted_next.high ≤ 64) ⊎ (64 + 64 ≤ granted_next.low))
    × (validate granted (alloc 50 one_used).1 ≡ true)
unfolding alloc new_pools
alloc_apart_example =
    alloc_apart 50 one_used next_handle granted granted_next one_used_ok used_span refl still_valid

two_classes_u32 : AllU32 two_classes
two_classes_u32 = (omega arith, omega arith, (omega arith, omega arith, tt))

built_two : build_arena_geometry two_classes ≡ some (two_classes, 12288)
unfolding build_arena_geometry validate_slab_bounds compute_class_base_offsets add_overflow_safe
    roundup_page_size
built_two = refl

new_built_example : (new 12288 two_classes 1 7 ≡ some fresh) × IsArena fresh
new_built_example = new_built two_classes two_classes 12288 1 7 two_classes_u32 built_two

build_arena_geometry-IsBuilt_example : IsBuilt two_classes two_classes 12288
build_arena_geometry-IsBuilt_example =
    build_arena_geometry-IsBuilt two_classes two_classes 12288 two_classes_u32 built_two

mint_arena_id_lem_example : (id : ℕ) × (mint_arena_id 2 (2 ^ 64 - 1) ≡ some id) × (id ≢ 0)
mint_arena_id_lem_example = mint_arena_id_lem (2 ^ 64 - 1) (omega arith)
