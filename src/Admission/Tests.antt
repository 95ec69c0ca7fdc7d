-- ===== src/Admission/Tests.antt =====
-- A small layout that is certified for one call in flight.
use styx.Base.{◌≡◌, ◌≢◌, inl, refl, arith, true, [], ◌∷◌}
use styx.Base.Int.{pos}
use styx.Geometry.{ArenaGeometry, Layout}
use styx.Arena.{refused, exhausted, alloc, new_pools}
use styx.Arena.Span.{fresh_arena, fresh-IsArena}
use styx.Admission.{accepted, over_strict, validate_startup_capacity}
use styx.Admission.Strict.{strict_never_exhausted}

abbrev one_arena : ArenaGeometry
one_arena = record {
  offset = 16384;
  bytes = 12288;
  class_table_offset = 256;
  classes =
      record { slab_size = 64; slab_count = 3; class_base_offset = 0 }
      ∷ record { slab_size = 4096; slab_count = 2; class_base_offset = 192 }
      ∷ [];
}

abbrev layout : Layout
layout = record {
  magic = [];
  layout_version = 1;
  header_flags = 0;
  generation = 1;
  region_size = 40960;
  ring_capacity = 64;
  lifecycle_reserve = 16;
  sync_page_offset = 4096;
  ring_hp = 8192;
  ring_ph = 12288;
  arena_hp = one_arena;
  arena_ph = one_arena;
}

certified_two : validate_startup_capacity layout (pos 2) true true ≡ accepted
unfolding validate_startup_capacity
certified_two = refl

refused_three : validate_startup_capacity layout (pos 3) true true ≡ over_strict
unfolding validate_startup_capacity
refused_three = refl

strict_never_exhausted_example :
    (alloc 40 (fresh_arena 12288 (one_arena.classes) 1 7)).0 ≢ refused exhausted
unfolding new_pools
strict_never_exhausted_example =
    strict_never_exhausted layout 2 40 true (fresh_arena 12288 (one_arena.classes) 1 7)
      certified_two (fresh-IsArena 12288 (one_arena.classes) 1 7) (inl refl) (omega arith)
