-- ===== src/Page/Tests.antt =====
-- A region created, written and parsed.
use styx.Base.{ℕ, ◌+◌, ◌≡◌, ◌≢◌, refl, arith, some, List, [], ◌∷◌}
use styx.Base.Memory.{Memory, IsBytes, Agree, store, copy_in, clear, save-IsBytes, copy_in-IsBytes}
use styx.Geometry.{
  SizeClass, ArenaGeometry, Layout, validate_slab_bounds, build_arena_geometry, slab_bounds_from,
  class_base_offsets, compute_class_base_offsets, add_overflow_safe, roundup_page_size,
  derive_spans, validate_ring_capacity, validate_lifecycle_reserve,
}
use styx.Page.{
  Field, header_fields, write_fields, write_class_table, write_layout_page, create_layout,
  derive_layout,
}
use styx.Base.Outcome.{returned, panics}
use styx.Page.Parse.{parse_layout_phase2}
use styx.Page.Bounded.{parse_bounded}
use styx.Page.Agree.{IsRegion, parse_layout_phase2-IsRegion}
use styx.Page.RoundTrip.{IsInput, parse_layout_phase2-write_layout_page}

abbrev two_classes : List SizeClass
two_classes =
    record { slab_size = 64; slab_count = 3; class_base_offset = 0 }
    ∷ record { slab_size = 4096; slab_count = 2; class_base_offset = 0 }
    ∷ []

abbrev one_class : List SizeClass
one_class = record { slab_size = 4096; slab_count = 1; class_base_offset = 0 } ∷ []

abbrev arena_of : ℕ → ℕ → ℕ → List SizeClass → ArenaGeometry
arena_of o b t cs = record { offset = o; bytes = b; class_table_offset = t; classes = cs }

abbrev input : Layout
input = record {
  magic = [];
  layout_version = 0;
  header_flags = 0;
  generation = 7;
  region_size = 0;
  ring_capacity = 64;
  lifecycle_reserve = 8;
  sync_page_offset = 0;
  ring_hp = 0;
  ring_ph = 0;
  arena_hp = arena_of 0 0 0 two_classes;
  arena_ph = arena_of 0 0 0 one_class;
}

abbrev created : Layout
created = record {
  magic = 83 ∷ 84 ∷ 89 ∷ 88 ∷ 83 ∷ 72 ∷ 77 ∷ 82 ∷ [];
  layout_version = 1;
  header_flags = 0;
  generation = 7;
  region_size = 32768;
  ring_capacity = 64;
  lifecycle_reserve = 8;
  sync_page_offset = 4096;
  ring_hp = 8192;
  ring_ph = 12288;
  arena_hp = arena_of 16384 12288 256 (
      record { slab_size = 64; slab_count = 3; class_base_offset = 0 }
      ∷ record { slab_size = 4096; slab_count = 2; class_base_offset = 192 }
      ∷ []);
  arena_ph = arena_of 28672 4096 288 one_class;
}

create_layout-input : create_layout input ≡ some created
unfolding create_layout derive_layout build_arena_geometry validate_slab_bounds slab_bounds_from
    compute_class_base_offsets class_base_offsets add_overflow_safe roundup_page_size derive_spans
    validate_ring_capacity validate_lifecycle_reserve
create_layout-input = refl

input_words : IsInput input
input_words = record {
  generation_word = omega arith;
  hp_words = (omega arith, omega arith, (omega arith, omega arith, tt));
  ph_words = (omega arith, omega arith, tt);
}

abbrev zeroed_memory : Memory
zeroed_memory = λ k. 0

abbrev page : Memory
page = write_layout_page created zeroed_memory

parse_layout_phase2-write_layout_page_example :
    parse_layout_phase2 page 32768 32768 ≡ returned created
parse_layout_phase2-write_layout_page_example =
    parse_layout_phase2-write_layout_page input created zeroed_memory input_words
      create_layout-input (λ i lt. refl)

write_fields-IsBytes : (fs : List Field) (m : Memory) → IsBytes m → IsBytes (write_fields fs m)
unfolding write_fields
write_fields-IsBytes [] m h = h
write_fields-IsBytes (f ∷ fs) m h =
    write_fields-IsBytes fs _ (save-IsBytes f.place f.width f.value m h)

write_class_table-IsBytes :
    (off : ℕ) (cs : List SizeClass) (m : Memory) → IsBytes m → IsBytes (write_class_table off cs m)
unfolding write_class_table
write_class_table-IsBytes off [] m h = h
write_class_table-IsBytes off (c ∷ cs) m h = write_class_table-IsBytes (off + 16) cs _ (
    save-IsBytes (off + 12) 4 0 _ (
      save-IsBytes (off + 8) 4 c.class_base_offset _
        (save-IsBytes (off + 4) 4 c.slab_count _ (save-IsBytes (off + 0) 4 c.slab_size m h))))

clear-IsBytes : (o n : ℕ) (m : Memory) → IsBytes m → IsBytes (clear o n m)
clear-IsBytes o n m h k = ground (arith, h k)

abbrev header : Memory
header =
    clear 140 116 (write_fields (header_fields created) (copy_in 0 created.magic zeroed_memory))

header-IsBytes : IsBytes header
header-IsBytes =
    clear-IsBytes 140 116
      (write_fields (header_fields created) (copy_in 0 created.magic zeroed_memory))
      (write_fields-IsBytes (header_fields created) (copy_in 0 created.magic zeroed_memory) (
        copy_in-IsBytes 0 created.magic zeroed_memory
          (
            omega arith,
            (
              omega arith,
              (
                omega arith,
                (omega arith, (omega arith, (omega arith, (omega arith, (omega arith, tt))))),
              ),
            ),
          )
          (λ k. omega arith)))

page-IsBytes : IsBytes page
unfolding write_layout_page
page-IsBytes =
    write_class_table-IsBytes 288 one_class (write_class_table 256 created.arena_hp.classes header)
      (write_class_table-IsBytes 256 created.arena_hp.classes header header-IsBytes)

parse_layout_phase2-IsRegion_example : IsRegion created 32768 × (created.region_size ≡ 32768)
parse_layout_phase2-IsRegion_example =
    parse_layout_phase2-IsRegion page 32768 32768 created page-IsBytes
      parse_layout_phase2-write_layout_page_example

-- The byte after the mapping is another one.
past_end : Agree 0 32768 page (store 32768 1 page)
past_end k p q = ground arith

parse_bounded_example :
    (parse_layout_phase2 page 32768 32768 ≢ panics)
    × (parse_layout_phase2 page 32768 32768 ≡ parse_layout_phase2 (store 32768 1 page) 32768 32768)
parse_bounded_example = parse_bounded page (store 32768 1 page) 32768 32768 (omega arith) past_end
