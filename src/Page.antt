-- ===== src/Page.antt =====
-- internal/shm/layout.go and region.go: the layout page of a region, its derivation by the creating
-- side, and the writer of its header and class tables.
pub mod Checks
pub mod Parse
pub mod Total
pub mod Accepts
pub mod Rules
pub mod Follow
pub mod Whole
pub mod Bounded
pub mod Agree
pub mod Decode
pub mod Written
pub mod Made
pub mod RoundTrip
mod Tests
use styx.Base.{
  ℕ, ◌+◌, ◌*◌, ◌%◌, Bool, not, Option, none, some, List, [], ◌∷◌, length, ltb, ◌==◌, u32_mod,
}
use styx.Base.Maybe.{◌>>=◌, ◌>>◌, guard}
use styx.Base.Memory.{Memory, save, copy_in, clear}
use styx.Geometry.{
  SizeClass, ArenaGeometry, Layout, page_size, descriptor_size, validate_ring_capacity,
  validate_lifecycle_reserve, build_arena_geometry, derive_spans,
}

abbrev pub layout_page_size : ℕ
layout_page_size = page_size

abbrev pub sync_page_size : ℕ
sync_page_size = page_size

-- Offsets of the header's fields.
abbrev pub off_magic : ℕ
off_magic = 0

abbrev pub off_layout_version : ℕ
off_layout_version = 8

abbrev pub off_header_flags : ℕ
off_header_flags = 12

abbrev pub off_generation : ℕ
off_generation = 16

abbrev pub off_region_size : ℕ
off_region_size = 24

abbrev pub off_page_size : ℕ
off_page_size = 32

abbrev pub off_descriptor_size : ℕ
off_descriptor_size = 36

abbrev pub off_ring_capacity : ℕ
off_ring_capacity = 40

abbrev pub off_num_classes_hp : ℕ
off_num_classes_hp = 44

abbrev pub off_num_classes_ph : ℕ
off_num_classes_ph = 48

abbrev pub off_reserved_u32 : ℕ
off_reserved_u32 = 52

abbrev pub off_sync_page_offset : ℕ
off_sync_page_offset = 56

abbrev pub off_ring_hp_offset : ℕ
off_ring_hp_offset = 64

abbrev pub off_ring_ph_offset : ℕ
off_ring_ph_offset = 72

abbrev pub off_arena_hp_offset : ℕ
off_arena_hp_offset = 80

abbrev pub off_arena_ph_offset : ℕ
off_arena_ph_offset = 88

abbrev pub off_arena_bytes_hp : ℕ
off_arena_bytes_hp = 96

abbrev pub off_arena_bytes_ph : ℕ
off_arena_bytes_ph = 104

abbrev pub off_class_table_hp_offset : ℕ
off_class_table_hp_offset = 112

abbrev pub off_class_table_ph_offset : ℕ
off_class_table_ph_offset = 120

abbrev pub off_shard_count : ℕ
off_shard_count = 128

abbrev pub off_lifecycle_reserve : ℕ
off_lifecycle_reserve = 136

abbrev pub off_reserved_hdr : ℕ
off_reserved_hdr = 140

abbrev pub reserved_hdr_size : ℕ
reserved_hdr_size = 116

abbrev pub header_size : ℕ
header_size = 256

abbrev pub class_table_recommended_offset : ℕ
class_table_recommended_offset = header_size

-- One entry of a class table: four uint32 words, the last one reserved.
abbrev pub size_class_entry_size : ℕ
size_class_entry_size = 16

abbrev pub off_size_class_slab_size : ℕ
off_size_class_slab_size = 0

abbrev pub off_size_class_slab_count : ℕ
off_size_class_slab_count = 4

abbrev pub off_size_class_base_offset : ℕ
off_size_class_base_offset = 8

abbrev pub off_size_class_reserved : ℕ
off_size_class_reserved = 12

abbrev pub sync_page_reserved_tail_offset : ℕ
sync_page_reserved_tail_offset = 512

-- "STYXSHMR"
abbrev pub layout_magic : List ℕ
layout_magic = 83 ∷ 84 ∷ 89 ∷ 88 ∷ 83 ∷ 72 ∷ 77 ∷ 82 ∷ []

-- A header field: its offset, its width in bytes and its value.
pub record Field : Type 0 where
  pub place : ℕ
  pub width : ℕ
  pub value : ℕ

abbrev field : ℕ → ℕ → ℕ → Field
field o w v = record { place = o; width = w; value = v }

-- The integer fields that writeLayoutPage stores, in its order.
abbrev pub header_fields : Layout → List Field
header_fields l =
    field off_layout_version 4 l.layout_version
    ∷ field off_header_flags 4 l.header_flags
    ∷ field off_generation 8 l.generation
    ∷ field off_region_size 8 l.region_size
    ∷ field off_page_size 4 page_size
    ∷ field off_descriptor_size 4 descriptor_size
    ∷ field off_ring_capacity 4 l.ring_capacity
    ∷ field off_num_classes_hp 4 (length l.arena_hp.classes % u32_mod)
    ∷ field off_num_classes_ph 4 (length l.arena_ph.classes % u32_mod)
    ∷ field off_reserved_u32 4 0
    ∷ field off_sync_page_offset 8 l.sync_page_offset
    ∷ field off_ring_hp_offset 8 l.ring_hp
    ∷ field off_ring_ph_offset 8 l.ring_ph
    ∷ field off_arena_hp_offset 8 l.arena_hp.offset
    ∷ field off_arena_ph_offset 8 l.arena_ph.offset
    ∷ field off_arena_bytes_hp 8 l.arena_hp.bytes
    ∷ field off_arena_bytes_ph 8 l.arena_ph.bytes
    ∷ field off_class_table_hp_offset 8 l.arena_hp.class_table_offset
    ∷ field off_class_table_ph_offset 8 l.arena_ph.class_table_offset
    ∷ field off_shard_count 8 1
    ∷ field off_lifecycle_reserve 4 l.lifecycle_reserve
    ∷ []

unfoldable pub write_fields : List Field → Memory → Memory
write_fields [] m = m
write_fields (f ∷ fs) m = write_fields fs (save f.place f.width f.value m)

-- The entries from `off` on.
unfoldable pub write_class_table : ℕ → List SizeClass → Memory → Memory
write_class_table off [] m = m
write_class_table off (c ∷ cs) m = write_class_table (off + size_class_entry_size) cs (
    save (off + off_size_class_reserved) 4 0 (
      save (off + off_size_class_base_offset) 4 c.class_base_offset (
        save (off + off_size_class_slab_count) 4 c.slab_count
          (save (off + off_size_class_slab_size) 4 c.slab_size m))))

unfoldable pub write_layout_page : Layout → Memory → Memory
unfolding write_fields write_class_table
write_layout_page l m =
    let header = write_fields (header_fields l) (copy_in off_magic l.magic m) in
    let cleared = clear off_reserved_hdr reserved_hdr_size header in
    write_class_table l.arena_ph.class_table_offset l.arena_ph.classes
      (write_class_table l.arena_hp.class_table_offset l.arena_hp.classes cleared)

-- `derive_layout` ignores every derived field of its argument.
unfoldable pub derive_layout : Layout → Option Layout
derive_layout layout = do
  guard (validate_ring_capacity layout.ring_capacity)
  guard (validate_lifecycle_reserve layout.lifecycle_reserve layout.ring_capacity)
  hp ← build_arena_geometry layout.arena_hp.classes
  ph ← build_arena_geometry layout.arena_ph.classes
  spans ← derive_spans layout.ring_capacity hp.1 ph.1
  let table_hp = class_table_recommended_offset
  let table_ph = table_hp + length hp.0 * size_class_entry_size
  let tables_end = table_ph + length ph.0 * size_class_entry_size
  guard (not (ltb layout_page_size tables_end))
  some (record {
    magic = layout.magic;
    layout_version = layout.layout_version;
    header_flags = layout.header_flags;
    generation = layout.generation;
    region_size = spans.region_size;
    ring_capacity = layout.ring_capacity;
    lifecycle_reserve = layout.lifecycle_reserve;
    sync_page_offset = spans.sync_page_offset;
    ring_hp = spans.ring_hp_offset;
    ring_ph = spans.ring_ph_offset;
    arena_hp = record {
      offset = spans.arena_hp_offset;
      bytes = hp.1;
      class_table_offset = table_hp;
      classes = hp.0;
    };
    arena_ph = record {
      offset = spans.arena_ph_offset;
      bytes = ph.1;
      class_table_offset = table_ph;
      classes = ph.0;
    };
  })

-- CreateRegion up to the system calls: the layout that it writes.
unfoldable pub create_layout : Layout → Option Layout
unfolding derive_layout
create_layout input = do
  guard (not (input.generation == 0))
  guard (input.header_flags == 0)
  layout ← derive_layout input
  some (record layout { magic = layout_magic; layout_version = 1; generation = input.generation })
