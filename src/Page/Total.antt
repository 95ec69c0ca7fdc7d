-- ===== src/Page/Total.antt =====
-- What the checks of a mapped region give on a memory without an end, where every read has a value:
-- the reads of Page/Parse without their bounds.
use styx.Base.{
  ℕ, ◌+◌, ◌-◌, suc, zero, Bool, true, false, Option, some, List, [], ◌∷◌, ◌==◌, if◌then◌else◌,
}
use styx.Base.Maybe.{◌>>=◌, ◌>>◌, guard}
use styx.Base.Memory.{Memory, load, copy_out, is_zero}
use styx.Geometry.{
  SizeClass, Layout, DerivedGeometry, page_size, descriptor_size, validate_ring_capacity,
  validate_lifecycle_reserve, validate_slab_bounds, derive_spans,
}
use styx.Page.{
  sync_page_size, off_magic, off_layout_version, off_header_flags, off_generation, off_region_size,
  off_page_size, off_descriptor_size, off_ring_capacity, off_num_classes_hp, off_num_classes_ph,
  off_reserved_u32, off_sync_page_offset, off_ring_hp_offset, off_ring_ph_offset,
  off_arena_hp_offset, off_arena_ph_offset, off_arena_bytes_hp, off_arena_bytes_ph,
  off_class_table_hp_offset, off_class_table_ph_offset, off_shard_count, off_lifecycle_reserve,
  off_reserved_hdr, reserved_hdr_size, size_class_entry_size, off_size_class_slab_size,
  off_size_class_slab_count, off_size_class_base_offset, off_size_class_reserved,
  sync_page_reserved_tail_offset, layout_magic,
}
use styx.Page.Checks.{
  same_bytes, check_class_table_ranges, check_class_base_offsets, check_arena_total,
}

abbrev pub read_u32 : Memory → ℕ → ℕ
read_u32 mem off = load off 4 mem

abbrev pub read_u64 : Memory → ℕ → ℕ
read_u64 mem off = load off 8 mem

unfoldable pub check_header_scalars : Memory → Option (Unit {0})
check_header_scalars mem = do
  guard (same_bytes (copy_out off_magic 8 mem) layout_magic)
  guard (read_u32 mem off_layout_version == 1)
  guard (read_u32 mem off_page_size == page_size)
  guard (read_u32 mem off_descriptor_size == descriptor_size)
  guard (read_u64 mem off_shard_count == 1)
  guard (read_u32 mem off_reserved_u32 == 0)

-- The ring capacity and the lifecycle reserve.
unfoldable pub check_ring_reservation : Memory → Option (ℕ × ℕ)
check_ring_reservation mem = do
  let ring_capacity = read_u32 mem off_ring_capacity
  guard (validate_ring_capacity ring_capacity)
  let lifecycle_reserve = read_u32 mem off_lifecycle_reserve
  guard (validate_lifecycle_reserve lifecycle_reserve ring_capacity)
  some (ring_capacity, lifecycle_reserve)

-- The `n` entries from `off` on.
unfoldable pub read_classes : Memory → ℕ → ℕ → List SizeClass
read_classes mem off zero = []
read_classes mem off (suc n) =
    record {
      slab_size = read_u32 mem (off + off_size_class_slab_size);
      slab_count = read_u32 mem (off + off_size_class_slab_count);
      class_base_offset = read_u32 mem (off + off_size_class_base_offset);
    }
    ∷ read_classes mem (off + size_class_entry_size) n

unfoldable pub check_class_rules : Memory → ℕ → ℕ → Option (List SizeClass × ℕ)
unfolding read_classes check_class_base_offsets
check_class_rules mem table_off n = do
  let classes = read_classes mem table_off n
  guard (validate_slab_bounds classes)
  class_total ← check_class_base_offsets classes
  some (classes, class_total)

-- `len` is the mapped length.
unfoldable pub check_spans_and_coverage : Memory → ℕ → DerivedGeometry → ℕ → Option (Unit {0})
check_spans_and_coverage mem len spans declared_region_size = do
  guard (read_u64 mem off_sync_page_offset == spans.sync_page_offset)
  guard (read_u64 mem off_ring_hp_offset == spans.ring_hp_offset)
  guard (read_u64 mem off_ring_ph_offset == spans.ring_ph_offset)
  guard (read_u64 mem off_arena_hp_offset == spans.arena_hp_offset)
  guard (read_u64 mem off_arena_ph_offset == spans.arena_ph_offset)
  guard (read_u64 mem off_region_size == spans.region_size)
  guard (spans.region_size == declared_region_size)
  guard (len == spans.region_size)

unfoldable pub check_sync_page_reserved_tail_zero : Memory → DerivedGeometry → Bool
check_sync_page_reserved_tail_zero mem spans =
    let start = spans.sync_page_offset + sync_page_reserved_tail_offset in
    let end = spans.sync_page_offset + sync_page_size in is_zero start (end - start) mem

-- The reserved words of the `n` entries from `off` on.
unfoldable pub check_class_entries_reserved_zero : Memory → ℕ → ℕ → Bool
check_class_entries_reserved_zero mem off zero = true
check_class_entries_reserved_zero mem off (suc n) =
    if read_u32 mem (off + off_size_class_reserved) == 0
    then check_class_entries_reserved_zero mem (off + size_class_entry_size) n
    else false

unfoldable pub check_arena_pad_zero : Memory → ℕ → ℕ → ℕ → Bool
check_arena_pad_zero mem arena_offset class_total arena_bytes =
    let pad_start = arena_offset + class_total in
    let pad_end = arena_offset + arena_bytes in is_zero pad_start (pad_end - pad_start) mem

unfoldable pub check_reserved_zero :
    Memory → DerivedGeometry → ℕ → ℕ → ℕ → ℕ → ℕ → ℕ → Option (Unit {0})
unfolding check_sync_page_reserved_tail_zero check_class_entries_reserved_zero check_arena_pad_zero
check_reserved_zero mem spans table_hp num_hp table_ph num_ph class_total_hp class_total_ph = do
  guard (read_u32 mem off_header_flags == 0)
  guard (is_zero off_reserved_hdr reserved_hdr_size mem)
  guard (check_sync_page_reserved_tail_zero mem spans)
  guard (check_class_entries_reserved_zero mem table_hp num_hp)
  guard (check_class_entries_reserved_zero mem table_ph num_ph)
  guard (check_arena_pad_zero mem spans.arena_hp_offset class_total_hp spans.arena_bytes_hp)
  guard (check_arena_pad_zero mem spans.arena_ph_offset class_total_ph spans.arena_bytes_ph)

-- The layout that parseLayoutPhase2 returns, from the checks' results.
abbrev pub parsed_layout :
    Memory → ℕ × ℕ → List SizeClass × ℕ → List SizeClass × ℕ → ℕ → ℕ → DerivedGeometry → Layout
parsed_layout mem ring hp ph bytes_hp bytes_ph spans = record {
  magic = copy_out off_magic 8 mem;
  layout_version = read_u32 mem off_layout_version;
  header_flags = read_u32 mem off_header_flags;
  generation = read_u64 mem off_generation;
  region_size = spans.region_size;
  ring_capacity = ring.0;
  lifecycle_reserve = ring.1;
  sync_page_offset = spans.sync_page_offset;
  ring_hp = spans.ring_hp_offset;
  ring_ph = spans.ring_ph_offset;
  arena_hp = record {
    offset = spans.arena_hp_offset;
    bytes = bytes_hp;
    class_table_offset = read_u64 mem off_class_table_hp_offset;
    classes = hp.0;
  };
  arena_ph = record {
    offset = spans.arena_ph_offset;
    bytes = bytes_ph;
    class_table_offset = read_u64 mem off_class_table_ph_offset;
    classes = ph.0;
  };
}

unfoldable pub parse_layout_phase2 : Memory → ℕ → ℕ → Option Layout
parse_layout_phase2 mem len declared_region_size = do
  check_header_scalars mem
  ring ← check_ring_reservation mem
  let num_hp = read_u32 mem off_num_classes_hp
  let num_ph = read_u32 mem off_num_classes_ph
  let table_hp = read_u64 mem off_class_table_hp_offset
  let table_ph = read_u64 mem off_class_table_ph_offset
  check_class_table_ranges num_hp num_ph table_hp table_ph
  hp ← check_class_rules mem table_hp num_hp
  ph ← check_class_rules mem table_ph num_ph
  bytes_hp ← check_arena_total hp.1 (read_u64 mem off_arena_bytes_hp)
  bytes_ph ← check_arena_total ph.1 (read_u64 mem off_arena_bytes_ph)
  spans ← derive_spans ring.0 bytes_hp bytes_ph
  check_spans_and_coverage mem len spans declared_region_size
  check_reserved_zero mem spans table_hp num_hp table_ph num_ph hp.1 ph.1
  some (parsed_layout mem ring hp ph bytes_hp bytes_ph spans)
