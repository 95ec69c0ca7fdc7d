-- ===== src/Page/Parse.antt =====
-- internal/shm/layout.go: the checks that the attaching side runs on `data`, the `len` mapped bytes of
-- `mem`. A slice past them panics. Phase 1 has shown that the layout and sync pages are mapped.
use styx.Base.{ℕ, ◌+◌, ◌-◌, suc, zero, Bool, List, [], ◌∷◌, ◌==◌}
use styx.Base.Bytes.{Bytes}
use styx.Base.Memory.{Memory, load, copy_out, is_zero}
use styx.Base.Outcome.{Outcome, returned, ◌>>=◌, ◌>>◌, check, result, slice}
use styx.Geometry.{
  SizeClass, Layout, DerivedGeometry, page_size, descriptor_size, validate_ring_capacity,
  validate_lifecycle_reserve, validate_slab_bounds, derive_spans,
}
use styx.Page.{
  sync_page_size, off_magic, off_layout_version, off_header_flags, off_generation, off_region_size,
  off_page_size, off_descriptor_size, off_ring_capacity, off_num_classes_hp, off_num_classes_ph,
  off_reserved_u32, off_sync_page_offset, off_ring_hp_offset, off_ring_ph_offset,
  off_arena_hp_offset, off_arena_ph_offset, off_arena_bytes_hp, off_arena_bytes_ph,
  off_class_table_hp_offset, off_class_table_ph_offset, off_shard_count, off_lifecycle_reserve,
  off_reserved_hdr, reserved_hdr_size, size_class_entry_size, off_size_class_slab_size,
  off_size_class_slab_count, off_size_class_base_offset, off_size_class_reserved,
  sync_page_reserved_tail_offset, layout_magic,
}
use styx.Page.Checks.{
  same_bytes, check_class_table_ranges, check_class_base_offsets, check_arena_total,
}

abbrev pub read_u32 : Memory → ℕ → ℕ → Outcome ℕ
read_u32 mem len off = slice len off (off + 4) (load off 4 mem)

abbrev pub read_u64 : Memory → ℕ → ℕ → Outcome ℕ
read_u64 mem len off = slice len off (off + 8) (load off 8 mem)

abbrev pub read_magic : Memory → ℕ → Outcome Bytes
read_magic mem len = slice len off_magic (off_magic + 8) (copy_out off_magic 8 mem)

-- `isZero(data[from:to])`
abbrev pub zero_between : Memory → ℕ → ℕ → ℕ → Outcome Bool
zero_between mem len from to = slice len from to (is_zero from (to - from) mem)

unfoldable pub check_header_scalars : Memory → ℕ → Outcome (Unit {0})
check_header_scalars mem len = do
  magic ← read_magic mem len
  check (same_bytes magic layout_magic)
  version ← read_u32 mem len off_layout_version
  check (version == 1)
  page ← read_u32 mem len off_page_size
  check (page == page_size)
  descriptor ← read_u32 mem len off_descriptor_size
  check (descriptor == descriptor_size)
  shards ← read_u64 mem len off_shard_count
  check (shards == 1)
  reserved ← read_u32 mem len off_reserved_u32
  check (reserved == 0)

-- The ring capacity and the lifecycle reserve.
unfoldable pub check_ring_reservation : Memory → ℕ → Outcome (ℕ × ℕ)
check_ring_reservation mem len = do
  ring_capacity ← read_u32 mem len off_ring_capacity
  check (validate_ring_capacity ring_capacity)
  lifecycle_reserve ← read_u32 mem len off_lifecycle_reserve
  check (validate_lifecycle_reserve lifecycle_reserve ring_capacity)
  returned (ring_capacity, lifecycle_reserve)

-- The `n` entries from `off` on.
unfoldable pub read_classes : Memory → ℕ → ℕ → ℕ → Outcome (List SizeClass)
read_classes mem len off zero = returned []
read_classes mem len off (suc n) = do
  slab_size ← read_u32 mem len (off + off_size_class_slab_size)
  slab_count ← read_u32 mem len (off + off_size_class_slab_count)
  base ← read_u32 mem len (off + off_size_class_base_offset)
  classes ← read_classes mem len (off + size_class_entry_size) n
  returned (
      record { slab_size = slab_size; slab_count = slab_count; class_base_offset = base } ∷ classes)

unfoldable pub check_class_rules : Memory → ℕ → ℕ → ℕ → Outcome (List SizeClass × ℕ)
unfolding read_classes
check_class_rules mem len table_off n = do
  classes ← read_classes mem len table_off n
  check (validate_slab_bounds classes)
  class_total ← result (check_class_base_offsets classes)
  returned (classes, class_total)

-- One turn of the loop over the spans' fields.
abbrev pub same_field : Memory → ℕ → ℕ → ℕ → Outcome (Unit {0})
same_field mem len off want = do got ← read_u64 mem len off; check (got == want)

unfoldable pub check_spans_and_coverage : Memory → ℕ → DerivedGeometry → ℕ → Outcome (Unit {0})
check_spans_and_coverage mem len spans declared_region_size = do
  same_field mem len off_sync_page_offset spans.sync_page_offset
  same_field mem len off_ring_hp_offset spans.ring_hp_offset
  same_field mem len off_ring_ph_offset spans.ring_ph_offset
  same_field mem len off_arena_hp_offset spans.arena_hp_offset
  same_field mem len off_arena_ph_offset spans.arena_ph_offset
  same_field mem len off_region_size spans.region_size
  check (spans.region_size == declared_region_size)
  check (len == spans.region_size)

unfoldable pub check_sync_page_reserved_tail_zero :
    Memory → ℕ → DerivedGeometry → Outcome (Unit {0})
check_sync_page_reserved_tail_zero mem len spans = do
  let start = spans.sync_page_offset + sync_page_reserved_tail_offset
  let end = spans.sync_page_offset + sync_page_size
  zeroed ← zero_between mem len start end
  check zeroed

-- The reserved words of the `n` entries from `off` on.
unfoldable pub check_class_entries_reserved_zero : Memory → ℕ → ℕ → ℕ → Outcome (Unit {0})
check_class_entries_reserved_zero mem len off zero = returned tt
check_class_entries_reserved_zero mem len off (suc n) = do
  reserved ← read_u32 mem len (off + off_size_class_reserved)
  check (reserved == 0)
  check_class_entries_reserved_zero mem len (off + size_class_entry_size) n

unfoldable pub check_arena_pad_zero : Memory → ℕ → ℕ → ℕ → ℕ → Outcome (Unit {0})
check_arena_pad_zero mem len arena_offset class_total arena_bytes = do
  let pad_start = arena_offset + class_total
  let pad_end = arena_offset + arena_bytes
  zeroed ← zero_between mem len pad_start pad_end
  check zeroed

unfoldable pub check_reserved_zero :
    Memory → ℕ → DerivedGeometry → ℕ → ℕ → ℕ → ℕ → ℕ → ℕ → Outcome (Unit {0})
unfolding check_sync_page_reserved_tail_zero check_class_entries_reserved_zero check_arena_pad_zero
check_reserved_zero mem len spans table_hp num_hp table_ph num_ph class_total_hp class_total_ph = do
  flags ← read_u32 mem len off_header_flags
  check (flags == 0)
  zeroed ← zero_between mem len off_reserved_hdr (off_reserved_hdr + reserved_hdr_size)
  check zeroed
  check_sync_page_reserved_tail_zero mem len spans
  check_class_entries_reserved_zero mem len table_hp num_hp
  check_class_entries_reserved_zero mem len table_ph num_ph
  check_arena_pad_zero mem len spans.arena_hp_offset class_total_hp spans.arena_bytes_hp
  check_arena_pad_zero mem len spans.arena_ph_offset class_total_ph spans.arena_bytes_ph

unfoldable pub parse_layout_phase2 : Memory → ℕ → ℕ → Outcome Layout
parse_layout_phase2 mem len declared_region_size = do
  check_header_scalars mem len
  ring ← check_ring_reservation mem len
  num_hp ← read_u32 mem len off_num_classes_hp
  num_ph ← read_u32 mem len off_num_classes_ph
  table_hp ← read_u64 mem len off_class_table_hp_offset
  table_ph ← read_u64 mem len off_class_table_ph_offset
  result (check_class_table_ranges num_hp num_ph table_hp table_ph)
  hp ← check_class_rules mem len table_hp num_hp
  ph ← check_class_rules mem len table_ph num_ph
  stored_hp ← read_u64 mem len off_arena_bytes_hp
  bytes_hp ← result (check_arena_total hp.1 stored_hp)
  stored_ph ← read_u64 mem len off_arena_bytes_ph
  bytes_ph ← result (check_arena_total ph.1 stored_ph)
  spans ← result (derive_spans ring.0 bytes_hp bytes_ph)
  check_spans_and_coverage mem len spans declared_region_size
  check_reserved_zero mem len spans table_hp num_hp table_ph num_ph hp.1 ph.1
  magic ← read_magic mem len
  version ← read_u32 mem len off_layout_version
  flags ← read_u32 mem len off_header_flags
  generation ← read_u64 mem len off_generation
  returned (record {
    magic = magic;
    layout_version = version;
    header_flags = flags;
    generation = generation;
    region_size = spans.region_size;
    ring_capacity = ring.0;
    lifecycle_reserve = ring.1;
    sync_page_offset = spans.sync_page_offset;
    ring_hp = spans.ring_hp_offset;
    ring_ph = spans.ring_ph_offset;
    arena_hp = record {
      offset = spans.arena_hp_offset;
      bytes = bytes_hp;
      class_table_offset = table_hp;
      classes = hp.0;
    };
    arena_ph = record {
      offset = spans.arena_ph_offset;
      bytes = bytes_ph;
      class_table_offset = table_ph;
      classes = ph.0;
    };
  })
