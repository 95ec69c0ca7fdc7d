-- ===== src/Page/Made.antt =====
-- The page of a layout that CreateRegion makes passes every check of the attaching side.
use styx.Base.{ℕ, ◌+◌, ◌-◌, ◌*◌, ◌≤◌, ◌<◌, ◌≡◌, refl, ◌∙◌, arith, true, some, List, length, u64_mod}
use styx.Base.Memory.{Memory, load, is_zero, is_zero-zeroed}
use styx.Geometry.{
  SizeClass, Layout, page_size, max_arena_bytes, max_ring_capacity, max_region_size,
  validate_ring_capacity, validate_lifecycle_reserve, validate_slab_bounds, derive_spans,
}
use styx.Geometry.Tables.{AllU32}
use styx.Geometry.Spans.{spans_of}
use styx.Page.{layout_magic, write_layout_page}
use styx.Page.Checks.{
  check_class_table_ranges, check_class_base_offsets, check_arena_total,
  check_one_class_table_range,
}
use styx.Page.Total.{
  check_header_scalars, check_ring_reservation, check_class_rules, check_spans_and_coverage,
  check_reserved_zero, read_classes, check_arena_pad_zero, check_sync_page_reserved_tail_zero,
}
use styx.Page.Accepts.{Accepted}
use styx.Page.Rules.{BasesU32}
use styx.Page.Written.{
  TablesApart, load-header, copy_out-page, reserved_hdr-page, high, hp_classes, ph_classes,
  hp_reserved, ph_reserved,
}

-- A direction's classes as buildArenaGeometry leaves them.
pub record Side (cs : List SizeClass) (bytes : ℕ) : Type 0 where
  pub nonempty : 0 < length cs
  pub valid : validate_slab_bounds cs ≡ true
  pub total : ℕ
  pub based : check_class_base_offsets cs ≡ some total
  pub summed : check_arena_total total bytes ≡ some bytes
  pub inside : total ≤ bytes
  pub bounded : bytes ≤ max_arena_bytes
  pub sizes : AllU32 cs
  pub bases : BasesU32 cs

-- The layout that CreateRegion makes of a generation, a capacity, a reserve and two built directions.
abbrev pub made : ℕ → ℕ → ℕ → List SizeClass → ℕ → List SizeClass → ℕ → Layout
made g c r hp a ph b = record {
  magic = layout_magic;
  layout_version = 1;
  header_flags = 0;
  generation = g;
  region_size = (spans_of c a b).region_size;
  ring_capacity = c;
  lifecycle_reserve = r;
  sync_page_offset = page_size;
  ring_hp = (spans_of c a b).ring_hp_offset;
  ring_ph = (spans_of c a b).ring_ph_offset;
  arena_hp = record {
    offset = (spans_of c a b).arena_hp_offset;
    bytes = a;
    class_table_offset = 256;
    classes = hp;
  };
  arena_ph = record {
    offset = (spans_of c a b).arena_ph_offset;
    bytes = b;
    class_table_offset = 256 + length hp * 16;
    classes = ph;
  };
}

-- What derivation has checked.
pub record Checked (g c r : ℕ) (hp : List SizeClass) (a : ℕ) (ph : List SizeClass) (b : ℕ)
    : Type 0 where
  pub word : g < u64_mod
  pub capacity : validate_ring_capacity c ≡ true
  pub few : c ≤ max_ring_capacity
  pub reserve : validate_lifecycle_reserve r c ≡ true
  pub hp_side : Side hp a
  pub ph_side : Side ph b
  pub spans : derive_spans c a b ≡ some (spans_of c a b)
  pub small : (spans_of c a b).region_size ≤ max_region_size
  pub room : 256 + length hp * 16 + length ph * 16 ≤ page_size

reserve_lt : (r c : ℕ) → validate_lifecycle_reserve r c ≡ true → r < c
unfolding validate_lifecycle_reserve
reserve_lt r c e = ground arith

check_class_rules-Side :
    (m : Memory) (off : ℕ) (cs : List SizeClass) (bytes : ℕ) (s : Side cs bytes)
    → read_classes m off (length cs) ≡ cs
    → check_class_rules m off (length cs) ≡ some (cs, s.total)
unfolding check_class_rules
check_class_rules-Side m off cs bytes s e = rw (e, s.valid, s.based)

module _ (g c r : ℕ) (hp : List SizeClass) (a : ℕ) (ph : List SizeClass) (b : ℕ)
    (k : Checked g c r hp a ph b) (m : Memory)
    (zeroed : (i : ℕ) → i < (spans_of c a b).region_size → m i ≡ 0) where
  abbrev page : Memory
  page = write_layout_page (made g c r hp a ph b) m

  apart : TablesApart (made g c r hp a ph b)
  apart = let room = k.room in (omega arith, omega arith, omega arith)

  num_hp : load 44 4 page ≡ length hp
  num_hp =
      let room = k.room in
      load-header (made g c r hp a ph b) m apart 7 (omega arith) (omega arith) (omega arith)
      ∙ omega arith

  num_ph : load 48 4 page ≡ length ph
  num_ph =
      let room = k.room in
      load-header (made g c r hp a ph b) m apart 8 (omega arith) (omega arith) (omega arith)
      ∙ omega arith

  table_hp : load 112 8 page ≡ 256
  table_hp = load-header (made g c r hp a ph b) m apart 17 (omega arith) (omega arith) (omega arith)

  table_ph : load 120 8 page ≡ 256 + length hp * 16
  table_ph =
      let room = k.room in
      load-header (made g c r hp a ph b) m apart 18 (omega arith) (omega arith) (omega arith)

  header_page : check_header_scalars page ≡ some tt
  unfolding check_header_scalars
  header_page = rw (
    copy_out-page (made g c r hp a ph b) m apart refl,
    load-header (made g c r hp a ph b) m apart 0 (omega arith) (omega arith) (omega arith),
    load-header (made g c r hp a ph b) m apart 4 (omega arith) (omega arith) (omega arith),
    load-header (made g c r hp a ph b) m apart 5 (omega arith) (omega arith) (omega arith),
    load-header (made g c r hp a ph b) m apart 19 (omega arith) (omega arith) (omega arith),
    load-header (made g c r hp a ph b) m apart 9 (omega arith) (omega arith) (omega arith),
  )

  ring_page : check_ring_reservation page ≡ some (c, r)
  unfolding check_ring_reservation
  ring_page =
      let few = k.few in
      let lt = reserve_lt r c k.reserve in
      rw (
        load-header (made g c r hp a ph b) m apart 6 (omega arith) (omega arith) (omega arith),
        load-header (made g c r hp a ph b) m apart 20 (omega arith) (omega arith) (omega arith),
        k.capacity,
        k.reserve,
      )

  ranges_page :
      check_class_table_ranges (length hp) (length ph) 256 (256 + length hp * 16) ≡ some tt
  unfolding check_class_table_ranges check_one_class_table_range
  ranges_page =
      let room = k.room in
      let some_hp = k.hp_side.nonempty in let some_ph = k.ph_side.nonempty in ground arith

  coverage_page :
      check_spans_and_coverage page
        (spans_of c a b).region_size
        (spans_of c a b)
        (spans_of c a b).region_size
      ≡ some tt
  unfolding check_spans_and_coverage
  coverage_page =
      let small = k.small in
      rw
        (
          load-header (made g c r hp a ph b) m apart 10 (omega arith) (omega arith) (omega arith),
          load-header (made g c r hp a ph b) m apart 11 (omega arith) (omega arith) (omega arith),
          load-header (made g c r hp a ph b) m apart 12 (omega arith) (omega arith) (omega arith),
          load-header (made g c r hp a ph b) m apart 13 (omega arith) (omega arith) (omega arith),
          load-header (made g c r hp a ph b) m apart 14 (omega arith) (omega arith) (omega arith),
          load-header (made g c r hp a ph b) m apart 3 (omega arith) (omega arith) (omega arith),
        )
        (ground arith)

  zero_page :
      (o n : ℕ)
      → page_size ≤ o
      → ((i : ℕ) → o ≤ i → i < o + n → i < (spans_of c a b).region_size)
      → is_zero o n page ≡ true
  zero_page o n le inside =
      is_zero-zeroed o n page (λ i p q.
        high (made g c r hp a ph b) m apart refl i (omega arith) ∙ zeroed i (inside i p q))

  reserved_page :
      check_reserved_zero page
        (spans_of c a b)
        256
        (length hp)
        (256 + length hp * 16)
        (length ph)
        k.hp_side.total
        k.ph_side.total
      ≡ some tt
  unfolding check_reserved_zero check_sync_page_reserved_tail_zero check_arena_pad_zero
  reserved_page = rw (
    load-header (made g c r hp a ph b) m apart 1 (omega arith) (omega arith) (omega arith),
    reserved_hdr-page (made g c r hp a ph b) m apart,
    zero_page (4096 + 512) (4096 + 4096 - (4096 + 512)) (omega arith) (λ i p q. omega arith),
    hp_reserved (made g c r hp a ph b) m apart,
    ph_reserved (made g c r hp a ph b) m apart,
    zero_page ((spans_of c a b).arena_hp_offset + k.hp_side.total)
        ((spans_of c a b).arena_hp_offset
          + a
          - ((spans_of c a b).arena_hp_offset + k.hp_side.total))
        (omega arith) (λ i p q. omega arith),
    zero_page ((spans_of c a b).arena_ph_offset + k.ph_side.total)
        ((spans_of c a b).arena_ph_offset
          + b
          - ((spans_of c a b).arena_ph_offset + k.ph_side.total))
        (omega arith) (λ i p q. omega arith),
  )

  pub made-Accepted :
      Accepted page (spans_of c a b).region_size (spans_of c a b).region_size (made g c r hp a ph b)
  made-Accepted =
      let small = k.small in
      let word = k.word in
      let bound_hp = k.hp_side.bounded in
      let bound_ph = k.ph_side.bounded in
      record {
        ring = (c, r);
        hp = (hp, k.hp_side.total);
        ph = (ph, k.ph_side.total);
        bytes_hp = a;
        bytes_ph = b;
        spans = spans_of c a b;
        header_ok = header_page;
        ring_ok = ring_page;
        ranges_ok = rw (num_hp, num_ph, table_hp, table_ph) ranges_page;
        hp_ok =
            rw (num_hp, table_hp)
              (check_class_rules-Side page 256 hp a k.hp_side
                (hp_classes (made g c r hp a ph b) m apart k.hp_side.sizes k.hp_side.bases));
        ph_ok =
            rw (num_ph, table_ph)
              (check_class_rules-Side page (256 + length hp * 16) ph b k.ph_side
                (ph_classes (made g c r hp a ph b) m apart k.ph_side.sizes k.ph_side.bases));
        bytes_hp_ok =
            rw
              (load-header (made g c r hp a ph b) m apart 15 (omega arith) (omega arith)
                (omega arith))
              k.hp_side.summed;
        bytes_ph_ok =
            rw
              (load-header (made g c r hp a ph b) m apart 16 (omega arith) (omega arith)
                (omega arith))
              k.ph_side.summed;
        spans_ok = k.spans;
        coverage_ok = coverage_page;
        reserved_ok = rw (num_hp, num_ph, table_hp, table_ph) reserved_page;
        returned = rw (
          copy_out-page (made g c r hp a ph b) m apart refl,
          load-header (made g c r hp a ph b) m apart 0 (omega arith) (omega arith) (omega arith),
          load-header (made g c r hp a ph b) m apart 1 (omega arith) (omega arith) (omega arith),
          load-header (made g c r hp a ph b) m apart 2 (omega arith) (omega arith) (omega arith),
          table_hp,
          table_ph,
        );
      }
