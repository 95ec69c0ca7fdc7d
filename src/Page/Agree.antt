-- ===== src/Page/Agree.antt =====
-- The two ends of a region: what parseLayoutPhase2 accepts is what DeriveLayout derives.
use styx.Base.{
  ℕ, ◌+◌, ◌*◌, ◌≡◌, refl, sym, ap, ◌∙◌, arith, true, false, [], ◌∷◌, some, length, List, suc, zero,
  ltb,
}
use styx.Base.Memory.{Memory, IsBytes, load, copy_out}
use styx.Geometry.{SizeClass, Layout, build_arena_geometry}
use styx.Geometry.Build.{IsBuilt, build_arena_geometry-IsBuilt}
use styx.Page.{
  layout_page_size, class_table_recommended_offset, size_class_entry_size, layout_magic,
  derive_layout,
}
use styx.Page.Checks.{same_bytes, check_arena_total}
use styx.Base.Outcome.{returned}
use styx.Page.Parse
use styx.Page.Whole.{returned-Total}
use styx.Page.Total.{read_classes, check_header_scalars, check_class_rules}
use styx.Page.Accepts.{
  check_class_table_ranges_lem, check_ring_reservation_lem, check_arena_total_lem,
  derive_spans-fits, check_spans_and_coverage_lem, Accepted, parse_inversion,
}
use styx.Page.Rules.{read_classes-AllU32, check_class_rules_lem, build-accepted}

length-read_classes : (m : Memory) (off n : ℕ) → length (read_classes m off n) ≡ n
unfolding read_classes
length-read_classes m off zero = refl
length-read_classes m off (suc n) = ap suc (length-read_classes m (off + 16) n)

same_bytes_lem : (xs ys : List ℕ) → same_bytes xs ys ≡ true → xs ≡ ys
same_bytes_lem [] [] e = refl
same_bytes_lem [] (y ∷ ys) e = absurd (cc e)
same_bytes_lem (x ∷ xs) [] e = absurd (cc e)
same_bytes_lem (x ∷ xs) (y ∷ ys) e =
    let head : x ≡ y = ground arith in rw (head, same_bytes_lem xs ys (ground arith))

header_lem :
    (m : Memory) {u : Unit {0}}
    → check_header_scalars m ≡ some u
    → (copy_out 0 8 m ≡ layout_magic) × (load 8 4 m ≡ 1)
unfolding check_header_scalars
header_lem m e = (same_bytes_lem (copy_out 0 8 m) layout_magic (ground arith), ground arith)

-- An accepted direction: the classes that were read, which the creating side would build as they are.
rules_build :
    (m : Memory) (off n stored b : ℕ) (rules : List SizeClass × ℕ)
    → IsBytes m
    → check_class_rules m off n ≡ some rules
    → check_arena_total rules.1 stored ≡ some b
    → (build_arena_geometry rules.0 ≡ some (rules.0, b))
      × IsBuilt rules.0 rules.0 b
      × (length rules.0 ≡ n)
rules_build m off n stored b rules h e summed =
    let (read, valid, based) = check_class_rules_lem m off n rules e in
    let (fits, bases_fit) = read_classes-AllU32 m off n h in
    let built = build-accepted rules.0 rules.1 stored b (rw read bases_fit) valid based summed in
    (
      built,
      build_arena_geometry-IsBuilt rules.0 rules.0 b (rw read fits) built,
      ap (length {A = SizeClass}) read ∙ length-read_classes m off n,
    )

-- The layout with its class tables where CreateRegion puts them.
abbrev pub at_recommended : Layout → Layout
at_recommended l = record l {
  arena_hp = record l.arena_hp { class_table_offset = class_table_recommended_offset };
  arena_ph = record l.arena_ph {
    class_table_offset =
        class_table_recommended_offset + length l.arena_hp.classes * size_class_entry_size;
  };
}

-- What a layout promises of a mapping of `len` bytes: DeriveLayout
-- derives it but for the places of the class tables, and its arenas are built.
pub record IsRegion (l : Layout) (len : ℕ) : Type 0 where
  pub derived : derive_layout l ≡ some (at_recommended l)
  pub hp_built : IsBuilt l.arena_hp.classes l.arena_hp.classes l.arena_hp.bytes
  pub ph_built : IsBuilt l.arena_ph.classes l.arena_ph.classes l.arena_ph.bytes
  pub sized : l.region_size ≡ len
  pub magic_same : l.magic ≡ layout_magic
  pub version_same : l.layout_version ≡ 1

Accepted-IsRegion :
    (m : Memory) (len declared : ℕ) (l : Layout)
    → IsBytes m
    → Accepted m len declared l
    → IsRegion l len × (l.region_size ≡ declared)
unfolding derive_layout
Accepted-IsRegion m len declared l h a =
    let hp : ℕ = load 44 4 m in
    let ph : ℕ = load 48 4 m in
    let (in_hp, in_ph, apart) =
      check_class_table_ranges_lem hp ph (load 112 8 m) (load 120 8 m) a.ranges_ok in
    let (valid, kept, bound) = check_ring_reservation_lem m a.ring a.ring_ok in
    let (build_hp, is_hp, long_hp) =
      rules_build m (load 112 8 m) hp (load 96 8 m) a.bytes_hp a.hp h a.hp_ok a.bytes_hp_ok in
    let (build_ph, is_ph, long_ph) =
      rules_build m (load 120 8 m) ph (load 104 8 m) a.bytes_ph a.ph h a.ph_ok a.bytes_ph_ok in
    let (exact, most) =
      derive_spans-fits a.ring.0 a.bytes_hp a.bytes_ph a.spans bound
        (check_arena_total_lem a.hp.1 (load 96 8 m) a.bytes_hp a.bytes_hp_ok).1
        (check_arena_total_lem a.ph.1 (load 104 8 m) a.bytes_ph a.bytes_ph_ok).1 a.spans_ok in
    let (covers, same) = check_spans_and_coverage_lem m len a.spans declared a.coverage_ok in
    let (magic, version) = header_lem m a.header_ok in
    let room : ltb layout_page_size (256 + length a.hp.0 * 16 + length a.ph.0 * 16) ≡ false =
      ground (arith, long_hp, long_ph) in
    rw (← a.returned) (
      record {
        derived = rw (valid, kept, build_hp, build_ph, a.spans_ok, room);
        hp_built = is_hp;
        ph_built = is_ph;
        sized = sym covers;
        magic_same = magic;
        version_same = version;
      },
      same,
    )

-- For a mapping of arbitrary bytes, a layout that `parseLayoutPhase2` returns is the one that
-- `DeriveLayout` computes from the capacity, reserve and classes in it, apart from the places of the
-- two class tables; so both arenas are tiled by their slabs and padded to a page, below 2^32. Its
-- magic and version are the ABI's, and its size is the mapped length and the declared size.
pub parse_layout_phase2-IsRegion :
    (m : Memory) (len declared : ℕ) (l : Layout)
    → IsBytes m
    → Parse.parse_layout_phase2 m len declared ≡ returned l
    → IsRegion l len × (l.region_size ≡ declared)
parse_layout_phase2-IsRegion m len declared l h e =
    Accepted-IsRegion m len declared l h
      (parse_inversion m len declared l (returned-Total m len declared e))
