-- ===== src/Page/Accepts.antt =====
-- What each check of the attaching side guarantees when it succeeds.
use styx.Base.{ℕ, ◌+◌, ◌*◌, ◌≤◌, ◌<◌, ◌≡◌, ◌⊎◌, arith, some, true, Option-cases, inl, inr, List}
use styx.Base.Maybe.{>>=-eq-some, some_inj}
use styx.Base.Memory.{Memory, load}
use styx.Geometry.{
  SizeClass, Layout, DerivedGeometry, max_arena_bytes, max_ring_capacity, max_region_size,
  derive_spans, validate_ring_capacity, validate_lifecycle_reserve, roundup_page_size,
}
use styx.Geometry.Spans.{spans_of, derive_spans_lem}
use styx.Page.{layout_page_size, size_class_entry_size, header_size}
use styx.Page.Checks.{check_one_class_table_range, check_class_table_ranges, check_arena_total}
use styx.Page.Total.{
  check_ring_reservation, check_spans_and_coverage, check_header_scalars, check_class_rules,
  check_reserved_zero, parsed_layout, parse_layout_phase2,
}

-- A table of `n` entries at `off` is not empty, and lies in the layout page after the header.
abbrev pub InPage : ℕ → ℕ → Type 0
InPage n off = (0 < n) × (header_size ≤ off) × (off + n * size_class_entry_size ≤ layout_page_size)

check_one_class_table_range_lem :
    (n off : ℕ) {u : Unit {0}} → check_one_class_table_range n off ≡ some u → InPage n off
unfolding check_one_class_table_range
check_one_class_table_range_lem n off e = ground arith

pub check_class_table_ranges_lem :
    (n p off_n off_p : ℕ) {u : Unit {0}}
    → check_class_table_ranges n p off_n off_p ≡ some u
    → InPage n off_n
      × InPage p off_p
      × ((off_n + n * size_class_entry_size ≤ off_p) ⊎ (off_p + p * size_class_entry_size ≤ off_n))
unfolding check_class_table_ranges
check_class_table_ranges_lem n p off_n off_p e =
    let (u, first, e') = >>=-eq-some (check_one_class_table_range n off_n) _ e in
    let (v, second, apart) = >>=-eq-some (check_one_class_table_range p off_p) _ e' in
    (
      check_one_class_table_range_lem n off_n first,
      check_one_class_table_range_lem p off_p second,
      ground arith,
    )

pub ring_capacity_bound : (c : ℕ) → validate_ring_capacity c ≡ true → c ≤ max_ring_capacity
unfolding validate_ring_capacity
ring_capacity_bound c e = ground arith

pub check_ring_reservation_lem :
    (m : Memory) (ring : ℕ × ℕ)
    → check_ring_reservation m ≡ some ring
    → (validate_ring_capacity ring.0 ≡ true)
      × (validate_lifecycle_reserve ring.1 ring.0 ≡ true)
      × (ring.0 ≤ max_ring_capacity)
unfolding check_ring_reservation
check_ring_reservation_lem m ring e = ground (arith, ring_capacity_bound ring.0)

pub check_arena_total_lem :
    (total stored b : ℕ)
    → check_arena_total total stored ≡ some b
    → (roundup_page_size total ≡ some b) × (b ≤ max_arena_bytes) × (stored ≡ b)
unfolding check_arena_total
check_arena_total_lem total stored b e = elim (Option-cases (roundup_page_size total)) [
  | inl failed ↦ absurd (ground arith)
  | inr (want, found) ↦ ground arith
]

pub derive_spans-fits :
    (c a b : ℕ) (s : DerivedGeometry)
    → c ≤ max_ring_capacity
    → a ≤ max_arena_bytes
    → b ≤ max_arena_bytes
    → derive_spans c a b ≡ some s
    → (s ≡ spans_of c a b) × ((spans_of c a b).region_size ≤ max_region_size)
derive_spans-fits c a b s hc ha hb e =
    let exact = derive_spans_lem c a b (omega arith) (omega arith) (omega arith) in ground arith

pub check_spans_and_coverage_lem :
    (m : Memory) (len : ℕ) (s : DerivedGeometry) (declared : ℕ) {u : Unit {0}}
    → check_spans_and_coverage m len s declared ≡ some u
    → (len ≡ s.region_size) × (s.region_size ≡ declared)
unfolding check_spans_and_coverage
check_spans_and_coverage_lem m len s declared e = ground arith

-- The steps of parseLayoutPhase2, all of which succeed, with their results and the layout returned.
pub record Accepted (m : Memory) (len declared : ℕ) (l : Layout) : Type 0 where
  pub ring : ℕ × ℕ
  pub hp : List SizeClass × ℕ
  pub ph : List SizeClass × ℕ
  pub bytes_hp : ℕ
  pub bytes_ph : ℕ
  pub spans : DerivedGeometry
  pub header_ok : check_header_scalars m ≡ some tt
  pub ring_ok : check_ring_reservation m ≡ some ring
  pub ranges_ok :
      check_class_table_ranges (load 44 4 m) (load 48 4 m) (load 112 8 m) (load 120 8 m) ≡ some tt
  pub hp_ok : check_class_rules m (load 112 8 m) (load 44 4 m) ≡ some hp
  pub ph_ok : check_class_rules m (load 120 8 m) (load 48 4 m) ≡ some ph
  pub bytes_hp_ok : check_arena_total hp.1 (load 96 8 m) ≡ some bytes_hp
  pub bytes_ph_ok : check_arena_total ph.1 (load 104 8 m) ≡ some bytes_ph
  pub spans_ok : derive_spans ring.0 bytes_hp bytes_ph ≡ some spans
  pub coverage_ok : check_spans_and_coverage m len spans declared ≡ some tt
  pub reserved_ok :
      check_reserved_zero m spans
        (load 112 8 m)
        (load 44 4 m)
        (load 120 8 m)
        (load 48 4 m)
        hp.1
        ph.1
      ≡ some tt
  pub returned : parsed_layout m ring hp ph bytes_hp bytes_ph spans ≡ l

pub parse_inversion :
    (m : Memory) (len declared : ℕ) (l : Layout)
    → parse_layout_phase2 m len declared ≡ some l
    → Accepted m len declared l
unfolding parse_layout_phase2
parse_inversion m len declared l e =
    let (u0, header_ok, e0) = >>=-eq-some (check_header_scalars m) _ e in
    let (ring, ring_ok, e1) = >>=-eq-some (check_ring_reservation m) _ e0 in
    let (u1, ranges_ok, e2) =
      >>=-eq-some
        (check_class_table_ranges (load 44 4 m) (load 48 4 m) (load 112 8 m) (load 120 8 m)) _ e1 in
    let (hp, hp_ok, e3) = >>=-eq-some (check_class_rules m (load 112 8 m) (load 44 4 m)) _ e2 in
    let (ph, ph_ok, e4) = >>=-eq-some (check_class_rules m (load 120 8 m) (load 48 4 m)) _ e3 in
    let (bytes_hp, bytes_hp_ok, e5) = >>=-eq-some (check_arena_total hp.1 (load 96 8 m)) _ e4 in
    let (bytes_ph, bytes_ph_ok, e6) = >>=-eq-some (check_arena_total ph.1 (load 104 8 m)) _ e5 in
    let (spans, spans_ok, e7) = >>=-eq-some (derive_spans ring.0 bytes_hp bytes_ph) _ e6 in
    let (u2, coverage_ok, e8) = >>=-eq-some (check_spans_and_coverage m len spans declared) _ e7 in
    let (u3, reserved_ok, e9) =
      >>=-eq-some
        (check_reserved_zero m spans (load 112 8 m) (load 44 4 m) (load 120 8 m) (load 48 4 m) hp.1
          ph.1)
        _ e8 in
    record {
      ring = ring;
      hp = hp;
      ph = ph;
      bytes_hp = bytes_hp;
      bytes_ph = bytes_ph;
      spans = spans;
      header_ok = header_ok;
      ring_ok = ring_ok;
      ranges_ok = ranges_ok;
      hp_ok = hp_ok;
      ph_ok = ph_ok;
      bytes_hp_ok = bytes_hp_ok;
      bytes_ph_ok = bytes_ph_ok;
      spans_ok = spans_ok;
      coverage_ok = coverage_ok;
      reserved_ok = reserved_ok;
      returned = some_inj e9;
    }

pub parse_intro :
    (m : Memory) (len declared : ℕ) (l : Layout)
    → Accepted m len declared l
    → parse_layout_phase2 m len declared ≡ some l
unfolding parse_layout_phase2
parse_intro m len declared l a = rw (
  a.header_ok, a.ring_ok, a.ranges_ok, a.hp_ok, a.ph_ok, a.bytes_hp_ok, a.bytes_ph_ok, a.spans_ok,
  a.coverage_ok, a.reserved_ok, a.returned,
)
