-- ===== src/Page/Bounded.antt =====
-- parseLayoutPhase2 and the bytes past the mapping: it does not slice past it, and its result does not
-- depend on them.
use styx.Base.{
  ℕ, zero, suc, ◌+◌, ◌-◌, ◌*◌, ◌≤◌, ◌≡◌, ◌≢◌, refl, arith, ap, ◌∙◌, sym, Option-cases, inl, inr,
  some,
}
use styx.Base.Memory.{Memory, Agree, load, copy_out, load_congr, copy_out_congr, is_zero_congr}
use styx.Base.Outcome.{panics, result, Follows-safe, result-no_panic}
use styx.Page.Parse
use styx.Page.Whole.{parse-Follows}
use styx.Geometry.{Layout, DerivedGeometry, page_size}
use styx.Geometry.Spans.{spans_of}
use styx.Page.Accepts.{
  InPage, check_class_table_ranges_lem, check_ring_reservation_lem, check_arena_total_lem,
  derive_spans-fits, check_spans_and_coverage_lem, Accepted, parse_inversion, parse_intro,
}
use styx.Page.Total.{
  check_header_scalars, check_ring_reservation, read_classes, check_class_rules,
  check_spans_and_coverage, check_sync_page_reserved_tail_zero, check_class_entries_reserved_zero,
  check_arena_pad_zero, check_reserved_zero, parse_layout_phase2,
}

pub read_classes_congr :
    (m m' : Memory) (off n : ℕ)
    → Agree off (n * 16) m m'
    → read_classes m off n ≡ read_classes m' off n
unfolding read_classes
read_classes_congr m m' off zero h = refl
read_classes_congr m m' off (suc n) h = rw (
  load_congr (off + 0) 4 m m' (λ k p q. h k (omega arith) (omega arith)),
  load_congr (off + 4) 4 m m' (λ k p q. h k (omega arith) (omega arith)),
  load_congr (off + 8) 4 m m' (λ k p q. h k (omega arith) (omega arith)),
  read_classes_congr m m' (off + 16) n (λ k p q. h k (omega arith) (omega arith)),
)

check_class_rules_congr :
    (m m' : Memory) (off n : ℕ)
    → Agree off (n * 16) m m'
    → check_class_rules m off n ≡ check_class_rules m' off n
unfolding check_class_rules
check_class_rules_congr m m' off n h = rw (read_classes_congr m m' off n h)

pub reserved_congr :
    (m m' : Memory) (off n : ℕ)
    → Agree off (n * 16) m m'
    → check_class_entries_reserved_zero m off n ≡ check_class_entries_reserved_zero m' off n
unfolding check_class_entries_reserved_zero
reserved_congr m m' off zero h = refl
reserved_congr m m' off (suc n) h = rw (
  load_congr (off + 12) 4 m m' (λ k p q. h k (omega arith) (omega arith)),
  reserved_congr m m' (off + 16) n (λ k p q. h k (omega arith) (omega arith)),
)

module _ (m m' : Memory) (len : ℕ) (big : 2 * page_size ≤ len) (h : Agree 0 len m m') where
  fixed : (o w : ℕ) → o + w ≤ 2 * page_size → load o w m ≡ load o w m'
  fixed o w le = load_congr o w m m' (λ k p q. h k (omega arith) (omega arith))

  magic_same : copy_out 0 8 m ≡ copy_out 0 8 m'
  magic_same = copy_out_congr 0 8 m m' (λ k p q. h k (omega arith) (omega arith))

  header_same : check_header_scalars m ≡ check_header_scalars m'
  unfolding check_header_scalars
  header_same = rw (
    magic_same,
    fixed 8 4 (omega arith),
    fixed 32 4 (omega arith),
    fixed 36 4 (omega arith),
    fixed 128 8 (omega arith),
    fixed 52 4 (omega arith),
  )

  ring_same : check_ring_reservation m ≡ check_ring_reservation m'
  unfolding check_ring_reservation
  ring_same = rw (fixed 40 4 (omega arith), fixed 136 4 (omega arith))

  spans_same :
      (s : DerivedGeometry) (declared : ℕ)
      → check_spans_and_coverage m len s declared ≡ check_spans_and_coverage m' len s declared
  unfolding check_spans_and_coverage
  spans_same s declared = rw (
    fixed 56 8 (omega arith),
    fixed 64 8 (omega arith),
    fixed 72 8 (omega arith),
    fixed 80 8 (omega arith),
    fixed 88 8 (omega arith),
    fixed 24 8 (omega arith),
  )

  reserved_same :
      (s : DerivedGeometry) (c a b table_hp num_hp table_ph num_ph total_hp total_ph : ℕ)
      → s ≡ spans_of c a b
      → len ≡ s.region_size
      → InPage num_hp table_hp
      → InPage num_ph table_ph
      → check_reserved_zero m s table_hp num_hp table_ph num_ph total_hp total_ph
        ≡ check_reserved_zero m' s table_hp num_hp table_ph num_ph total_hp total_ph
  unfolding check_reserved_zero check_sync_page_reserved_tail_zero check_arena_pad_zero
  reserved_same s c a b table_hp num_hp table_ph num_ph total_hp total_ph e covers hp ph =
      let sizes : len ≡ (spans_of c a b).region_size =
        covers ∙ ap (λ (s : DerivedGeometry). s.region_size) e in
      rw e (
        rw (
          fixed 12 4 (omega arith),
          is_zero_congr 140 116 m m' (λ k p q. h k (omega arith) (omega arith)),
          is_zero_congr (4096 + 512) (4096 + 4096 - (4096 + 512)) m m'
              (λ k p q. h k (omega arith) (omega arith)),
          reserved_congr m m' table_hp num_hp (λ k p q. h k (omega arith) (omega arith)),
          reserved_congr m m' table_ph num_ph (λ k p q. h k (omega arith) (omega arith)),
          is_zero_congr ((spans_of c a b).arena_hp_offset + total_hp)
              ((spans_of c a b).arena_hp_offset + a - ((spans_of c a b).arena_hp_offset + total_hp))
              m m' (λ k p q. h k (omega arith) (omega arith)),
          is_zero_congr ((spans_of c a b).arena_ph_offset + total_ph)
              ((spans_of c a b).arena_ph_offset + b - ((spans_of c a b).arena_ph_offset + total_ph))
              m m' (λ k p q. h k (omega arith) (omega arith)),
        ))

  Accepted-agree :
      (declared : ℕ) (l : Layout) → Accepted m len declared l → Accepted m' len declared l
  Accepted-agree declared l a =
      let hp : ℕ = load 44 4 m in
      let ph : ℕ = load 48 4 m in
      let table_hp : ℕ = load 112 8 m in
      let table_ph : ℕ = load 120 8 m in
      let (in_hp, in_ph, apart) =
        check_class_table_ranges_lem hp ph table_hp table_ph a.ranges_ok in
      let (exact, most) =
        derive_spans-fits a.ring.0 a.bytes_hp a.bytes_ph a.spans
          (check_ring_reservation_lem m a.ring a.ring_ok).2
          (check_arena_total_lem a.hp.1 (load 96 8 m) a.bytes_hp a.bytes_hp_ok).1
          (check_arena_total_lem a.ph.1 (load 104 8 m) a.bytes_ph a.bytes_ph_ok).1 a.spans_ok in
      let (covers, same) = check_spans_and_coverage_lem m len a.spans declared a.coverage_ok in
      let e44 = fixed 44 4 (omega arith) in
      let e48 = fixed 48 4 (omega arith) in
      let e112 = fixed 112 8 (omega arith) in
      let e120 = fixed 120 8 (omega arith) in
      record {
        ring = a.ring;
        hp = a.hp;
        ph = a.ph;
        bytes_hp = a.bytes_hp;
        bytes_ph = a.bytes_ph;
        spans = a.spans;
        header_ok = rw (← header_same) a.header_ok;
        ring_ok = rw (← ring_same) a.ring_ok;
        ranges_ok = rw (← e44, ← e48, ← e112, ← e120) a.ranges_ok;
        hp_ok =
            rw
              (
                ← e44,
                ← e112,
                ← check_class_rules_congr m m' table_hp hp
                    (λ k p q. h k (omega arith) (omega arith)),
              )
              a.hp_ok;
        ph_ok =
            rw
              (
                ← e48,
                ← e120,
                ← check_class_rules_congr m m' table_ph ph
                    (λ k p q. h k (omega arith) (omega arith)),
              )
              a.ph_ok;
        bytes_hp_ok = rw (← fixed 96 8 (omega arith)) a.bytes_hp_ok;
        bytes_ph_ok = rw (← fixed 104 8 (omega arith)) a.bytes_ph_ok;
        spans_ok = a.spans_ok;
        coverage_ok = rw (← spans_same a.spans declared) a.coverage_ok;
        reserved_ok =
            rw
              (
                ← e44,
                ← e48,
                ← e112,
                ← e120,
                ← reserved_same a.spans a.ring.0 a.bytes_hp a.bytes_ph table_hp hp table_ph ph
                    a.hp.1 a.ph.1 exact covers in_hp in_ph,
              )
              a.reserved_ok;
        returned =
            rw
              (
                ← magic_same,
                ← fixed 8 4 (omega arith),
                ← fixed 12 4 (omega arith),
                ← fixed 16 8 (omega arith),
                ← e112,
                ← e120,
              )
              a.returned;
      }

  pub parse_agrees :
      (declared : ℕ) (l : Layout)
      → parse_layout_phase2 m len declared ≡ some l
      → parse_layout_phase2 m' len declared ≡ some l
  parse_agrees declared l e =
      parse_intro m' len declared l (Accepted-agree declared l (parse_inversion m len declared l e))

total_bounded :
    (m m' : Memory) (len declared : ℕ)
    → 2 * page_size ≤ len
    → Agree 0 len m m'
    → parse_layout_phase2 m len declared ≡ parse_layout_phase2 m' len declared
total_bounded m m' len declared big h = elim (Option-cases (parse_layout_phase2 m len declared)) [
  | inr (l, e) ↦ e ∙ sym (parse_agrees m m' len big h declared l e)
  | inl failed ↦ elim (Option-cases (parse_layout_phase2 m' len declared)) [
    | inl also ↦ failed ∙ sym also
    | inr (l, e) ↦ parse_agrees m' m len big (λ k p q. sym (h k p q)) declared l e ∙ sym e
  ]
]

-- For a mapping of at least the layout and sync pages, whatever it contains, `parseLayoutPhase2` does
-- not panic: no slice that it takes, in the order in which it takes them, runs past the mapped bytes,
-- although the offsets of the class tables and arenas are the page's own. And on two memories that
-- agree below the mapped length it gives the same result, an error or the same layout.
pub parse_bounded :
    (m m' : Memory) (len declared : ℕ)
    → 2 * page_size ≤ len
    → Agree 0 len m m'
    → (Parse.parse_layout_phase2 m len declared ≢ panics)
      × (Parse.parse_layout_phase2 m len declared ≡ Parse.parse_layout_phase2 m' len declared)
parse_bounded m m' len declared big h =
    let one = Follows-safe (parse-Follows m len declared) big in
    let other = Follows-safe (parse-Follows m' len declared) big in
    (
      λ e. result-no_panic (parse_layout_phase2 m len declared) (sym one ∙ e),
      one ∙ ap result (total_bounded m m' len declared big h) ∙ sym other,
    )
