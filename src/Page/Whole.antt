-- ===== src/Page/Whole.antt =====
-- parseLayoutPhase2 as a whole against its reads' values.
use styx.Base.{ℕ, ◌≤◌, ◌≡◌, arith, ap, ◌∙◌, some}
use styx.Base.Memory.{Memory, load}
use styx.Base.Outcome.{
  returned, result, Follows, result-Follows, >>=-Follows, slice-Follows, returned-Follows,
  >>-Follows, Follows-returned, Follows-safe,
}
use styx.Geometry.{Layout, DerivedGeometry}
use styx.Page.Checks.{check_arena_total}
use styx.Page.Accepts.{
  InPage, check_arena_total_lem, check_class_table_ranges_lem, derive_spans-fits,
  check_ring_reservation_lem, check_spans_and_coverage_lem, parse_inversion,
}
use styx.Geometry.Spans.{spans_of}
use styx.Page.Parse
use styx.Page.Total
use styx.Page.Follow.{
  IsMapped, total_round, header-Follows, ring-Follows, rules-Follows, spans-Follows, page_read,
  reserved-Follows,
}

module _ (m : Memory) (len : ℕ) where
  arena_total_le : (total stored b : ℕ) → check_arena_total total stored ≡ some b → total ≤ b
  arena_total_le total stored b e = total_round total b (check_arena_total_lem total stored b e).0

  reserved_of :
      (s : DerivedGeometry) (c a b : ℕ) {table_hp num_hp table_ph num_ph total_hp total_ph : ℕ}
      → s ≡ spans_of c a b
      → len ≡ s.region_size
      → InPage num_hp table_hp
      → InPage num_ph table_ph
      → total_hp ≤ a
      → total_ph ≤ b
      → Follows
          (IsMapped len)
          (Parse.check_reserved_zero m len s table_hp num_hp table_ph num_ph total_hp total_ph)
          (Total.check_reserved_zero m s table_hp num_hp table_ph num_ph total_hp total_ph)
  reserved_of s c a b exact covers hp ph le_hp le_ph = rw exact (
      reserved-Follows m len c a b _ _ _ _ _ _
        (covers ∙ ap (λ (s : DerivedGeometry). s.region_size) exact) hp ph le_hp le_ph)

  pub parse-Follows :
      (declared : ℕ)
      → Follows
          (IsMapped len)
          (Parse.parse_layout_phase2 m len declared)
          (Total.parse_layout_phase2 m len declared)
  unfolding Parse.parse_layout_phase2 Total.parse_layout_phase2
  parse-Follows declared = >>-Follows (header-Follows m len) (λ header.
      >>=-Follows (ring-Follows m len) (λ ring ring_ok.
        slice-Follows _ (page_read m len 44 4 (omega arith)) (
          slice-Follows _ (page_read m len 48 4 (omega arith)) (
            slice-Follows _ (page_read m len 112 8 (omega arith)) (
              slice-Follows _ (page_read m len 120 8 (omega arith)) (
                >>-Follows (result-Follows _) (λ ranges.
                  let (in_hp, in_ph, apart) =
                    check_class_table_ranges_lem (load 44 4 m) (load 48 4 m) (load 112 8 m)
                      (load 120 8 m) ranges in
                  >>=-Follows (rules-Follows m len _ _ in_hp) (λ hp hp_ok.
                    >>=-Follows (rules-Follows m len _ _ in_ph) (λ ph ph_ok.
                      slice-Follows _ (page_read m len 96 8 (omega arith)) (
                        >>=-Follows (result-Follows _) (λ bytes_hp bytes_hp_ok.
                          slice-Follows _ (page_read m len 104 8 (omega arith)) (
                            >>=-Follows (result-Follows _) (λ bytes_ph bytes_ph_ok.
                              >>=-Follows (result-Follows _) (λ spans spans_ok.
                                >>-Follows (spans-Follows m len spans declared) (λ covered.
                                  let (exact, most) =
                                    derive_spans-fits ring.0 bytes_hp bytes_ph spans
                                      (check_ring_reservation_lem m ring ring_ok).2
                                      (check_arena_total_lem hp.1 (load 96 8 m) bytes_hp
                                        bytes_hp_ok).1
                                      (check_arena_total_lem ph.1 (load 104 8 m) bytes_ph
                                        bytes_ph_ok).1
                                      spans_ok in
                                  let covers =
                                    (check_spans_and_coverage_lem m len spans declared covered).0 in
                                  >>-Follows
                                    (reserved_of spans ring.0 bytes_hp bytes_ph exact covers in_hp
                                      in_ph (arena_total_le _ _ _ bytes_hp_ok)
                                      (arena_total_le _ _ _ bytes_ph_ok))
                                    (λ zeroed. slice-Follows _ (page_read m len 0 8 (omega arith)) (
                                      slice-Follows _ (page_read m len 8 4 (omega arith)) (
                                        slice-Follows _ (page_read m len 12 4 (omega arith)) (
                                          slice-Follows _ (page_read m len 16 8 (omega arith))
                                            (returned-Follows _))))))))))))))))))))

pub returned-Total :
    (m : Memory) (len declared : ℕ) {l : Layout}
    → Parse.parse_layout_phase2 m len declared ≡ returned l
    → Total.parse_layout_phase2 m len declared ≡ some l
returned-Total m len declared e =
    Follows-returned (Total.parse_layout_phase2 m len declared) (parse-Follows m len declared) e

-- An accepted mapping has the two pages.
Total-IsMapped :
    (m : Memory) (len declared : ℕ) (l : Layout)
    → Total.parse_layout_phase2 m len declared ≡ some l
    → IsMapped len
Total-IsMapped m len declared l e =
    let a = parse_inversion m len declared l e in
    let (exact, most) =
      derive_spans-fits a.ring.0 a.bytes_hp a.bytes_ph a.spans
        (check_ring_reservation_lem m a.ring a.ring_ok).2
        (check_arena_total_lem a.hp.1 (load 96 8 m) a.bytes_hp a.bytes_hp_ok).1
        (check_arena_total_lem a.ph.1 (load 104 8 m) a.bytes_ph a.bytes_ph_ok).1 a.spans_ok in
    let covers = (check_spans_and_coverage_lem m len a.spans declared a.coverage_ok).0 in
    let sizes : len ≡ (spans_of a.ring.0 a.bytes_hp a.bytes_ph).region_size =
      covers ∙ ap (λ (s : DerivedGeometry). s.region_size) exact in
    omega (arith, sizes)

pub Total-returned :
    (m : Memory) (len declared : ℕ) {l : Layout}
    → Total.parse_layout_phase2 m len declared ≡ some l
    → Parse.parse_layout_phase2 m len declared ≡ returned l
unfolding result
Total-returned m len declared {l} e =
    Follows-safe (parse-Follows m len declared) (Total-IsMapped m len declared l e) ∙ ap result e
