-- ===== src/Page/Follow.antt =====
-- The checks of a mapped region against the reads' values: they do not panic where the layout and sync
-- pages are mapped.
use styx.Base.{
  ℕ, zero, suc, ◌+◌, ◌*◌, ◌≤◌, ◌≡◌, refl, arith, Bool, true, false, some, ◌==◌, if◌then◌else◌,
}
use styx.Base.Maybe.{guard, ◌>>◌}
use styx.Base.Memory.{Memory, load}
use styx.Base.Outcome.{
  Follows, result-Follows, >>=-Follows, check-Follows, slice-Follows, guard-Follows,
  returned-Follows, known-Follows, >>-Follows,
}
use styx.Geometry.{DerivedGeometry, page_size, roundup_page_size, add_overflow_safe}
use styx.Page.Accepts.{InPage}
use styx.Geometry.Spans.{spans_of}
use styx.Page.Parse
use styx.Page.Total

-- Phase 1 has found the two pages mapped.
abbrev pub IsMapped : ℕ → Type 0
IsMapped len = 2 * page_size ≤ len

pub total_round : (n m : ℕ) → roundup_page_size n ≡ some m → n ≤ m
unfolding roundup_page_size add_overflow_safe
total_round n m e = ground arith

guard_if : (b r : Bool) → guard (if b then r else false) ≡ (guard b >> guard r)
guard_if true r = refl
guard_if false r = refl

module _ (m : Memory) (len : ℕ) where
  -- A read in the first two pages.
  pub page_read :
      (off w : ℕ) → off + w ≤ 2 * page_size → IsMapped len → (off ≤ off + w) × (off + w ≤ len)
  page_read off w le h = (omega arith, omega (arith, le, h))

  pub header-Follows :
      Follows (IsMapped len) (Parse.check_header_scalars m len) (Total.check_header_scalars m)
  unfolding Parse.check_header_scalars Total.check_header_scalars
  header-Follows = slice-Follows _ (page_read 0 8 (omega arith)) (
      check-Follows _ (λ magic. slice-Follows _ (page_read 8 4 (omega arith)) (
        check-Follows _ (λ version. slice-Follows _ (page_read 32 4 (omega arith)) (
          check-Follows _ (λ page. slice-Follows _ (page_read 36 4 (omega arith)) (
            check-Follows _ (λ descriptor. slice-Follows _ (page_read 128 8 (omega arith)) (
              check-Follows _ (λ shards.
                slice-Follows _ (page_read 52 4 (omega arith)) (guard-Follows _)))))))))))

  pub ring-Follows :
      Follows (IsMapped len) (Parse.check_ring_reservation m len) (Total.check_ring_reservation m)
  unfolding Parse.check_ring_reservation Total.check_ring_reservation
  ring-Follows = slice-Follows _ (page_read 40 4 (omega arith)) (
      check-Follows _ (λ capacity.
        slice-Follows _ (page_read 136 4 (omega arith))
          (check-Follows _ (λ reserve. returned-Follows _))))

  classes-Follows :
      (off n : ℕ)
      → off + n * 16 ≤ 2 * page_size
      → Follows (IsMapped len) (Parse.read_classes m len off n) (some (Total.read_classes m off n))
  unfolding Parse.read_classes Total.read_classes
  classes-Follows off zero le = returned-Follows _
  classes-Follows off (suc n) le = slice-Follows _ (page_read (off + 0) 4 (omega (arith, le))) (
      slice-Follows _ (page_read (off + 4) 4 (omega (arith, le))) (
        slice-Follows _ (page_read (off + 8) 4 (omega (arith, le))) (
          known-Follows _ (classes-Follows (off + 16) n (omega (arith, le))) (returned-Follows _))))

  pub rules-Follows :
      (off n : ℕ)
      → InPage n off
      → Follows
          (IsMapped len)
          (Parse.check_class_rules m len off n)
          (Total.check_class_rules m off n)
  unfolding Parse.check_class_rules Total.check_class_rules
  rules-Follows off n inside =
      known-Follows _ (classes-Follows off n (omega (arith, inside.2)))
        (check-Follows _ (λ valid. >>=-Follows (result-Follows _) (λ total e. returned-Follows _)))

  field-Follows :
      (off want : ℕ)
      → off + 8 ≤ 2 * page_size
      → Follows
          (IsMapped len)
          (Parse.same_field m len off want)
          (guard (Total.read_u64 m off == want))
  field-Follows off want le = slice-Follows _ (page_read off 8 le) (guard-Follows _)

  pub spans-Follows :
      (s : DerivedGeometry) (declared : ℕ)
      → Follows
          (IsMapped len)
          (Parse.check_spans_and_coverage m len s declared)
          (Total.check_spans_and_coverage m len s declared)
  unfolding Parse.check_spans_and_coverage Total.check_spans_and_coverage
  spans-Follows s declared = >>-Follows (field-Follows 56 _ (omega arith)) (λ e0.
      >>-Follows (field-Follows 64 _ (omega arith)) (λ e1.
        >>-Follows (field-Follows 72 _ (omega arith)) (λ e2.
          >>-Follows (field-Follows 80 _ (omega arith)) (λ e3.
            >>-Follows (field-Follows 88 _ (omega arith)) (λ e4.
              >>-Follows (field-Follows 24 _ (omega arith))
                (λ e5. check-Follows _ (λ e6. guard-Follows _)))))))

  entries-Follows :
      (off n : ℕ)
      → off + n * 16 ≤ 2 * page_size
      → Follows
          (IsMapped len)
          (Parse.check_class_entries_reserved_zero m len off n)
          (guard (Total.check_class_entries_reserved_zero m off n))
  unfolding Parse.check_class_entries_reserved_zero Total.check_class_entries_reserved_zero
  entries-Follows off zero le = returned-Follows _
  entries-Follows off (suc n) le =
      rw
        (guard_if (load (off + 12) 4 m == 0)
          (Total.check_class_entries_reserved_zero m (off + 16) n))
        (slice-Follows _ (page_read (off + 12) 4 (omega (arith, le)))
          (check-Follows _ (λ e. entries-Follows (off + 16) n (omega (arith, le)))))

  tail-Follows :
      (s : DerivedGeometry)
      → (IsMapped len → s.sync_page_offset + 4096 ≤ len)
      → Follows
          (IsMapped len)
          (Parse.check_sync_page_reserved_tail_zero m len s)
          (guard (Total.check_sync_page_reserved_tail_zero m s))
  unfolding Parse.check_sync_page_reserved_tail_zero Total.check_sync_page_reserved_tail_zero
  tail-Follows s bound =
      slice-Follows _ (λ h. (omega arith, omega (arith, bound h))) (guard-Follows _)

  pad-Follows :
      (off total bytes : ℕ)
      → total ≤ bytes
      → off + bytes ≤ len
      → Follows
          (IsMapped len)
          (Parse.check_arena_pad_zero m len off total bytes)
          (guard (Total.check_arena_pad_zero m off total bytes))
  unfolding Parse.check_arena_pad_zero Total.check_arena_pad_zero
  pad-Follows off total bytes le fits =
      slice-Follows _ (λ h. (omega (arith, le), omega (arith, fits))) (guard-Follows _)

  pub reserved-Follows :
      (c a b table_hp num_hp table_ph num_ph total_hp total_ph : ℕ)
      → len ≡ (spans_of c a b).region_size
      → InPage num_hp table_hp
      → InPage num_ph table_ph
      → total_hp ≤ a
      → total_ph ≤ b
      → Follows
          (IsMapped len)
          (Parse.check_reserved_zero m len
            (spans_of c a b)
            table_hp
            num_hp
            table_ph
            num_ph
            total_hp
            total_ph)
          (Total.check_reserved_zero m
            (spans_of c a b)
            table_hp
            num_hp
            table_ph
            num_ph
            total_hp
            total_ph)
  unfolding Parse.check_reserved_zero Total.check_reserved_zero
  reserved-Follows c a b table_hp num_hp table_ph num_ph total_hp total_ph covers hp ph le_hp
        le_ph =
      slice-Follows _ (page_read 12 4 (omega arith)) (
        check-Follows _ (λ e0. slice-Follows _ (page_read 140 116 (omega arith)) (
          check-Follows _ (λ e1.
            >>-Follows (tail-Follows (spans_of c a b) (λ h. omega (arith, h))) (λ e2.
              >>-Follows (entries-Follows table_hp num_hp (omega (arith, hp.2))) (λ e3.
                >>-Follows (entries-Follows table_ph num_ph (omega (arith, ph.2))) (λ e4.
                  >>-Follows
                    (pad-Follows (spans_of c a b).arena_hp_offset total_hp a le_hp
                      (omega (arith, covers)))
                    (λ e5.
                      pad-Follows (spans_of c a b).arena_ph_offset total_ph b le_ph
                        (omega (arith, covers))))))))))
