-- ===== src/Page/Checks.antt =====
-- internal/shm/layout.go: the checks of values that have been read from a mapped region. An error wraps
-- ErrBadGeometry, and is `none`.
use styx.Base.{
  ℕ, ◌+◌, ◌*◌, ◌%◌, Bool, true, false, not, ◌&&◌, ◌||◌, Option, some, List, [], ◌∷◌, ltb, leb, ◌==◌,
  if◌then◌else◌,
}
use styx.Base.Maybe.{◌>>=◌, ◌>>◌, guard}
use styx.Geometry.{SizeClass, max_arena_bytes, roundup_page_size, compute_class_base_offsets}
use styx.Page.{layout_page_size, header_size, size_class_entry_size}

-- Two byte arrays are equal.
abbrev pub same_bytes : List ℕ → List ℕ → Bool
same_bytes [] [] = true
same_bytes [] (y ∷ ys) = false
same_bytes (x ∷ xs) [] = false
same_bytes (x ∷ xs) (y ∷ ys) = x == y && same_bytes xs ys

abbrev pub overlaps : ℕ → ℕ → ℕ → ℕ → Bool
overlaps a_start a_end b_start b_end = ltb a_start b_end && ltb b_start a_end

-- `n` is a uint32 and an accepted offset is below a page, so the sums do not overflow uint64.
unfoldable pub check_one_class_table_range : ℕ → ℕ → Option (Unit {0})
check_one_class_table_range n table_off = do
  guard (not (ltb n 1))
  guard (not (ltb table_off header_size || leb layout_page_size table_off))
  guard (table_off % 4 == 0)
  guard (not (ltb layout_page_size (table_off + n * size_class_entry_size)))

unfoldable pub check_class_table_ranges : ℕ → ℕ → ℕ → ℕ → Option (Unit {0})
check_class_table_ranges num_hp num_ph off_hp off_ph = do
  check_one_class_table_range num_hp off_hp
  check_one_class_table_range num_ph off_ph
  let end_hp = off_hp + num_hp * size_class_entry_size
  let end_ph = off_ph + num_ph * size_class_entry_size
  guard (not (overlaps off_hp end_hp off_ph end_ph))

-- Each class has the expected base; there are as many bases as classes.
unfoldable pub bases_match : List SizeClass → List ℕ → Bool
bases_match [] bases = true
bases_match (c ∷ cs) [] = false
bases_match (c ∷ cs) (b ∷ bs) = if c.class_base_offset == b then bases_match cs bs else false

unfoldable pub check_class_base_offsets : List SizeClass → Option ℕ
unfolding bases_match
check_class_base_offsets classes = do
  computed ← compute_class_base_offsets classes
  guard (bases_match classes computed.0)
  some computed.1

unfoldable pub check_arena_total : ℕ → ℕ → Option ℕ
check_arena_total class_total stored_arena_bytes = do
  want ← roundup_page_size class_total
  guard (not (ltb max_arena_bytes want))
  guard (stored_arena_bytes == want)
  some want
