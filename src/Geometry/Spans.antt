-- ===== src/Geometry/Spans.antt =====
-- The spans of a region follow one another, and the overflow checks are exact.
use styx.Base.{ℕ, ◌+◌, ◌*◌, ◌<◌, ◌≡◌, arith, none, some, ltb, leb, if◌then◌else◌, u32_mod, u64_mod}
use styx.Geometry.{DerivedGeometry, add_overflow_safe, derive_spans, max_region_size, page_size}

-- The uint64 sum, or an error exactly where it does not fit.
pub add_overflow_safe_lem :
    (s a : ℕ)
    → s < u64_mod
    → a < u64_mod
    → add_overflow_safe s a ≡ (if ltb (s + a) u64_mod then some (s + a) else none)
unfolding add_overflow_safe
add_overflow_safe_lem s a hs ha = ground arith

-- The spans of a region in order, ending at the region's size.
abbrev pub spans_of : ℕ → ℕ → ℕ → DerivedGeometry
spans_of c a b = record {
  sync_page_offset = page_size;
  ring_hp_offset = 2 * page_size;
  ring_ph_offset = 2 * page_size + 64 * c;
  arena_hp_offset = 2 * page_size + 64 * c + 64 * c;
  arena_ph_offset = 2 * page_size + 64 * c + 64 * c + a;
  arena_bytes_hp = a;
  arena_bytes_ph = b;
  region_size = 2 * page_size + 64 * c + 64 * c + a + b;
}

-- For a uint32 ring capacity and uint64 arena sizes, `deriveSpans` lays out the two pages, the two
-- rings of 64-byte slots and the two arenas one after another with no gap, or fails exactly where
-- the region would be larger than 2^40 bytes, an overflowing sum included.
pub derive_spans_lem :
    (c a b : ℕ)
    → c < u32_mod
    → a < u64_mod
    → b < u64_mod
    → derive_spans c a b ≡ (
        if leb (2 * page_size + 64 * c + 64 * c + a + b) max_region_size
        then some (spans_of c a b)
        else none)
unfolding derive_spans add_overflow_safe
derive_spans_lem c a b hc ha hb = ground arith
