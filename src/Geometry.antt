-- ===== src/Geometry.antt =====
-- internal/shm/layout.go: the geometry of a region, computed from a configuration.
-- Every error wraps ErrBadGeometry, so an error is `none` (or `false` for a check).
pub mod Tables
pub mod Spans
pub mod Build
pub mod Tiles
mod Tests
use Prim.Native.Nat.{bit_and}
use styx.Base.{
  ℕ, ◌+◌, ◌-◌, ◌*◌, ◌%◌, ◌^◌, Bool, true, false, not, ◌&&◌, ◌||◌, Option, none, some, List, [], ◌∷◌,
  ltb, leb, ◌==◌, if◌then◌else◌, u32_mod, u64_mod, add64, sub64, get_or,
}
use styx.Base.Maybe.{◌>>=◌, ◌>>◌, guard}

abbrev pub page_size : ℕ
page_size = 4096

abbrev pub cache_line : ℕ
cache_line = 64

abbrev pub descriptor_size : ℕ
descriptor_size = 64

abbrev pub min_ring_capacity : ℕ
min_ring_capacity = 64

abbrev pub max_ring_capacity : ℕ
max_ring_capacity = 2 ^ 20

abbrev pub max_arena_bytes : ℕ
max_arena_bytes = 2 ^ 32 - 1

abbrev pub max_region_size : ℕ
max_region_size = 2 ^ 40

abbrev pub min_largest_slab_size : ℕ
min_largest_slab_size = 4096

-- One size class of an arena; all fields are uint32.
pub record SizeClass : Type 0 where
  pub slab_size : ℕ
  pub slab_count : ℕ
  pub class_base_offset : ℕ

abbrev pub no_class : SizeClass
no_class = record { slab_size = 0; slab_count = 0; class_base_offset = 0 }

-- The class at a position.
abbrev pub class_at : List SizeClass → ℕ → SizeClass
class_at cs k = get_or cs k no_class

pub record ArenaGeometry : Type 0 where
  pub offset : ℕ
  pub bytes : ℕ
  pub class_table_offset : ℕ
  pub classes : List SizeClass

-- `Rings` and `Arenas` are indexed by direction: host to plugin, plugin to host.
pub record Layout : Type 0 where
  pub magic : List ℕ
  pub layout_version : ℕ
  pub header_flags : ℕ
  pub generation : ℕ
  pub region_size : ℕ
  pub ring_capacity : ℕ
  pub lifecycle_reserve : ℕ
  pub sync_page_offset : ℕ
  pub ring_hp : ℕ
  pub ring_ph : ℕ
  pub arena_hp : ArenaGeometry
  pub arena_ph : ArenaGeometry

pub record DerivedGeometry : Type 0 where
  pub sync_page_offset : ℕ
  pub ring_hp_offset : ℕ
  pub ring_ph_offset : ℕ
  pub arena_hp_offset : ℕ
  pub arena_ph_offset : ℕ
  pub arena_bytes_hp : ℕ
  pub arena_bytes_ph : ℕ
  pub region_size : ℕ

unfoldable pub add_overflow_safe : ℕ → ℕ → Option ℕ
add_overflow_safe sum addend =
    let result = add64 sum addend in if ltb result sum then none else some result

unfoldable pub roundup_page_size : ℕ → Option ℕ
roundup_page_size n =
    let rem = n % page_size in if rem == 0 then some n else add_overflow_safe n (page_size - rem)

unfoldable pub validate_ring_capacity : ℕ → Bool
validate_ring_capacity c =
    if ltb c min_ring_capacity || ltb max_ring_capacity c then false else bit_and c (c - 1) == 0

unfoldable pub validate_lifecycle_reserve : ℕ → ℕ → Bool
validate_lifecycle_reserve r ring_capacity = not (r == 0 || leb ring_capacity r)

-- The loop of validateSlabBounds; `is_first` is `i == 0`.
unfoldable pub slab_bounds_from : Bool → ℕ → List SizeClass → Bool
slab_bounds_from is_first prev [] = true
slab_bounds_from is_first prev (c ∷ cs) =
    if c.slab_size == 0 || not (c.slab_size % cache_line == 0)
    then false
    else if not is_first && leb c.slab_size prev
    then false
    else if c.slab_count == 0
    then false
    else slab_bounds_from false c.slab_size cs

-- The last class, or the given one.
abbrev pub last_class : SizeClass → List SizeClass → SizeClass
last_class c [] = c
last_class c (d ∷ cs) = last_class d cs

unfoldable pub validate_slab_bounds : List SizeClass → Bool
unfolding slab_bounds_from
validate_slab_bounds [] = false
validate_slab_bounds (c ∷ cs) =
    slab_bounds_from true 0 (c ∷ cs) && not (ltb (last_class c cs).slab_size min_largest_slab_size)

-- The bases of the classes from `base` on, and the total.
unfoldable pub class_base_offsets : ℕ → List SizeClass → Option (List ℕ × ℕ)
class_base_offsets base [] = some ([], base)
class_base_offsets base (c ∷ cs) = do
  next ← add_overflow_safe base (c.slab_size * c.slab_count % u64_mod)
  rest ← class_base_offsets next cs
  some (base ∷ rest.0, rest.1)

unfoldable pub compute_class_base_offsets : List SizeClass → Option (List ℕ × ℕ)
unfolding class_base_offsets
compute_class_base_offsets classes = class_base_offsets 0 classes

-- The classes with `uint32(bases[i])` for their base offsets.
abbrev pub with_bases : List SizeClass → List ℕ → List SizeClass
with_bases [] bases = []
with_bases (c ∷ cs) [] = []
with_bases (c ∷ cs) (b ∷ bs) = record c { class_base_offset = b % u32_mod } ∷ with_bases cs bs

unfoldable pub build_arena_geometry : List SizeClass → Option (List SizeClass × ℕ)
build_arena_geometry classes = do
  guard (validate_slab_bounds classes)
  computed ← compute_class_base_offsets classes
  arena_bytes ← roundup_page_size computed.1
  guard (not (ltb max_arena_bytes arena_bytes))
  some (with_bases classes computed.0, arena_bytes)

unfoldable pub derive_spans : ℕ → ℕ → ℕ → Option DerivedGeometry
derive_spans ring_capacity arena_bytes_hp arena_bytes_ph = do
  let ring_span = ring_capacity * descriptor_size % u64_mod
  ring_hp ← add_overflow_safe page_size page_size
  ring_ph ← add_overflow_safe ring_hp ring_span
  arena_hp ← add_overflow_safe ring_ph ring_span
  arena_ph ← add_overflow_safe arena_hp arena_bytes_hp
  region ← add_overflow_safe arena_ph arena_bytes_ph
  guard (not (ltb max_region_size region))
  some (record {
    sync_page_offset = page_size;
    ring_hp_offset = ring_hp;
    ring_ph_offset = ring_ph;
    arena_hp_offset = arena_hp;
    arena_ph_offset = arena_ph;
    arena_bytes_hp = arena_bytes_hp;
    arena_bytes_ph = arena_bytes_ph;
    region_size = region;
  })
