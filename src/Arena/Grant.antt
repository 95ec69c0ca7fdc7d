-- ===== src/Arena/Grant.antt =====
-- Alloc against the map of live stamps.
use mathlib.Core.Path.{subst}
use styx.Base.{
  ℕ, ◌≤◌, ◌<◌, ◌≡◌, ◌≢◌, refl, ap, sym, ◌∙◌, arith, ◌&&◌, List, ◌∷◌, Option, none, some, ◌==◌,
  if◌then◌else◌, length,
}
use styx.Arena.{
  Arena, SlabHandle, exhausted, too_large, zero_length, AllocResult, allocated, refused,
  select_class, alloc,
}
use styx.Arena.Select.{class_at, Chosen, select_class-Chosen}
use styx.Arena.Pool.{IsPool, top_is_free, pop-IsPool, occurs, is_free}
use styx.Arena.Invariant.{
  first_at, pool_at, IsArena, stamp, ArePools-at, ArePools-set, length-pools, reserved_bytes-stamp,
  stamp-set, after_seq-ne_zero,
}
use styx.Arena.Alloc.{
  AllocCase, no_size, no_class_fits, none_free, took, alloc-AllocCase, with_slab,
}

-- A grant: the slab is of the smallest class that fits, in range, not the reserved one, and was not
-- live; its stamp is the handle's, which is not 0, and no other stamp changes.
pub record Granted (size : ℕ) (a : Arena) (h : SlabHandle) (a' : Arena) : Type 0 where
  pub chosen : Chosen a.classes size (some h.class)
  pub index_in : h.index < (class_at a.classes h.class).slab_count
  pub not_reserved : first_at 1 h.class ≤ h.index
  pub was_dead : stamp a h.class h.index ≡ 0
  pub marked : h.sequence ≢ 0
  pub stamps :
      (c i : ℕ) → stamp a' c i ≡ (if c == h.class && i == h.index then h.sequence else stamp a c i)
  pub labels : (h.handle_len ≡ size) × (h.generation ≡ a.generation) × (h.owner ≡ a.id)

-- What `alloc` may answer, and why.
abbrev pub AllocSpec : ℕ → Arena → AllocResult → Arena → Type 0
AllocSpec size a (refused zero_length) a' = (a' ≡ a) × (size ≡ 0)
AllocSpec size a (refused too_large) a' = (a' ≡ a) × (size ≢ 0) × Chosen a.classes size none
AllocSpec size a (refused exhausted) a' =
    (a' ≡ a)
    × (size ≢ 0)
    × ((ci : ℕ) × Chosen a.classes size (some ci)
        × ((i : ℕ)
            → is_free (first_at 1 ci) (class_at a.classes ci).slab_count
                (pool_at a.pools ci).live_seq i
              ≡ 0))
AllocSpec size a (allocated h s) a' = (size ≢ 0) × Granted size a h a'

Chosen-of :
    (size : ℕ) (a : Arena) (o : Option ℕ)
    → select_class a.classes size ≡ o
    → Chosen a.classes size o
Chosen-of size a o e = subst (Chosen a.classes size) e (select_class-Chosen a.classes size)

module _ {a : Arena} (ok : IsArena a) where
  module _ (ci x : ℕ) (rest : List ℕ) (lt : ci < length a.classes)
      (top : (pool_at a.pools ci).free ≡ x ∷ rest) where
    pool_at-IsPool : IsPool (first_at 1 ci) (class_at a.classes ci).slab_count (pool_at a.pools ci)
    pool_at-IsPool = ArePools-at 1 a.classes a.pools ci ok.pools_ok lt

    pool_lt : ci < length a.pools
    pool_lt = omega (arith, length-pools 1 a.classes a.pools ok.pools_ok)

    slab_lt : x < length (pool_at a.pools ci).live_seq
    slab_lt = omega (arith, pool_at-IsPool.stamps, (top_is_free pool_at-IsPool x rest top).1)

    was_free : (first_at 1 ci ≤ x) × (x < (class_at a.classes ci).slab_count) × (stamp a ci x ≡ 0)
    was_free = top_is_free pool_at-IsPool x rest top

    with_slab-IsArena : IsArena (with_slab a ci x rest)
    with_slab-IsArena = record {
      pools_ok =
          ArePools-set 1 a.classes a.pools ci _ ok.pools_ok lt
            (pop-IsPool pool_at-IsPool x a.next_seq rest top ok.seq_ok);
      seq_ok = after_seq-ne_zero a.next_seq;
      counted = ground (
        arith,
        ok.counted,
        was_free,
        ok.seq_ok,
        reserved_bytes-stamp a.classes a.pools ci x a.next_seq rest lt pool_lt slab_lt,
      );
    }

    stamps_after :
        (c i : ℕ)
        → stamp (with_slab a ci x rest) c i
          ≡ (if c == ci && i == x then a.next_seq else stamp a c i)
    stamps_after c i = stamp-set a.pools ci x a.next_seq rest c i pool_lt slab_lt

  -- Every case of `alloc` keeps the invariant and meets the specification.
  case-IsArena : {size : ℕ} {r : AllocResult} {a' : Arena} → AllocCase size a r a' → IsArena a'
  case-IsArena (no_size e) = ok
  case-IsArena (no_class_fits ne e) = ok
  case-IsArena (none_free ci ne e empty) = ok
  case-IsArena {size} (took ci x rest ne e top) =
      with_slab-IsArena ci x rest (Chosen-of size a (some ci) e).0 top

  pub case-AllocSpec :
      {size : ℕ} {r : AllocResult} {a' : Arena} → AllocCase size a r a' → AllocSpec size a r a'
  case-AllocSpec (no_size e) = (refl, e)
  case-AllocSpec {size} (no_class_fits ne e) = (refl, ne, Chosen-of size a none e)
  case-AllocSpec {size} (none_free ci ne e empty) =
      let chosen : Chosen a.classes size (some ci) = Chosen-of size a (some ci) e in
      let pool : IsPool (first_at 1 ci) (class_at a.classes ci).slab_count (pool_at a.pools ci) =
        ArePools-at 1 a.classes a.pools ci ok.pools_ok chosen.0 in
      (refl, ne, (ci, chosen, λ i. sym (pool.balanced i) ∙ ap (occurs i) empty))
  case-AllocSpec {size} (took ci x rest ne e top) =
      let chosen : Chosen a.classes size (some ci) = Chosen-of size a (some ci) e in
      let (above, below, dead) = was_free ci x rest chosen.0 top in
      (
        ne,
        record {
          chosen = chosen;
          index_in = below;
          not_reserved = above;
          was_dead = dead;
          marked = ok.seq_ok;
          stamps = stamps_after ci x rest chosen.0 top;
          labels = (refl, refl, refl);
        },
      )

-- `Alloc` keeps the invariant: each free slab is once on its class's stack, no live or reserved one
-- is, the next stamp is not 0, and the occupancy is the byte count of the live slabs modulo 2^64.
pub alloc-IsArena : (size : ℕ) (a : Arena) → IsArena a → IsArena (alloc size a).1
alloc-IsArena size a ok = case-IsArena ok (alloc-AllocCase size a)

-- On a valid arena `Alloc` refuses a zero length as such, refuses as too large exactly a size above
-- every class, and reports exhaustion only where the smallest class that fits has no free slab; a
-- refusal changes nothing. Otherwise it grants a slab: of the smallest class that fits, in range,
-- not the reserved one and not live before, whose new stamp is the only one that changes.
pub alloc_lem :
    (size : ℕ) (a : Arena) → IsArena a → AllocSpec size a (alloc size a).0 (alloc size a).1
alloc_lem size a ok = case-AllocSpec ok (alloc-AllocCase size a)
