-- ===== src/Arena/Bounds.antt =====
-- Where granted slabs lie: inside the span, off the reserved offset 0, apart from other live slabs.
use styx.Base.{
  ℕ, zero, suc, ◌+◌, ◌*◌, ◌≤◌, ◌<◌, ◌≡◌, ◌≢◌, ◌⊎◌, inl, inr, refl, sym, ◌∙◌, arith, true, some,
  List, [], ◌∷◌, ◌==◌, ◌&&◌, if◌then◌else◌, length, length-set, set, u32_mod,
}
use native.Mathlib.Decide.{ℕ_discrete}
use styx.Geometry.{SizeClass, class_at}
use styx.Geometry.Tables.{IsTiled, IsTable}
use styx.Geometry.Tiles.{
  slab_start, slab_bytes, class_order, class_start, slab_inside, slabs_disjoint,
}
use styx.Arena.{Arena, SlabHandle, Slice, AllocResult, allocated, alloc, validate}
use styx.Arena.Select.{Chosen}
use styx.Arena.Invariant.{pool_at, IsArena, stamp, first_at, length-pools}
use styx.Arena.Alloc.{
  AllocCase, took, no_size, no_class_fits, none_free, alloc-AllocCase, handle_of, slice_of,
  slab_offset, with_slab,
}
use styx.Arena.Grant.{Granted, case-AllocSpec}
use styx.Arena.Free.{Names, validate_iff}

-- The span of an arena over a built table: the tiles end inside it, and it is below 2^32.
pub record IsSpan (a : Arena) : Type 0 where
  pub table : IsTable a.classes
  pub end : ℕ
  pub tiled : IsTiled 0 a.classes end
  pub inside : end ≤ a.mem_len
  pub addressable : a.mem_len < u32_mod

-- A granted slab's place.
pub record IsPlaced (size : ℕ) (a : Arena) (h : SlabHandle) (s : Slice) : Type 0 where
  pub at_slab : h.offset ≡ slab_start a.classes h.class h.index
  pub low_end : s.low ≡ h.offset
  pub high_end : s.high ≡ h.offset + slab_bytes a.classes h.class
  pub in_span : s.high ≤ a.mem_len
  pub roomy : s.low + size ≤ s.high
  pub not_zero : h.offset ≢ 0

product_le : (i size count : ℕ) → i < count → i * size ≤ size * count
product_le i size count lt = grind arith

product_pos : (i size : ℕ) → 0 < i → 0 < size → 0 < i * size
product_pos i size p q = grind arith

first_class_pos :
    (cs : List SizeClass) (ci end : ℕ)
    → IsTable cs
    → IsTiled 0 cs end
    → 0 < ci
    → ci < length cs
    → 0 < class_start cs ci
first_class_pos [] ci end h t p lt = absurd h
first_class_pos (c ∷ cs) ci end h t p lt = omega (
  arith,
  class_order 0 (c ∷ cs) end 0 ci t p lt,
  product_pos c.slab_size c.slab_count h.0.0 h.0.2,
)

module _ {size : ℕ} {a : Arena} (span : IsSpan a) where
  start_pos :
      (ci x : ℕ)
      → size ≢ 0
      → Chosen a.classes size (some ci)
      → first_at 1 ci ≤ x
      → 0 < slab_start a.classes ci x
  start_pos zero x ne chosen above =
      omega
        (arith, product_pos x (class_at a.classes 0).slab_size above (omega (arith, ne, chosen.1)))
  start_pos (suc ci) x ne chosen above = omega (
    arith,
    first_class_pos a.classes (suc ci) span.end span.table span.tiled (omega arith) chosen.0,
  )

  place_of :
      (ci x : ℕ)
      → size ≢ 0
      → Chosen a.classes size (some ci)
      → x < (class_at a.classes ci).slab_count
      → first_at 1 ci ≤ x
      → IsPlaced size a (handle_of a ci x size) (slice_of a ci x)
  place_of ci x ne chosen below above =
      let c : SizeClass = class_at a.classes ci in
      let fits : slab_start a.classes ci x + slab_bytes a.classes ci ≤ span.end =
        slab_inside a.classes span.end span.tiled ci x chosen.0 below in
      let exact : slab_offset c x ≡ slab_start a.classes ci x =
        omega (arith, fits, span.inside, span.addressable) in
      record {
        at_slab = exact;
        low_end = refl;
        high_end = omega (arith, exact, fits, span.inside, span.addressable);
        in_span = omega (arith, exact, fits, span.inside, span.addressable);
        roomy = omega (arith, exact, fits, span.inside, span.addressable, chosen.1);
        not_zero = omega (arith, exact, start_pos ci x ne chosen above);
      }

module _ {size : ℕ} {a : Arena} {h : SlabHandle} {s : Slice} (ok : IsArena a)
    (span : IsSpan a) where
  place_case :
      {r : AllocResult} {a' : Arena}
      → AllocCase size a r a'
      → r ≡ allocated h s
      → IsPlaced size a h s
  place_case (no_size z) e = cc
  place_case (no_class_fits ne none_fits) e = cc
  place_case (none_free ci ne chosen empty) e = cc
  place_case (took ci x rest ne chosen top) e =
      let same : handle_of a ci x size ≡ h = cc in
      let slice : slice_of a ci x ≡ s = cc in
      let g : Granted size a (handle_of a ci x size) (with_slab a ci x rest) =
        (case-AllocSpec ok (took ci x rest ne chosen top)).1 in
      rw (← same, ← slice) (place_of span ci x ne g.chosen g.index_in g.not_reserved)

  grant_case :
      {r : AllocResult} {a' : Arena}
      → AllocCase size a r a'
      → r ≡ allocated h s
      → Granted size a h a'
  grant_case (no_size z) e = cc
  grant_case (no_class_fits ne none_fits) e = cc
  grant_case (none_free ci ne chosen empty) e = cc
  grant_case (took ci x rest ne chosen top) e =
      let same : handle_of a ci x size ≡ h = cc in
      rw (← same) (case-AllocSpec ok (took ci x rest ne chosen top)).1

differ :
    {size : ℕ} {a : Arena} {h other : SlabHandle}
    → Names other a
    → {a' : Arena} → Granted size a h a'
    → (h.class ≢ other.class) ⊎ (h.index ≢ other.index)
differ {size} {a} {h} {other} n g = elim (ℕ_discrete h.class other.class) [
  | yes same ↦
      inr (λ e. n.live (sym n.match_stamp ∙ sym (λ i. stamp a (same i) (e i)) ∙ g.was_dead))
  | no ne ↦ inl ne
]

-- A stamp elsewhere is left.
stamp_elsewhere :
    (c i ci x next old : ℕ) → (ci ≢ c) ⊎ (x ≢ i) → (if c == ci && i == x then next else old) ≡ old
stamp_elsewhere c i ci x next old ne = ground arith

-- A named slab stays named when another one is granted.
keep_case :
    {size : ℕ} {a : Arena} {other : SlabHandle} {r : AllocResult} {a' : Arena}
    → IsArena a
    → Names other a
    → AllocCase size a r a'
    → Names other a'
keep_case ok n (no_size z) = n
keep_case ok n (no_class_fits ne none_fits) = n
keep_case ok n (none_free ci ne chosen empty) = n
keep_case {size} {a} {other} ok n (took ci x rest ne chosen top) =
    let g : Granted size a (handle_of a ci x size) (with_slab a ci x rest) =
      (case-AllocSpec ok (took ci x rest ne chosen top)).1 in
    record {
      own = n.own;
      current = n.current;
      class_in = omega (
        arith,
        n.class_in,
        length-set a.pools ci
            (record { free = rest; live_seq = set (pool_at a.pools ci).live_seq x a.next_seq }),
      );
      index_in = n.index_in;
      live = n.live;
      match_stamp =
          g.stamps other.class other.index
          ∙ stamp_elsewhere other.class other.index ci x a.next_seq
              (stamp a other.class other.index) (differ n g)
          ∙ n.match_stamp;
    }

-- On a valid arena over a built table, the slab that `Alloc` grants begins where the table puts it,
-- lies inside the span, holds the size asked for, and is not at offset 0; the slice is that slab.
pub alloc_in_bounds :
    (size : ℕ) (a : Arena) (h : SlabHandle) (s : Slice)
    → IsArena a
    → IsSpan a
    → (alloc size a).0 ≡ allocated h s
    → IsPlaced size a h s
alloc_in_bounds size a h s ok span e = place_case ok span (alloc-AllocCase size a) e

-- On a valid arena over a built table, a slab that `Alloc` grants does not overlap the slab of any
-- handle that was valid before, and that handle is still valid afterwards.
pub alloc_apart :
    (size : ℕ) (a : Arena) (h other : SlabHandle) (s : Slice)
    → IsArena a
    → IsSpan a
    → (alloc size a).0 ≡ allocated h s
    → validate other a ≡ true
    → ((s.high ≤ slab_start a.classes other.class other.index)
        ⊎ (slab_start a.classes other.class other.index + slab_bytes a.classes other.class ≤ s.low))
      × (validate other (alloc size a).1 ≡ true)
alloc_apart size a h other s ok span e valid =
    let g : Granted size a h (alloc size a).1 = grant_case ok span (alloc-AllocCase size a) e in
    let p : IsPlaced size a h s = alloc_in_bounds size a h s ok span e in
    let n : Names other a = (validate_iff other a).0 valid in
    let live : other.class < length a.classes =
      omega (arith, length-pools 1 a.classes a.pools ok.pools_ok, n.class_in) in
    (
      omega (
        arith,
        p.at_slab,
        p.low_end,
        p.high_end,
        slabs_disjoint a.classes span.end span.tiled h.class h.index other.class other.index
            g.chosen.0 live g.index_in n.index_in (differ n g),
      ),
      (validate_iff other (alloc size a).1).1 (keep_case ok n (alloc-AllocCase size a)),
    )
