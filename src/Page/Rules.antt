-- ===== src/Page/Rules.antt =====
-- The attaching side's rules for a class table and its arena against the creating side's
-- buildArenaGeometry.
use styx.Base.{
  ℕ, zero, suc, ◌+◌, ◌*◌, ◌%◌, ◌≤◌, ◌<◌, ◌≡◌, refl, ap, arith, true, some, List, [], ◌∷◌, length,
  u32_mod, u64_mod,
}
use styx.Base.Maybe.{>>=-eq-some, some_inj, guard, guard-eq-some}
use styx.Base.Memory.{Memory, IsBytes, load-lt}
use styx.Geometry.{
  SizeClass, max_arena_bytes, validate_slab_bounds, add_overflow_safe, class_base_offsets,
  compute_class_base_offsets, with_bases, build_arena_geometry,
}
use styx.Geometry.Tables.{AllU32, validate_slab_bounds_iff, class_base_offsets_lem, no_overflow}
use styx.Geometry.Build.{build_arena_geometry-IsBuilt, build_inversion, round_lem}
use styx.Page.Checks.{bases_match, check_class_base_offsets, check_arena_total}
use styx.Page.Total.{read_classes, check_class_rules}
use styx.Page.Accepts.{check_arena_total_lem}

-- The base offsets are uint32.
abbrev pub BasesU32 : List SizeClass → Type 0
BasesU32 [] = Unit
BasesU32 (c ∷ cs) = (c.class_base_offset < u32_mod) × BasesU32 cs

pub read_classes-AllU32 :
    (m : Memory) (off n : ℕ)
    → IsBytes m
    → AllU32 (read_classes m off n) × BasesU32 (read_classes m off n)
unfolding read_classes
read_classes-AllU32 m off zero h = (tt, tt)
read_classes-AllU32 m off (suc n) h =
    let rest = read_classes-AllU32 m (off + 16) n h in
    ((load-lt (off + 0) 4 m h, load-lt (off + 4) 4 m h, rest.0), (load-lt (off + 8) 4 m h, rest.1))

-- Bases that match are those that buildArenaGeometry would store.
with_bases-match :
    (cs : List SizeClass) (bs : List ℕ)
    → BasesU32 cs
    → bases_match cs bs ≡ true
    → with_bases cs bs ≡ cs
unfolding bases_match
with_bases-match [] bs u e = refl
with_bases-match (c ∷ cs) [] u e = absurd (cc e)
with_bases-match (c ∷ cs) (b ∷ bs) u e =
    let same : c.class_base_offset ≡ b = ground arith in
    let fits : b % u32_mod ≡ c.class_base_offset = omega (arith, u.0) in
    let rest : with_bases cs bs ≡ cs = with_bases-match cs bs u.1 (ground arith) in rw (fits, rest)

pub check_class_rules_lem :
    (m : Memory) (off n : ℕ) (rules : List SizeClass × ℕ)
    → check_class_rules m off n ≡ some rules
    → (rules.0 ≡ read_classes m off n)
      × (validate_slab_bounds rules.0 ≡ true)
      × (check_class_base_offsets rules.0 ≡ some rules.1)
unfolding check_class_rules
check_class_rules_lem m off n rules e =
    let (u, valid, e') = >>=-eq-some (guard (validate_slab_bounds (read_classes m off n))) _ e in
    let (total, based, e'') = >>=-eq-some (check_class_base_offsets (read_classes m off n)) _ e' in
    rw (← some_inj e'') (refl, guard-eq-some _ valid, based)

-- What the attaching side accepts is what the creating side builds from it.
pub build-accepted :
    (cs : List SizeClass) (total stored b : ℕ)
    → BasesU32 cs
    → validate_slab_bounds cs ≡ true
    → check_class_base_offsets cs ≡ some total
    → check_arena_total total stored ≡ some b
    → build_arena_geometry cs ≡ some (cs, b)
unfolding build_arena_geometry check_class_base_offsets
build-accepted cs total stored b u valid based summed =
    let (computed, found, e) = >>=-eq-some (compute_class_base_offsets cs) _ based in
    let (rounded, most, same) = check_arena_total_lem total stored b summed in
    let matched : bases_match cs computed.0 ≡ true = ground arith in
    let kept = with_bases-match cs computed.0 u matched in
    let totals : computed.1 ≡ total = ground arith in
    rw (valid, found, totals, rounded, kept) (ground arith)

tables_match :
    (base : ℕ) (cs : List SizeClass) (bs : List ℕ) (t : ℕ)
    → AllU32 cs
    → base < u64_mod
    → t < u32_mod
    → class_base_offsets base cs ≡ some (bs, t)
    → (bases_match (with_bases cs bs) bs ≡ true)
      × (class_base_offsets base (with_bases cs bs) ≡ some (bs, t))
      × (length (with_bases cs bs) ≡ length cs)
unfolding bases_match class_base_offsets
tables_match base [] bs t u hb ht e = (refl, e, refl)
tables_match base (c ∷ cs) bs t u hb ht e =
    let (n, en, e') =
      >>=-eq-some (add_overflow_safe base (c.slab_size * c.slab_count % u64_mod)) _ e in
    let (rest, er, e'') = >>=-eq-some (class_base_offsets n cs) _ e' in
    let (exact, hn) = no_overflow base c.slab_size c.slab_count n hb u.0 u.1 en in
    let same_bases : base ∷ rest.0 ≡ bs = cc in
    let same_total : rest.1 ≡ t = cc in
    let (le, small, tiles) = class_base_offsets_lem n cs rest.0 rest.1 u.2 hn er in
    let (matched, again, long) = tables_match n cs rest.0 rest.1 u.2 hn (omega arith) er in
    let fits : base % u32_mod ≡ base = omega arith in
    rw (← same_bases, ← same_total) (ground (arith, matched), rw (en, again), ap suc long)

-- What the creating side builds passes the attaching side's rules, with the same total.
pub accepted-build :
    (cs ds : List SizeClass) (b : ℕ)
    → AllU32 cs
    → build_arena_geometry cs ≡ some (ds, b)
    → (validate_slab_bounds ds ≡ true)
      × ((total : ℕ) × (check_class_base_offsets ds ≡ some total)
          × (check_arena_total total b ≡ some b)
          × (total ≤ b))
      × (b ≤ max_arena_bytes)
      × (length ds ≡ length cs)
unfolding check_class_base_offsets compute_class_base_offsets check_arena_total
accepted-build cs ds b u e =
    let built = build_arena_geometry-IsBuilt cs ds b u e in
    let (computed, found, valid, rounded, small, same) = build_inversion cs ds b e in
    let (low, fits, tiles) =
      class_base_offsets_lem 0 cs computed.0 computed.1 u (omega arith) found in
    let padded = round_lem computed.1 b fits rounded in
    let (matched, again, long) =
      tables_match 0 cs computed.0 computed.1 u (omega arith) (omega arith) found in
    (
      (validate_slab_bounds_iff ds).1 built.table,
      (computed.1, rw (← same) (rw (again, matched)), rw rounded (ground arith), padded.0),
      small,
      rw (← same) long,
    )
