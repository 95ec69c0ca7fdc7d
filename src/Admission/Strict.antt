-- ===== src/Admission/Strict.antt =====
-- What the STRICT certification promises of the arena.
use mathlib.Core.Path.{subst}
use styx.Base.{
  ℕ, zero, suc, ◌+◌, ◌≤◌, ◌<◌, ◌≡◌, ◌≢◌, refl, sym, arith, Bool, true, false, not, ◌⊎◌, inl, inr,
  List, [], ◌∷◌, if◌then◌else◌, length, get_or,
}
use styx.Base.Int.{ℤ, pos, negsuc}
use styx.Geometry.{SizeClass, Layout, class_at}
use styx.Arena.{Arena, AllocResult, refused, exhausted, alloc, ClassState}
use styx.Arena.Pool.{IsPool, is_free, live_count}
use styx.Arena.Invariant.{first_at, pool_at, IsArena, ArePools-at, length-pools}
use styx.Arena.Grant.{AllocSpec, alloc_lem}
use styx.Admission.{
  Verdict, accepted, over_capacity, over_strict, sub_int, lt_int, usable_slabs, bind_usable,
  strict_fits, payload_fits, validate_startup_capacity,
}

-- All live slabs of the classes.
abbrev pub live_slabs : List ClassState → ℕ
live_slabs [] = 0
live_slabs (p ∷ ps) = live_count p.live_seq + live_slabs ps

pool_live :
    (ps : List ClassState) (ci : ℕ)
    → ci < length ps
    → live_count (pool_at ps ci).live_seq ≤ live_slabs ps
pool_live [] ci lt = absurd (omega arith)
pool_live (p ∷ ps) zero lt = omega arith
pool_live (p ∷ ps) (suc ci) lt = omega (arith, pool_live ps ci (omega arith))

-- With every stamp from `first` on set, all but `first` slabs are live.
full_live :
    (live : List ℕ)
    → ((i : ℕ) → i < length live → get_or live i 0 ≢ 0)
    → length live ≤ live_count live
full_live [] all = omega arith
full_live (s ∷ live) all =
    ground (arith, all 0 (omega arith), full_live live (λ i lt. all (suc i) (omega arith)))

full_live_after :
    (live : List ℕ)
    → ((i : ℕ) → 1 ≤ i → i < length live → get_or live i 0 ≢ 0)
    → length live ≤ live_count live + 1
full_live_after [] all = omega arith
full_live_after (s ∷ live) all =
    ground (arith, full_live live (λ i lt. all (suc i) (omega arith) (omega arith)))

exhausted_live :
    (first count : ℕ) (p : ClassState)
    → IsPool first count p
    → first ≤ 1
    → ((i : ℕ) → is_free first count p.live_seq i ≡ 0)
    → count ≤ live_count p.live_seq + first
exhausted_live zero count p ok le none_free = omega (
  arith,
  ok.stamps,
  full_live p.live_seq (λ i lt e. ground (arith, none_free i, ok.stamps, lt, e)),
)
exhausted_live (suc zero) count p ok le none_free = omega (
  arith,
  ok.stamps,
  full_live_after p.live_seq (λ i l lt e. ground (arith, none_free i, ok.stamps, l, lt, e)),
)
exhausted_live (suc (suc n)) count p ok le none_free = absurd (omega arith)

split_bind :
    (m : ℕ) (c : SizeClass) (ci : ℕ) (bind : ℤ)
    → lt_int
        (if lt_int (usable_slabs c (suc ci)) bind then usable_slabs c (suc ci) else bind)
        (pos m)
      ≡ false
    → (m ≤ c.slab_count) × (lt_int bind (pos m) ≡ false)
unfolding lt_int usable_slabs
split_bind m c ci (pos b) e = ground arith
split_bind m c ci (negsuc b) e = ground arith

bind_least :
    (m : ℕ) (bind : ℤ) (ci : ℕ) (cs : List SizeClass)
    → lt_int (bind_usable bind (suc ci) cs) (pos m) ≡ false
    → (lt_int bind (pos m) ≡ false) × ((j : ℕ) → j < length cs → m ≤ (class_at cs j).slab_count)
unfolding bind_usable
bind_least m bind ci [] e = (e, λ j lt. absurd (omega arith))
bind_least m bind ci (c ∷ cs) e =
    let (held, later) =
      bind_least m (if lt_int (usable_slabs c (suc ci)) bind then usable_slabs c (suc ci) else bind)
        (suc ci) cs e in
    let (here, kept) = split_bind m c ci bind held in
    (
      kept,
      λ j. elim j as (λ n. n < length (c ∷ cs) → m ≤ (class_at (c ∷ cs) n).slab_count) [
        | zero ↦ λ lt. here
        | suc k ↦ λ lt. later k (omega arith)
      ],
    )

first_usable :
    (m : ℕ) (c : SizeClass)
    → 0 < m
    → lt_int (usable_slabs c 0) (pos m) ≡ false
    → m + 1 ≤ c.slab_count
unfolding lt_int usable_slabs sub_int
first_usable m c lt e = ground arith

-- A certified arena: every class has room for `m` live slabs beside its reserved ones.
HasRoom : ℕ → List SizeClass → Type 0
HasRoom m cs = (ci : ℕ) → ci < length cs → m + first_at 1 ci ≤ (class_at cs ci).slab_count

else_accepted :
    {b : Bool} {v after : Verdict}
    → v ≢ accepted
    → (if b then v else after) ≡ accepted
    → (b ≡ false) × (after ≡ accepted)
else_accepted {b = true} ne e = absurd (ne e)
else_accepted {b = false} ne e = (refl, e)

capacity≢accepted : over_capacity ≢ accepted
capacity≢accepted e = cc

strict≢accepted : over_strict ≢ accepted
strict≢accepted e = cc

strict_room :
    (m offset bytes table_offset : ℕ) (cs : List SizeClass) (after : Verdict)
    → 0 < m
    → strict_fits
        (pos m)
        (record { offset = offset; bytes = bytes; class_table_offset = table_offset; classes = cs })
        after
      ≡ accepted
    → (after ≡ accepted) × HasRoom m cs
unfolding strict_fits HasRoom
strict_room m offset bytes table_offset [] after lt e = cc
strict_room m offset bytes table_offset (c ∷ cs) after lt e =
    let (fits, same) = else_accepted strict≢accepted e in
    let (here, later) = bind_least m (usable_slabs c 0) 0 cs fits in
    (
      same,
      λ ci.
          elim ci
            as (λ n. n < length (c ∷ cs) → m + first_at 1 n ≤ (class_at (c ∷ cs) n).slab_count) [
              | zero ↦ λ lt'. first_usable m c lt here
              | suc k ↦ λ lt'. omega (arith, later k (omega arith))
            ],
    )

payload_after :
    (stored offset bytes table_offset : ℕ) (cs : List SizeClass) (after : Verdict)
    → payload_fits stored
        (record { offset = offset; bytes = bytes; class_table_offset = table_offset; classes = cs })
        after
      ≡ accepted
    → after ≡ accepted
unfolding payload_fits
payload_after stored offset bytes table_offset [] after e = cc
payload_after stored offset bytes table_offset (c ∷ cs) after e =
    (else_accepted capacity≢accepted e).1

positive : (m : ℕ) → not (lt_int (pos 0) (pos m)) ≡ false → 0 < m
unfolding lt_int
positive m e = ground arith

-- The certification reaches both arenas.
certified :
    (layout : Layout) (m : ℕ) (checksum : Bool)
    → validate_startup_capacity layout (pos m) checksum true ≡ accepted
    → HasRoom m layout.arena_hp.classes × HasRoom m layout.arena_ph.classes
unfolding validate_startup_capacity
certified layout m checksum e =
    let (some_flight, e1) = else_accepted capacity≢accepted e in
    let (not_empty, e2) = else_accepted capacity≢accepted e1 in
    let (budget, e3) = else_accepted capacity≢accepted e2 in
    let hp = layout.arena_hp in
    let ph = layout.arena_ph in
    let fits = (if checksum then 4 else 0) + 1 in
    let e4 = payload_after fits hp.offset hp.bytes hp.class_table_offset hp.classes _ e3 in
    let e5 = payload_after fits ph.offset ph.bytes ph.class_table_offset ph.classes _ e4 in
    let (e6, room) =
      strict_room m hp.offset hp.bytes hp.class_table_offset hp.classes _ (positive m some_flight)
        e5 in
    (
      room,
      (strict_room m ph.offset ph.bytes ph.class_table_offset ph.classes _ (positive m some_flight)
          e6).1,
    )

at_most_one : (ci : ℕ) → first_at 1 ci ≤ 1
at_most_one zero = omega arith
at_most_one (suc ci) = omega arith

room_left :
    {m : ℕ} {a : Arena} (size : ℕ)
    → IsArena a
    → HasRoom m a.classes
    → live_slabs a.pools < m
    → (r : AllocResult) (a' : Arena) → AllocSpec size a r a'
    → r ≢ refused exhausted
unfolding HasRoom
room_left {m} {a} size ok room few r a' spec e =
    let (same, ne, (ci, chosen, none_free)) = subst (λ x. AllocSpec size a x a') e spec in
    let pool : IsPool (first_at 1 ci) (class_at a.classes ci).slab_count (pool_at a.pools ci) =
      ArePools-at 1 a.classes a.pools ci ok.pools_ok chosen.0 in
    omega (
      arith,
      few,
      room ci chosen.0,
      pool_live a.pools ci (omega (arith, chosen.0, length-pools 1 a.classes a.pools ok.pools_ok)),
      exhausted_live (first_at 1 ci) (class_at a.classes ci).slab_count (pool_at a.pools ci) pool
          (at_most_one ci) none_free,
    )

-- Once `ValidateStartupCapacity` has certified a layout as STRICT for a number of calls in flight,
-- an arena of the layout, in either direction, that has fewer live slabs than that never reports
-- exhaustion.
pub strict_never_exhausted :
    (layout : Layout) (m size : ℕ) (checksum : Bool) (a : Arena)
    → validate_startup_capacity layout (pos m) checksum true ≡ accepted
    → IsArena a
    → (a.classes ≡ layout.arena_hp.classes) ⊎ (a.classes ≡ layout.arena_ph.classes)
    → live_slabs a.pools < m
    → (alloc size a).0 ≢ refused exhausted
strict_never_exhausted layout m size checksum a e ok which few =
    let (hp, ph) = certified layout m checksum e in
    let room : HasRoom m a.classes = elim which [
      | inl same ↦ subst (HasRoom m) (sym same) hp
      | inr same ↦ subst (HasRoom m) (sym same) ph
    ] in
    room_left size ok room few (alloc size a).0 (alloc size a).1 (alloc_lem size a ok)
