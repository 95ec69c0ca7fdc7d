-- ===== src/Arena/RoundTrip.antt =====
-- A slab that Alloc granted is valid until it is freed, and freeing it puts everything back.
use styx.Base.{
  ℕ, ◌≡◌, refl, ap, sym, ◌∙◌, arith, true, List, ◌∷◌, set, get_or-set_self, set-set, set-get_or,
  length-set,
}
use styx.Arena.{
  Arena, ClassState, no_pool, after_seq, SlabHandle, Slice, AllocResult, allocated, alloc,
  free_slab, validate,
}
use styx.Arena.Invariant.{pool_at, IsArena, length-pools}
use styx.Arena.Alloc.{
  AllocCase, no_size, no_class_fits, none_free, took, alloc-AllocCase, with_slab, handle_of,
}
use styx.Arena.Grant.{Granted, case-AllocSpec}
use styx.Arena.Free.{Names, without_slab, free_accepts, validate_iff}

-- The arena after a grant and its undoing: only the stamp counter has moved.
abbrev pub restamped : Arena → Arena
restamped a = record a { next_seq = after_seq a.next_seq }

module _ {a : Arena} (ok : IsArena a) (ci x : ℕ) (rest : List ℕ) (size : ℕ)
    (g : Granted size a (handle_of a ci x size) (with_slab a ci x rest))
    (top : (pool_at a.pools ci).free ≡ x ∷ rest) where
  grant-Names : Names (handle_of a ci x size) (with_slab a ci x rest)
  grant-Names = record {
    own = refl;
    current = refl;
    class_in = omega (
      arith,
      g.chosen,
      length-pools 1 a.classes a.pools ok.pools_ok,
      length-set a.pools ci
          (record { free = rest; live_seq = set (pool_at a.pools ci).live_seq x a.next_seq }),
    );
    index_in = g.index_in;
    live = g.marked;
    match_stamp = g.stamps ci x ∙ ground arith;
  }

  abbrev old_pool : ClassState
  old_pool = pool_at a.pools ci

  abbrev used_pool : ClassState
  used_pool = record { free = rest; live_seq = set old_pool.live_seq x a.next_seq }

  -- Clearing the stamp and pushing the slab gives the old pool.
  pool_back : record { free = x ∷ used_pool.free; live_seq = set used_pool.live_seq x 0 } ≡ old_pool
  pool_back =
      let live : set used_pool.live_seq x 0 ≡ old_pool.live_seq =
        set-set old_pool.live_seq x a.next_seq 0
        ∙ ap (set old_pool.live_seq x) (sym g.was_dead)
        ∙ set-get_or old_pool.live_seq x 0 in
      λ i. record { free = sym top i; live_seq = live i }

  abbrev after : Arena
  after = with_slab a ci x rest

  pools_back : (without_slab (handle_of a ci x size) after).pools ≡ a.pools
  pools_back =
      let found : pool_at after.pools ci ≡ used_pool =
        get_or-set_self a.pools ci used_pool no_pool
          (omega (arith, g.chosen, length-pools 1 a.classes a.pools ok.pools_ok)) in
      rw (found, set-set a.pools ci, pool_back) (set-get_or a.pools ci no_pool)

  occupancy_back : (without_slab (handle_of a ci x size) after).occupancy ≡ a.occupancy
  occupancy_back = omega (arith, ok.counted)

  pub undone : without_slab (handle_of a ci x size) after ≡ restamped a
  undone = λ i. record {
    mem_len = a.mem_len;
    classes = a.classes;
    pools = pools_back i;
    generation = a.generation;
    next_seq = after_seq a.next_seq;
    id = a.id;
    occupancy = occupancy_back i;
  }

grant_round :
    {size : ℕ} {a : Arena} {h : SlabHandle} {s : Slice} {r : AllocResult} {a' : Arena}
    → IsArena a
    → AllocCase size a r a'
    → r ≡ allocated h s
    → (validate h a' ≡ true) × (free_slab h a' ≡ (true, restamped a))
grant_round ok (no_size z) e = cc
grant_round ok (no_class_fits ne none_fits) e = cc
grant_round ok (none_free ci ne chosen empty) e = cc
grant_round {size} {a} {h} ok (took ci x rest ne chosen top) e =
    let same : handle_of a ci x size ≡ h = cc in
    let g : Granted size a (handle_of a ci x size) (with_slab a ci x rest) =
      (case-AllocSpec ok (took ci x rest ne chosen top)).1 in
    let named : Names (handle_of a ci x size) (with_slab a ci x rest) =
      grant-Names ok ci x rest size g top in
    rw (← same) (
      (validate_iff (handle_of a ci x size) (with_slab a ci x rest)).1 named,
      free_accepts (handle_of a ci x size) (with_slab a ci x rest) named
          ∙ ap (λ (b : Arena). (true, b)) (undone ok ci x rest size g top),
    )

-- On a valid arena, the handle of a slab that `Alloc` has just granted is valid, and freeing it
-- succeeds and gives back the arena as it was, stacks and occupancy included; only the stamp counter
-- has moved on.
pub free-alloc :
    (size : ℕ) (a : Arena) (h : SlabHandle) (s : Slice) {a' : Arena}
    → IsArena a
    → alloc size a ≡ (allocated h s, a')
    → (validate h a' ≡ true) × (free_slab h a' ≡ (true, restamped a))
free-alloc size a h s ok e =
    rw (← ap (λ (p : AllocResult × Arena). p.1) e)
      (grant_round ok (alloc-AllocCase size a) (ap (λ (p : AllocResult × Arena). p.0) e))
