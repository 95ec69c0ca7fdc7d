-- ===== src/Arena/Invariant.antt =====
-- The invariant of an arena, and the view of it as a map from slabs to live stamps.
use styx.Base.{
  ℕ, zero, suc, ◌+◌, ◌*◌, ◌%◌, ◌<◌, ◌≡◌, ◌≢◌, refl, ap, sym, arith, Bool, false, ◌&&◌,
  get_or-set_self, get_or-set_ne, List, [], ◌∷◌, ◌==◌, if◌then◌else◌, u64_mod, length, get_or, set,
}
use native.Mathlib.Decide.{ℕ_discrete}
use styx.Geometry.{SizeClass}
use styx.Arena.{Arena, ClassState, no_pool, new_pools, after_seq}
use styx.Arena.Select.{class_at}
use styx.Arena.Pool.{
  IsPool, new_class_state-IsPool, live_count, live_count-set, live_count-replicate,
}

-- The reserved slabs of a class: slab 0 of class 0 alone.
abbrev pub first_at : ℕ → ℕ → ℕ
first_at first zero = first
first_at first (suc ci) = 0

abbrev pub pool_at : List ClassState → ℕ → ClassState
pool_at ps ci = get_or ps ci no_pool

abbrev pub ArePools : ℕ → List SizeClass → List ClassState → Type 0
ArePools first [] [] = Unit
ArePools first [] (p ∷ ps) = ⊥
ArePools first (c ∷ cs) [] = ⊥
ArePools first (c ∷ cs) (p ∷ ps) = IsPool first c.slab_count p × ArePools 0 cs ps

-- The slab bytes of the live slabs.
abbrev pub reserved_bytes : List SizeClass → List ClassState → ℕ
reserved_bytes [] ps = 0
reserved_bytes (c ∷ cs) [] = 0
reserved_bytes (c ∷ cs) (p ∷ ps) = c.slab_size * live_count p.live_seq + reserved_bytes cs ps

pub record IsArena (a : Arena) : Type 0 where
  pub pools_ok : ArePools 1 a.classes a.pools
  pub seq_ok : a.next_seq ≢ 0
  pub counted : a.occupancy ≡ reserved_bytes a.classes a.pools % u64_mod

-- The stamp of slab `i` of class `c`: 0 if it is not live.
abbrev pub stamp : Arena → ℕ → ℕ → ℕ
stamp a c i = get_or (pool_at a.pools c).live_seq i 0

pub ArePools-at :
    (first : ℕ) (cs : List SizeClass) (ps : List ClassState) (ci : ℕ)
    → ArePools first cs ps
    → ci < length cs
    → IsPool (first_at first ci) (class_at cs ci).slab_count (pool_at ps ci)
ArePools-at first [] ps ci ok lt = absurd (omega arith)
ArePools-at first (c ∷ cs) [] ci ok lt = absurd ok
ArePools-at first (c ∷ cs) (p ∷ ps) zero ok lt = ok.0
ArePools-at first (c ∷ cs) (p ∷ ps) (suc zero) ok lt = ArePools-at 0 cs ps zero ok.1 (omega arith)
ArePools-at first (c ∷ cs) (p ∷ ps) (suc (suc ci)) ok lt =
    ArePools-at 0 cs ps (suc ci) ok.1 (omega arith)

pub ArePools-set :
    (first : ℕ) (cs : List SizeClass) (ps : List ClassState) (ci : ℕ) (q : ClassState)
    → ArePools first cs ps
    → ci < length cs
    → IsPool (first_at first ci) (class_at cs ci).slab_count q
    → ArePools first cs (set ps ci q)
ArePools-set first [] ps ci q ok lt new_ok = absurd (omega arith)
ArePools-set first (c ∷ cs) [] ci q ok lt new_ok = absurd ok
ArePools-set first (c ∷ cs) (p ∷ ps) zero q ok lt new_ok = (new_ok, ok.1)
ArePools-set first (c ∷ cs) (p ∷ ps) (suc zero) q ok lt new_ok =
    (ok.0, ArePools-set 0 cs ps zero q ok.1 (omega arith) new_ok)
ArePools-set first (c ∷ cs) (p ∷ ps) (suc (suc ci)) q ok lt new_ok =
    (ok.0, ArePools-set 0 cs ps (suc ci) q ok.1 (omega arith) new_ok)

pub length-pools :
    (first : ℕ) (cs : List SizeClass) (ps : List ClassState)
    → ArePools first cs ps
    → length ps ≡ length cs
length-pools first [] [] ok = refl
length-pools first [] (p ∷ ps) ok = absurd ok
length-pools first (c ∷ cs) [] ok = absurd ok
length-pools first (c ∷ cs) (p ∷ ps) ok = ap suc (length-pools 0 cs ps ok.1)

pub reserved_bytes-set :
    (cs : List SizeClass) (ps : List ClassState) (ci : ℕ) (q : ClassState)
    → ci < length cs
    → ci < length ps
    → reserved_bytes cs (set ps ci q)
        + (class_at cs ci).slab_size * live_count (pool_at ps ci).live_seq
      ≡ reserved_bytes cs ps + (class_at cs ci).slab_size * live_count q.live_seq
reserved_bytes-set [] ps ci q lt lt' = absurd (omega arith)
reserved_bytes-set (c ∷ cs) [] ci q lt lt' = absurd (omega arith)
reserved_bytes-set (c ∷ cs) (p ∷ ps) zero q lt lt' = omega arith
reserved_bytes-set (c ∷ cs) (p ∷ ps) (suc ci) q lt lt' =
    omega (arith, reserved_bytes-set cs ps ci q (omega arith) (omega arith))

pub new_pools-ArePools :
    (zero_class : Bool) (cs : List SizeClass)
    → ArePools (if zero_class then 1 else 0) cs (new_pools zero_class cs)
unfolding new_pools
new_pools-ArePools zero_class [] = tt
new_pools-ArePools zero_class (c ∷ cs) =
    (new_class_state-IsPool c zero_class, new_pools-ArePools false cs)

pub new_pools-reserved_bytes :
    (zero_class : Bool) (cs : List SizeClass) → reserved_bytes cs (new_pools zero_class cs) ≡ 0
unfolding new_pools
new_pools-reserved_bytes zero_class [] = refl
new_pools-reserved_bytes zero_class (c ∷ cs) =
    rw (live_count-replicate c.slab_count, new_pools-reserved_bytes false cs) (omega arith)

pub after_seq-ne_zero : (n : ℕ) → after_seq n ≢ 0
unfolding after_seq
after_seq-ne_zero n = ground arith

-- Storing one stamp changes that entry of the map and no other.
pub stamp-set :
    (ps : List ClassState) (ci x v : ℕ) (free : List ℕ) (c i : ℕ)
    → ci < length ps
    → x < length (pool_at ps ci).live_seq
    → get_or
        (pool_at
          (set ps ci (record { free = free; live_seq = set (pool_at ps ci).live_seq x v }))
          c).live_seq
        i
        0
      ≡ (if c == ci && i == x then v else get_or (pool_at ps c).live_seq i 0)
stamp-set ps ci x v free c i lt lt' =
    let q : ClassState = record { free = free; live_seq = set (pool_at ps ci).live_seq x v } in
    elim (ℕ_discrete c ci) [
      | yes e ↦
          rw (e, get_or-set_self ps ci q no_pool lt)
            (ground (
              arith,
              get_or-set_self (pool_at ps ci).live_seq x v 0,
              get_or-set_ne (pool_at ps ci).live_seq x i v 0,
            ))
      | no ne ↦ rw (get_or-set_ne ps ci c q no_pool (λ e. ne (sym e))) (ground arith)
    ]

-- Storing one stamp moves the byte count by one slab at most.
pub reserved_bytes-stamp :
    (cs : List SizeClass) (ps : List ClassState) (ci x v : ℕ) (free : List ℕ)
    → ci < length cs
    → ci < length ps
    → x < length (pool_at ps ci).live_seq
    → reserved_bytes cs
          (set ps ci (record { free = free; live_seq = set (pool_at ps ci).live_seq x v }))
        + (class_at cs ci).slab_size * (if get_or (pool_at ps ci).live_seq x 0 == 0 then 0 else 1)
      ≡ reserved_bytes cs ps + (class_at cs ci).slab_size * (if v == 0 then 0 else 1)
reserved_bytes-stamp cs ps ci x v free lt lt' in_pool =
    let size : ℕ = (class_at cs ci).slab_size in
    let q : ClassState = record { free = free; live_seq = set (pool_at ps ci).live_seq x v } in
    omega (
      arith,
      reserved_bytes-set cs ps ci q lt lt',
      ap (λ (t : ℕ). size * t) (live_count-set (pool_at ps ci).live_seq x v in_pool),
    )
