-- ===== src/Admission.antt =====
-- internal/transport/shm/admission.go: the startup checks of a configuration against a geometry.
-- An error that wraps ErrCapacity is `over_capacity`, one that wraps ErrStrictCapacity is
-- `over_strict`; a read beyond an empty class table is `panics`. Config.Escalation is not read here.
pub mod Strict
mod Tests
use styx.Base.{
  ℕ, zero, suc, ◌+◌, ◌-◌, Bool, true, false, not, ◌&&◌, ◌||◌, Option, none, some, List, [], ◌∷◌,
  ltb, leb, ◌==◌, if◌then◌else◌,
}
use styx.Base.Int.{ℤ, pos, negsuc}
use styx.Geometry.{SizeClass, ArenaGeometry, Layout, last_class}

-- `a - b` and `x < y` on Go's int, whose 64 bits hold every difference of two uint32.
unfoldable pub sub_int : ℕ → ℕ → ℤ
sub_int a b = if leb b a then pos (a - b) else negsuc (b - a - 1)

unfoldable pub lt_int : ℤ → ℤ → Bool
lt_int (pos a) (pos b) = ltb a b
lt_int (pos a) (negsuc b) = false
lt_int (negsuc a) (pos b) = true
lt_int (negsuc a) (negsuc b) = ltb b a

pub data Verdict : Type 0 where
  accepted over_capacity over_strict send_clamp panics : Verdict

pub record Config : Type 0 where
  pub max_inflight : ℤ
  pub max_payload : ℕ
  pub data_queue_depth : ℤ
  pub lifecycle_queue_depth : ℤ
  pub checksum : Bool
  pub chunking_active : Bool

unfoldable pub validate_chunking_clamp : Config → Verdict
validate_chunking_clamp cfg =
    if cfg.chunking_active && not (cfg.max_payload == 0) then send_clamp else accepted

-- `none` where the table is empty.
unfoldable pub slab_size_last : ArenaGeometry → Option ℕ
slab_size_last a = elim (a.classes) [ [] ↦ none | c ∷ cs ↦ some (last_class c cs).slab_size ]

-- `len(classes) == 0`
abbrev pub is_empty : List SizeClass → Bool
is_empty [] = true
is_empty (c ∷ cs) = false

-- One round of the loops over the arenas, before `next`; `last <= overhead` is `last < overhead + 1`.
unfoldable pub payload_fits : ℕ → ArenaGeometry → Verdict → Verdict
unfolding slab_size_last
payload_fits stored a next = elim (slab_size_last a) [
  | none ↦ panics
  | some last ↦ if ltb last stored then over_capacity else next
]

unfoldable pub validate_capacity_invariant : Config → Layout → Verdict
unfolding lt_int sub_int payload_fits
validate_capacity_invariant cfg layout =
    let stored = cfg.max_payload + (if cfg.checksum then 4 else 0) in
    if not (lt_int (pos 0) cfg.max_inflight)
    then over_capacity
    else if not (lt_int (pos 0) cfg.data_queue_depth)
    then over_capacity
    else if not (lt_int (pos 0) cfg.lifecycle_queue_depth)
    then over_capacity
    else if lt_int (sub_int layout.ring_capacity layout.lifecycle_reserve) cfg.max_inflight
    then over_capacity
    else payload_fits stored layout.arena_hp (payload_fits stored layout.arena_ph accepted)

-- `class_index` is tested for 0 only.
unfoldable pub usable_slabs : SizeClass → ℕ → ℤ
unfolding sub_int
usable_slabs c class_index = if class_index == 0 then sub_int c.slab_count 1 else pos c.slab_count

-- The least usable count from class `ci` on.
unfoldable pub bind_usable : ℤ → ℕ → List SizeClass → ℤ
unfolding usable_slabs lt_int
bind_usable bind ci [] = bind
bind_usable bind ci (c ∷ cs) =
    let u = usable_slabs c ci in bind_usable (if lt_int u bind then u else bind) (suc ci) cs

unfoldable pub strict_fits : ℤ → ArenaGeometry → Verdict → Verdict
unfolding bind_usable usable_slabs lt_int
strict_fits max_inflight a next = elim (a.classes) [
  | [] ↦ panics
  | c ∷ cs ↦ if lt_int (bind_usable (usable_slabs c 0) 1 cs) max_inflight then over_strict else next
]

unfoldable pub validate_startup_capacity : Layout → ℤ → Bool → Bool → Verdict
unfolding lt_int sub_int payload_fits strict_fits
validate_startup_capacity layout max_inflight checksum strict =
    let overhead = if checksum then 4 else 0 in
    let certified =
      strict_fits max_inflight layout.arena_hp
        (strict_fits max_inflight layout.arena_ph accepted) in
    if not (lt_int (pos 0) max_inflight)
    then over_capacity
    else if is_empty layout.arena_hp.classes || is_empty layout.arena_ph.classes
    then over_capacity
    else if lt_int (sub_int layout.ring_capacity layout.lifecycle_reserve) max_inflight
    then over_capacity
    else payload_fits (overhead + 1) layout.arena_hp
        (payload_fits (overhead + 1) layout.arena_ph (if not strict then accepted else certified))
