-- ===== src/Inbound/Slabs.antt =====
-- slabInClass accepts exactly the slabs that an allocator of the same table can grant.
use styx.Base.{
  ℕ, zero, suc, ◌+◌, ◌-◌, ◌*◌, ◌/◌, ◌%◌, ◌≤◌, ◌<◌, ◌≡◌, ◌≢◌, ◌↔◌, sym, ap, ◌∙◌, arith, true, false,
  ◌&&◌, Option, none, some, Option-cases, inl, inr, List, ◌==◌, u32_mod,
}
use mathlib.Core.Path.{subst}
use native.Mathlib.Decide.{dec_lt}
use styx.Geometry.{SizeClass, class_at}
use styx.Geometry.Tiles.{slab_start}
use styx.Arena.{select_class}
use styx.Arena.Select.{Chosen, select_class-Chosen}
use styx.Arena.Invariant.{first_at}
use styx.Inbound.{serving_class, slab_of_class, slab_in_class}

-- Slab `index` of class `ci` serves `len` bytes at `off`: the class is the first that fits, and the
-- slab exists and is not the reserved one.
pub record Serves (cs : List SizeClass) (off len : ℕ) : Type 0 where
  pub ci : ℕ
  pub index : ℕ
  pub chosen : Chosen cs len (some ci)
  pub index_in : index < (class_at cs ci).slab_count
  pub not_reserved : first_at 1 ci ≤ index
  pub placed : off ≡ slab_start cs ci index

reserved_iff : (ci i : ℕ) → ((ci == 0 && i == 0) ≡ false) ↔ (first_at 1 ci ≤ i)
reserved_iff zero i = ground arith
reserved_iff (suc ci) i = ground arith

back_rem : (i s : ℕ) → 0 < s → i * s % s ≡ 0
back_rem i s h = grind arith

back_index : (i s : ℕ) → 0 < s → i * s / s ≡ i
back_index i s h = grind arith

whole_slabs : (r s : ℕ) → 0 < s → r % s ≡ 0 → (r / s) * s ≡ r
whole_slabs r s h e = grind arith

slab_of_class_sound :
    (c : SizeClass) (ci off : ℕ)
    → 0 < c.slab_size
    → slab_of_class c ci off ≡ true
    → ((off - c.class_base_offset) / c.slab_size < c.slab_count)
      × (first_at 1 ci ≤ (off - c.class_base_offset) / c.slab_size)
      × (off ≡ c.class_base_offset + (off - c.class_base_offset) / c.slab_size * c.slab_size)
unfolding slab_of_class
slab_of_class_sound c ci off pos e =
    let rel = off - c.class_base_offset in
    let above : c.class_base_offset ≤ off = ground arith in
    let aligned : rel % c.slab_size ≡ 0 = ground arith in
    let inside : rel / c.slab_size < c.slab_count = ground arith in
    let unreserved : (ci == 0 && rel / c.slab_size == 0) ≡ false = ground arith in
    let whole = whole_slabs rel c.slab_size pos aligned in
    (inside, (reserved_iff ci (rel / c.slab_size)).0 unreserved, omega (arith, whole, above))

slab_of_class_complete :
    (c : SizeClass) (ci off i : ℕ)
    → 0 < c.slab_size
    → i < c.slab_count
    → first_at 1 ci ≤ i
    → off ≡ c.class_base_offset + i * c.slab_size
    → slab_of_class c ci off ≡ true
unfolding slab_of_class
slab_of_class_complete c ci off i pos lt above at =
    let rel : off - c.class_base_offset ≡ i * c.slab_size = omega arith in
    let unreserved = (reserved_iff ci i).1 above in
    rw (rel, back_rem i c.slab_size pos, back_index i c.slab_size pos, unreserved) (ground arith)

serving_class-word :
    (cs : List SizeClass) (len : ℕ) → len < u32_mod → serving_class cs len ≡ select_class cs len
unfolding serving_class
serving_class-word cs len lt = ground arith

-- There is one first class that fits.
Chosen-same :
    (cs : List SizeClass) (len ci : ℕ) (o : Option ℕ)
    → Chosen cs len (some ci)
    → Chosen cs len o
    → o ≡ some ci
Chosen-same cs len ci none c h = absurd (omega (arith, c.1, h ci c.0))
Chosen-same cs len ci (some k) c h = elim (dec_lt k ci) [
  | yes lt ↦ absurd (omega (arith, h.1, c.2 k lt))
  | no ge ↦ elim (dec_lt ci k) [
    | yes lt ↦ absurd (omega (arith, c.1, h.2 ci lt))
    | no le ↦ ap some (omega arith)
  ]
]

Chosen-select :
    (cs : List SizeClass) (len ci : ℕ) → Chosen cs len (some ci) → select_class cs len ≡ some ci
Chosen-select cs len ci c =
    Chosen-same cs len ci (select_class cs len) c (select_class-Chosen cs len)

-- For a stored length from 1 to 2^32 - 1, `slabInClass` accepts an offset exactly when it is where the
-- table puts a slab, other than slab 0 of class 0, of the first class that holds that length: the
-- slabs that an allocator over the same table grants for it.
pub slab_in_class_iff :
    (cs : List SizeClass) (off len : ℕ)
    → 0 < len
    → len < u32_mod
    → (slab_in_class cs off len ≡ true) ↔ Serves cs off len
unfolding slab_in_class
slab_in_class_iff cs off len pos word = (
  λ e. elim (Option-cases (serving_class cs len)) [
    | inl unserved ↦ absurd (ground arith)
    | inr (ci, served) ↦
        let chosen : Chosen cs len (some ci) =
          subst (Chosen cs len) (sym (serving_class-word cs len word) ∙ served)
            (select_class-Chosen cs len) in
        let (inside, above, at) =
          slab_of_class_sound (class_at cs ci) ci off (omega (arith, chosen.1))
            (rw (served, slab_in_class) at e) in
        record {
          ci = ci;
          index = (off - (class_at cs ci).class_base_offset) / (class_at cs ci).slab_size;
          chosen = chosen;
          index_in = inside;
          not_reserved = above;
          placed = at;
        }
  ],
  λ s.
      let served : serving_class cs len ≡ some s.ci =
        serving_class-word cs len word ∙ Chosen-select cs len s.ci s.chosen in
      rw (served, slab_in_class)
        (slab_of_class_complete (class_at cs s.ci) s.ci off s.index (omega (arith, s.chosen.1))
          s.index_in s.not_reserved s.placed),
)

too_long : (cs : List SizeClass) (len : ℕ) → u32_mod ≤ len → serving_class cs len ≡ none
unfolding serving_class
too_long cs len ge = ground arith

unserved : (cs : List SizeClass) (off len : ℕ) → u32_mod ≤ len → slab_in_class cs off len ≢ true
unfolding slab_in_class
unserved cs off len ge e = cc (rw (too_long cs len ge, slab_in_class) at e)

-- A longer payload is in no class.
pub slab_in_class-word :
    (cs : List SizeClass) (off len : ℕ) → slab_in_class cs off len ≡ true → len < u32_mod
unfolding slab_in_class
slab_in_class-word cs off len e = elim (dec_lt len u32_mod) [
  | yes lt ↦ lt
  | no ge ↦ absurd (unserved cs off len (omega arith) e)
]
