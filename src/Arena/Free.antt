-- ===== src/Arena/Free.antt =====
-- Free and Validate: which handles they accept, and what Free changes.
use styx.Base.{
  ℕ, ◌-◌, ◌<◌, ◌≡◌, ◌≢◌, ◌↔◌, ◌⊎◌, ap, sym, ◌∙◌, arith, Bool, true, false, ◌&&◌, ◌∷◌, inl, inr,
  Bool-cases, ◌==◌, if◌then◌else◌, u64_mod, add64, sub64, length, set,
}
use styx.Arena.{Arena, SlabHandle, free_slab, validate}
use styx.Arena.Select.{class_at}
use styx.Arena.Pool.{IsPool, push-IsPool}
use styx.Arena.Invariant.{
  first_at, pool_at, IsArena, stamp, ArePools-at, ArePools-set, length-pools, reserved_bytes-stamp,
  stamp-set,
}

-- The handle is this arena's, of its generation, in range, and carries the stamp of a live slab.
pub record Names (h : SlabHandle) (a : Arena) : Type 0 where
  pub own : h.owner ≡ a.id
  pub current : h.generation ≡ a.generation
  pub class_in : h.class < length a.pools
  pub index_in : h.index < (class_at a.classes h.class).slab_count
  pub live : h.sequence ≢ 0
  pub match_stamp : stamp a h.class h.index ≡ h.sequence

-- The arena with the slab of `h` returned to its stack.
abbrev pub without_slab : SlabHandle → Arena → Arena
without_slab h a = record a {
  pools = set a.pools h.class (record {
    free = h.index ∷ (pool_at a.pools h.class).free;
    live_seq = set (pool_at a.pools h.class).live_seq h.index 0;
  });
  occupancy = add64 a.occupancy (u64_mod - 1 - sub64 (class_at a.classes h.class).slab_size 1);
}

pub free_accepts :
    (h : SlabHandle) (a : Arena) → Names h a → free_slab h a ≡ (true, without_slab h a)
unfolding free_slab
free_accepts h a n = ground arith

free_accepted : (h : SlabHandle) (a : Arena) → (free_slab h a).0 ≡ true → Names h a
unfolding free_slab
free_accepted h a e = ground arith

free_refused : (h : SlabHandle) (a : Arena) → (free_slab h a).0 ≡ false → (free_slab h a).1 ≡ a
unfolding free_slab
free_refused h a e = ground arith

pub validate_iff : (h : SlabHandle) (a : Arena) → (validate h a ≡ true) ↔ Names h a
unfolding validate
validate_iff h a = (λ e. ground arith, λ n. ground arith)

module _ {h : SlabHandle} {a : Arena} (ok : IsArena a) (n : Names h a) where
  class_lt : h.class < length a.classes
  class_lt = omega (arith, length-pools 1 a.classes a.pools ok.pools_ok, n.class_in)

  pool_at-IsPool :
      IsPool (first_at 1 h.class) (class_at a.classes h.class).slab_count (pool_at a.pools h.class)
  pool_at-IsPool = ArePools-at 1 a.classes a.pools h.class ok.pools_ok class_lt

  slab_lt : h.index < length (pool_at a.pools h.class).live_seq
  slab_lt = omega (arith, pool_at-IsPool.stamps, n.index_in)

  is_live : stamp a h.class h.index ≢ 0
  is_live e = n.live (sym n.match_stamp ∙ e)

  without_slab-IsArena : IsArena (without_slab h a)
  without_slab-IsArena = record {
    pools_ok =
        ArePools-set 1 a.classes a.pools h.class _ ok.pools_ok class_lt
          (push-IsPool pool_at-IsPool h.index n.index_in is_live);
    seq_ok = ok.seq_ok;
    counted = ground (
      arith,
      ok.counted,
      is_live,
      reserved_bytes-stamp a.classes a.pools h.class h.index 0
          (h.index ∷ (pool_at a.pools h.class).free) class_lt n.class_in slab_lt,
    );
  }

  stamps_without :
      (c i : ℕ)
      → stamp (without_slab h a) c i ≡ (if c == h.class && i == h.index then 0 else stamp a c i)
  stamps_without c i =
      stamp-set a.pools h.class h.index 0 (h.index ∷ (pool_at a.pools h.class).free) c i n.class_in
        slab_lt

-- Free and Validate accept the same handles: exactly those of this arena and generation, in range,
-- that carry the stamp of a live slab. A refused Free changes nothing.
pub free_iff :
    (h : SlabHandle) (a : Arena)
    → (((free_slab h a).0 ≡ true) ↔ Names h a)
      × (((validate h a) ≡ true) ↔ Names h a)
      × (((free_slab h a).0 ≡ true) ⊎ ((free_slab h a).1 ≡ a))
free_iff h a = (
  (free_accepted h a, λ n. ap (λ (r : Bool × Arena). r.0) (free_accepts h a n)),
  validate_iff h a,
  elim (Bool-cases (free_slab h a).0) [ inl e ↦ inl e | inr e ↦ inr (free_refused h a e) ],
)

-- An accepted Free keeps the arena's invariant, clears the stamp of the slab that the handle names
-- and leaves every other stamp.
pub free_lem :
    (h : SlabHandle) (a : Arena)
    → IsArena a
    → (free_slab h a).0 ≡ true
    → IsArena (free_slab h a).1
      × ((c i : ℕ)
          → stamp (free_slab h a).1 c i ≡ (if c == h.class && i == h.index then 0 else stamp a c i))
free_lem h a ok e =
    let n : Names h a = free_accepted h a e in
    rw (free_accepts h a n) (without_slab-IsArena ok n, stamps_without ok n)

not_named :
    (h : SlabHandle) (a : Arena)
    → ¬ Names h a
    → (free_slab h a ≡ (false, a)) × (validate h a ≡ false)
not_named h a gone = (
  elim (Bool-cases (free_slab h a).0) [
    | inl e ↦ absurd (gone (free_accepted h a e))
    | inr e ↦ λ i. (e i, free_refused h a e i)
  ],
  elim (Bool-cases (validate h a)) [ inl e ↦ absurd (gone ((validate_iff h a).0 e)) | inr e ↦ e ],
)

-- After an accepted Free of a handle, a second Free of it is refused and changes nothing, and
-- Validate refuses it too.
pub double_free_refused :
    (h : SlabHandle) (a : Arena)
    → IsArena a
    → (free_slab h a).0 ≡ true
    → (free_slab h (free_slab h a).1 ≡ (false, (free_slab h a).1))
      × (validate h (free_slab h a).1 ≡ false)
double_free_refused h a ok e =
    let a' : Arena = (free_slab h a).1 in
    let n : Names h a = free_accepted h a e in
    let dead : stamp a' h.class h.index ≡ 0 =
      (free_lem h a ok e).1 h.class h.index ∙ ground arith in
    not_named h a' (λ m. n.live (sym m.match_stamp ∙ dead))
