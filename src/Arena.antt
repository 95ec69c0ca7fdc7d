-- ===== src/Arena.antt =====
-- internal/arena: the slab allocator of one direction (sizeclass.go, slab.go, arena.go).
-- The arena never reads its bytes, so `mem_len` stands for the span, and the slice that Alloc
-- returns is given by its bounds. `free` is the LIFO stack with its top first.
pub mod Select
pub mod Pool
pub mod Invariant
pub mod Alloc
pub mod Grant
pub mod Free
pub mod RoundTrip
pub mod Span
pub mod Bounds
pub mod Mint
mod Tests
use styx.Base.{
  ℕ, zero, suc, ◌+◌, ◌-◌, ◌*◌, ◌%◌, ◌≡◌, Bool, true, false, not, Option, none, some, List, [], ◌∷◌,
  ltb, leb, ◌==◌, if◌then◌else◌, u32_mod, u64_mod, add64, sub64, length, get_or, set, replicate,
}
use styx.Geometry.{SizeClass, no_class}

-- The smallest class whose slabs hold `size`, scanned from class `i` on.
unfoldable pub select_from : ℕ → List SizeClass → ℕ → Option ℕ
select_from i [] size = none
select_from i (c ∷ cs) size = if leb size c.slab_size then some i else select_from (i + 1) cs size

unfoldable pub select_class : List SizeClass → ℕ → Option ℕ
unfolding select_from
select_class classes size = select_from 0 classes size

pub record SlabHandle : Type 0 where
  pub offset : ℕ
  pub handle_len : ℕ
  pub generation : ℕ
  pub sequence : ℕ
  pub class : ℕ
  pub index : ℕ
  pub owner : ℕ

pub record ClassState : Type 0 where
  pub free : List ℕ
  pub live_seq : List ℕ

pub record Arena : Type 0 where
  pub mem_len : ℕ
  pub classes : List SizeClass
  pub pools : List ClassState
  pub generation : ℕ
  pub next_seq : ℕ
  pub id : ℕ
  pub occupancy : ℕ

-- The slice `mem[low:high:high]`.
pub record Slice : Type 0 where
  pub low : ℕ
  pub high : ℕ

-- ErrExhausted, ErrTooLarge and ErrZeroLength.
pub data AllocError : Type 0 where
  exhausted too_large zero_length : AllocError

pub data AllocResult : Type 0 where
  allocated : SlabHandle → Slice → AllocResult
  refused : AllocError → AllocResult

-- `seq.Add(1)` until it is not 0; `none` is a loop that is still running.
unfoldable pub mint_arena_id : ℕ → ℕ → Option ℕ
mint_arena_id zero seq = none
mint_arena_id (suc fuel) seq =
    let id = add64 seq 1 in let again = mint_arena_id fuel id in if id == 0 then again else some id

-- `for i := n; i > first; i-- { push(i - 1) }`
unfoldable pub push_indices : ℕ → ℕ → List ℕ → List ℕ
push_indices first zero free = free
push_indices first (suc i) free =
    push_indices first i (if ltb first (suc i) then i ∷ free else free)

unfoldable pub new_class_state : SizeClass → Bool → ClassState
unfolding push_indices
new_class_state sc reserve_zero = record {
  free = push_indices (if reserve_zero then 1 else 0) sc.slab_count [];
  live_seq = replicate sc.slab_count 0;
}

-- The pools of the classes from one that is class 0 or not.
unfoldable pub new_pools : Bool → List SizeClass → List ClassState
unfolding new_class_state
new_pools is_zero [] = []
new_pools is_zero (c ∷ cs) = new_class_state c is_zero ∷ new_pools false cs

-- The running maximum of the class ends, in uint64.
unfoldable pub max_slab_extent : ℕ → List SizeClass → ℕ
max_slab_extent max_end [] = max_end
max_slab_extent max_end (c ∷ cs) =
    let end = add64 c.class_base_offset (c.slab_size * c.slab_count % u64_mod) in
    max_slab_extent (if ltb max_end end then end else max_end) cs

abbrev pub some_count_zero : List SizeClass → Bool
some_count_zero [] = false
some_count_zero (c ∷ cs) = if c.slab_count == 0 then true else some_count_zero cs

-- `none` is an error that wraps ErrBadConfig; `id` is what mint_arena_id returned.
unfoldable pub new : ℕ → List SizeClass → ℕ → ℕ → Option Arena
unfolding max_slab_extent new_pools
new mem_len [] generation id = none
new mem_len (c ∷ cs) generation id =
    if some_count_zero (c ∷ cs)
    then none
    else if ltb mem_len (max_slab_extent 0 (c ∷ cs))
    then none
    else some (record {
      mem_len = mem_len;
      classes = c ∷ cs;
      pools = new_pools true (c ∷ cs);
      generation = generation % u32_mod;
      next_seq = 1;
      id = id;
      occupancy = 0;
    })

abbrev pub no_pool : ClassState
no_pool = record { free = []; live_seq = [] }

-- The counter skips 0 when it wraps.
unfoldable pub after_seq : ℕ → ℕ
after_seq seq = let next = add64 seq 1 in if next == 0 then 1 else next

-- A slab of class `ci` taken from the top of its stack.
unfoldable pub take_slab : Arena → ℕ → ℕ → AllocResult × Arena
unfolding after_seq
take_slab a ci size =
    let pool = get_or a.pools ci no_pool in
    let sc = get_or a.classes ci no_class in
    elim (pool.free) [
      | [] ↦ (refused exhausted, a)
      | idx ∷ rest ↦ (
        allocated
            (record {
              offset = (sc.class_base_offset + idx * sc.slab_size % u32_mod) % u32_mod;
              handle_len = size;
              generation = a.generation;
              sequence = a.next_seq;
              class = ci;
              index = idx;
              owner = a.id;
            })
            (record {
              low = (sc.class_base_offset + idx * sc.slab_size % u32_mod) % u32_mod;
              high =
                  ((sc.class_base_offset + idx * sc.slab_size % u32_mod) % u32_mod + sc.slab_size)
                  % u32_mod;
            }),
        record a {
          pools =
              set a.pools ci (record { free = rest; live_seq = set pool.live_seq idx a.next_seq });
          next_seq = after_seq a.next_seq;
          occupancy = add64 a.occupancy sc.slab_size;
        },
      )
    ]

unfoldable pub alloc : ℕ → Arena → AllocResult × Arena
unfolding select_class take_slab
alloc size a = if size == 0 then (refused zero_length, a) else elim (select_class a.classes size) [
  | none ↦ (refused too_large, a)
  | some ci ↦ take_slab a ci size
]

-- The pool that a handle names, if its class and index are in range.
unfoldable pub locate : SlabHandle → Arena → Option ClassState
locate h a =
    if leb (length a.pools) h.class
    then none
    else if leb (get_or a.classes h.class no_class).slab_count h.index
    then none
    else some (get_or a.pools h.class no_pool)

-- `true` is the nil error, `false` an error that wraps ErrInvalidFree.
unfoldable pub free_slab : SlabHandle → Arena → Bool × Arena
unfolding locate
free_slab h a =
    if not (h.owner == a.id)
    then (false, a)
    else if not (h.generation == a.generation)
    then (false, a)
    else elim (locate h a) [
      | none ↦ (false, a)
      | some pool ↦
          let live = get_or pool.live_seq h.index 0 in
          if live == 0 then (false, a) else if not (live == h.sequence) then (false, a) else (
            true,
            record a {
              pools =
                  set a.pools h.class
                    (record { free = h.index ∷ pool.free; live_seq = set pool.live_seq h.index 0 });
              occupancy =
                  add64 a.occupancy
                    (u64_mod - 1 - sub64 (get_or a.classes h.class no_class).slab_size 1);
            },
          )
    ]

-- `true` is the nil error, `false` an error that wraps ErrStaleHandle.
unfoldable pub validate : SlabHandle → Arena → Bool
unfolding locate
validate h a =
    if not (h.owner == a.id)
    then false
    else if not (h.generation == a.generation)
    then false
    else if h.sequence == 0
    then false
    else elim (locate h a) [
      | none ↦ false
      | some pool ↦ get_or pool.live_seq h.index 0 == h.sequence
    ]
