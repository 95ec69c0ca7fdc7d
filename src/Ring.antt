-- ===== src/Ring.antt =====
-- internal/ring/ring.go: the single-producer/single-consumer descriptor ring.
-- One call at a time here; Ring/Interleave takes the calls apart into their loads and stores.
-- `head` and `tail` are the values of the two shared words.
pub mod Window
pub mod Valid
pub mod Queue
pub mod Refine
pub mod Interleave
mod Tests
use Prim.Native.Nat.{bit_and}
use styx.Base.{
  ℕ, ◌+◌, ◌-◌, ◌^◌, ◌≡◌, Bool, true, false, not, ◌||◌, Option, none, some, List, ltb, ◌==◌,
  if◌then◌else◌, add64, sub64, length, get_or, set,
}
use styx.Descriptor.{Descriptor, zero_descriptor}

abbrev pub min_capacity : ℕ
min_capacity = 64

abbrev pub max_capacity : ℕ
max_capacity = 2 ^ 20

-- The errors of Push: ErrFull and ErrCorrupt.
pub data PushError : Type 0 where
  full_ring corrupt_ring : PushError

pub data PeekStatus : Type 0 where
  peek_empty peek_ok peek_corrupt : PeekStatus

pub record Ring : Type 0 where
  pub slots : List Descriptor
  pub head : ℕ
  pub tail : ℕ
  pub mask : ℕ
  pub capacity : ℕ

-- `none` for the head or tail word is a nil pointer; a result of `none` is an error that wraps
-- ErrBadConfig.
unfoldable pub new : List Descriptor → Option ℕ → Option ℕ → ℕ → Option Ring
new slots head tail capacity =
    if ltb capacity min_capacity || ltb max_capacity capacity
    then none
    else if not (bit_and capacity (sub64 capacity 1) == 0)
    then none
    else if not (length slots == capacity)
    then none
    else elim head [
      | none ↦ none
      | some h ↦ elim tail [
        | none ↦ none
        | some t ↦
            some (record {
              slots = slots;
              head = h;
              tail = t;
              mask = capacity - 1;
              capacity = capacity;
            })
      ]
    ]

-- The physical slot of a sequence number.
abbrev pub slot_of : Ring → ℕ → ℕ
slot_of r n = bit_and n r.mask

-- `none` is the nil error.
unfoldable pub push : Descriptor → Ring → Option PushError × Ring
push d r =
    let depth = sub64 r.tail r.head in
    if ltb r.capacity depth
    then (some corrupt_ring, r)
    else if depth == r.capacity
    then (some full_ring, r)
    else (none, record r { slots = set r.slots (slot_of r r.tail) d; tail = add64 r.tail 1 })

unfoldable pub peek : Ring → Descriptor × PeekStatus
peek r =
    let depth = sub64 r.tail r.head in
    if ltb r.capacity depth
    then (zero_descriptor, peek_corrupt)
    else if depth == 0
    then (zero_descriptor, peek_empty)
    else (get_or r.slots (slot_of r r.head) zero_descriptor, peek_ok)

unfoldable pub advance : Ring → Ring
advance r = record r { head = add64 r.head 1 }

abbrev pub is_ok : PeekStatus → Bool
is_ok peek_ok = true
is_ok _ = false

unfoldable pub pop : Ring → Descriptor × Bool × Ring
unfolding peek advance
pop r =
    let (d, status) = peek r in
    if is_ok status then (d, true, advance r) else (zero_descriptor, false, r)

unfoldable pub len : Ring → ℕ
len r = sub64 r.tail r.head

unfoldable pub full : Ring → Bool
unfolding len
full r = len r == r.capacity

unfoldable pub empty : Ring → Bool
unfolding len
empty r = len r == 0
