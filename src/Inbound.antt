-- ===== src/Inbound.antt =====
-- internal/transport/shm/transport.go: the checks of an inbound descriptor, which the peer has written,
-- before its payload is delivered: classify, payloadBytes, servingClass and slabInClass. hash/crc32 is
-- a parameter.
pub mod Slabs
pub mod Delivery
mod Tests
use Prim.Native.Nat.{bit_and}
use styx.Base.{
  ℕ, ◌+◌, ◌-◌, ◌*◌, ◌/◌, ◌%◌, ◌^◌, Bool, true, false, not, ◌&&◌, ◌||◌, Option, none, some, List, [],
  ltb, leb, ◌==◌, if◌then◌else◌, u32_mod,
}
use styx.Base.Maybe.{◌>>=◌, ◌>>◌, guard}
use styx.Base.Bytes.{Bytes}
use styx.Base.Int.{ℤ, pos, negsuc}
use styx.Base.Memory.{Memory, load, copy_out}
use styx.Geometry.{SizeClass, class_at}
use styx.Arena.{select_class}
use styx.Descriptor.{
  Descriptor, flags, kind, kind_word, budget_ns, payload_offset, payload_length, alloc_seq,
}

abbrev pub flag_crc32c_present : ℕ
flag_crc32c_present = 4

abbrev pub crc32_trailer_len : ℕ
crc32_trailer_len = 4

-- transport.FrameKind
pub data TransportKind : Type 0 where
  unary_req : TransportKind
  unary_resp : TransportKind
  cancel : TransportKind
  stream_open : TransportKind
  stream_msg : TransportKind
  stream_ack : TransportKind
  stream_close : TransportKind
  stream_err : TransportKind
  unary_err : TransportKind
  stream_chunk : TransportKind

-- ring.FrameKind
abbrev kind_unary_req : ℕ
kind_unary_req = 0

abbrev kind_unary_resp : ℕ
kind_unary_resp = 1

abbrev kind_cancel : ℕ
kind_cancel = 2

abbrev kind_stream_open : ℕ
kind_stream_open = 3

abbrev kind_stream_msg : ℕ
kind_stream_msg = 4

abbrev kind_stream_ack : ℕ
kind_stream_ack = 5

abbrev kind_stream_close : ℕ
kind_stream_close = 6

abbrev kind_stream_err : ℕ
kind_stream_err = 7

abbrev kind_unary_err : ℕ
kind_unary_err = 8

abbrev kind_stream_chunk : ℕ
kind_stream_chunk = 9

-- The transport's kind for a ring kind, and whether it is descriptor-only.
unfoldable pub unmap_kind : ℕ → Bool → Option (TransportKind × Bool)
unmap_kind k chunking_active =
    if k == kind_unary_req
    then some (TransportKind.unary_req, false)
    else if k == kind_unary_resp
    then some (TransportKind.unary_resp, false)
    else if k == kind_unary_err
    then some (TransportKind.unary_err, false)
    else if k == kind_cancel
    then some (TransportKind.cancel, true)
    else if k == kind_stream_open
    then some (TransportKind.stream_open, false)
    else if k == kind_stream_msg
    then some (TransportKind.stream_msg, false)
    else if k == kind_stream_ack
    then some (TransportKind.stream_ack, true)
    else if k == kind_stream_close
    then some (TransportKind.stream_close, false)
    else if k == kind_stream_err
    then some (TransportKind.stream_err, false)
    else if k == kind_stream_chunk
    then (if not chunking_active then none else some (TransportKind.stream_chunk, false))
    else none

-- Go's `x &^ y`.
abbrev pub and_not : ℕ → ℕ → ℕ
and_not x y = x - bit_and x y

abbrev is_negative : ℤ → Bool
is_negative (pos n) = false
is_negative (negsuc n) = true

-- `none` is errBadFrame.
unfoldable pub classify : Bool → Bool → Descriptor → Option (TransportKind × Bool)
unfolding unmap_kind
classify checksum chunking_active d = do
  let allowed = if checksum then flag_crc32c_present else 0
  guard (and_not (flags d) allowed == 0)
  guard (kind_word d / 2 ^ 8 == 0)
  known ← unmap_kind (kind d) chunking_active
  guard (not (is_negative (budget_ns d)))
  guard (
      not (
        known.1
        && not
            (flags d == 0 && payload_offset d == 0 && payload_length d == 0 && alloc_seq d == 0)))
  some known

unfoldable pub serving_class : List SizeClass → ℕ → Option ℕ
serving_class classes stored_len =
    if ltb (u32_mod - 1) stored_len then none else select_class classes stored_len

-- `off` is slab `idx` of class `ci` for some `idx`, and not slab 0 of class 0.
unfoldable pub slab_of_class : SizeClass → ℕ → ℕ → Bool
slab_of_class c ci off =
    let rel = off - c.class_base_offset in
    let idx = rel / c.slab_size in
    if ltb off c.class_base_offset
    then false
    else if not (rel % c.slab_size == 0)
    then false
    else if leb c.slab_count idx
    then false
    else if ci == 0 && idx == 0
    then false
    else true

unfoldable pub slab_in_class : List SizeClass → ℕ → ℕ → Bool
unfolding serving_class slab_of_class
slab_in_class classes off stored_len = elim (serving_class classes stored_len) [
  | none ↦ false
  | some ci ↦ slab_of_class (class_at classes ci) ci off
]

-- errBadFrame or errChecksum; or the payload, and whether it is a view of the arena.
pub data Payload : Type 0 where
  bad_frame : Payload
  bad_checksum : Payload
  delivered : (bytes : Bytes) (is_view : Bool) → Payload

-- What a transport knows of its inbound direction.
pub record InboundSide : Type 0 where
  pub max_recv_payload : ℕ
  pub inbound_classes : List SizeClass
  pub arena_bytes : Memory
  pub checksum_of : Bytes → ℕ

unfoldable pub has_crc : Descriptor → Bool
has_crc d = not (bit_and (flags d) flag_crc32c_present == 0)

-- The payload's length with the trailer's, if there is one.
unfoldable pub stored_length : Descriptor → ℕ
unfolding has_crc
stored_length d = payload_length d + (if has_crc d then crc32_trailer_len else 0)

-- The bytes of a slab that has passed the checks.
unfoldable pub read_slab : InboundSide → Bool → Descriptor → Payload
unfolding has_crc
read_slab t view_wanted d =
    let payload = copy_out (payload_offset d) (payload_length d) t.arena_bytes in
    if has_crc d
    then (if t.checksum_of payload
          == load (payload_offset d + payload_length d) crc32_trailer_len t.arena_bytes
        then delivered payload false
        else bad_checksum)
    else delivered payload view_wanted

unfoldable pub payload_bytes : InboundSide → Bool → Descriptor → Payload
unfolding stored_length slab_in_class read_slab
payload_bytes t view_wanted d =
    if stored_length d == 0
    then (if not (payload_offset d == 0) || not (alloc_seq d == 0)
        then bad_frame
        else delivered [] false)
    else if payload_offset d == 0 || alloc_seq d == 0
    then bad_frame
    else if ltb t.max_recv_payload (payload_length d)
    then bad_frame
    else if not (slab_in_class t.inbound_classes (payload_offset d) (stored_length d))
    then bad_frame
    else read_slab t view_wanted d
