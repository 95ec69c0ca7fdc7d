-- ===== src/Inbound/Tests.antt =====
-- An inbound direction over an arena of two classes, at concrete inputs.
use styx.Base.{◌%◌, ◌≡◌, refl, arith, true, List, [], ◌∷◌, ◌++◌, replicate}
use styx.Base.Bytes.{read_at}
use styx.Base.Memory.{copy_out}
use styx.Geometry.{SizeClass}
use styx.Geometry.Tables.{IsTiled}
use styx.Descriptor.{Descriptor, payload_offset, payload_length, alloc_seq, flags}
use styx.Arena.{Arena, SlabHandle, Slice, allocated, alloc, new_pools, select_class}
use styx.Arena.Bounds.{IsSpan}
use styx.Arena.Span.{fresh_arena, fresh-IsArena}
use styx.Inbound.{InboundSide, delivered, payload_bytes, slab_in_class}
use styx.Inbound.Delivery.{DeliveredFrom, payload_bytes-DeliveredFrom, slab_in_class-alloc}

abbrev classes : List SizeClass
classes =
    record { slab_size = 64; slab_count = 3; class_base_offset = 0 }
    ∷ record { slab_size = 4096; slab_count = 2; class_base_offset = 192 }
    ∷ []

abbrev side : InboundSide
side = record {
  max_recv_payload = 4000;
  inbound_classes = classes;
  arena_bytes = λ k. k % 256;
  checksum_of = λ bytes. 0;
}

-- 5 bytes at offset 64.
abbrev named : Descriptor
named = record {
  raw = replicate 24 0 ++ (64 ∷ 0 ∷ 0 ∷ 0 ∷ 5 ∷ 0 ∷ 0 ∷ 0 ∷ 1 ∷ []) ++ replicate 31 0;
}

named-delivered : payload_bytes side true named ≡ delivered (64 ∷ 65 ∷ 66 ∷ 67 ∷ 68 ∷ []) true
unfolding payload_bytes payload_offset payload_length alloc_seq flags read_at select_class copy_out
named-delivered = refl

classes-IsTiled : IsTiled 0 classes 8384
classes-IsTiled = (refl, (refl, refl))

payload_bytes-DeliveredFrom_example :
    DeliveredFrom side 12288 true named (64 ∷ 65 ∷ 66 ∷ 67 ∷ 68 ∷ []) true
payload_bytes-DeliveredFrom_example =
    payload_bytes-DeliveredFrom side true named (64 ∷ 65 ∷ 66 ∷ 67 ∷ 68 ∷ []) true 8384 12288
      classes-IsTiled (omega arith) named-delivered

abbrev fresh : Arena
fresh = fresh_arena 12288 classes 1 7

-- The first grant of 40 bytes: slab 1 of class 0.
abbrev granted : SlabHandle
granted = record {
  offset = 64;
  handle_len = 40;
  generation = 1;
  sequence = 1;
  class = 0;
  index = 1;
  owner = 7;
}

abbrev granted_bytes : Slice
granted_bytes = record { low = 64; high = 128 }

fresh_span : IsSpan fresh
fresh_span = record {
  table = ((omega arith, refl, omega arith, (omega arith, refl, omega arith, tt)), omega arith);
  end = 8384;
  tiled = classes-IsTiled;
  inside = omega arith;
  addressable = omega arith;
}

fresh_granted : (alloc 40 fresh).0 ≡ allocated granted granted_bytes
unfolding alloc new_pools
fresh_granted = refl

slab_in_class-alloc_example : slab_in_class classes 64 40 ≡ true
slab_in_class-alloc_example =
    slab_in_class-alloc 40 fresh granted granted_bytes (fresh-IsArena 12288 classes 1 7) fresh_span
      (omega arith) fresh_granted
