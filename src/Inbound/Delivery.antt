-- ===== src/Inbound/Delivery.antt =====
-- A payload is delivered from inside one slab of the inbound arena, and a slab that the sender was
-- granted is accepted.
use styx.Base.{
  ℕ, ◌+◌, ◌≤◌, ◌<◌, ◌≡◌, ◌≢◌, ◌⊎◌, inl, inr, sym, arith, Bool, true, false, not, ◌||◌, if-cases,
  not-false, ==_iff, List, [], ltb, ◌==◌, u32_mod,
}
use styx.Base.Bytes.{Bytes}
use styx.Base.Memory.{copy_out, load}
use styx.Geometry.{SizeClass}
use styx.Geometry.Tables.{IsTiled}
use styx.Geometry.Tiles.{slab_inside}
use styx.Descriptor.{Descriptor, payload_offset, payload_length, alloc_seq}
use styx.Arena.{Arena, SlabHandle, Slice, allocated, alloc}
use styx.Arena.Invariant.{IsArena}
use styx.Arena.Grant.{AllocSpec, alloc_lem}
use styx.Arena.Bounds.{IsSpan, alloc_in_bounds}
use styx.Inbound.{
  InboundSide, delivered, has_crc, stored_length, slab_in_class, read_slab, payload_bytes,
  crc32_trailer_len,
}
use styx.Inbound.Slabs.{Serves, slab_in_class_iff, slab_in_class-word}

-- What may be delivered: nothing, with no slab named; or the bytes of a slab that serves the stored
-- length and holds it, inside the arena, under the limit, checked if a checksum is carried and then
-- never as a view.
abbrev pub DeliveredFrom : InboundSide → ℕ → Bool → Descriptor → Bytes → Bool → Type 0
DeliveredFrom t mem_len view_wanted d bytes is_view =
    ((stored_length d ≡ 0) × (bytes ≡ []) × (payload_offset d ≡ 0) × (alloc_seq d ≡ 0))
    ⊎ ((bytes ≡ copy_out (payload_offset d) (payload_length d) t.arena_bytes)
        × (payload_length d ≤ t.max_recv_payload)
        × (alloc_seq d ≢ 0)
        × Serves t.inbound_classes (payload_offset d) (stored_length d)
        × (payload_offset d + stored_length d ≤ mem_len)
        × (((has_crc d ≡ false) × (is_view ≡ view_wanted))
            ⊎ ((is_view ≡ false)
                × (t.checksum_of bytes
                    ≡ load (payload_offset d + payload_length d) crc32_trailer_len t.arena_bytes))))

delivered_inj : {xs ys : Bytes} {a b : Bool} → delivered xs a ≡ delivered ys b → (xs ≡ ys) × (a ≡ b)
delivered_inj e = (cc, cc)

-- A slab that serves a length holds it inside the span.
served_inside :
    (cs : List SizeClass) (off len end : ℕ) → IsTiled 0 cs end → Serves cs off len → off + len ≤ end
served_inside cs off len end tiled s =
    omega (arith, s.placed, s.chosen.1, slab_inside cs end tiled s.ci s.index s.chosen.0 s.index_in)

read_slab-delivered :
    (t : InboundSide) (view_wanted : Bool) (d : Descriptor) (bytes : Bytes) (is_view : Bool)
    → read_slab t view_wanted d ≡ delivered bytes is_view
    → (bytes ≡ copy_out (payload_offset d) (payload_length d) t.arena_bytes)
      × (((has_crc d ≡ false) × (is_view ≡ view_wanted))
          ⊎ ((is_view ≡ false)
              × (t.checksum_of bytes
                  ≡ load (payload_offset d + payload_length d) crc32_trailer_len t.arena_bytes)))
unfolding read_slab
read_slab-delivered t view_wanted d bytes is_view e = elim (if-cases (has_crc d) _ _ e) [
  | inl (carried, e1) ↦
      elim (if-cases (t.checksum_of _ == load _ crc32_trailer_len t.arena_bytes) _ _ e1) [
        | inl (agreed, e2) ↦
            let (same, view) = delivered_inj e2 in
            (sym same, inr (sym view, rw (← same) ((==_iff _ _).0 agreed)))
        | inr (torn, e2) ↦ absurd (cc e2)
      ]
  | inr (plain, e1) ↦ let (same, view) = delivered_inj e1 in (sym same, inl (plain, sym view))
]

-- The last branch of `payloadBytes`.
slab-DeliveredFrom :
    (t : InboundSide) (view_wanted : Bool) (d : Descriptor) (bytes : Bytes) (is_view : Bool)
    (end mem_len : ℕ)
    → IsTiled 0 t.inbound_classes end
    → end ≤ mem_len
    → payload_length d ≤ t.max_recv_payload
    → (payload_offset d == 0 || alloc_seq d == 0) ≡ false
    → 0 < stored_length d
    → slab_in_class t.inbound_classes (payload_offset d) (stored_length d) ≡ true
    → read_slab t view_wanted d ≡ delivered bytes is_view
    → DeliveredFrom t mem_len view_wanted d bytes is_view
slab-DeliveredFrom t view_wanted d bytes is_view end mem_len tiled fits within named full accepted
      e =
    let word = slab_in_class-word t.inbound_classes (payload_offset d) (stored_length d) accepted in
    let serves =
      (slab_in_class_iff t.inbound_classes (payload_offset d) (stored_length d) full word).0
        accepted in
    let inside =
      served_inside t.inbound_classes (payload_offset d) (stored_length d) end tiled serves in
    let (same, checked) = read_slab-delivered t view_wanted d bytes is_view e in
    inr (same, within, (λ z. absurd (ground arith)), serves, omega (arith, fits, inside), checked)

-- When `payloadBytes` of any descriptor that the peer has written yields a payload, on a side whose
-- table tiles the first `end` bytes of an arena of `mem_len`: either the stored length (with the checksum's trailer) is 0
-- and the descriptor names no slab; or the payload is the arena's bytes at its offset, within the
-- limit, and the stored length lies inside one slab, not the reserved one, of the first class that
-- fits it, inside the arena; and a payload with a checksum agrees with it and is not a view.
pub payload_bytes-DeliveredFrom :
    (t : InboundSide) (view_wanted : Bool) (d : Descriptor) (bytes : Bytes) (is_view : Bool)
    (end mem_len : ℕ)
    → IsTiled 0 t.inbound_classes end
    → end ≤ mem_len
    → payload_bytes t view_wanted d ≡ delivered bytes is_view
    → DeliveredFrom t mem_len view_wanted d bytes is_view
unfolding payload_bytes
payload_bytes-DeliveredFrom t view_wanted d bytes is_view end mem_len tiled fits e =
    elim (if-cases (stored_length d == 0) _ _ e) [
      | inl (empty, e1) ↦
          elim (if-cases (not (payload_offset d == 0) || not (alloc_seq d == 0)) _ _ e1) [
            | inl (named, e2) ↦ absurd (cc e2)
            | inr (unnamed, e2) ↦
                let (same, view) = delivered_inj e2 in
                inl (ground arith, sym same, ground arith, ground arith)
          ]
      | inr (full, e1) ↦ elim (if-cases (payload_offset d == 0 || alloc_seq d == 0) _ _ e1) [
        | inl (unnamed, e2) ↦ absurd (cc e2)
        | inr (named, e2) ↦ elim (if-cases (ltb t.max_recv_payload (payload_length d)) _ _ e2) [
          | inl (large, e3) ↦ absurd (cc e3)
          | inr (within, e3) ↦
              elim (if-cases
                (not (slab_in_class t.inbound_classes (payload_offset d) (stored_length d))) _ _
                e3) [
                  | inl (outside, e4) ↦ absurd (cc e4)
                  | inr (inside, e4) ↦
                      slab-DeliveredFrom t view_wanted d bytes is_view end mem_len tiled fits
                        (ground arith) named (ground arith) (not-false _ inside) e4
                ]
        ]
      ]
    ]

-- The slab that a sender's arena grants for a stored length passes the receiver's `slabInClass` over
-- the same table, at the offset in the handle; for a valid arena over a built table.
pub slab_in_class-alloc :
    (size : ℕ) (a : Arena) (h : SlabHandle) (s : Slice)
    → IsArena a
    → IsSpan a
    → size < u32_mod
    → (alloc size a).0 ≡ allocated h s
    → slab_in_class a.classes h.offset size ≡ true
slab_in_class-alloc size a h s ok span word e =
    let spec : AllocSpec size a (allocated h s) (alloc size a).1 = rw e at (alloc_lem size a ok) in
    let place = alloc_in_bounds size a h s ok span e in
    (slab_in_class_iff a.classes h.offset size (omega (arith, spec.0)) word).1 (record {
      ci = h.class;
      index = h.index;
      chosen = spec.1.chosen;
      index_in = spec.1.index_in;
      not_reserved = spec.1.not_reserved;
      placed = place.at_slab;
    })
