-- ===== src/Descriptor/Fields.antt =====
-- The fields of a descriptor do not overlap: each accessor reads what its setter stored, whatever
-- other setters ran after it.
use styx.Base.{ℕ, ◌+◌, ◌<◌, ◌≤◌, ◌≡◌, ◌↔◌, ◌∙◌, arith, true, ap}
use styx.Base.Bytes.{
  read_at, write_at, span, length-write_at, read_at-write_at, read_at-write_at_ne, AllBytes,
  read_at-lt, low_byte,
}
use styx.Base.Int.{ℤ, to_int64, of_int64, IsInt64, to_int64-of_int64, of_int64-lt}
use styx.Descriptor.{
  Descriptor, IsSlot, call_id, set_call_id, service_id, set_service_id, method_id, set_method_id,
  payload_offset, set_payload_offset, payload_length, set_payload_length, alloc_seq, set_alloc_seq,
  budget_ns, set_budget_ns, kind, kind_word, set_kind, flags, set_flags, generation, set_generation,
  reserved, set_reserved, payload_in_bounds,
}

-- The values that a descriptor carries, as Go types them.
pub record Values : Type 0 where
  pub call : ℕ
  pub service : ℕ
  pub method : ℕ
  pub offset : ℕ
  pub len : ℕ
  pub seq : ℕ
  pub budget : ℤ
  pub frame_kind : ℕ
  pub flag_bits : ℕ
  pub gen : ℕ
  pub word : ℕ

-- The range of each setter's parameter type.
pub record InRange (v : Values) : Type 0 where
  pub call_fits : v.call < span 8
  pub service_fits : v.service < span 8
  pub method_fits : v.method < span 8
  pub offset_fits : v.offset < span 4
  pub len_fits : v.len < span 4
  pub seq_fits : v.seq < span 8
  pub budget_fits : IsInt64 v.budget
  pub kind_fits : v.frame_kind < 256
  pub flags_fit : v.flag_bits < span 2
  pub gen_fits : v.gen < span 4
  pub word_fits : v.word < span 8

-- Every field through its accessor.
pub fetch : Descriptor → Values
unfolding call_id service_id method_id payload_offset payload_length alloc_seq budget_ns kind flags
    generation reserved
fetch d = record {
  call = call_id d;
  service = service_id d;
  method = method_id d;
  offset = payload_offset d;
  len = payload_length d;
  seq = alloc_seq d;
  budget = budget_ns d;
  frame_kind = kind d;
  flag_bits = flags d;
  gen = generation d;
  word = reserved d;
}

ruleset field_laws = (arith, read_at-write_at_ne, read_at-write_at, length-write_at)

-- A setter keeps the slot's size, and changes its own field alone.
module _ (d : Descriptor) (slot : IsSlot d) where
  pub fetch-set_call_id :
      (v : ℕ)
      → v < span 8
      → (fetch (set_call_id v d) ≡ record (fetch d) { call = v }) × IsSlot (set_call_id v d)
  unfolding fetch set_call_id
  fetch-set_call_id v h = grind field_laws

  pub fetch-set_service_id :
      (v : ℕ)
      → v < span 8
      → (fetch (set_service_id v d) ≡ record (fetch d) { service = v })
        × IsSlot (set_service_id v d)
  unfolding fetch set_service_id
  fetch-set_service_id v h = grind field_laws

  pub fetch-set_method_id :
      (v : ℕ)
      → v < span 8
      → (fetch (set_method_id v d) ≡ record (fetch d) { method = v }) × IsSlot (set_method_id v d)
  unfolding fetch set_method_id
  fetch-set_method_id v h = grind field_laws

  pub fetch-set_payload_offset :
      (v : ℕ)
      → v < span 4
      → (fetch (set_payload_offset v d) ≡ record (fetch d) { offset = v })
        × IsSlot (set_payload_offset v d)
  unfolding fetch set_payload_offset
  fetch-set_payload_offset v h = grind field_laws

  pub fetch-set_payload_length :
      (v : ℕ)
      → v < span 4
      → (fetch (set_payload_length v d) ≡ record (fetch d) { len = v })
        × IsSlot (set_payload_length v d)
  unfolding fetch set_payload_length
  fetch-set_payload_length v h = grind field_laws

  pub fetch-set_alloc_seq :
      (v : ℕ)
      → v < span 8
      → (fetch (set_alloc_seq v d) ≡ record (fetch d) { seq = v }) × IsSlot (set_alloc_seq v d)
  unfolding fetch set_alloc_seq
  fetch-set_alloc_seq v h = grind field_laws

  pub fetch-set_flags :
      (v : ℕ)
      → v < span 2
      → (fetch (set_flags v d) ≡ record (fetch d) { flag_bits = v }) × IsSlot (set_flags v d)
  unfolding fetch set_flags
  fetch-set_flags v h = grind field_laws

  pub fetch-set_generation :
      (v : ℕ)
      → v < span 4
      → (fetch (set_generation v d) ≡ record (fetch d) { gen = v }) × IsSlot (set_generation v d)
  unfolding fetch set_generation
  fetch-set_generation v h = grind field_laws

  pub fetch-set_reserved :
      (v : ℕ)
      → v < span 8
      → (fetch (set_reserved v d) ≡ record (fetch d) { word = v }) × IsSlot (set_reserved v d)
  unfolding fetch set_reserved
  fetch-set_reserved v h = grind field_laws

  pub fetch-set_budget_ns :
      (v : ℤ)
      → IsInt64 v
      → (fetch (set_budget_ns v d) ≡ record (fetch d) { budget = v }) × IsSlot (set_budget_ns v d)
  unfolding fetch set_budget_ns
  fetch-set_budget_ns v h =
      let e : read_at 40 8 (write_at 40 8 (of_int64 v) d.raw) ≡ of_int64 v =
        read_at-write_at 40 8 (of_int64 v) d.raw (omega arith) (of_int64-lt v) in
      let b : to_int64 (read_at 40 8 (write_at 40 8 (of_int64 v) d.raw)) ≡ v =
        ap to_int64 e ∙ to_int64-of_int64 v h in
      grind field_laws

  pub fetch-set_kind :
      (v : ℕ)
      → v < 256
      → (fetch (set_kind v d) ≡ record (fetch d) { frame_kind = v })
        × IsSlot (set_kind v d)
        × (kind_word (set_kind v d) ≡ v)
  unfolding fetch set_kind kind_word
  fetch-set_kind v h = grind (field_laws, low_byte)

-- What each of the eleven setters does to the fields of `d`, for the values `v`.
abbrev pub SettersExact : Descriptor → Values → Type 0
SettersExact d v =
    (fetch (set_call_id v.call d) ≡ record (fetch d) { call = v.call })
    × (fetch (set_service_id v.service d) ≡ record (fetch d) { service = v.service })
    × (fetch (set_method_id v.method d) ≡ record (fetch d) { method = v.method })
    × (fetch (set_payload_offset v.offset d) ≡ record (fetch d) { offset = v.offset })
    × (fetch (set_payload_length v.len d) ≡ record (fetch d) { len = v.len })
    × (fetch (set_alloc_seq v.seq d) ≡ record (fetch d) { seq = v.seq })
    × (fetch (set_budget_ns v.budget d) ≡ record (fetch d) { budget = v.budget })
    × (fetch (set_kind v.frame_kind d) ≡ record (fetch d) { frame_kind = v.frame_kind })
    × (fetch (set_flags v.flag_bits d) ≡ record (fetch d) { flag_bits = v.flag_bits })
    × (fetch (set_generation v.gen d) ≡ record (fetch d) { gen = v.gen })
    × (fetch (set_reserved v.word d) ≡ record (fetch d) { word = v.word })

-- Storing into one field of a 64-byte descriptor reads back as stored, and leaves every other field
-- as it was; for each of the eleven setters, at values of its type.
pub setters_exact : (d : Descriptor) (v : Values) → IsSlot d → InRange v → SettersExact d v
setters_exact d v slot h = (
  (fetch-set_call_id d slot v.call h.call_fits).0,
  (fetch-set_service_id d slot v.service h.service_fits).0,
  (fetch-set_method_id d slot v.method h.method_fits).0,
  (fetch-set_payload_offset d slot v.offset h.offset_fits).0,
  (fetch-set_payload_length d slot v.len h.len_fits).0,
  (fetch-set_alloc_seq d slot v.seq h.seq_fits).0,
  (fetch-set_budget_ns d slot v.budget h.budget_fits).0,
  (fetch-set_kind d slot v.frame_kind h.kind_fits).0,
  (fetch-set_flags d slot v.flag_bits h.flags_fit).0,
  (fetch-set_generation d slot v.gen h.gen_fits).0,
  (fetch-set_reserved d slot v.word h.word_fits).0,
)

-- For a descriptor of bytes, `payload_in_bounds d size` is true exactly when the offset plus the
-- length, as plain numbers with no wrap-around, is at most `size`.
pub payload_in_bounds_iff :
    (d : Descriptor) (size : ℕ)
    → AllBytes d.raw
    → (payload_in_bounds d size ≡ true) ↔ (payload_offset d + payload_length d ≤ size)
unfolding payload_in_bounds payload_offset payload_length
payload_in_bounds_iff d size bytes =
    let o : read_at 24 4 d.raw < span 4 = read_at-lt 24 4 d.raw bytes in
    let l : read_at 28 4 d.raw < span 4 = read_at-lt 28 4 d.raw bytes in ground arith
