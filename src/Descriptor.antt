-- ===== src/Descriptor.antt =====
-- internal/ring/descriptor.go: the 64-byte ring slot and its little-endian accessors.
-- `raw` is the [64]byte array; an accessor reads or writes the bytes at its field's offset.
pub mod Fields
mod Tests
use styx.Base.{ℕ, ◌+◌, ◌≡◌, Bool, add64, leb, length, replicate}
use styx.Base.Bytes.{Bytes, read_at, write_at}
use styx.Base.Int.{ℤ, to_int64, of_int64}

pub record Descriptor : Type 0 where
  pub raw : Bytes

-- `Descriptor{}`
abbrev pub zero_descriptor : Descriptor
zero_descriptor = record { raw = replicate 64 0 }

-- The array has 64 elements.
abbrev pub IsSlot : Descriptor → Type 0
IsSlot d = length d.raw ≡ 64

abbrev pub call_id_offset : ℕ
call_id_offset = 0

abbrev pub service_id_offset : ℕ
service_id_offset = 8

abbrev pub method_id_offset : ℕ
method_id_offset = 16

abbrev pub payload_offset_offset : ℕ
payload_offset_offset = 24

abbrev pub payload_length_offset : ℕ
payload_length_offset = 28

abbrev pub alloc_seq_offset : ℕ
alloc_seq_offset = 32

abbrev pub budget_ns_offset : ℕ
budget_ns_offset = 40

abbrev pub kind_offset : ℕ
kind_offset = 48

abbrev pub flags_offset : ℕ
flags_offset = 50

abbrev pub generation_offset : ℕ
generation_offset = 52

abbrev pub reserved_offset : ℕ
reserved_offset = 56

unfoldable pub call_id : Descriptor → ℕ
call_id d = read_at call_id_offset 8 d.raw

unfoldable pub set_call_id : ℕ → Descriptor → Descriptor
set_call_id v d = record { raw = write_at call_id_offset 8 v d.raw }

unfoldable pub service_id : Descriptor → ℕ
service_id d = read_at service_id_offset 8 d.raw

unfoldable pub set_service_id : ℕ → Descriptor → Descriptor
set_service_id v d = record { raw = write_at service_id_offset 8 v d.raw }

unfoldable pub method_id : Descriptor → ℕ
method_id d = read_at method_id_offset 8 d.raw

unfoldable pub set_method_id : ℕ → Descriptor → Descriptor
set_method_id v d = record { raw = write_at method_id_offset 8 v d.raw }

unfoldable pub payload_offset : Descriptor → ℕ
payload_offset d = read_at payload_offset_offset 4 d.raw

unfoldable pub set_payload_offset : ℕ → Descriptor → Descriptor
set_payload_offset v d = record { raw = write_at payload_offset_offset 4 v d.raw }

unfoldable pub payload_length : Descriptor → ℕ
payload_length d = read_at payload_length_offset 4 d.raw

unfoldable pub set_payload_length : ℕ → Descriptor → Descriptor
set_payload_length v d = record { raw = write_at payload_length_offset 4 v d.raw }

unfoldable pub alloc_seq : Descriptor → ℕ
alloc_seq d = read_at alloc_seq_offset 8 d.raw

unfoldable pub set_alloc_seq : ℕ → Descriptor → Descriptor
set_alloc_seq v d = record { raw = write_at alloc_seq_offset 8 v d.raw }

unfoldable pub budget_ns : Descriptor → ℤ
budget_ns d = to_int64 (read_at budget_ns_offset 8 d.raw)

unfoldable pub set_budget_ns : ℤ → Descriptor → Descriptor
set_budget_ns v d = record { raw = write_at budget_ns_offset 8 (of_int64 v) d.raw }

-- The low byte of the 16-bit kind field.
unfoldable pub kind : Descriptor → ℕ
kind d = read_at kind_offset 1 d.raw

-- All 16 bits, with the reserved high byte.
unfoldable pub kind_word : Descriptor → ℕ
kind_word d = read_at kind_offset 2 d.raw

unfoldable pub set_kind : ℕ → Descriptor → Descriptor
set_kind k d = record { raw = write_at kind_offset 2 k d.raw }

unfoldable pub flags : Descriptor → ℕ
flags d = read_at flags_offset 2 d.raw

unfoldable pub set_flags : ℕ → Descriptor → Descriptor
set_flags v d = record { raw = write_at flags_offset 2 v d.raw }

unfoldable pub generation : Descriptor → ℕ
generation d = read_at generation_offset 4 d.raw

unfoldable pub set_generation : ℕ → Descriptor → Descriptor
set_generation v d = record { raw = write_at generation_offset 4 v d.raw }

unfoldable pub reserved : Descriptor → ℕ
reserved d = read_at reserved_offset 8 d.raw

unfoldable pub set_reserved : ℕ → Descriptor → Descriptor
set_reserved v d = record { raw = write_at reserved_offset 8 v d.raw }

-- The sum is computed in uint64.
unfoldable pub payload_in_bounds : Descriptor → ℕ → Bool
unfolding payload_offset payload_length
payload_in_bounds d size = leb (add64 (payload_offset d) (payload_length d)) size
