-- ===== src/Descriptor/Tests.antt =====
-- Descriptors at concrete inputs.
use styx.Base.{◌≡◌, refl, arith, [], ◌∷◌, ◌++◌, replicate}
use styx.Base.Bytes.{AllBytes, write_at}
use styx.Base.Int.{negsuc}
use styx.Descriptor.{Descriptor, zero_descriptor, set_generation}
use styx.Descriptor.Fields.{Values, InRange, SettersExact, setters_exact}

abbrev sample : Values
sample = record {
  call = 7;
  service = 0xfedc_ba98_7654_3210;
  method = 1;
  offset = 4096;
  len = 100;
  seq = 3;
  budget = negsuc 4;
  frame_kind = 9;
  flag_bits = 1;
  gen = 0xffff_ffff;
  word = 12;
}

sample-InRange : InRange sample
sample-InRange = omega arith

stored_bytes :
    (set_generation 0x0102_0304 zero_descriptor).raw
    ≡ replicate 52 0 ++ (4 ∷ 3 ∷ 2 ∷ 1 ∷ []) ++ replicate 8 0
unfolding set_generation write_at
stored_bytes = refl

setters_exact_example : SettersExact zero_descriptor sample
setters_exact_example = setters_exact zero_descriptor sample refl sample-InRange

-- The largest offset and length that the peer can write: their sum does not wrap.
abbrev crafted : Descriptor
crafted = record { raw = replicate 24 0 ++ replicate 8 255 ++ replicate 32 0 }

crafted-AllBytes : AllBytes crafted.raw
crafted-AllBytes = omega arith
