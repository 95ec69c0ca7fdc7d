-- ===== src/Ring/Tests.antt =====
-- Rings at concrete inputs: a ring of 64 slots whose sequence numbers are about to wrap.
use styx.Base.{
  ℕ, ◌-◌, ◌^◌, ◌≡◌, ◌≢◌, refl, arith, true, false, none, some, List, [], ◌∷◌, ◌++◌, ◌≤◌, length,
  replicate,
}
use styx.Descriptor.{Descriptor, zero_descriptor}
use styx.Ring.{Ring, new, push, peek_ok, slot_of}
use styx.Ring.Valid.{IsConfigured, ring_over}
use styx.Ring.Queue
use styx.Ring.Queue.{
  Op, put, look, take_one, count, is_full, is_empty, pushed, looked, popped, counted, answered,
}
use styx.Ring.Refine.{contents, run, run_refines}
use styx.Ring.Interleave.{
  System, Reach, here, next, start, load_head, load_tail, begin_write, tear, finish_write,
  store_tail, peek_head, peek_tail, find_slot, advance_load, advance_store, outside, got_corrupt,
  saw_corrupt,
}
use styx.Ring.Interleave.Safety.{
  fifo, no_false_corruption, no_torn_read, peeked_is_oldest, push_by_steps,
}

abbrev last_number : ℕ
last_number = 2 ^ 64 - 1

abbrev no_slots : List Descriptor
no_slots = replicate 64 zero_descriptor

-- Both words stand at 2^64 - 1.
abbrev wrapping : Ring
wrapping = ring_over no_slots last_number last_number 64

abbrev first : Descriptor
first = record { raw = 7 ∷ [] }

abbrev second : Descriptor
second = record { raw = 8 ∷ [] }

wrapping-IsConfigured : IsConfigured wrapping
wrapping-IsConfigured = record {
  at_least = omega arith;
  at_most = omega arith;
  power = (6, refl);
  masked = refl;
  slot_count = refl;
  head_fits = omega arith;
  tail_fits = omega arith;
}

new_refuses :
    (new no_slots (some 0) (some 0) 63 ≡ none)
    × (new (replicate 96 zero_descriptor) (some 0) (some 0) 96 ≡ none)
    × (new no_slots (some 0) (some 0) 128 ≡ none)
    × (new no_slots none (some 0) 64 ≡ none)
unfolding new
new_refuses = (refl, refl, refl, refl)

abbrev script : List Op
script = put first ∷ put second ∷ count ∷ look ∷ take_one ∷ take_one ∷ take_one ∷ is_empty ∷ []

run-wrapping :
    run script wrapping
    ≡ pushed none
      ∷ pushed none
      ∷ counted 2
      ∷ looked first peek_ok
      ∷ popped first true
      ∷ popped second true
      ∷ popped zero_descriptor false
      ∷ answered true
      ∷ []
unfolding run
run-wrapping = refl

run_refines_example : run script wrapping ≡ Queue.run 64 script (contents wrapping)
run_refines_example = run_refines script wrapping wrapping-IsConfigured (omega arith)

-- One push, with a torn slot on the way, that the consumer peeks and releases.
abbrev begin : System
begin = start wrapping (contents wrapping)

-- One push run to its end.
abbrev one_pushed : (s : System) × Reach begin s
one_pushed = (
  _,
  next
      (next
        (next (next (next here (load_head first refl)) (load_tail first last_number refl))
          (begin_write first last_number last_number refl (omega arith)))
        (finish_write first last_number refl))
      (store_tail first last_number refl),
)

-- Then a torn second write, while the consumer has seen the first descriptor.
abbrev tearing : (s : System) × Reach begin s
tearing = (
  _,
  next
      (next
        (next
          (next
            (next (next one_pushed.1 (load_head second refl)) (load_tail second last_number refl))
            (peek_head refl))
          (begin_write second last_number 0 refl (omega arith)))
        (peek_tail last_number refl))
      (tear second first 0 refl),
)

-- The consumer reads it and advances.
abbrev one_received : (s : System) × Reach begin s
one_received = (
  _,
  next
      (next (next tearing.1 (find_slot last_number 0 refl (omega arith) (omega arith)))
        (advance_load first refl))
      (advance_store first last_number refl),
)

fifo_example :
    let s = one_received.0 in
    (s.sent ≡ s.received ++ contents s.ring) × (length (contents s.ring) ≤ s.ring.capacity)
fifo_example = fifo {s = one_received.0} wrapping-IsConfigured (omega arith) one_received.1

received-one_received : one_received.0.received ≡ first ∷ []
received-one_received = refl

no_false_corruption_example :
    (tearing.0.producer ≢ got_corrupt) × (tearing.0.consumer ≢ saw_corrupt)
no_false_corruption_example =
    no_false_corruption {s = tearing.0} wrapping-IsConfigured (omega arith) tearing.1

no_torn_read_example : slot_of tearing.0.ring 0 ≢ slot_of tearing.0.ring last_number
no_torn_read_example =
    no_torn_read {s = tearing.0} wrapping-IsConfigured (omega arith) tearing.1 second 0 last_number
      0 refl refl (omega arith)

abbrev one_held : (s : System) × Reach begin s
one_held = (_, next tearing.1 (find_slot last_number 0 refl (omega arith) (omega arith)))

peeked_is_oldest_example : (rest : List Descriptor) × (contents one_held.0.ring ≡ first ∷ rest)
peeked_is_oldest_example =
    peeked_is_oldest {s = one_held.0} wrapping-IsConfigured (omega arith) one_held.1 first refl

push-wrapping : push first wrapping ≡ (none, one_pushed.0.ring)
unfolding push
push-wrapping = refl

push_by_steps_example :
    Reach begin (record begin { ring = one_pushed.0.ring; producer = outside; sent = first ∷ [] })
push_by_steps_example = push_by_steps first begin refl (omega arith) push-wrapping
