-- ===== src/Ring/Interleave/Invariant.antt =====
-- What the producer's and the consumer's stale copies of `head` and `tail` still say, and that every
-- step keeps it.
use styx.Base.{
  ℕ, suc, ◌+◌, ◌-◌, ◌%◌, ◌≤◌, ◌<◌, ◌≡◌, ◌≢◌, ap, ◌∙◌, arith, [], ◌∷◌, ◌++◌, u64_mod, add64, sub64,
  length, length-set, get_or-set_self, get_or-set_ne,
}
use native.Mathlib.Nat.{mod-lt}
use styx.Descriptor.{Descriptor, zero_descriptor}
use styx.Ring.{Ring, slot_of}
use styx.Ring.Window.{window_snoc, window-set_after, window_shift, window_pos, mod_u64, mod_ne}
use styx.Ring.Valid.{IsConfigured, IsSane, slot_of-mod, divides}
use styx.Ring.Refine.{contents}
use styx.Ring.Interleave.{
  Producer, outside, has_head, has_both, writing, publishing, got_full, got_corrupt, Consumer, away,
  saw_head, saw_both, holding, releasing, saw_corrupt, System, write_slot, read_slot,
}

abbrev pub depth : Ring → ℕ
depth r = sub64 r.tail r.head

-- A stale head makes the ring look deeper than it is, never shallower.
abbrev pub ProducerKnows : Ring → Producer → Type 0
ProducerKnows r outside = Unit {0}
ProducerKnows r (has_head d h) =
    (h < u64_mod) × (depth r ≤ sub64 r.tail h) × (sub64 r.tail h ≤ r.capacity)
ProducerKnows r (has_both d h t) =
    (h < u64_mod) × (depth r ≤ sub64 r.tail h) × (sub64 r.tail h ≤ r.capacity) × (t ≡ r.tail)
ProducerKnows r (writing d t) = (t ≡ r.tail) × (depth r < r.capacity)
ProducerKnows r (publishing d t) = (t ≡ r.tail) × (depth r < r.capacity) × (read_slot r r.tail ≡ d)
ProducerKnows r got_full = Unit {0}
ProducerKnows r got_corrupt = ⊥

-- A stale tail makes it look shallower, never deeper.
abbrev pub ConsumerKnows : Ring → Consumer → Type 0
ConsumerKnows r away = Unit {0}
ConsumerKnows r (saw_head h) = h ≡ r.head
ConsumerKnows r (saw_both h t) = (h ≡ r.head) × (sub64 t h ≤ depth r)
ConsumerKnows r (holding d) = (0 < depth r) × (read_slot r r.head ≡ d)
ConsumerKnows r (releasing d h) = (h ≡ r.head) × (0 < depth r) × (read_slot r r.head ≡ d)
ConsumerKnows r saw_corrupt = ⊥

pub record Inv (s : System) : Type 0 where
  pub configured : IsConfigured s.ring
  pub sane : IsSane s.ring
  pub producer_knows : ProducerKnows s.ring s.producer
  pub consumer_knows : ConsumerKnows s.ring s.consumer
  pub flow : s.sent ≡ s.received ++ contents s.ring

module _ {r : Ring} (v : IsConfigured r) where
  -- The slot past the last descriptor.
  tail_slot : slot_of r r.tail ≡ (r.head + depth r) % r.capacity
  tail_slot =
      let (m, e) = divides v in
      let back : r.tail ≡ (r.head + depth r) % u64_mod = omega (arith, v.head_fits, v.tail_fits) in
      slot_of-mod v r.tail
      ∙ ap (λ (t : ℕ). t % r.capacity) back
      ∙ mod_u64 m r.capacity (r.head + depth r) e

  pub slots_differ : 0 < depth r → depth r < r.capacity → slot_of r r.tail ≢ slot_of r r.head
  slots_differ some_held room =
      rw (tail_slot, slot_of-mod v r.head) (mod_ne r.head (depth r) r.capacity some_held room)

  in_range : slot_of r r.tail < length r.slots
  in_range = rw (slot_of-mod v r.tail, v.slot_count) (mod-lt r.tail (omega (arith, v.at_least)))

  module _ (g : Descriptor) where
    pub write_configured : IsConfigured (write_slot r r.tail g)
    write_configured = record {
      at_least = v.at_least;
      at_most = v.at_most;
      power = v.power;
      masked = v.masked;
      slot_count = length-set r.slots (slot_of r r.tail) g ∙ v.slot_count;
      head_fits = v.head_fits;
      tail_fits = v.tail_fits;
    }

    -- A write at the tail is not seen through the window.
    pub write_contents : depth r < r.capacity → contents (write_slot r r.tail g) ≡ contents r
    write_contents room =
        window-set_after zero_descriptor r.capacity r.slots r.head (depth r) (depth r)
          (slot_of r r.tail) g (omega arith) room tail_slot

    pub write_read : read_slot (write_slot r r.tail g) r.tail ≡ g
    write_read = get_or-set_self r.slots (slot_of r r.tail) g zero_descriptor in_range

    pub write_head :
        0 < depth r
        → depth r < r.capacity
        → read_slot (write_slot r r.tail g) r.head ≡ read_slot r r.head
    write_head some_held room =
        get_or-set_ne r.slots (slot_of r r.tail) (slot_of r r.head) g zero_descriptor
          (slots_differ some_held room)

  pub publish_contents :
      depth r < r.capacity
      → contents (record r { tail = add64 r.tail 1 }) ≡ contents r ++ (read_slot r r.tail ∷ [])
  publish_contents room =
      let e : sub64 (add64 r.tail 1) r.head ≡ suc (depth r) =
        omega (arith, v.head_fits, v.tail_fits, v.at_most) in
      rw (e, tail_slot) (window_snoc zero_descriptor r.capacity r.slots r.head (depth r))

  pub advance_contents :
      0 < depth r
      → depth r ≤ r.capacity
      → contents r ≡ read_slot r r.head ∷ contents (record r { head = add64 r.head 1 })
  advance_contents some_held ok =
      let (m, e) = divides v in
      let d : sub64 r.tail (add64 r.head 1) ≡ depth r - 1 =
        omega (arith, v.head_fits, v.tail_fits, v.at_most) in
      rw
        (
          d,
          slot_of-mod v r.head,
          window_shift zero_descriptor r.capacity r.slots (add64 r.head 1) (r.head + 1)
              (depth r - 1) (mod_u64 m r.capacity (r.head + 1) e),
        )
        (window_pos zero_descriptor r.capacity r.slots r.head (depth r) (omega arith))
