-- ===== src/Ring/Interleave/Safety.antt =====
-- What holds in every state that a producer and a consumer can reach together.
use styx.Base.{ℕ, ◌≤◌, ◌<◌, ◌≡◌, ◌≢◌, refl, arith, none, List, [], ◌∷◌, ◌++◌, add64, sub64, length}
use mathlib.Core.Path.{subst}
use styx.Descriptor.{Descriptor, zero_descriptor}
use styx.Ring.{Ring, push, slot_of}
use styx.Ring.Valid.{IsConfigured, IsSane}
use styx.Ring.Window.{length-window}
use styx.Ring.Refine.{contents}
use styx.Ring.Interleave.{
  outside, writing, got_corrupt, saw_both, holding, saw_corrupt, System, load_head, load_tail,
  begin_write, finish_write, store_tail, Reach, here, next, start, write_slot,
}
use styx.Ring.Interleave.Invariant.{
  depth, ProducerKnows, ConsumerKnows, Inv, advance_contents, slots_differ,
}
use styx.Ring.Interleave.Preserve.{start-Inv, Reach-Inv}

module _ {r : Ring} {s : System} (v : IsConfigured r) (sane : IsSane r)
    (path : Reach (start r (contents r)) s) where
  inv : Inv s
  inv = Reach-Inv (start-Inv r v sane) path

  -- From a configured ring of sane depth, whatever the interleaving of the two sides' loads and stores:
  -- what was sent (what the ring held at first included) is what was received, in the same order,
  -- followed by what the ring holds; and the ring holds at most its capacity.
  pub fifo : (s.sent ≡ s.received ++ contents s.ring) × (length (contents s.ring) ≤ s.ring.capacity)
  fifo = (
    inv.flow,
    omega (
      arith,
      inv.sane,
      length-window zero_descriptor s.ring.capacity s.ring.slots s.ring.head (depth s.ring),
    ),
  )

  -- Between two correct sides, from a configured ring of sane depth, neither Push nor Peek ever
  -- reports corruption.
  pub no_false_corruption : (s.producer ≢ got_corrupt) × (s.consumer ≢ saw_corrupt)
  no_false_corruption = (
    λ e. subst (ProducerKnows s.ring) e inv.producer_knows,
    λ e. subst (ConsumerKnows s.ring) e inv.consumer_knows,
  )

  -- From a configured ring of sane depth, while the producer writes the slot of `t`, a consumer that
  -- has seen a depth above 0 is about to read another slot.
  pub no_torn_read :
      (d : Descriptor) (t h t' : ℕ)
      → s.producer ≡ writing d t
      → s.consumer ≡ saw_both h t'
      → 0 < sub64 t' h
      → slot_of s.ring t ≢ slot_of s.ring h
  no_torn_read d t h t' ep ec some_seen =
      let p : ProducerKnows s.ring (writing d t) =
        subst (ProducerKnows s.ring) ep inv.producer_knows in
      let c : ConsumerKnows s.ring (saw_both h t') =
        subst (ConsumerKnows s.ring) ec inv.consumer_knows in
      rw (p.0, c.0) (slots_differ inv.configured (omega arith) p.1)

  -- From a configured ring of sane depth, the descriptor that Peek has returned, and that the consumer
  -- still holds, is the oldest one in flight.
  pub peeked_is_oldest :
      (d : Descriptor)
      → s.consumer ≡ holding d
      → (rest : List Descriptor) × (contents s.ring ≡ d ∷ rest)
  peeked_is_oldest d ec =
      let c : ConsumerKnows s.ring (holding d) =
        subst (ConsumerKnows s.ring) ec inv.consumer_knows in
      (_, rw c.1 at (advance_contents inv.configured c.0 inv.sane))

push_accepts :
    (d : Descriptor) (r : Ring) {r' : Ring}
    → push d r ≡ (none, r')
    → IsSane r
    → (sub64 r.tail r.head < r.capacity)
      × (r' ≡ record (write_slot r r.tail d) { tail = add64 r.tail 1 })
unfolding push
push_accepts d r e sane = ground arith

-- An idle producer that runs without interruption performs Push: where `push d` succeeds on a ring of
-- sane depth, its loads and stores lead to the ring that `push` returns, with `d` sent.
pub push_by_steps :
    (d : Descriptor) (s : System) {r' : Ring}
    → s.producer ≡ outside
    → IsSane s.ring
    → push d s.ring ≡ (none, r')
    → Reach s (record s { ring = r'; producer = outside; sent = s.sent ++ (d ∷ []) })
push_by_steps d s {r'} idle sane e =
    let (room, same) = push_accepts d s.ring e sane in
    let h : ℕ = s.ring.head in
    let t : ℕ = s.ring.tail in
    rw same (
      next
        (next
          (next (next (next here (load_head d idle)) (load_tail d h refl))
            (begin_write d h t refl room))
          (finish_write d t refl))
        (store_tail d t refl))
