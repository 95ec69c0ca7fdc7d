-- ===== src/Ring/Interleave/Preserve.antt =====
-- Every step of either side keeps the invariant.
use styx.Base.{◌<◌, ◌≡◌, refl, ap, sym, ◌∙◌, arith, [], ◌∷◌, ◌++◌, append_assoc, add64}
use mathlib.Core.Path.{subst}
use styx.Descriptor.{Descriptor}
use styx.Ring.{Ring}
use styx.Ring.Valid.{IsConfigured, IsSane}
use styx.Ring.Refine.{contents}
use styx.Ring.Interleave.{
  Producer, outside, has_head, has_both, writing, publishing, got_full, got_corrupt, Consumer, away,
  saw_head, saw_both, holding, releasing, saw_corrupt, System, Step, load_head, load_tail,
  refuse_corrupt, refuse_full, begin_write, tear, finish_write, store_tail, return_full, peek_head,
  peek_tail, find_corrupt, find_empty, find_slot, look_away, advance_load, advance_store, Reach,
  here, next, start, write_slot, read_slot,
}
use styx.Ring.Interleave.Invariant.{
  depth, ProducerKnows, ConsumerKnows, Inv, write_configured, write_contents, write_read,
  write_head, publish_contents, advance_contents,
}

-- The other side's knowledge survives a write at the tail, a new tail and a new head.
module _ {r : Ring} (v : IsConfigured r) (sane : IsSane r) where
  consumer_after_write :
      (g : Descriptor) (c : Consumer)
      → depth r < r.capacity
      → ConsumerKnows r c
      → ConsumerKnows (write_slot r r.tail g) c
  consumer_after_write g away room k = k
  consumer_after_write g (saw_head h) room k = k
  consumer_after_write g (saw_both h t) room k = k
  consumer_after_write g (holding d) room k = (k.0, write_head v g k.0 room ∙ k.1)
  consumer_after_write g (releasing d h) room k = (k.0, k.1, write_head v g k.1 room ∙ k.2)
  consumer_after_write g saw_corrupt room k = k

  consumer_after_tail :
      (c : Consumer)
      → depth r < r.capacity
      → ConsumerKnows r c
      → ConsumerKnows (record r { tail = add64 r.tail 1 }) c
  consumer_after_tail away room k = k
  consumer_after_tail (saw_head h) room k = k
  consumer_after_tail (saw_both h t) room k =
      (k.0, omega (arith, v.head_fits, v.tail_fits, v.at_most))
  consumer_after_tail (holding d) room k = (omega (arith, v.head_fits, v.tail_fits, v.at_most), k.1)
  consumer_after_tail (releasing d h) room k =
      (k.0, omega (arith, v.head_fits, v.tail_fits, v.at_most), k.2)
  consumer_after_tail saw_corrupt room k = k

  producer_after_head :
      (p : Producer)
      → 0 < depth r
      → ProducerKnows r p
      → ProducerKnows (record r { head = add64 r.head 1 }) p
  producer_after_head outside held k = k
  producer_after_head (has_head d h) held k =
      (k.0, omega (arith, v.head_fits, v.tail_fits, v.at_most), k.2)
  producer_after_head (has_both d h t) held k =
      (k.0, omega (arith, v.head_fits, v.tail_fits, v.at_most), k.2, k.3)
  producer_after_head (writing d t) held k =
      (k.0, omega (arith, v.head_fits, v.tail_fits, v.at_most))
  producer_after_head (publishing d t) held k =
      (k.0, omega (arith, v.head_fits, v.tail_fits, v.at_most), k.2)
  producer_after_head got_full held k = k
  producer_after_head got_corrupt held k = k

  with_tail : IsConfigured (record r { tail = add64 r.tail 1 })
  with_tail = record {
    at_least = v.at_least;
    at_most = v.at_most;
    power = v.power;
    masked = v.masked;
    slot_count = v.slot_count;
    head_fits = v.head_fits;
    tail_fits = omega arith;
  }

  with_head : IsConfigured (record r { head = add64 r.head 1 })
  with_head = record {
    at_least = v.at_least;
    at_most = v.at_most;
    power = v.power;
    masked = v.masked;
    slot_count = v.slot_count;
    head_fits = omega arith;
    tail_fits = v.tail_fits;
  }

module _ {s : System} (inv : Inv s) where
  open inv use {configured, sane, producer_knows, consumer_knows, flow}

  knows_p : {p : Producer} → s.producer ≡ p → ProducerKnows s.ring p
  knows_p e = subst (ProducerKnows s.ring) e producer_knows

  knows_c : {c : Consumer} → s.consumer ≡ c → ConsumerKnows s.ring c
  knows_c e = subst (ConsumerKnows s.ring) e consumer_knows

  -- A step of the producer, or of the consumer, that leaves the ring alone.
  producer_moves : (p : Producer) → ProducerKnows s.ring p → Inv (record s { producer = p })
  producer_moves p k = record {
    configured = configured;
    sane = sane;
    producer_knows = k;
    consumer_knows = consumer_knows;
    flow = flow;
  }

  consumer_moves : (c : Consumer) → ConsumerKnows s.ring c → Inv (record s { consumer = c })
  consumer_moves c k = record {
    configured = configured;
    sane = sane;
    producer_knows = producer_knows;
    consumer_knows = k;
    flow = flow;
  }

  -- The producer stores `g` in the tail's slot and goes on to `p`.
  slot_written :
      (g : Descriptor) (p : Producer)
      → depth s.ring < s.ring.capacity
      → ProducerKnows (write_slot s.ring s.ring.tail g) p
      → Inv (record s { ring = write_slot s.ring s.ring.tail g; producer = p })
  slot_written g p room k = record {
    configured = write_configured configured g;
    sane = sane;
    producer_knows = k;
    consumer_knows = consumer_after_write configured sane g s.consumer room consumer_knows;
    flow = flow ∙ ap (◌++◌ s.received) (sym (write_contents configured g room));
  }

  tail_stored :
      (d : Descriptor)
      → depth s.ring < s.ring.capacity
      → read_slot s.ring s.ring.tail ≡ d
      → Inv (record s {
        ring = record (s.ring) { tail = add64 s.ring.tail 1 };
        producer = outside;
        sent = s.sent ++ (d ∷ []);
      })
  tail_stored d room holds = record {
    configured = with_tail configured sane;
    sane = omega (arith, configured.head_fits, configured.tail_fits, configured.at_most);
    producer_knows = tt;
    consumer_knows = consumer_after_tail configured sane s.consumer room consumer_knows;
    flow =
        rw (publish_contents configured room, holds, flow)
          (append_assoc s.received (contents s.ring) (d ∷ []));
  }

  head_stored :
      (d : Descriptor)
      → 0 < depth s.ring
      → read_slot s.ring s.ring.head ≡ d
      → Inv (record s {
        ring = record (s.ring) { head = add64 s.ring.head 1 };
        consumer = away;
        received = s.received ++ (d ∷ []);
      })
  head_stored d held holds = record {
    configured = with_head configured sane;
    sane = omega (arith, configured.head_fits, configured.tail_fits, configured.at_most);
    producer_knows = producer_after_head configured sane s.producer held producer_knows;
    consumer_knows = tt;
    flow =
        flow
        ∙ ap (◌++◌ s.received) (rw holds at (advance_contents configured held sane))
        ∙ sym (append_assoc s.received (d ∷ []) _);
  }

-- Every step of the producer and of the consumer keeps the invariant.
pub Step-Inv : {s t : System} → Step s t → Inv s → Inv t
Step-Inv {s} (load_head d e) inv =
    let v : IsConfigured s.ring = inv.configured in
    producer_moves inv (has_head d s.ring.head) (v.head_fits, omega arith, inv.sane)
Step-Inv {s} (load_tail d h e) inv =
    let k : ProducerKnows s.ring (has_head d h) = knows_p inv e in
    producer_moves inv (has_both d h _) (k.0, k.1, k.2, refl)
Step-Inv {s} (refuse_corrupt d h t e deep) inv =
    let k : ProducerKnows s.ring (has_both d h t) = knows_p inv e in absurd (omega arith)
Step-Inv (refuse_full d h t e same) inv = producer_moves inv got_full tt
Step-Inv {s} (begin_write d h t e room) inv =
    let k : ProducerKnows s.ring (has_both d h t) = knows_p inv e in
    producer_moves inv (writing d t) (k.3, omega arith)
Step-Inv {s} (tear d g t e) inv =
    let k : ProducerKnows s.ring (writing d t) = knows_p inv e in
    rw k.0 (
      slot_written inv g s.producer k.1
        (subst (ProducerKnows (write_slot s.ring s.ring.tail g)) (sym e) k))
Step-Inv {s} (finish_write d t e) inv =
    let k : ProducerKnows s.ring (writing d t) = knows_p inv e in
    rw k.0
      (slot_written inv d (publishing d s.ring.tail) k.1 (refl, k.1, write_read inv.configured d))
Step-Inv {s} (store_tail d t e) inv =
    let k : ProducerKnows s.ring (publishing d t) = knows_p inv e in
    rw k.0 (tail_stored inv d k.1 k.2)
Step-Inv (return_full e) inv = producer_moves inv outside tt
Step-Inv (peek_head e) inv = consumer_moves inv (saw_head _) refl
Step-Inv {s} (peek_tail h e) inv =
    let k : ConsumerKnows s.ring (saw_head h) = knows_c inv e in
    consumer_moves inv (saw_both h _) (k, rw k (omega arith))
Step-Inv {s} (find_corrupt h t e deep) inv =
    let k : ConsumerKnows s.ring (saw_both h t) = knows_c inv e in absurd (omega (arith, inv.sane))
Step-Inv (find_empty h t e none_there) inv = consumer_moves inv away tt
Step-Inv {s} (find_slot h t e held ok) inv =
    let k : ConsumerKnows s.ring (saw_both h t) = knows_c inv e in
    consumer_moves inv (holding (read_slot s.ring h)) (omega arith, rw k.0)
Step-Inv (look_away d e) inv = consumer_moves inv away tt
Step-Inv {s} (advance_load d e) inv =
    let k : ConsumerKnows s.ring (holding d) = knows_c inv e in
    consumer_moves inv (releasing d s.ring.head) (refl, k.0, k.1)
Step-Inv {s} (advance_store d h e) inv =
    let k : ConsumerKnows s.ring (releasing d h) = knows_c inv e in
    rw k.0 (head_stored inv d k.1 k.2)

pub start-Inv : (r : Ring) → IsConfigured r → IsSane r → Inv (start r (contents r))
start-Inv r v sane = record {
  configured = v;
  sane = sane;
  producer_knows = tt;
  consumer_knows = tt;
  flow = refl;
}

pub Reach-Inv : {s t : System} → Inv s → Reach s t → Inv t
Reach-Inv inv here = inv
Reach-Inv inv (next r st) = Step-Inv st (Reach-Inv inv r)
