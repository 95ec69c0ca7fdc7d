-- ===== src/Ring/Refine.antt =====
-- A configured ring whose depth is sane behaves as the queue of the descriptors in flight.
use styx.Base.{
  ℕ, suc, ◌+◌, ◌-◌, ◌%◌, ◌<◌, ◌≡◌, ◌≢◌, refl, ap, ◌∙◌, arith, List, [], ◌∷◌, ◌++◌, u64_mod, add64,
  sub64, length, get_or, set, length-set, Bool-cases, inl, inr, ltb, ◌==◌,
}
use styx.Descriptor.{Descriptor, zero_descriptor}
use styx.Ring.{Ring, slot_of, push, peek, pop, len, full, empty}
use styx.Ring.Window.{window, length-window, window_shift, window-set, window_pos, mod_u64}
use styx.Ring.Valid.{IsConfigured, IsSane, slot_of-mod, divides}
use styx.Ring.Queue
use styx.Ring.Queue.{
  Op, put, look, take_one, count, is_full, is_empty, Reply, pushed, looked, popped, counted,
  answered,
}

-- The descriptors in flight, oldest first.
abbrev pub contents : Ring → List Descriptor
contents r = window zero_descriptor r.capacity r.slots r.head (sub64 r.tail r.head)

-- One operation of the code, with its reply.
unfoldable pub step : Op → Ring → Reply × Ring
unfolding push peek pop len full empty
step (put d) r = let (e, r') = push d r in (pushed e, r')
step look r = let (d, s) = peek r in (looked d s, r)
step take_one r = let (d, done, r') = pop r in (popped d done, r')
step count r = (counted (len r), r)
step is_full r = (answered (full r), r)
step is_empty r = (answered (empty r), r)

unfoldable pub run : List Op → Ring → List Reply
unfolding step
run [] r = []
run (op ∷ ops) r = let (reply, r') = step op r in reply ∷ run ops r'

module _ {r : Ring} (v : IsConfigured r) (sane : IsSane r) where
  -- The slot that `push` writes is the one just past the window.
  tail_slot : slot_of r r.tail ≡ (r.head + sub64 r.tail r.head) % r.capacity
  tail_slot =
      let (m, e) = divides v in
      let back : r.tail ≡ (r.head + sub64 r.tail r.head) % u64_mod =
        omega (arith, v.head_fits, v.tail_fits) in
      slot_of-mod v r.tail
      ∙ ap (λ (t : ℕ). t % r.capacity) back
      ∙ mod_u64 m r.capacity (r.head + sub64 r.tail r.head) e

  push_window :
      (d : Descriptor)
      → sub64 r.tail r.head < r.capacity
      → window zero_descriptor r.capacity
          (set r.slots (slot_of r r.tail) d)
          r.head
          (suc (sub64 r.tail r.head))
        ≡ contents r ++ (d ∷ [])
  push_window d room =
      window-set zero_descriptor r.capacity r.slots r.head (sub64 r.tail r.head) (slot_of r r.tail)
        d v.slot_count room tail_slot

  -- Advancing drops the oldest descriptor, also where `head` wraps.
  advance_window :
      (n : ℕ)
      → window zero_descriptor r.capacity r.slots (add64 r.head 1) n
        ≡ window zero_descriptor r.capacity r.slots (r.head + 1) n
  advance_window n =
      let (m, e) = divides v in
      window_shift zero_descriptor r.capacity r.slots (add64 r.head 1) (r.head + 1) n
        (mod_u64 m r.capacity (r.head + 1) e)

  depth_contents : length (contents r) ≡ sub64 r.tail r.head
  depth_contents = length-window zero_descriptor r.capacity r.slots r.head (sub64 r.tail r.head)

  contents_pos :
      sub64 r.tail r.head ≢ 0
      → contents r
        ≡ get_or r.slots (slot_of r r.head) zero_descriptor
          ∷ window zero_descriptor r.capacity r.slots (add64 r.head 1) (sub64 r.tail r.head - 1)
  contents_pos ne =
      rw (slot_of-mod v r.head, advance_window)
        (window_pos zero_descriptor r.capacity r.slots r.head (sub64 r.tail r.head) ne)

  -- Each operation gives the queue's reply, and leaves the queue's contents.
  pub step_refines :
      (op : Op)
      → (let (reply, r') = step op r in (reply, contents r'))
        ≡ Queue.step r.capacity op (contents r)
  unfolding step Queue.step
  step_refines (put d) = ground (arith, push_window d, depth_contents)
  step_refines look = ground (arith, contents_pos, v.at_least)
  step_refines take_one = ground (arith, contents_pos, v.at_least)
  step_refines count = ground (arith, depth_contents)
  step_refines is_full = ground (arith, depth_contents)
  step_refines is_empty = ground (arith, depth_contents)

  abbrev depth : ℕ
  depth = sub64 r.tail r.head

  stored :
      (d : Descriptor)
      → IsConfigured (record r { slots = set r.slots (slot_of r r.tail) d; tail = add64 r.tail 1 })
  stored d = record {
    at_least = v.at_least;
    at_most = v.at_most;
    power = v.power;
    masked = v.masked;
    slot_count = length-set r.slots (slot_of r r.tail) d ∙ v.slot_count;
    head_fits = v.head_fits;
    tail_fits = omega arith;
  }

  moved : IsConfigured (record r { head = add64 r.head 1 })
  moved = record {
    at_least = v.at_least;
    at_most = v.at_most;
    power = v.power;
    masked = v.masked;
    slot_count = v.slot_count;
    head_fits = omega arith;
    tail_fits = v.tail_fits;
  }

  -- Both parts of the invariant survive each operation.
  pub step-IsRing : (op : Op) → IsConfigured (step op r).1 × IsSane (step op r).1
  unfolding step
  step-IsRing (put d) = elim (Bool-cases (ltb r.capacity depth)) [
    | inl bad ↦ rw bad (v, sane)
    | inr good ↦ elim (Bool-cases (depth == r.capacity)) [
      | inl none_left ↦ rw (good, none_left) (v, sane)
      | inr room ↦ rw (good, room) (stored d, ground arith)
    ]
  ]
  step-IsRing look = (v, sane)
  step-IsRing take_one = elim (Bool-cases (ltb r.capacity depth)) [
    | inl bad ↦ rw bad (v, sane)
    | inr good ↦ elim (Bool-cases (depth == 0)) [
      | inl nothing ↦ rw (good, nothing) (v, sane)
      | inr some_left ↦ rw (good, some_left) (moved, ground arith)
    ]
  ]
  step-IsRing count = (v, sane)
  step-IsRing is_full = (v, sane)
  step-IsRing is_empty = (v, sane)

  pub capacity-step : (op : Op) → (step op r).1.capacity ≡ r.capacity
  unfolding step
  capacity-step (put d) = ground arith
  capacity-step look = refl
  capacity-step take_one = ground arith
  capacity-step count = refl
  capacity-step is_full = refl
  capacity-step is_empty = refl

-- No sequence of pushes, peeks, pops and depth queries tells a configured ring of sane depth from
-- the bounded queue of the descriptors in flight: the replies are equal, full and empty included,
-- also where the 64-bit sequence numbers wrap.
pub run_refines :
    (ops : List Op) (r : Ring)
    → IsConfigured r
    → IsSane r
    → run ops r ≡ Queue.run r.capacity ops (contents r)
unfolding run Queue.run
run_refines [] r v sane = refl
run_refines (op ∷ ops) r v sane =
    let (v', sane') = step-IsRing v sane op in
    let r' : Ring = (step op r).1 in
    rw (← step_refines v sane op) (
      ap (◌∷◌ (step op r).0) (
        run_refines ops r' v' sane'
        ∙ ap (λ (c : ℕ). Queue.run c ops (contents r')) (capacity-step v sane op)))
