-- ===== src/Parking/Preserve.antt =====
-- Every step keeps the invariant.
use styx.Base.{ℕ, ◌≡◌, ◌⊎◌, inl, inr, refl, arith, Bool, true, false}
use styx.Parking.{
  Words, Outcome, ReadOutcome, ConsumerPc, TeardownPc, ProducerPc, call_wait, read_step, try_park,
  mark_awake, consumer_step, teardown_step, write_eventfd, write_peer_eventfd, publish,
  producer_step,
}
use styx.Parking.Invariant.{State, Step, Reachable, start, Holds, is_committed, is_armed}

module _ (expired : Bool) (seen : ℕ) (w : Words) (p : ProducerPc) (t : TeardownPc) where
  pub consumer-Holds :
      (io : ReadOutcome) (c : ConsumerPc)
      → Holds w seen c p t
      → Holds (consumer_step expired io seen c w).0 seen (consumer_step expired io seen c w).1 p t
  unfolding consumer_step read_step try_park mark_awake
  consumer-Holds io ConsumerPc.spin_clock h = ground arith
  consumer-Holds io ConsumerPc.spin_ctx h = ground arith
  consumer-Holds io ConsumerPc.spin_shutdown h = ground arith
  consumer-Holds io ConsumerPc.spin_tail h = ground arith
  consumer-Holds io ConsumerPc.arm h = ground arith
  consumer-Holds io ConsumerPc.arm_ctx h = ground arith
  consumer-Holds io ConsumerPc.arm_shutdown h = ground arith
  consumer-Holds io ConsumerPc.arm_tail h = ground arith
  consumer-Holds io (ConsumerPc.disarm r) h = ground arith
  consumer-Holds io ConsumerPc.read_entry h = ground arith
  consumer-Holds ReadOutcome.drained ConsumerPc.blocked h = ground arith
  consumer-Holds ReadOutcome.interrupted ConsumerPc.blocked h = ground arith
  consumer-Holds ReadOutcome.failed ConsumerPc.blocked h = ground arith
  consumer-Holds io ConsumerPc.disarm_failed h = ground arith
  consumer-Holds io ConsumerPc.failed_ctx h = ground arith
  consumer-Holds io ConsumerPc.wake h = ground arith
  consumer-Holds io ConsumerPc.wake_ctx h = ground arith
  consumer-Holds io ConsumerPc.wake_shutdown h = ground arith
  consumer-Holds io ConsumerPc.wake_tail h = ground arith
  consumer-Holds io (ConsumerPc.returned r) h = h

committed-armed : (c : ConsumerPc) → (is_committed c ≡ false) ⊎ (is_armed c ≡ true)
committed-armed ConsumerPc.spin_clock = inl refl
committed-armed ConsumerPc.spin_ctx = inl refl
committed-armed ConsumerPc.spin_shutdown = inl refl
committed-armed ConsumerPc.spin_tail = inl refl
committed-armed ConsumerPc.arm = inl refl
committed-armed ConsumerPc.arm_ctx = inl refl
committed-armed ConsumerPc.arm_shutdown = inl refl
committed-armed ConsumerPc.arm_tail = inl refl
committed-armed (ConsumerPc.disarm r) = inl refl
committed-armed ConsumerPc.read_entry = inr refl
committed-armed ConsumerPc.blocked = inr refl
committed-armed ConsumerPc.disarm_failed = inl refl
committed-armed ConsumerPc.failed_ctx = inl refl
committed-armed ConsumerPc.wake = inl refl
committed-armed ConsumerPc.wake_ctx = inl refl
committed-armed ConsumerPc.wake_shutdown = inl refl
committed-armed ConsumerPc.wake_tail = inl refl
committed-armed (ConsumerPc.returned r) = inl refl

module _ (seen : ℕ) (w : Words) (c : ConsumerPc) (t : TeardownPc) where
  producer-Holds :
      (ok : Bool) (p : ProducerPc)
      → Holds w seen c p t
      → Holds (producer_step ok p w).0 seen c (producer_step ok p w).1 t
  unfolding producer_step teardown_step write_eventfd write_peer_eventfd
  producer-Holds ok ProducerPc.idle h = h
  producer-Holds ok ProducerPc.load_poison h = ground arith
  producer-Holds ok ProducerPc.load_shutdown h = ground arith
  producer-Holds ok ProducerPc.load_park h = ground (arith, committed-armed c)
  producer-Holds true ProducerPc.write_wake h = ground arith
  producer-Holds false ProducerPc.write_wake h = ground arith
  producer-Holds ok (ProducerPc.actuating TeardownPc.rest) h = ground arith
  producer-Holds ok (ProducerPc.actuating (TeardownPc.swap cause)) h = ground arith
  producer-Holds ok (ProducerPc.actuating TeardownPc.store_shutdown) h = ground arith
  producer-Holds true (ProducerPc.actuating TeardownPc.write_hp) h = ground arith
  producer-Holds false (ProducerPc.actuating TeardownPc.write_hp) h = ground arith
  producer-Holds true (ProducerPc.actuating TeardownPc.write_ph) h = ground arith
  producer-Holds false (ProducerPc.actuating TeardownPc.write_ph) h = ground arith

  publish-Holds : Holds w seen c ProducerPc.idle t → Holds (publish w).0 seen c (publish w).1 t
  unfolding publish
  publish-Holds h = ground arith

  context-Holds :
      (p : ProducerPc) → Holds w seen c p t → Holds (record w { ctx_done = true }) seen c p t
  context-Holds p h = h

module _ (seen : ℕ) (w : Words) (c : ConsumerPc) (p : ProducerPc) where
  teardown-Holds :
      (ok : Bool) (t : TeardownPc)
      → Holds w seen c p t
      → Holds (teardown_step ok t w).0 seen c p (teardown_step ok t w).1
  unfolding teardown_step write_eventfd write_peer_eventfd
  teardown-Holds ok TeardownPc.rest h = h
  teardown-Holds ok (TeardownPc.swap cause) h = ground arith
  teardown-Holds ok TeardownPc.store_shutdown h = ground arith
  teardown-Holds true TeardownPc.write_hp h = ground arith
  teardown-Holds false TeardownPc.write_hp h = ground arith
  teardown-Holds true TeardownPc.write_ph h = ground arith
  teardown-Holds false TeardownPc.write_ph h = ground arith

  teardown_begins-Holds :
      (begun : TeardownPc) → Holds w seen c p TeardownPc.rest → Holds w seen c p begun
  teardown_begins-Holds TeardownPc.rest h = h
  teardown_begins-Holds (TeardownPc.swap cause) h = h
  teardown_begins-Holds TeardownPc.store_shutdown h = ground arith
  teardown_begins-Holds TeardownPc.write_hp h = ground arith
  teardown_begins-Holds TeardownPc.write_ph h = ground arith

calls-Holds :
    (w : Words) (seen next : ℕ) (r : Outcome) (p : ProducerPc) (t : TeardownPc) (has_budget : Bool)
    → Holds w seen (ConsumerPc.returned r) p t
    → Holds w next (call_wait has_budget) p t
unfolding call_wait
calls-Holds w seen next r p t true h = ground arith
calls-Holds w seen next r p t false h = ground arith

abbrev pub Invariant : State → Type 0
Invariant s = Holds s.words s.last_seen s.consumer s.producer s.teardown

step-Invariant : {s t : State} → Step s t → Invariant s → Invariant t
step-Invariant (Step.consumer_runs expired io s) h =
    consumer-Holds expired s.last_seen s.words s.producer s.teardown io s.consumer h
step-Invariant (Step.consumer_calls s r has_budget next e) h =
    calls-Holds s.words s.last_seen next r s.producer s.teardown has_budget (rw e at h)
step-Invariant (Step.producer_publishes s e) h =
    publish-Holds s.last_seen s.words s.consumer s.teardown (rw e at h)
step-Invariant (Step.producer_runs ok s) h =
    producer-Holds s.last_seen s.words s.consumer s.teardown ok s.producer h
step-Invariant (Step.poison_begins s cause valid e) h =
    teardown_begins-Holds s.last_seen s.words s.consumer s.producer (TeardownPc.swap cause)
      (rw e at h)
step-Invariant (Step.shutdown_begins s e) h =
    teardown_begins-Holds s.last_seen s.words s.consumer s.producer TeardownPc.store_shutdown
      (rw e at h)
step-Invariant (Step.teardown_runs ok s) h =
    teardown-Holds s.last_seen s.words s.consumer s.producer ok s.teardown h
step-Invariant (Step.context_ends s) h =
    context-Holds s.last_seen s.words s.consumer s.teardown s.producer h

start-Invariant : (is_hp has_budget : Bool) → Invariant (start is_hp has_budget)
unfolding call_wait
start-Invariant is_hp true = ground arith
start-Invariant is_hp false = ground arith

pub Reachable-Invariant : {s : State} → Reachable s → Invariant s
Reachable-Invariant (Reachable.starts is_hp has_budget) = start-Invariant is_hp has_budget
Reachable-Invariant (Reachable.steps r step) = step-Invariant step (Reachable-Invariant r)
