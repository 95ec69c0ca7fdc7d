-- ===== src/Parking/Tests.antt =====
-- A consumer that parks, is signalled and returns the new tail.
use styx.Base.{ℕ, ◌≡◌, refl, arith, true, false, inl}
use styx.Parking.{
  Words, Outcome, ReadOutcome, ConsumerPc, TeardownPc, ProducerPc, state_awake, call_wait,
  consumer_step, read_step, try_park, mark_awake, publish, producer_step, write_eventfd,
}
use styx.Parking.Invariant.{State, Step, Reachable, start}
use styx.Parking.Wakeup.{run_alone, due, no_lost_wakeup}

abbrev words_of : ℕ → ℕ → ℕ → Words
words_of tail park counter = record {
  tail = tail;
  park = park;
  counter = counter;
  peer_counter = 0;
  shutdown = 0;
  poison = 0;
  ctx_done = false;
  write_failed = false;
  bad_sync = false;
  lost_wake = false;
  is_hp = true;
}

abbrev state_of : Words → ConsumerPc → ProducerPc → State
state_of w c p = record {
  words = w;
  last_seen = 0;
  consumer = c;
  producer = p;
  teardown = TeardownPc.rest;
}

abbrev parked : State
parked = state_of (words_of 0 1 0) ConsumerPc.blocked ProducerPc.idle

parked-Reachable : Reachable parked
unfolding call_wait consumer_step try_park
parked-Reachable =
    let run = λ (s : State) (r : Reachable s).
      Reachable.steps r (Step.consumer_runs true ReadOutcome.drained s) in
    run _ (run _ (run _ (run _ (run (start true false) (Reachable.starts true false)))))

abbrev published : State
published = state_of (words_of 1 1 0) ConsumerPc.blocked ProducerPc.load_poison

published-Reachable : Reachable published
unfolding publish
published-Reachable = Reachable.steps parked-Reachable (Step.producer_publishes parked refl)

abbrev signalled : State
signalled = state_of (words_of 1 1 1) ConsumerPc.blocked ProducerPc.idle

signalled-Reachable : Reachable signalled
unfolding producer_step write_eventfd
signalled-Reachable =
    let run = λ (s : State) (r : Reachable s). Reachable.steps r (Step.producer_runs true s) in
    run _ (run _ (run _ (run published published-Reachable)))

no_lost_wakeup_example :
    ((run_alone 5 signalled).consumer ≡ ConsumerPc.returned (due signalled.words))
    × ((run_alone 5 signalled).words.park ≡ state_awake)
no_lost_wakeup_example =
    no_lost_wakeup signalled signalled-Reachable refl (refl, refl, refl) (inl (omega arith))

abbrev woken : State
woken = state_of (words_of 1 0 0) (ConsumerPc.returned (Outcome.work 1)) ProducerPc.idle

woken-Reachable : Reachable woken
unfolding consumer_step read_step mark_awake
woken-Reachable =
    let run = λ (s : State) (r : Reachable s).
      Reachable.steps r (Step.consumer_runs true ReadOutcome.drained s) in
    run _ (run _ (run _ (run _ (run signalled signalled-Reachable))))
