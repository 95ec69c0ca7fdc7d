-- ===== src/Parking/Wakeup.antt =====
-- No wakeup is lost: a blocked consumer that has something to return has a wake to read.
use styx.Base.{ℕ, zero, suc, ◌<◌, ◌≡◌, ◌≢◌, ◌⊎◌, arith, true, false, if◌then◌else◌, ◌==◌}
use styx.Parking.{
  Words, Outcome, ReadOutcome, ConsumerPc, TeardownPc, ProducerPc, state_awake, read_step,
  mark_awake, try_park, consumer_step,
}
use styx.Parking.Invariant.{State, Reachable, Holds, run_consumer}
use styx.Parking.Preserve.{Reachable-Invariant}

-- The consumer alone for `n` steps, its reads not interrupted and not failing.
abbrev pub run_alone : ℕ → State → State
run_alone zero s = s
run_alone (suc n) s = run_alone n (run_consumer true ReadOutcome.drained s)

-- What Wait returns once woken: the context first, then shutdown, then work.
abbrev pub due : Words → Outcome
due w =
    if w.ctx_done
    then Outcome.ended
    else if w.shutdown == 0
    then Outcome.work w.tail
    else Outcome.shut_down

-- The other sides at rest.
abbrev pub IsQuiet : State → Type 0
IsQuiet s =
    (s.producer ≡ ProducerPc.idle) × (s.teardown ≡ TeardownPc.rest) × (s.words.write_failed ≡ false)

has_wake :
    (w : Words) (seen : ℕ)
    → Holds w seen ConsumerPc.blocked ProducerPc.idle TeardownPc.rest
    → w.write_failed ≡ false
    → (w.tail ≢ seen) ⊎ ((0 < w.shutdown) ⊎ (0 < w.poison))
    → (0 < w.counter) × ((w.tail ≢ seen) ⊎ (0 < w.shutdown))
has_wake w seen h ok news = ground arith

woken :
    (s : State)
    → s.consumer ≡ ConsumerPc.blocked
    → 0 < s.words.counter
    → (s.words.tail ≢ s.last_seen) ⊎ (0 < s.words.shutdown)
    → ((run_alone 5 s).consumer ≡ ConsumerPc.returned (due s.words))
      × ((run_alone 5 s).words.park ≡ state_awake)
unfolding consumer_step read_step mark_awake try_park
woken s e lt news = rw e (ground arith)

-- In every interleaving of Wait, publishes with their signals, poisonings and shutdowns: when the
-- consumer is blocked in its read although the tail is not the one it last saw, or the region is shut
-- down or poisoned, and the producer's signal and any teardown have come to their ends, none of this
-- direction's eventfd writes having failed, then five further steps of the consumer alone return from
-- Wait: with the context's error if it is done, else with ErrShutdown if the region is shut down, else
-- with the new tail; and the park word is AWAKE.
pub no_lost_wakeup :
    (s : State)
    → Reachable s
    → s.consumer ≡ ConsumerPc.blocked
    → IsQuiet s
    → (s.words.tail ≢ s.last_seen) ⊎ ((0 < s.words.shutdown) ⊎ (0 < s.words.poison))
    → ((run_alone 5 s).consumer ≡ ConsumerPc.returned (due s.words))
      × ((run_alone 5 s).words.park ≡ state_awake)
no_lost_wakeup s r e quiet news =
    let h = Reachable-Invariant r in
    let (ready, left) = has_wake s.words s.last_seen (rw (e, quiet.0, quiet.1) at h) quiet.2 news in
    woken s e ready left

-- In every interleaving, whenever Wait has returned, with work or with any of its errors, the park
-- word is AWAKE, and the producer has recorded no illegal value of it.
pub returned-park :
    (s : State) (r : Outcome)
    → Reachable s
    → s.consumer ≡ ConsumerPc.returned r
    → (s.words.park ≡ state_awake) × (s.words.bad_sync ≡ false)
returned-park s r reached e =
    let h = Reachable-Invariant reached in let kept = rw e at h in (kept.0, h.4)
