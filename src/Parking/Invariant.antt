-- ===== src/Parking/Invariant.antt =====
-- The states that the three sides' steps reach, and what holds in all of them.
use styx.Base.{ℕ, ◌≤◌, ◌<◌, ◌≡◌, ◌≢◌, ◌⊎◌, Bool, true, false, not, if◌then◌else◌}
use styx.Parking.{
  Words, Outcome, ReadOutcome, ConsumerPc, TeardownPc, ProducerPc, call_wait, consumer_step,
  teardown_step, publish, producer_step,
}

pub record State : Type 0 where
  pub words : Words
  pub last_seen : ℕ
  pub consumer : ConsumerPc
  pub producer : ProducerPc
  pub teardown : TeardownPc

-- The causes that Set accepts; it panics on another.
abbrev pub IsCause : ℕ → Type 0
IsCause cause = (0 < cause) × (cause ≢ 6) × (cause ≤ 8)

abbrev pub run_consumer : Bool → ReadOutcome → State → State
run_consumer expired io s =
    let r = consumer_step expired io s.last_seen s.consumer s.words in
    record s { words = r.0; consumer = r.1 }

abbrev pub run_producer : Bool → State → State
run_producer ok s =
    let r = producer_step ok s.producer s.words in record s { words = r.0; producer = r.1 }

abbrev pub run_teardown : Bool → State → State
run_teardown ok s =
    let r = teardown_step ok s.teardown s.words in record s { words = r.0; teardown = r.1 }

-- One step of some side: the consumer in Wait or calling it again, the producer publishing or
-- signalling, a teardown by Set or Shutdown, or the consumer's context ending.
pub data Step : State → State → Type 0 where
  consumer_runs :
      (expired : Bool) (io : ReadOutcome) (s : State) → Step s (run_consumer expired io s)
  consumer_calls :
      (s : State) (r : Outcome) (has_budget : Bool) (seen : ℕ)
      → s.consumer ≡ ConsumerPc.returned r
      → Step s (record s { last_seen = seen; consumer = call_wait has_budget })
  producer_publishes :
      (s : State)
      → s.producer ≡ ProducerPc.idle
      → Step s (record s { words = (publish s.words).0; producer = (publish s.words).1 })
  producer_runs : (ok : Bool) (s : State) → Step s (run_producer ok s)
  poison_begins :
      (s : State) (cause : ℕ)
      → IsCause cause
      → s.teardown ≡ TeardownPc.rest
      → Step s (record s { teardown = TeardownPc.swap cause })
  shutdown_begins :
      (s : State)
      → s.teardown ≡ TeardownPc.rest
      → Step s (record s { teardown = TeardownPc.store_shutdown })
  teardown_runs : (ok : Bool) (s : State) → Step s (run_teardown ok s)
  context_ends : (s : State) → Step s (record s { words = record s.words { ctx_done = true } })

-- A fresh sync page, with the consumer entering Wait.
abbrev pub start : Bool → Bool → State
start is_hp has_budget = record {
  words = record {
    tail = 0;
    park = 0;
    counter = 0;
    peer_counter = 0;
    shutdown = 0;
    poison = 0;
    ctx_done = false;
    write_failed = false;
    bad_sync = false;
    lost_wake = false;
    is_hp = is_hp;
  };
  last_seen = 0;
  consumer = call_wait has_budget;
  producer = ProducerPc.idle;
  teardown = TeardownPc.rest;
}

pub data Reachable : State → Type 0 where
  starts : (is_hp has_budget : Bool) → Reachable (start is_hp has_budget)
  steps : {s t : State} → Reachable s → Step s t → Reachable t

-- The consumer has stored PARKED, and not yet AWAKE.
abbrev pub is_armed : ConsumerPc → Bool
is_armed ConsumerPc.arm_ctx = true
is_armed ConsumerPc.arm_shutdown = true
is_armed ConsumerPc.arm_tail = true
is_armed (ConsumerPc.disarm r) = true
is_armed ConsumerPc.read_entry = true
is_armed ConsumerPc.blocked = true
is_armed ConsumerPc.disarm_failed = true
is_armed ConsumerPc.wake = true
is_armed pc = false

-- It has seen no shutdown since it armed.
abbrev pub is_past_check : ConsumerPc → Bool
is_past_check ConsumerPc.arm_tail = true
is_past_check ConsumerPc.read_entry = true
is_past_check ConsumerPc.blocked = true
is_past_check pc = false

-- It has seen no new tail either.
abbrev pub is_committed : ConsumerPc → Bool
is_committed ConsumerPc.read_entry = true
is_committed ConsumerPc.blocked = true
is_committed pc = false

-- The producer has published, and not yet decided against a wake.
abbrev pub is_signalling : ProducerPc → Bool
is_signalling ProducerPc.load_poison = true
is_signalling ProducerPc.load_shutdown = true
is_signalling ProducerPc.load_park = true
is_signalling ProducerPc.write_wake = true
is_signalling pc = false

abbrev pub teardown_of : ProducerPc → TeardownPc
teardown_of (ProducerPc.actuating pc) = pc
teardown_of pc = TeardownPc.rest

abbrev pub will_store : TeardownPc → Bool
will_store TeardownPc.store_shutdown = true
will_store pc = false

-- The write to this direction's eventfd is still to come.
abbrev pub will_wake : Words → TeardownPc → Bool
will_wake w TeardownPc.write_hp = true
will_wake w TeardownPc.write_ph = not w.is_hp
will_wake w pc = false

abbrev pub ParkExact : Words → ConsumerPc → Type 0
ParkExact w c = w.park ≡ (if is_armed c then 1 else 0)

-- A committed consumer with new work has a wake, or one is on its way, or the region is torn down.
abbrev pub WorkWakes : Words → ℕ → ConsumerPc → ProducerPc → Type 0
WorkWakes w seen c p =
    (is_committed c ≡ false)
    ⊎ ((w.tail ≡ seen)
        ⊎ ((0 < w.counter)
            ⊎ ((is_signalling p ≡ true)
                ⊎ ((0 < w.shutdown) ⊎ ((0 < w.poison) ⊎ (w.write_failed ≡ true))))))

abbrev pub PoisonShutsDown : Words → ProducerPc → TeardownPc → Type 0
PoisonShutsDown w p t =
    (w.poison ≡ 0)
    ⊎ ((0 < w.shutdown) ⊎ ((will_store (teardown_of p) ≡ true) ⊎ (will_store t ≡ true)))

abbrev pub ShutdownWakes : Words → ConsumerPc → ProducerPc → TeardownPc → Type 0
ShutdownWakes w c p t =
    (is_past_check c ≡ false)
    ⊎ ((w.shutdown ≡ 0)
        ⊎ ((0 < w.counter)
            ⊎ ((will_wake w (teardown_of p) ≡ true)
                ⊎ ((will_wake w t ≡ true) ⊎ (w.write_failed ≡ true)))))

abbrev pub Holds : Words → ℕ → ConsumerPc → ProducerPc → TeardownPc → Type 0
Holds w seen c p t =
    ParkExact w c
    × WorkWakes w seen c p
    × PoisonShutsDown w p t
    × ShutdownWakes w c p t
    × (w.bad_sync ≡ false)
