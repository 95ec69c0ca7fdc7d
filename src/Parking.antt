-- ===== src/Parking.antt =====
-- internal/event (parkstate.go, spin.go, eventfd.go), producerSignal in internal/transport/shm/transport.go
-- and PoisonFlag in internal/transport/shm/poison.go: one direction's park and wake protocol, as the
-- interleaved steps of a consumer, a producer and a teardown. A step makes at most one access to the
-- shared words, which are sequentially consistent.
pub mod Invariant
pub mod Preserve
pub mod Wakeup
mod Tests
use styx.Base.{ℕ, ◌+◌, ◌-◌, ◌*◌, ◌/◌, Bool, true, false, ◌==◌, leb, if◌then◌else◌, add64}

abbrev pub state_awake : ℕ
state_awake = 0

abbrev pub state_parked : ℕ
state_parked = 1

abbrev pub poison_generic : ℕ
poison_generic = 1

abbrev pub poison_bad_sync : ℕ
poison_bad_sync = 8

-- The words that the two sides share, the consumer's context, and what the producer has recorded.
-- `write_failed` is set when a write to this direction's eventfd fails; `is_hp` is whether this is the
-- host-to-plugin direction.
pub record Words : Type 0 where
  pub tail : ℕ
  pub park : ℕ
  pub counter : ℕ
  pub peer_counter : ℕ
  pub shutdown : ℕ
  pub poison : ℕ
  pub ctx_done : Bool
  pub write_failed : Bool
  pub bad_sync : Bool
  pub lost_wake : Bool
  pub is_hp : Bool

-- quotaClass: what is known of the process's CPU quota.
pub data QuotaClass : Type 0 where
  quota_unlimited : QuotaClass
  quota_limited : QuotaClass
  quota_unknown : QuotaClass

abbrev pub quota_spin_shrink_divisor : ℕ
quota_spin_shrink_divisor = 32

-- The budget in nanoseconds; `below_one` is whether the quota's ratio, a float, is less than 1.
unfoldable pub effective_spin_budget : ℕ → ℕ → Bool → QuotaClass → ℕ
effective_spin_budget configured gomaxprocs below_one class =
    if leb gomaxprocs 1 then 0 else elim class [
      | quota_unlimited ↦ configured
      | quota_unknown ↦ configured / quota_spin_shrink_divisor
      | quota_limited ↦ if below_one then 0 else configured / quota_spin_shrink_divisor
    ]

-- ParkState
unfoldable pub try_park : Words → Words
try_park w = record w { park = state_parked }

unfoldable pub mark_awake : Words → Words
mark_awake w = record w { park = state_awake }

unfoldable pub is_parked : Words → Bool
is_parked w = w.park == state_parked

-- What Wait returns: the new tail, or one of its three errors.
pub data Outcome : Type 0 where
  work : ℕ → Outcome
  ended : Outcome
  shut_down : Outcome
  read_failed : Outcome

-- How a read(2) of the eventfd comes back, when its counter is not 0.
pub data ReadOutcome : Type 0 where
  drained : ReadOutcome
  interrupted : ReadOutcome
  failed : ReadOutcome

-- Where the consumer is in SpinWaiter.Wait.
pub data ConsumerPc : Type 0 where
  spin_clock : ConsumerPc
  spin_ctx : ConsumerPc
  spin_shutdown : ConsumerPc
  spin_tail : ConsumerPc
  arm : ConsumerPc
  arm_ctx : ConsumerPc
  arm_shutdown : ConsumerPc
  arm_tail : ConsumerPc
  disarm : Outcome → ConsumerPc
  read_entry : ConsumerPc
  blocked : ConsumerPc
  disarm_failed : ConsumerPc
  failed_ctx : ConsumerPc
  wake : ConsumerPc
  wake_ctx : ConsumerPc
  wake_shutdown : ConsumerPc
  wake_tail : ConsumerPc
  returned : Outcome → ConsumerPc

-- The entry of Wait, with a spin budget or with none.
unfoldable pub call_wait : Bool → ConsumerPc
call_wait has_budget = if has_budget then spin_clock else arm

-- The read in EventFD.Read: with the counter at 0 it stays blocked, unless the file fails or a signal
-- interrupts it; a done context makes the file fail.
unfoldable pub read_step : ReadOutcome → Words → Words × ConsumerPc
read_step failed w = (w, disarm_failed)
read_step interrupted w = (w, read_entry)
read_step drained w = if w.counter == 0 then (w, blocked) else (record w { counter = 0 }, wake)

-- One step of Wait; `expired` is the clock's answer at the loop's head.
unfoldable pub consumer_step : Bool → ReadOutcome → ℕ → ConsumerPc → Words → Words × ConsumerPc
unfolding try_park mark_awake read_step
consumer_step expired io last_seen spin_clock w = if expired then (w, arm) else (w, spin_ctx)
consumer_step expired io last_seen spin_ctx w =
    if w.ctx_done then (w, returned ended) else (w, spin_shutdown)
consumer_step expired io last_seen spin_shutdown w =
    if w.shutdown == 0 then (w, spin_tail) else (w, returned shut_down)
consumer_step expired io last_seen spin_tail w =
    if w.tail == last_seen then (w, spin_clock) else (w, returned (work w.tail))
consumer_step expired io last_seen arm w = (try_park w, arm_ctx)
consumer_step expired io last_seen arm_ctx w =
    if w.ctx_done then (w, disarm ended) else (w, arm_shutdown)
consumer_step expired io last_seen arm_shutdown w =
    if w.shutdown == 0 then (w, arm_tail) else (w, disarm shut_down)
consumer_step expired io last_seen arm_tail w =
    if w.tail == last_seen then (w, read_entry) else (w, disarm (work w.tail))
consumer_step expired io last_seen (disarm r) w = (mark_awake w, returned r)
consumer_step expired io last_seen read_entry w =
    if w.ctx_done then (w, disarm_failed) else (w, blocked)
consumer_step expired io last_seen blocked w = read_step io w
consumer_step expired io last_seen disarm_failed w = (mark_awake w, failed_ctx)
consumer_step expired io last_seen failed_ctx w =
    if w.ctx_done then (w, returned ended) else (w, returned read_failed)
consumer_step expired io last_seen wake w = (mark_awake w, wake_ctx)
consumer_step expired io last_seen wake_ctx w =
    if w.ctx_done then (w, returned ended) else (w, wake_shutdown)
consumer_step expired io last_seen wake_shutdown w =
    if w.shutdown == 0 then (w, wake_tail) else (w, returned shut_down)
consumer_step expired io last_seen wake_tail w =
    if w.tail == last_seen then (w, arm) else (w, returned (work w.tail))
consumer_step expired io last_seen (returned r) w = (w, returned r)

-- Where a caller of PoisonFlag.Set or PoisonFlag.Shutdown is.
pub data TeardownPc : Type 0 where
  rest : TeardownPc
  swap : ℕ → TeardownPc
  store_shutdown : TeardownPc
  write_hp : TeardownPc
  write_ph : TeardownPc

-- EventFD.Write on this direction's eventfd; `ok` is whether the write succeeds.
unfoldable pub write_eventfd : Bool → Words → Words
write_eventfd true w = record w { counter = w.counter + 1 }
write_eventfd false w = record w { write_failed = true }

-- On the other direction's.
unfoldable pub write_peer_eventfd : Bool → Words → Words
write_peer_eventfd true w = record w { peer_counter = w.peer_counter + 1 }
write_peer_eventfd false w = w

-- One step of Set (from `swap`) or of Shutdown (from `store_shutdown`); write failures are ignored.
unfoldable pub teardown_step : Bool → TeardownPc → Words → Words × TeardownPc
unfolding write_eventfd write_peer_eventfd
teardown_step ok rest w = (w, rest)
teardown_step ok (swap cause) w =
    if w.poison == 0 then (record w { poison = cause }, store_shutdown) else (w, store_shutdown)
teardown_step ok store_shutdown w = (record w { shutdown = 1 }, write_hp)
teardown_step ok write_hp w =
    (if w.is_hp then write_eventfd ok w else write_peer_eventfd ok w, write_ph)
teardown_step ok write_ph w =
    (if w.is_hp then write_peer_eventfd ok w else write_eventfd ok w, rest)

-- Where the producer is, after a publish, in producerSignal.signal.
pub data ProducerPc : Type 0 where
  idle : ProducerPc
  load_poison : ProducerPc
  load_shutdown : ProducerPc
  load_park : ProducerPc
  write_wake : ProducerPc
  actuating : TeardownPc → ProducerPc

-- The tail store of a publish.
unfoldable pub publish : Words → Words × ProducerPc
publish w = (record w { tail = add64 w.tail 1 }, load_poison)

-- One step of signal; at rest after actuating, it has returned.
unfoldable pub producer_step : Bool → ProducerPc → Words → Words × ProducerPc
unfolding teardown_step write_eventfd
producer_step ok idle w = (w, idle)
producer_step ok load_poison w = if w.poison == 0 then (w, load_shutdown) else (w, idle)
producer_step ok load_shutdown w = if w.shutdown == 0 then (w, load_park) else (w, idle)
producer_step ok load_park w =
    if w.park == state_parked
    then (w, write_wake)
    else if w.park == state_awake
    then (w, idle)
    else (record w { bad_sync = true }, actuating (swap poison_bad_sync))
producer_step ok write_wake w =
    let written = write_eventfd ok w in
    if ok
    then (written, idle)
    else (record written { lost_wake = true }, actuating (swap poison_generic))
producer_step ok (actuating rest) w = (w, idle)
producer_step ok (actuating pc) w = let r = teardown_step ok pc w in (r.0, actuating r.1)

-- producerSignal.fault: an illegal park word, or else a lost wake.
pub data Fault : Type 0 where
  no_fault : Fault
  err_bad_sync : Fault
  err_lost_wake : Fault

unfoldable pub fault : Words → Fault
fault w = if w.bad_sync then err_bad_sync else if w.lost_wake then err_lost_wake else no_fault
