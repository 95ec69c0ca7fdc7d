-- ===== src/Health.antt =====
-- internal/supervisor/health.go: the verdict on two successive heartbeats and the tracker that turns a
-- lasting wedge into a restart; with MinHeartbeatSpacing and the heartbeat loop's use of both in
-- supervisor.go. Times that the verdict does not read (a sample's leases) are left out.
pub mod Streak
pub mod Runs
pub mod Fires
mod Tests
use styx.Base.{
  ℕ, ◌+◌, ◌-◌, ◌*◌, ◌/◌, ◌%◌, ◌^◌, Bool, true, false, not, ◌&&◌, ◌||◌, Option, none, some, List, [],
  ◌∷◌, ltb, leb, ◌==◌, if◌then◌else◌, add64, sub64,
}
use styx.Base.Int.{ℤ, pos, negsuc}

pub data HealthClass : Type 0 where
  health_ok : HealthClass
  health_wedged : HealthClass
  health_overloaded : HealthClass
  health_draining : HealthClass

pub data WedgeKind : Type 0 where
  wedge_none : WedgeKind
  wedge_transport : WedgeKind
  wedge_dispatch : WedgeKind

pub record HeartbeatSample : Type 0 where
  pub sequence : ℕ
  pub descriptors_consumed_h2p : ℕ
  pub descriptors_produced_p2h : ℕ
  pub inflight_count : ℕ
  pub arena_occupancy_bytes : ℕ
  pub inbound_readable : Bool
  pub bounded_read_active : Bool

unfoldable pub classify : HeartbeatSample → HeartbeatSample → ℕ → HealthClass × WedgeKind
classify prev cur high_water_bytes =
    let consume_stalled = cur.descriptors_consumed_h2p == prev.descriptors_consumed_h2p in
    let produce_stalled = cur.descriptors_produced_p2h == prev.descriptors_produced_p2h in
    let transport_wedged = consume_stalled && cur.inbound_readable && not cur.bounded_read_active in
    let dispatch_wedged = produce_stalled && ltb 0 cur.inflight_count in
    let counters_advancing = not consume_stalled || not produce_stalled in
    if transport_wedged
    then (health_wedged, wedge_transport)
    else if dispatch_wedged
    then (health_wedged, wedge_dispatch)
    else if counters_advancing && leb high_water_bytes cur.arena_occupancy_bytes
    then (health_overloaded, wedge_none)
    else (health_ok, wedge_none)

pub record WedgeTracker : Type 0 where
  pub window_beats : ℕ
  pub wedge : WedgeKind
  pub anchor_seq : ℕ
  pub last_seq : ℕ
  pub have_seq : Bool
  pub fired : Bool

abbrev pub heartbeat_spacing_tolerance_divisor : ℕ
heartbeat_spacing_tolerance_divisor = 8

-- Go's division truncates toward 0.
unfoldable pub min_heartbeat_spacing : ℤ → ℤ
min_heartbeat_spacing (pos n) = pos (n - n / heartbeat_spacing_tolerance_divisor)
min_heartbeat_spacing (negsuc n) = negsuc (n - (n + 1) / heartbeat_spacing_tolerance_divisor)

-- The number of increments of the sequence that covers the window: 0 unless both are positive.
unfoldable pub beats_of : ℤ → ℤ → ℕ
beats_of (pos window) (pos min_spacing) =
    if ltb 0 window && ltb 0 min_spacing
    then window / min_spacing + (if not (window % min_spacing == 0) then 1 else 0)
    else 0
beats_of (pos window) (negsuc n) = 0
beats_of (negsuc n) min_spacing = 0

unfoldable pub new_wedge_tracker : ℤ → ℤ → WedgeTracker
unfolding min_heartbeat_spacing beats_of
new_wedge_tracker window sender_cadence = record {
  window_beats = beats_of window (min_heartbeat_spacing sender_cadence);
  wedge = wedge_none;
  anchor_seq = 0;
  last_seq = 0;
  have_seq = false;
  fired = false;
}

unfoldable pub clear : WedgeTracker → WedgeTracker
clear w = record w {
  wedge = wedge_none;
  anchor_seq = 0;
  fired = false;
  last_seq = 0;
  have_seq = false;
}

abbrev pub is_wedged : HealthClass → Bool
is_wedged health_ok = false
is_wedged health_wedged = true
is_wedged health_overloaded = false
is_wedged health_draining = false

abbrev pub same_kind : WedgeKind → WedgeKind → Bool
same_kind wedge_none wedge_none = true
same_kind wedge_transport wedge_transport = true
same_kind wedge_dispatch wedge_dispatch = true
same_kind a b = false

-- The tracker after the adjacency guard.
unfoldable pub note_sequence : ℕ → WedgeTracker → WedgeTracker
unfolding clear
note_sequence sequence w =
    let known = if w.have_seq && not (sequence == add64 w.last_seq 1) then clear w else w in
    record known { last_seq = sequence; have_seq = true }

-- The rest of `observe`; the answer is the kind that fires, if one does.
unfoldable pub judge : HealthClass → WedgeKind → ℕ → WedgeTracker → Option WedgeKind × WedgeTracker
unfolding clear
judge class kind sequence w =
    if not (is_wedged class)
    then (none, clear w)
    else if not (same_kind w.wedge kind)
    then (none, record w { wedge = kind; anchor_seq = sequence; fired = false })
    else if w.fired
    then (none, w)
    else if ltb 0 w.window_beats && leb w.window_beats (sub64 sequence w.anchor_seq)
    then (some kind, record w { fired = true })
    else (none, w)

unfoldable pub observe :
    HealthClass → WedgeKind → ℕ → WedgeTracker → Option WedgeKind × WedgeTracker
unfolding note_sequence judge
observe class kind sequence w = judge class kind sequence (note_sequence sequence w)

abbrev pub default_high_water_bytes : ℕ
default_high_water_bytes = 2 ^ 30

-- What the heartbeat loop keeps: its tracker and the sample before.
pub record Monitor : Type 0 where
  pub tracker : WedgeTracker
  pub prev : Option HeartbeatSample

-- The loop's handling of a sample, and the kind that ends it, if one does.
unfoldable pub on_sample : HeartbeatSample → Monitor → Option WedgeKind × Monitor
unfolding classify observe
on_sample sample m = elim m.prev [
  | none ↦ (none, record m { prev = some sample })
  | some p ↦
      let verdict = classify p sample default_high_water_bytes in
      let seen = observe verdict.0 verdict.1 sample.sequence m.tracker in
      (seen.0, record { tracker = seen.1; prev = some sample })
]

-- The loop after a sequence of samples, the latest first.
unfoldable pub monitor : ℤ → ℤ → List HeartbeatSample → Monitor
unfolding new_wedge_tracker on_sample
monitor window cadence [] = record { tracker = new_wedge_tracker window cadence; prev = none }
monitor window cadence (s ∷ ss) = (on_sample s (monitor window cadence ss)).1
