-- ===== src/Health/Tests.antt =====
-- A plugin that stops consuming, at concrete samples.
use styx.Base.{
  ℕ, suc, ◌-◌, ◌/◌, ◌*◌, ◌+◌, ◌≤◌, ◌<◌, ◌≡◌, ◌↔◌, refl, arith, true, false, some, List, [], ◌∷◌,
}
use styx.Base.Int.{pos}
use styx.Health.{
  wedge_transport, HeartbeatSample, new_wedge_tracker, min_heartbeat_spacing, beats_of, on_sample,
  monitor, classify, observe, note_sequence, judge, clear,
}
use styx.Health.Runs.{streak}
use styx.Health.Fires.{on_sample_iff, new_wedge_tracker_lem}

abbrev stuck : ℕ → HeartbeatSample
stuck n = record {
  sequence = n;
  descriptors_consumed_h2p = 5;
  descriptors_produced_p2h = 5;
  inflight_count = 0;
  arena_occupancy_bytes = 0;
  inbound_readable = true;
  bounded_read_active = false;
}

-- The sequence number wraps.
abbrev before : List HeartbeatSample
before = stuck 0 ∷ stuck 18446744073709551615 ∷ stuck 18446744073709551614 ∷ []

-- A window of two increments: three stalled pairs in a row.
fires_at_third : (on_sample (stuck 1) (monitor (pos 14) (pos 8) before)).0 ≡ some wedge_transport
unfolding on_sample monitor new_wedge_tracker min_heartbeat_spacing beats_of classify observe
    note_sequence judge clear
fires_at_third = refl

on_sample_iff_example :
    ((on_sample (stuck 1) (monitor (pos 14) (pos 8) before)).0 ≡ some wedge_transport) ↔ (
      (0 < (new_wedge_tracker (pos 14) (pos 8)).window_beats)
      × (streak wedge_transport (stuck 1 ∷ before)
          ≡ suc (new_wedge_tracker (pos 14) (pos 8)).window_beats))
on_sample_iff_example =
    on_sample_iff (pos 14) (pos 8) (stuck 1) before wedge_transport (omega arith)
      (omega arith, (omega arith, (omega arith, (omega arith, tt)))) refl

new_wedge_tracker_lem_example :
    (min_heartbeat_spacing (pos 1000) ≡ pos (1000 - 1000 / 8))
    × (5000 ≤ (new_wedge_tracker (pos 5000) (pos 1000)).window_beats * (1000 - 1000 / 8))
    × ((new_wedge_tracker (pos 5000) (pos 1000)).window_beats * (1000 - 1000 / 8)
        < 5000 + (1000 - 1000 / 8))
new_wedge_tracker_lem_example = new_wedge_tracker_lem 5000 1000 (omega arith) (omega arith)
