-- ===== src/Health/Fires.antt =====
-- When the heartbeat loop ends an instance.
use styx.Base.{
  ℕ, suc, ◌+◌, ◌-◌, ◌*◌, ◌/◌, ◌%◌, ◌≤◌, ◌<◌, ◌≡◌, ◌↔◌, inl, inr, refl, sym, ap, ◌∙◌, arith, true,
  false, not, ◌&&◌, Bool-cases, if-true, if-cases, Option, none, some, List, [], ◌∷◌, ltb, ◌==◌,
  if◌then◌else◌, add64, u64_mod,
}
use mathlib.Core.Path.{subst}
use styx.Base.Int.{ℤ, pos, negsuc, IsInt64}
use styx.Health.{
  HealthClass, health_wedged, WedgeKind, wedge_none, HeartbeatSample, classify, WedgeTracker,
  is_wedged, same_kind, observe, beats_of, min_heartbeat_spacing, new_wedge_tracker,
  default_high_water_bytes, Monitor, on_sample, monitor,
}
use styx.Health.Streak.{same_kind_refl, Idle, observe-healthy}
use styx.Health.Runs.{
  is_fault, faulty, streak, Summary, classify-cases, same_kind-eq, Summary-window, observe-streak,
}

-- Every sequence number is a uint64.
abbrev pub AllWords : List HeartbeatSample → Type 0
AllWords [] = Unit
AllWords (s ∷ ss) = (s.sequence < u64_mod) × AllWords ss

healthy-streak :
    (k : WedgeKind) (p s : HeartbeatSample) (ss : List HeartbeatSample)
    → faulty k p s ≡ false
    → streak k (s ∷ p ∷ ss) ≡ 0
unfolding streak
healthy-streak k p s ss e = rw e refl

faulty-streak :
    (k : WedgeKind) (p s : HeartbeatSample) (ss : List HeartbeatSample)
    → faulty k p s ≡ true
    → streak k (s ∷ p ∷ ss)
      ≡ suc (if s.sequence == add64 p.sequence 1 then streak k (p ∷ ss) else 0)
unfolding streak
faulty-streak k p s ss e = rw e refl

due_now : (beats n : ℕ) → 0 < beats → n ≡ beats → (ltb 0 beats && n == beats) ≡ true
due_now beats n h e = ground arith

some-inj : {a b : WedgeKind} → some a ≡ some b → a ≡ b
some-inj e = cc

wrong_kind : (c k : WedgeKind) → c ≡ k → ¬ (same_kind c k ≡ false)
wrong_kind c k e f = absurd (cc (sym (same_kind_refl k) ∙ subst (λ x. same_kind x k ≡ false) e f))

-- An answer that is due at `beats`, and the length of the streak of `k`.
due_iff-fires :
    (beats n len : ℕ) (c k : WedgeKind) (o : Option WedgeKind)
    → o ≡ (if ltb 0 beats && n == beats then some c else none)
    → (same_kind c k ≡ true → len ≡ suc n)
    → (same_kind c k ≡ false → len ≡ 0)
    → (o ≡ some k) ↔ ((0 < beats) × (len ≡ suc beats))
due_iff-fires beats n len c k o e mine other = elim (Bool-cases (same_kind c k)) [
  | inl same ↦
      let ck = same_kind-eq c k same in
      let counted = mine same in
      (
        λ fires. elim (if-cases (ltb 0 beats && n == beats) _ _ (sym e ∙ fires)) [
          | inl (due, e1) ↦ (ground arith, ground arith)
          | inr (early, e1) ↦ absurd (cc e1)
        ],
        λ x. e ∙ (if-true _ _ (due_now beats n x.0 (omega (arith, counted, x.1))) ∙ ap some ck),
      )
  | inr differ ↦
      let counted = other differ in
      (
        λ fires. elim (if-cases (ltb 0 beats && n == beats) _ _ (sym e ∙ fires)) [
          | inl (due, e1) ↦ absurd (wrong_kind c k (some-inj e1) differ)
          | inr (early, e1) ↦ absurd (cc e1)
        ],
        λ x. absurd (omega (arith, x.1, counted)),
      )
]

-- What one classified pair leads to.
abbrev Step :
    ℕ
    → HeartbeatSample
    → HeartbeatSample
    → List HeartbeatSample
    → Option WedgeKind × WedgeTracker
    → Type 0
Step beats p s ss seen =
    Summary beats s (p ∷ ss) seen.1
    × ((k : WedgeKind)
        → is_fault k ≡ true
        → (seen.0 ≡ some k) ↔ ((0 < beats) × (streak k (s ∷ p ∷ ss) ≡ suc beats)))

same_fault : (a k : WedgeKind) → a ≡ wedge_none → is_fault k ≡ true → same_kind a k ≡ false
same_fault a k e f = rw e (ground arith)

observe-Step-healthy :
    (beats : ℕ) (p s : HeartbeatSample) (ss : List HeartbeatSample) (t : WedgeTracker)
    → (class : HealthClass) (c : WedgeKind)
    → (e : classify p s default_high_water_bytes ≡ (class, c)) → is_wedged class ≡ false
    → c ≡ wedge_none
    → t.window_beats ≡ beats
    → Step beats p s ss (observe class c s.sequence t)
observe-Step-healthy beats p s ss t class c e healthy unnamed_kind window =
    let (silent, idle) = observe-healthy class c s.sequence beats t healthy window in
    let zeros : (k : WedgeKind) → is_fault k ≡ true → streak k (s ∷ p ∷ ss) ≡ 0 =
      λ k f. healthy-streak k p s ss (same_fault _ k (ap (λ v. v.1) e ∙ unnamed_kind) f) in
    (
      inl (idle, zeros),
      λ k f.
          (λ fires. absurd (cc (sym silent ∙ fires)), λ x. absurd (omega (arith, x.1, zeros k f))),
    )

observe-Step-wedged :
    (beats : ℕ) (p s : HeartbeatSample) (ss : List HeartbeatSample) (t : WedgeTracker)
    → (c : WedgeKind) → (classify p s default_high_water_bytes).1 ≡ c
    → beats < u64_mod
    → s.sequence < u64_mod
    → is_fault c ≡ true
    → Summary beats p ss t
    → Step beats p s ss (observe health_wedged c s.sequence t)
observe-Step-wedged beats p s ss t c e word bound fault before =
    let (answer, st) = observe-streak c p s ss beats t word fault before bound in
    let n = (if s.sequence == add64 p.sequence 1 then streak c (p ∷ ss) else 0) in
    let counted = faulty-streak c p s ss (rw e (same_kind_refl c)) in
    let others : (j : WedgeKind) → same_kind c j ≡ false → streak j (s ∷ p ∷ ss) ≡ 0 =
      λ j f. healthy-streak j p s ss (rw e f) in
    (
      inr (c, record { n = n; fault = fault; stalled = st; counted = counted; others = others }),
      λ k f.
          due_iff-fires beats n _ c k _ answer
            (λ same. subst (λ x. streak x (s ∷ p ∷ ss) ≡ suc n) (same_kind-eq c k same) counted)
            (others k),
    )

-- What the loop keeps after the samples.
abbrev Watched : ℕ → List HeartbeatSample → Monitor → Type 0
Watched beats [] m = (m.prev ≡ none) × Idle beats m.tracker
Watched beats (s ∷ ss) m = (m.prev ≡ some s) × Summary beats s ss m.tracker

abbrev Outcome : ℕ → HeartbeatSample → List HeartbeatSample → Option WedgeKind × Monitor → Type 0
Outcome beats s ss seen =
    Watched beats (s ∷ ss) seen.1
    × ((k : WedgeKind)
        → is_fault k ≡ true
        → (seen.0 ≡ some k) ↔ ((0 < beats) × (streak k (s ∷ ss) ≡ suc beats)))

on_sample-Outcome :
    (beats : ℕ) (s : HeartbeatSample) (ss : List HeartbeatSample) (m : Monitor)
    → beats < u64_mod
    → s.sequence < u64_mod
    → Watched beats ss m
    → Outcome beats s ss (on_sample s m)
unfolding on_sample streak
on_sample-Outcome beats s [] m word bound (fresh, idle) = rw fresh (
  (refl, inl (idle, λ k f. refl)),
  λ k f. (λ fires. absurd (cc fires), λ x. absurd (omega (arith, x.1))),
)
on_sample-Outcome beats s (p ∷ ss) m word bound (before, summary) =
    rw before (elim (classify-cases p s default_high_water_bytes) [
      | inl (healthy, unnamed_kind) ↦
          let (kept, fires) =
            observe-Step-healthy beats p s ss m.tracker _ _ refl healthy unnamed_kind
              (Summary-window beats p ss m.tracker summary) in
          ((refl, kept), fires)
      | inr (wedged, fault) ↦ rw wedged (
          let (kept, fires) =
            observe-Step-wedged beats p s ss m.tracker _ refl word bound fault summary in
          ((refl, kept), fires))
    ])

quotient_le : (w m : ℕ) → w / m ≤ w
quotient_le w m = grind arith

ceil_covers :
    (w m q r : ℕ) → 0 < m → q * m + r ≡ w → r < m → w ≤ (q + (if not (r == 0) then 1 else 0)) * m
ceil_covers w m q r positive e h = elim (Bool-cases (r == 0)) [
  | inl z ↦ rw z (grind arith)
  | inr z ↦ rw z (grind arith)
]

ceil_tight :
    (w m q r : ℕ)
    → 0 < m
    → q * m + r ≡ w
    → r < m
    → (q + (if not (r == 0) then 1 else 0)) * m < w + m
ceil_tight w m q r positive e h = elim (Bool-cases (r == 0)) [
  | inl z ↦ rw z (grind arith)
  | inr z ↦ rw z (grind arith)
]

whole : (w m : ℕ) → 0 < m → (w / m * m + w % m ≡ w) × (w % m < m)
whole w m h = (grind arith, grind arith)

beats_of-lt : (window spacing : ℤ) → IsInt64 window → beats_of window spacing < u64_mod
unfolding beats_of
beats_of-lt (pos w) (pos m) h = ground (arith, quotient_le w m)
beats_of-lt (pos w) (negsuc n) h = omega arith
beats_of-lt (negsuc n) spacing h = omega arith

-- The window in increments of the sequence.
abbrev window_of : ℤ → ℤ → ℕ
window_of window cadence = (new_wedge_tracker window cadence).window_beats

monitor-Watched :
    (window cadence : ℤ) (ss : List HeartbeatSample)
    → IsInt64 window
    → AllWords ss
    → Watched (window_of window cadence) ss (monitor window cadence ss)
unfolding monitor new_wedge_tracker
monitor-Watched window cadence [] h words =
    (refl, record { window = refl; no_kind = refl; no_seq = refl })
monitor-Watched window cadence (s ∷ ss) h words =
    (on_sample-Outcome (window_of window cadence) s ss (monitor window cadence ss)
      (beats_of-lt window (min_heartbeat_spacing cadence) h) words.0
      (monitor-Watched window cadence ss h words.1)).0

-- The heartbeat loop ends an instance for the fault `k` at a sample exactly when the window is not
-- empty and the streak of `k` is one more than the window in increments of the sequence: that many
-- pairs in a row, on adjacent sequence numbers, have that verdict, so it fires once in a stall; for
-- any samples before, since the instance began, whose sequence numbers are uint64.
pub on_sample_iff :
    (window cadence : ℤ) (s : HeartbeatSample) (ss : List HeartbeatSample) (k : WedgeKind)
    → IsInt64 window
    → AllWords (s ∷ ss)
    → is_fault k ≡ true
    → ((on_sample s (monitor window cadence ss)).0 ≡ some k) ↔ (
        (0 < (new_wedge_tracker window cadence).window_beats)
        × (streak k (s ∷ ss) ≡ suc (new_wedge_tracker window cadence).window_beats))
unfolding new_wedge_tracker
on_sample_iff window cadence s ss k h words fault =
    (on_sample-Outcome (window_of window cadence) s ss (monitor window cadence ss)
        (beats_of-lt window (min_heartbeat_spacing cadence) h) words.0
        (monitor-Watched window cadence ss h words.1)).1
      k fault

-- For a positive window and cadence, the tracker's increments, each at least the minimum spacing of
-- two heartbeats, cover the window, and one fewer would not.
pub new_wedge_tracker_lem :
    (window cadence : ℕ)
    → 0 < window
    → 0 < cadence
    → (min_heartbeat_spacing (pos cadence) ≡ pos (cadence - cadence / 8))
      × (window
          ≤ (new_wedge_tracker (pos window) (pos cadence)).window_beats * (cadence - cadence / 8))
      × ((new_wedge_tracker (pos window) (pos cadence)).window_beats * (cadence - cadence / 8)
          < window + (cadence - cadence / 8))
unfolding new_wedge_tracker beats_of min_heartbeat_spacing
new_wedge_tracker_lem window cadence h hc =
    let spacing = cadence - cadence / 8 in
    let apart : 0 < spacing = omega (arith, hc) in
    let both : (ltb 0 window && ltb 0 spacing) ≡ true = ground arith in
    let (parts, rest) = whole window spacing apart in
    rw both (
      refl,
      ceil_covers window spacing _ _ apart parts rest,
      ceil_tight window spacing _ _ apart parts rest,
    )
