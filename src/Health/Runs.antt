-- ===== src/Health/Runs.antt =====
-- The tracker, one verdict at a time, against the streak of the samples before.
use styx.Base.{
  ℕ, suc, ◌<◌, ◌≡◌, ◌⊎◌, inl, inr, refl, sym, ◌∙◌, arith, Bool, true, false, not, ◌&&◌, Bool-cases,
  ==_iff, none, some, List, [], ◌∷◌, ltb, ◌==◌, if◌then◌else◌, add64, sub64, u64_mod,
}
use mathlib.Core.Path.{subst}
use styx.Health.{
  health_wedged, WedgeKind, wedge_none, wedge_transport, wedge_dispatch, HeartbeatSample, classify,
  WedgeTracker, clear, is_wedged, same_kind, note_sequence, observe, default_high_water_bytes,
}
use styx.Health.Streak.{Idle, Stalled, Firing, judge-first, judge-next, note-adjacent}

abbrev pub is_fault : WedgeKind → Bool
is_fault k = not (same_kind wedge_none k)

abbrev pub faulty : WedgeKind → HeartbeatSample → HeartbeatSample → Bool
faulty k p s = same_kind (classify p s default_high_water_bytes).1 k

-- How many of the latest samples, the latest first and on adjacent sequence numbers, were found with
-- the fault `k`.
unfoldable pub streak : WedgeKind → List HeartbeatSample → ℕ
streak k [] = 0
streak k (s ∷ []) = 0
streak k (s ∷ p ∷ ss) =
    let before = streak k (p ∷ ss) in
    if faulty k p s then suc (if s.sequence == add64 p.sequence 1 then before else 0) else 0

pub classify-cases :
    (p s : HeartbeatSample) (high : ℕ)
    → ((is_wedged (classify p s high).0 ≡ false) × ((classify p s high).1 ≡ wedge_none))
      ⊎ (((classify p s high).0 ≡ health_wedged) × (is_fault (classify p s high).1 ≡ true))
unfolding classify
classify-cases p s high = ground arith

pub same_kind-eq : (j k : WedgeKind) → same_kind j k ≡ true → j ≡ k
same_kind-eq wedge_none wedge_none e = refl
same_kind-eq wedge_transport wedge_transport e = refl
same_kind-eq wedge_dispatch wedge_dispatch e = refl
same_kind-eq wedge_none wedge_transport e = cc
same_kind-eq wedge_none wedge_dispatch e = cc
same_kind-eq wedge_transport wedge_none e = cc
same_kind-eq wedge_transport wedge_dispatch e = cc
same_kind-eq wedge_dispatch wedge_none e = cc
same_kind-eq wedge_dispatch wedge_transport e = cc

-- What the tracker holds after the samples `s ∷ ss`.
pub record Run (beats : ℕ) (s : HeartbeatSample) (ss : List HeartbeatSample) (t : WedgeTracker)
    (k : WedgeKind) : Type 0 where
  pub n : ℕ
  pub fault : is_fault k ≡ true
  pub stalled : Stalled beats k n s.sequence t
  pub counted : streak k (s ∷ ss) ≡ suc n
  pub others : (j : WedgeKind) → same_kind k j ≡ false → streak j (s ∷ ss) ≡ 0

abbrev pub Summary : ℕ → HeartbeatSample → List HeartbeatSample → WedgeTracker → Type 0
Summary beats s ss t =
    (Idle beats t × ((k : WedgeKind) → is_fault k ≡ true → streak k (s ∷ ss) ≡ 0))
    ⊎ ((k : WedgeKind) × Run beats s ss t k)

pub Summary-window :
    (beats : ℕ) (s : HeartbeatSample) (ss : List HeartbeatSample) (t : WedgeTracker)
    → Summary beats s ss t
    → t.window_beats ≡ beats
Summary-window beats s ss t (inl (idle, e)) = idle.window
Summary-window beats s ss t (inr (k, r)) = r.stalled.window

no_fire : {A : Type 0} (beats : ℕ) (x y : A) → (if ltb 0 beats && 0 == beats then x else y) ≡ y
no_fire beats x y = ground arith

-- A verdict of fault `c`, with the tracker at rest, of another kind, or past a gap.
observe-new :
    (c : WedgeKind) (seq beats : ℕ) (t : WedgeTracker)
    → is_fault c ≡ true
    → t.window_beats ≡ beats
    → same_kind (note_sequence seq t).wedge c ≡ false
    → seq < u64_mod
    → ((observe health_wedged c seq t).0 ≡ (if ltb 0 beats && 0 == beats then some c else none))
      × Stalled beats c 0 seq (observe health_wedged c seq t).1
unfolding observe note_sequence clear
observe-new c seq beats t fault window new word =
    let (silent, st) =
      judge-first c seq beats (note_sequence seq t) new (ground arith) refl refl word in
    (silent ∙ sym (no_fire beats (some c) none), st)

unnamed : (w k c : WedgeKind) → w ≡ k → same_kind k c ≡ false → same_kind w c ≡ false
unnamed w k c e f = rw e f

note_sequence-unnamed :
    (seq : ℕ) (t : WedgeTracker) → t.wedge ≡ wedge_none → (note_sequence seq t).wedge ≡ wedge_none
unfolding note_sequence clear
note_sequence-unnamed seq t e = ground arith

note_sequence-gap :
    (seq last : ℕ) (t : WedgeTracker)
    → t.have_seq ≡ true
    → t.last_seq ≡ last
    → (seq == add64 last 1) ≡ false
    → (note_sequence seq t).wedge ≡ wedge_none
unfolding note_sequence clear
note_sequence-gap seq last t has at gap = ground arith

note_sequence-next :
    (seq last : ℕ) (t : WedgeTracker) (k : WedgeKind)
    → t.wedge ≡ k
    → t.last_seq ≡ last
    → (seq == add64 last 1) ≡ true
    → (note_sequence seq t).wedge ≡ k
unfolding note_sequence clear
note_sequence-next seq last t k e at adjacent = ground arith

next_span :
    (last seq anchor n : ℕ)
    → seq ≡ add64 last 1
    → suc n < u64_mod
    → anchor < u64_mod
    → sub64 last anchor ≡ n
    → sub64 seq anchor ≡ suc n
next_span last seq anchor n e h word span = omega (arith, e, h, word, span)

-- The next verdict of a fault, on the next sequence number.
observe-next :
    (c : WedgeKind) (n last seq beats : ℕ) (t : WedgeTracker)
    → Stalled beats c n last t
    → (seq == add64 last 1) ≡ true
    → beats < u64_mod
    → ((observe health_wedged c seq t).0 ≡ (if ltb 0 beats && suc n == beats then some c else none))
      × Stalled beats c (suc n) seq (observe health_wedged c seq t).1
unfolding observe
observe-next c n last seq beats t st adjacent word =
    let at : seq ≡ add64 t.last_seq 1 = rw st.at_seq (ground arith) in
    subst (Firing beats c (suc n) seq) (sym (note-adjacent seq t at)) (
      judge-next c n seq beats (record t { last_seq = seq; have_seq = true }) st.window st.of_kind
        refl refl st.fires_once st.anchored
        (λ h.
          next_span last seq t.anchor_seq n ((==_iff _ _).0 adjacent) (omega (arith, h, word))
            st.anchored (st.span h)))

pub observe-streak :
    (c : WedgeKind) (p s : HeartbeatSample) (ss : List HeartbeatSample) (beats : ℕ)
    (t : WedgeTracker)
    → beats < u64_mod
    → is_fault c ≡ true
    → Summary beats p ss t
    → s.sequence < u64_mod
    → let n = (if s.sequence == add64 p.sequence 1 then streak c (p ∷ ss) else 0) in
      ((observe health_wedged c s.sequence t).0
        ≡ (if ltb 0 beats && n == beats then some c else none))
      × Stalled beats c n s.sequence (observe health_wedged c s.sequence t).1
observe-streak c p s ss beats t word fault (inl (idle, zeros)) bound =
    let none_before : (if s.sequence == add64 p.sequence 1 then streak c (p ∷ ss) else 0) ≡ 0 =
      rw (zeros c fault) (ground arith) in
    rw none_before (
      observe-new c s.sequence beats t fault idle.window
        (unnamed _ wedge_none c (note_sequence-unnamed s.sequence t idle.no_kind) (ground arith))
        bound)
observe-streak c p s ss beats t word fault (inr (k, r)) bound =
    elim (Bool-cases (s.sequence == add64 p.sequence 1)) [
      | inr gap ↦ rw gap (
          observe-new c s.sequence beats t fault r.stalled.window
            (unnamed _ wedge_none c
              (note_sequence-gap s.sequence p.sequence t r.stalled.has_seq r.stalled.at_seq gap)
              (ground arith))
            bound)
      | inl adjacent ↦ rw adjacent (elim (Bool-cases (same_kind k c)) [
        | inl same ↦
            let kc = same_kind-eq k c same in
            let st : Stalled beats c r.n p.sequence t = rw kc at r.stalled in
            let counted : streak c (p ∷ ss) ≡ suc r.n = rw kc at r.counted in
            rw counted (observe-next c r.n p.sequence s.sequence beats t st adjacent word)
        | inr other ↦ rw (r.others c other) (
            observe-new c s.sequence beats t fault r.stalled.window
              (unnamed _ k c
                (note_sequence-next s.sequence p.sequence t k r.stalled.of_kind r.stalled.at_seq
                  adjacent)
                other)
              bound)
      ])
    ]
