-- ===== src/Health/Streak.antt =====
-- The tracker against the samples it has been given.
use styx.Base.{
  ℕ, zero, suc, ◌<◌, ◌≡◌, inl, inr, refl, sym, ◌∙◌, arith, true, false, ◌&&◌, Bool-cases, none,
  some, ltb, leb, ◌==◌, if◌then◌else◌, add64, sub64, u64_mod,
}
use styx.Health.{
  HealthClass, health_wedged, WedgeKind, wedge_none, wedge_transport, wedge_dispatch, WedgeTracker,
  clear, is_wedged, same_kind, note_sequence, judge, observe,
}

pub record Idle (beats : ℕ) (t : WedgeTracker) : Type 0 where
  pub window : t.window_beats ≡ beats
  pub no_kind : t.wedge ≡ wedge_none
  pub no_seq : t.have_seq ≡ false

-- The `n + 1` latest verdicts are of kind `k`, on adjacent sequence numbers, the last of them `seq`.
pub record Stalled (beats : ℕ) (k : WedgeKind) (n seq : ℕ) (t : WedgeTracker) : Type 0 where
  pub window : t.window_beats ≡ beats
  pub of_kind : t.wedge ≡ k
  pub has_seq : t.have_seq ≡ true
  pub at_seq : t.last_seq ≡ seq
  pub fires_once : t.fired ≡ (ltb 0 beats && leb beats n)
  pub anchored : t.anchor_seq < u64_mod
  pub span : n < beats → sub64 seq t.anchor_seq ≡ n

pub same_kind_refl : (k : WedgeKind) → same_kind k k ≡ true
same_kind_refl wedge_none = refl
same_kind_refl wedge_transport = refl
same_kind_refl wedge_dispatch = refl

pub observe-healthy :
    (class : HealthClass) (k : WedgeKind) (seq beats : ℕ) (t : WedgeTracker)
    → is_wedged class ≡ false
    → t.window_beats ≡ beats
    → ((observe class k seq t).0 ≡ none) × Idle beats (observe class k seq t).1
unfolding observe note_sequence judge clear
observe-healthy class k seq beats t healthy window =
    (ground arith, record { window = ground arith; no_kind = ground arith; no_seq = ground arith })

pub judge-first :
    (k : WedgeKind) (seq beats : ℕ) (t : WedgeTracker)
    → same_kind t.wedge k ≡ false
    → t.window_beats ≡ beats
    → t.have_seq ≡ true
    → t.last_seq ≡ seq
    → seq < u64_mod
    → ((judge health_wedged k seq t).0 ≡ none)
      × Stalled beats k 0 seq (judge health_wedged k seq t).1
unfolding judge
judge-first k seq beats t new window has at word = rw new (
  refl,
  record {
    window = window;
    of_kind = refl;
    has_seq = has;
    at_seq = at;
    fires_once = ground arith;
    anchored = word;
    span = λ h. omega arith;
  },
)

abbrev pub Firing : ℕ → WedgeKind → ℕ → ℕ → WedgeTracker → Type 0
Firing beats k n seq t =
    ((judge health_wedged k seq t).0 ≡ (if ltb 0 beats && n == beats then some k else none))
    × Stalled beats k n seq (judge health_wedged k seq t).1

-- While it has not fired, the span is due exactly at `beats`.
due_iff :
    (beats n span : ℕ)
    → (ltb 0 beats && leb beats n) ≡ false
    → (n < beats → span ≡ suc n)
    → (ltb 0 beats && leb beats span) ≡ (ltb 0 beats && suc n == beats)
due_iff zero n span unfired e = refl
due_iff (suc b) n span unfired e = let at : span ≡ suc n = e (ground arith) in rw at (ground arith)

-- Before the next verdict of the same kind, with the sequence number noted.
pub judge-next :
    (k : WedgeKind) (n seq beats : ℕ) (t : WedgeTracker)
    → t.window_beats ≡ beats
    → t.wedge ≡ k
    → t.have_seq ≡ true
    → t.last_seq ≡ seq
    → t.fired ≡ (ltb 0 beats && leb beats n)
    → t.anchor_seq < u64_mod
    → (n < beats → sub64 seq t.anchor_seq ≡ suc n)
    → Firing beats k (suc n) seq t
unfolding judge
judge-next k n seq beats t window kind has at once word span =
    let same : same_kind t.wedge k ≡ true = rw kind (same_kind_refl k) in
    rw same (elim (Bool-cases t.fired) [
      | inl fired ↦ rw fired (
        ground arith,
        record {
          window = window;
          of_kind = kind;
          has_seq = has;
          at_seq = at;
          fires_once = ground arith;
          anchored = word;
          span = λ h. absurd (ground arith);
        },
      )
      | inr waiting ↦
          let unfired : (ltb 0 beats && leb beats n) ≡ false = sym once ∙ waiting in
          let test = due_iff beats n (sub64 seq t.anchor_seq) unfired span in
          rw waiting (
            rw window (
              rw test (elim (Bool-cases (ltb 0 beats && suc n == beats)) [
                | inl now ↦ rw now (
                  refl,
                  record {
                    window = refl;
                    of_kind = kind;
                    has_seq = has;
                    at_seq = at;
                    fires_once = ground arith;
                    anchored = word;
                    span = λ h. absurd (ground arith);
                  },
                )
                | inr later ↦ rw later (
                  refl,
                  record {
                    window = refl;
                    of_kind = kind;
                    has_seq = has;
                    at_seq = at;
                    fires_once = ground arith;
                    anchored = word;
                    span = λ h. span (omega (arith, h));
                  },
                )
              ])))
    ])

-- The guard on the sequence passes.
pub note-adjacent :
    (seq : ℕ) (t : WedgeTracker)
    → seq ≡ add64 t.last_seq 1
    → note_sequence seq t ≡ record t { last_seq = seq; have_seq = true }
unfolding note_sequence
note-adjacent seq t e = ground arith
