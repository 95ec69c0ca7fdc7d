-- ===== src/Calls/FailAll.antt =====
-- FailAll: every call in the table ends, whatever the order of the walk.
use styx.Base.{
  ℕ, ◌≡◌, inl, inr, refl, ap, ◌∙◌, arith, Bool, true, false, not, ◌&&◌, Bool-cases, some, List, [],
  ◌∷◌, ◌++◌, ◌==◌, if◌then◌else◌,
}
use native.Mathlib.Decide.{ℕ_discrete}
use styx.Calls.{
  CallState, submitted, published, rejected, outcome_unknown, Result, Call, Table, CallError,
  empty_result, has, delete, terminate, fail_all, both,
}
use styx.Calls.Terminate.{one_of, same_state, ended, terminate_lem}

abbrev pub failure : CallError → Result
failure e = record empty_result { err = some e }

-- A call after FailAll.
abbrev pub failed_call : CallError → CallError → Call → Call
failed_call dispatched not_dispatched c =
    if same_state c.state submitted
    then record c { state = rejected; results = c.results ++ (failure not_dispatched ∷ []) }
    else if same_state c.state published
    then record c { state = outcome_unknown; results = c.results ++ (failure dispatched ∷ []) }
    else c

pub has-delete : (k id : ℕ) (keys : List ℕ) → has k (delete id keys) ≡ (has k keys && not (k == id))
unfolding has delete
has-delete k id [] = refl
has-delete k id (x ∷ keys) = grind (arith, has-delete k id keys)

module _ (id : ℕ) (to src : CallState) (r : Result) (t : Table) where
  one_state : terminate id to r (src ∷ []) t ≡ (
      if has id t.keys && same_state (t.heap id).state src
      then (true, ended id to r t)
      else (false, t))
  unfolding one_of
  one_state =
      terminate_lem id to r (src ∷ []) t
      ∙ elim (Bool-cases (same_state (t.heap id).state src)) [ inl e ↦ rw e | inr e ↦ rw e ]

  absent : has id t.keys ≡ false → terminate id to r (src ∷ []) t ≡ (false, t)
  absent gone = one_state ∙ rw gone

  other_state :
      has id t.keys ≡ true
      → same_state (t.heap id).state src ≡ false
      → terminate id to r (src ∷ []) t ≡ (false, t)
  other_state here e = one_state ∙ rw (here, e)

  this_state :
      has id t.keys ≡ true
      → same_state (t.heap id).state src ≡ true
      → terminate id to r (src ∷ []) t ≡ (true, ended id to r t)
  this_state here e = one_state ∙ rw (here, e)

-- One round more, on the tests alone: `same` is the visit, `h` the membership, `m` the later visits
-- and `live` the state, and `a` the call after the round.
keys_bool :
    (same h m live later : Bool)
    → (same ≡ false → later ≡ live)
    → (live ≡ false → later ≡ live)
    → (h && not (same && live) && not (m && later))
      ≡ (h && not ((if same then true else m) && live))
keys_bool same false m live later p q = refl
keys_bool false true m live later p q = rw (p refl)
keys_bool true true m true later p q = refl
keys_bool true true true false later p q = rw (q refl)
keys_bool true true false false later p q = refl

heap_bool :
    (F : Call → Call) (same h m live : Bool) (c a : Call)
    → ((same && h) ≡ false → a ≡ c)
    → ((same && h) ≡ true → a ≡ F c)
    → (live ≡ false → F c ≡ c)
    → (if m && (h && not (same && live)) then F a else a)
      ≡ (if (if same then true else m) && h then F c else c)
heap_bool F false false false live c a p q r = p refl
heap_bool F false false true live c a p q r = p refl
heap_bool F true false false live c a p q r = p refl
heap_bool F true false true live c a p q r = p refl
heap_bool F false true false live c a p q r = p refl
heap_bool F false true true live c a p q r = ap F (p refl)
heap_bool F true true false live c a p q r = q refl
heap_bool F true true true true c a p q r = q refl
heap_bool F true true true false c a p q r = ap F (q refl) ∙ ap F (r refl)

module _ (dispatched not_dispatched : CallError) where
  -- One round of the walk.
  abbrev round : ℕ → Table → Table
  round id t =
      let first = terminate id rejected (failure not_dispatched) (submitted ∷ []) t in
      let second = terminate id outcome_unknown (failure dispatched) (published ∷ []) first.1 in
      if first.0 then first.1 else second.1

  round_eq :
      (id : ℕ) (t : Table)
      → round id t ≡ (
          if has id t.keys
          then (if same_state (t.heap id).state submitted
              then ended id rejected (failure not_dispatched) t
              else if same_state (t.heap id).state published
              then ended id outcome_unknown (failure dispatched) t
              else t)
          else t)
  round_eq id t = elim (Bool-cases (has id t.keys)) [
    | inr gone ↦ rw (
      absent id rejected submitted (failure not_dispatched) t gone,
      absent id outcome_unknown published (failure dispatched) t gone,
      gone,
    )
    | inl here ↦ elim (Bool-cases (same_state (t.heap id).state submitted)) [
      | inl e ↦ rw (this_state id rejected submitted (failure not_dispatched) t here e, here, e)
      | inr e ↦ elim (Bool-cases (same_state (t.heap id).state published)) [
        | inl f ↦ rw (
          other_state id rejected submitted (failure not_dispatched) t here e,
          this_state id outcome_unknown published (failure dispatched) t here f,
          here,
          e,
          f,
        )
        | inr f ↦ rw (
          other_state id rejected submitted (failure not_dispatched) t here e,
          other_state id outcome_unknown published (failure dispatched) t here f,
          here,
          e,
          f,
        )
      ]
    ]
  ]

  abbrev after_round : ℕ → Table → ℕ → Call
  after_round id t k =
      if (k == id) && has k t.keys
      then failed_call dispatched not_dispatched (t.heap k)
      else t.heap k

  round_heap : (id k : ℕ) (t : Table) → (round id t).heap k ≡ after_round id t k
  round_heap id k t =
      rw (round_eq id t)
        (elim (ℕ_discrete k id) [ yes e ↦ rw e (ground arith) | no ne ↦ ground (arith, ne) ])

  round_keys :
      (id k : ℕ) (t : Table)
      → has k (round id t).keys ≡ (has k t.keys && not ((k == id) && one_of (t.heap k).state both))
  unfolding one_of
  round_keys id k t = rw (round_eq id t) (elim (ℕ_discrete k id) [
    | yes e ↦ rw e (ground (arith, has-delete id id t.keys))
    | no ne ↦ ground (arith, has-delete k id t.keys, ne)
  ])

  failed_quiet :
      (c : Call) → one_of c.state both ≡ false → failed_call dispatched not_dispatched c ≡ c
  unfolding one_of
  failed_quiet c e = ground arith

  after_quiet :
      (id k : ℕ) (t : Table) → one_of (t.heap k).state both ≡ false → after_round id t k ≡ t.heap k
  after_quiet id k t e = ground (arith, failed_quiet (t.heap k) e)

  after_other : (id k : ℕ) (t : Table) → (k == id) ≡ false → after_round id t k ≡ t.heap k
  after_other id k t e = rw e

  fail_all_keys :
      (ids : List ℕ) (k : ℕ) (t : Table)
      → has k (fail_all ids dispatched not_dispatched t).keys
        ≡ (has k t.keys && not (has k ids && one_of (t.heap k).state both))
  unfolding fail_all has
  fail_all_keys [] k t = ground arith
  fail_all_keys (id ∷ ids) k t =
      fail_all_keys ids k (round id t)
      ∙ rw (round_keys id k t, round_heap id k t)
          (keys_bool (k == id) (has k t.keys) (has k ids) (one_of (t.heap k).state both)
            (one_of (after_round id t k).state both)
            (λ e. ap (λ (c : Call). one_of c.state both) (after_other id k t e))
            (λ e. ap (λ (c : Call). one_of c.state both) (after_quiet id k t e)))

  fail_all_heap :
      (ids : List ℕ) (k : ℕ) (t : Table)
      → (fail_all ids dispatched not_dispatched t).heap k ≡ (
          if has k ids && has k t.keys
          then failed_call dispatched not_dispatched (t.heap k)
          else t.heap k)
  unfolding fail_all has
  fail_all_heap [] k t = ground arith
  fail_all_heap (id ∷ ids) k t =
      fail_all_heap ids k (round id t)
      ∙ rw (round_keys id k t, round_heap id k t)
          (heap_bool (failed_call dispatched not_dispatched) (k == id) (has k t.keys) (has k ids)
            (one_of (t.heap k).state both) (t.heap k) (after_round id t k) (λ e. rw e) (λ e. rw e)
            (failed_quiet (t.heap k)))

-- If every call in the table is submitted or published and the walk visits them all, in whatever
-- order, `FailAll` empties the table, ends each submitted call rejected with the not-dispatched
-- error and each published one with an unknown outcome and the dispatched error, sending each one
-- result, and changes no other call.
pub fail_all_lem :
    (ids : List ℕ) (dispatched not_dispatched : CallError) (t : Table)
    → ((id : ℕ) → has id t.keys ≡ true → one_of (t.heap id).state both ≡ true)
    → ((id : ℕ) → has id t.keys ≡ true → has id ids ≡ true)
    → (id : ℕ)
    → (has id (fail_all ids dispatched not_dispatched t).keys ≡ false)
      × ((fail_all ids dispatched not_dispatched t).heap id ≡ (
          if has id t.keys then failed_call dispatched not_dispatched (t.heap id) else t.heap id))
fail_all_lem ids dispatched not_dispatched t live covers id = (
  fail_all_keys dispatched not_dispatched ids id t ∙ ground (arith, live id, covers id),
  fail_all_heap dispatched not_dispatched ids id t ∙ ground (arith, covers id),
)
