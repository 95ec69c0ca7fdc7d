-- ===== src/Calls/Terminate.antt =====
-- What one terminal transition does, and FailAll.
use styx.Base.{
  ℕ, ◌≡◌, inl, inr, refl, ap, sym, ◌∙◌, arith, Bool-cases, Bool, true, false, List, [], ◌∷◌, ◌++◌,
  ◌==◌, if◌then◌else◌, ◌&&◌,
}
use styx.Calls.{
  CallState, state_code, Result, Call, Table, has, delete, remove, update, terminate, try_states,
  compare_and_swap, send,
}

unfoldable pub same_state : CallState → CallState → Bool
unfolding state_code
same_state s x = state_code s == state_code x

-- A list that holds a state.
unfoldable pub one_of : CallState → List CallState → Bool
one_of s [] = false
one_of s (x ∷ xs) = if same_state s x then true else one_of s xs

-- The call for `id` ended in state `to` with the result `r`, and out of the map.
abbrev pub ended : ℕ → CallState → Result → Table → Table
ended id to r t = record t {
  keys = delete id t.keys;
  heap =
      update id (record (t.heap id) { state = to; results = (t.heap id).results ++ (r ∷ []) })
        t.heap;
}

pub cas_miss :
    (src to : CallState) (id : ℕ) (t : Table)
    → same_state (t.heap id).state src ≡ false
    → compare_and_swap src to id t ≡ (false, t)
unfolding compare_and_swap same_state
cas_miss src to id t e = rw e

pub cas_hit :
    (src to : CallState) (id : ℕ) (t : Table)
    → same_state (t.heap id).state src ≡ true
    → compare_and_swap src to id t
      ≡ (true, record t { heap = update id (record (t.heap id) { state = to }) t.heap })
unfolding compare_and_swap same_state
cas_hit src to id t e = rw e

if_true_eq : {b c : Bool} → (if b then true else c) ≡ false → (b ≡ false) × (c ≡ false)
if_true_eq {b = true} e = cc
if_true_eq {b = false} e = (refl, e)

try_states_miss :
    (id : ℕ) (to : CallState) (r : Result) (from : List CallState) (t : Table)
    → one_of (t.heap id).state from ≡ false
    → try_states id to r from t ≡ (false, t)
unfolding try_states one_of
try_states_miss id to r [] t e = refl
try_states_miss id to r (src ∷ from) t e =
    let (here, later) = if_true_eq e in
    rw (cas_miss src to id t here) (try_states_miss id to r from t later)

pub update_self : (id : ℕ) (c : Call) (heap : ℕ → Call) → update id c heap id ≡ c
update_self id c heap = ground arith

-- Updating a call twice in the heap.
update-update :
    (id : ℕ) (c d : Call) (heap : ℕ → Call) → update id d (update id c heap) ≡ update id d heap
update-update id c d heap = λ i k. case_of k i
  where
    case_of : (k : ℕ) → update id d (update id c heap) k ≡ update id d heap k
    case_of k = ground arith

ended_eq :
    (id : ℕ) (to : CallState) (r : Result) (t : Table)
    → remove id
        (send id r (record t { heap = update id (record (t.heap id) { state = to }) t.heap }))
      ≡ ended id to r t
unfolding remove send
ended_eq id to r t =
    let c : Call = record (t.heap id) { state = to } in
    let heap : ℕ → Call = update id c t.heap in
    let same : update id (record (heap id) { results = (heap id).results ++ (r ∷ []) }) heap
        ≡ update id (record c { results = c.results ++ (r ∷ []) }) t.heap =
      ap (λ (d : Call). update id (record d { results = d.results ++ (r ∷ []) }) heap)
        (update_self id c t.heap)
      ∙ update-update id c (record c { results = c.results ++ (r ∷ []) }) t.heap in
    λ i. record t { keys = delete id t.keys; heap = same i }

try_states_hit :
    (id : ℕ) (to : CallState) (r : Result) (from : List CallState) (t : Table)
    → one_of (t.heap id).state from ≡ true
    → try_states id to r from t ≡ (true, ended id to r t)
unfolding try_states one_of
try_states_hit id to r [] t e = cc
try_states_hit id to r (src ∷ from) t e = elim (Bool-cases (same_state (t.heap id).state src)) [
  | inl here ↦ rw (cas_hit src to id t here) (λ i. (true, ended_eq id to r t i))
  | inr gone ↦ rw (cas_miss src to id t gone) (try_states_hit id to r from t (sym (rw gone) ∙ e))
]

-- `terminate` succeeds exactly when the call is in the table in one of the source states: then it
-- puts the call in the state `to`, sends the one result and takes it out of the table. Otherwise it
-- changes nothing.
pub terminate_lem :
    (id : ℕ) (to : CallState) (r : Result) (from : List CallState) (t : Table)
    → terminate id to r from t ≡ (
        if has id t.keys && one_of (t.heap id).state from
        then (true, ended id to r t)
        else (false, t))
unfolding terminate
terminate_lem id to r from t = elim (Bool-cases (has id t.keys)) [
  | inr gone ↦ rw gone
  | inl here ↦ elim (Bool-cases (one_of (t.heap id).state from)) [
    | inl e ↦ rw (here, e) (try_states_hit id to r from t e)
    | inr e ↦ rw (here, e) (try_states_miss id to r from t e)
  ]
]
