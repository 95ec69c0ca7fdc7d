-- ===== src/Calls/Tests.antt =====
-- A table with two calls, at concrete inputs.
use styx.Base.{
  ℕ, zero, suc, ◌≡◌, ◌⊎◌, refl, arith, true, false, ◌&&◌, if◌then◌else◌, none, some, [], ◌∷◌,
}
use styx.Base.Int.{pos}
use styx.Calls.{
  Table, submitted, published, canceled, completed, cause, Result, empty_result, new_table, submit,
  publish, has, terminate, fail_all, both, compare_and_swap, submit_decoding, state_code, send,
  canceled_locally,
}
use styx.Calls.Terminate.{one_of, same_state, ended, terminate_lem}
use styx.Calls.FailAll.{failed_call, fail_all_lem}
use styx.Calls.Races.{
  System, won, Reach, here, next, register, find, win, deliver, cancels, completes,
}
use styx.Calls.Races.Invariant.{Agrees}
use styx.Calls.Races.Endings.{endings}
use styx.Calls.Races.Traced.{EndedBy}
use styx.Calls.Races.OneResult.{one_result, no_result_lost, one_sender}

-- Call 1 is published, call 2 only submitted.
abbrev two_calls : Table
unfolding publish submit new_table
two_calls = (publish 1 (submit (pos 0) 0 (submit (pos 5) 0 (new_table 9)).1).1).1

terminate_lem_example : terminate 2 completed empty_result (published ∷ []) two_calls ≡ (
    if has 2 two_calls.keys && one_of (two_calls.heap 2).state (published ∷ [])
    then (true, ended 2 completed empty_result two_calls)
    else (false, two_calls))
terminate_lem_example = terminate_lem 2 completed empty_result (published ∷ []) two_calls

two_live : (id : ℕ) → has id two_calls.keys ≡ true → one_of (two_calls.heap id).state both ≡ true
unfolding publish submit new_table has one_of same_state state_code
two_live zero e = cc
two_live (suc zero) e = refl
two_live (suc (suc zero)) e = refl
two_live (suc (suc (suc id))) e = ground arith

two_covered : (id : ℕ) → has id two_calls.keys ≡ true → has id (1 ∷ 2 ∷ []) ≡ true
unfolding publish submit new_table has
two_covered id e = ground arith

fail_all_lem_example :
    (has 1 (fail_all (1 ∷ 2 ∷ []) (cause 3) (cause 4) two_calls).keys ≡ false)
    × ((fail_all (1 ∷ 2 ∷ []) (cause 3) (cause 4) two_calls).heap 1 ≡ (
        if has 1 two_calls.keys
        then failed_call (cause 3) (cause 4) (two_calls.heap 1)
        else two_calls.heap 1))
fail_all_lem_example =
    fail_all_lem (1 ∷ 2 ∷ []) (cause 3) (cause 4) two_calls two_live two_covered 1

-- Two goroutines race for call 1: the cancel wins, the response tries in vain.
abbrev raced : (s : System) × Reach 9 s
unfolding submit_decoding new_table has compare_and_swap
raced = (
  _,
  next
      (next
        (next (next here (register (pos 5) 0 none (omega arith)))
          (find 0 1 _ _ _ refl refl cancels))
        (find 1 1 _ _ _ refl refl (completes [])))
      (win 0 1 canceled _ submitted (published ∷ []) refl refl),
)

-- The cancel's result has been sent.
abbrev answered : (s : System) × Reach 9 s
unfolding submit_decoding new_table has compare_and_swap send
answered = (_, next raced.1 (deliver 0 1 _ refl))

one_result_example : EndedBy 1 (answered.0.table.heap 1) (endings answered.1 1)
one_result_example = one_result {generation = 9} {s = answered.0} answered.1 1

-- One transition has ended the call, the cancel.
one_ending :
    endings answered.1 1
    ≡ some (record {
      call = 1;
      to = canceled;
      result = record empty_result { err = some canceled_locally };
    })
      ∷ []
unfolding answered
one_ending = refl

no_result_lost_example :
    ((r : Result) × ((raced.0.table.heap 1).results ≡ r ∷ [])
      × Agrees (raced.0.table.heap 1).state r)
    ⊎ ((i : ℕ) × (r : Result) × (raced.0.agents i ≡ won 1 r))
unfolding submit_decoding new_table has compare_and_swap
no_result_lost_example = no_result_lost {generation = 9} {s = raced.0} raced.1 1 refl

abbrev raced_winner : ℕ
raced_winner = 0

one_sender_example : (raced_winner ≡ raced_winner) × ((raced.0.table.heap 1).results ≡ [])
unfolding submit_decoding new_table has compare_and_swap
one_sender_example =
    one_sender {generation = 9} {s = raced.0} raced.1 raced_winner raced_winner 1 _ _ refl refl
