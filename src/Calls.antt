-- ===== src/Calls.antt =====
-- internal/rpcruntime/table.go: the request table of one connection.
-- A Go map of pointers is a list of keys with the heap of the calls ever made, so that a call that
-- has left the map still has a state and a channel. `results` holds every send on the channel, in
-- order. A reference that the table never opens (a message, a foreign error, a factory) is a number.
pub mod Terminate
pub mod FailAll
pub mod Races
mod Tests
use styx.Base.{
  ℕ, zero, suc, ◌+◌, ◌≡◌, Bool, true, false, not, Option, none, some, List, [], ◌∷◌, ◌++◌, ◌==◌,
  if◌then◌else◌, u64_mod, add64,
}
use styx.Base.Int.{ℤ, pos, negsuc}

pub data CallState : Type 0 where
  submitted published completed failed canceled deadline rejected outcome_unknown : CallState

-- The constant that stands for a state.
unfoldable pub state_code : CallState → ℕ
state_code submitted = 0
state_code published = 1
state_code completed = 2
state_code failed = 3
state_code canceled = 4
state_code deadline = 5
state_code rejected = 6
state_code outcome_unknown = 7

pub record Status : Type 0 where
  pub code : ℕ
  pub message : List ℕ
  pub details : List (List ℕ)

-- The table's two sentinels, and an error that a caller passes.
pub data CallError : Type 0 where
  canceled_locally deadline_exceeded_error : CallError
  cause : ℕ → CallError

pub record Result : Type 0 where
  pub payload : Option (List ℕ)
  pub msg : Option ℕ
  pub status : Option Status
  pub err : Option CallError

abbrev pub empty_result : Result
empty_result = record { payload = none; msg = none; status = none; err = none }

pub record Call : Type 0 where
  pub state : CallState
  pub results : List Result
  pub expires : Option ℕ
  pub new_resp : Option ℕ

pub record Table : Type 0 where
  pub generation : ℕ
  pub last_id : ℕ
  pub keys : List ℕ
  pub heap : ℕ → Call

abbrev pub no_call : Call
no_call = record { state = submitted; results = []; expires = none; new_resp = none }

unfoldable pub new_table : ℕ → Table
new_table generation = record {
  generation = generation;
  last_id = 0;
  keys = [];
  heap = λ id. no_call;
}

unfoldable pub next_id : Table → ℕ × Table
next_id t = let id = add64 t.last_id 1 in (id, record t { last_id = id })

unfoldable pub has : ℕ → List ℕ → Bool
has id [] = false
has id (k ∷ keys) = if id == k then true else has id keys

unfoldable pub delete : ℕ → List ℕ → List ℕ
delete id [] = []
delete id (k ∷ keys) = let rest = delete id keys in if id == k then rest else k ∷ rest

abbrev pub update : ℕ → Call → (ℕ → Call) → ℕ → Call
update id c heap k = if k == id then c else heap k

unfoldable pub reanchor : ℕ → ℕ → ℕ
reanchor budget received_at = received_at + budget

-- A budget that is not positive sets no deadline.
unfoldable pub deadline_of : ℤ → ℕ → Option ℕ
unfolding reanchor
deadline_of (pos zero) now = none
deadline_of (pos (suc budget)) now = some (reanchor (suc budget) now)
deadline_of (negsuc budget) now = none

unfoldable pub submit_decoding : ℤ → ℕ → Option ℕ → Table → ℕ × Table
unfolding deadline_of delete
submit_decoding budget now new_resp t =
    let id = add64 t.last_id 1 in
    (
      id,
      record t {
        last_id = id;
        keys = id ∷ delete id t.keys;
        heap =
            update id
              (record {
                state = submitted;
                results = [];
                expires = deadline_of budget now;
                new_resp = new_resp;
              })
              t.heap;
      },
    )

unfoldable pub submit : ℤ → ℕ → Table → ℕ × Table
unfolding submit_decoding
submit budget now t = submit_decoding budget now none t

-- `c.state.CompareAndSwap(src, to)` on the call made for `id`.
unfoldable pub compare_and_swap : CallState → CallState → ℕ → Table → Bool × Table
unfolding state_code
compare_and_swap src to id t =
    if state_code (t.heap id).state == state_code src
    then (true, record t { heap = update id (record (t.heap id) { state = to }) t.heap })
    else (false, t)

-- `c.resultCh <- r`
unfoldable pub send : ℕ → Result → Table → Table
send id r t = record t {
  heap = update id (record (t.heap id) { results = (t.heap id).results ++ (r ∷ []) }) t.heap;
}

unfoldable pub remove : ℕ → Table → Table
unfolding delete
remove id t = record t { keys = delete id t.keys }

-- The loop of `terminate` over the source states.
unfoldable pub try_states : ℕ → CallState → Result → List CallState → Table → Bool × Table
unfolding compare_and_swap send remove
try_states id to r [] t = (false, t)
try_states id to r (src ∷ from) t =
    let tried = compare_and_swap src to id t in
    let rest = try_states id to r from t in
    if tried.0 then (true, remove id (send id r tried.1)) else rest

unfoldable pub terminate : ℕ → CallState → Result → List CallState → Table → Bool × Table
unfolding has try_states
terminate id to r from t = if not (has id t.keys) then (false, t) else try_states id to r from t

abbrev pub both : List CallState
both = submitted ∷ published ∷ []

unfoldable pub publish : ℕ → Table → Bool × Table
unfolding has compare_and_swap
publish id t = if not (has id t.keys) then (false, t) else compare_and_swap submitted published id t

unfoldable pub cancel : ℕ → Table → Bool × Table
unfolding terminate
cancel id t = terminate id canceled (record empty_result { err = some canceled_locally }) both t

unfoldable pub complete : ℕ → List ℕ → Table → Bool × Table
unfolding terminate
complete id payload t =
    terminate id completed (record empty_result { payload = some payload }) (published ∷ []) t

unfoldable pub complete_msg : ℕ → ℕ → Table → Bool × Table
unfolding terminate
complete_msg id msg t =
    terminate id completed (record empty_result { msg = some msg }) (published ∷ []) t

-- `none` is a call that is not in the table.
unfoldable pub response_factory : ℕ → Table → Option (Option ℕ)
unfolding has
response_factory id t = if not (has id t.keys) then none else some ((t.heap id).new_resp)

unfoldable pub fail : ℕ → Status → Table → Bool × Table
unfolding terminate
fail id status t =
    terminate id failed (record empty_result { status = some status }) (published ∷ []) t

unfoldable pub deadline_exceeded : ℕ → Table → Bool × Table
unfolding terminate
deadline_exceeded id t =
    terminate id deadline (record empty_result { err = some deadline_exceeded_error }) both t

unfoldable pub lose_outcome : ℕ → CallError → Table → Bool × Table
unfolding terminate
lose_outcome id e t =
    terminate id outcome_unknown (record empty_result { err = some e }) (published ∷ []) t

unfoldable pub reject : ℕ → CallError → Table → Bool × Table
unfolding terminate
reject id e t = terminate id rejected (record empty_result { err = some e }) both t

unfoldable pub count_published : List ℕ → (ℕ → Call) → ℕ
unfolding state_code
count_published [] heap = 0
count_published (id ∷ ids) heap =
    let rest = count_published ids heap in
    if state_code (heap id).state == state_code published then suc rest else rest

unfoldable pub published_count : Table → ℕ
unfolding count_published
published_count t = count_published t.keys t.heap

-- `ids` is the keys in the order in which Go walks the map, which it does not specify.
unfoldable pub fail_all : List ℕ → CallError → CallError → Table → Table
unfolding terminate
fail_all [] dispatched not_dispatched t = t
fail_all (id ∷ ids) dispatched not_dispatched t =
    let first =
      terminate id rejected (record empty_result { err = some not_dispatched }) (submitted ∷ [])
        t in
    let second =
      terminate id outcome_unknown (record empty_result { err = some dispatched }) (published ∷ [])
        first.1 in
    fail_all ids dispatched not_dispatched (if first.0 then first.1 else second.1)
