-- ===== src/Calls/Races.antt =====
-- The table under concurrent callers: each agent is a goroutine, and each step one atomic action of
-- the code (a lookup under the lock, one CompareAndSwap, one channel send, one delete).
pub mod Invariant
pub mod Agents
pub mod Swap
pub mod Deliver
pub mod Endings
pub mod Traced
pub mod Wins
pub mod OneResult
use styx.Base.{
  ℕ, zero, suc, ◌<◌, ◌≡◌, Bool, true, false, Option, none, some, List, [], ◌∷◌, ◌==◌, if◌then◌else◌,
  u64_mod,
}
use styx.Base.Int.{ℤ}
use styx.Calls.{
  CallState, submitted, published, completed, failed, canceled, deadline, rejected, outcome_unknown,
  Status, Result, CallError, canceled_locally, deadline_exceeded_error, empty_result, Table,
  new_table, has, both, submit_decoding, compare_and_swap, send, remove,
}

-- The terminal transitions of the code: the state, the result and the source states that each of
-- Cancel, Complete, CompleteMsg, Fail, DeadlineExceeded, OutcomeUnknown, Reject and FailAll passes.
pub data Request : CallState → Result → List CallState → Type 0 where
  cancels : Request canceled (record empty_result { err = some canceled_locally }) both
  completes :
      (payload : List ℕ)
      → Request completed (record empty_result { payload = some payload }) (published ∷ [])
  completes_msg :
      (msg : ℕ) → Request completed (record empty_result { msg = some msg }) (published ∷ [])
  fails :
      (status : Status)
      → Request failed (record empty_result { status = some status }) (published ∷ [])
  runs_out : Request deadline (record empty_result { err = some deadline_exceeded_error }) both
  loses :
      (e : CallError)
      → Request outcome_unknown (record empty_result { err = some e }) (published ∷ [])
  rejects : (e : CallError) → Request rejected (record empty_result { err = some e }) both
  rejects_unpublished :
      (e : CallError) → Request rejected (record empty_result { err = some e }) (submitted ∷ [])

-- Where a goroutine stands in `publish` or `terminate`.
pub data Agent : Type 0 where
  idle : Agent
  publishing : ℕ → Agent
  trying : ℕ → CallState → Result → List CallState → Agent
  won : ℕ → Result → Agent
  delivered : ℕ → Agent

pub record System : Type 0 where
  pub table : Table
  pub agents : ℕ → Agent

abbrev pub put : ℕ → Agent → (ℕ → Agent) → ℕ → Agent
put i a agents j = if j == i then a else agents j

pub data Step (s : System) : System → Type 0 where
  register :
      (budget : ℤ) (now : ℕ) (new_resp : Option ℕ)
      → suc s.table.last_id < u64_mod
      → Step s (record s { table = (submit_decoding budget now new_resp s.table).1 })
  find_published :
      (i id : ℕ)
      → s.agents i ≡ idle
      → has id s.table.keys ≡ true
      → Step s (record s { agents = put i (publishing id) s.agents })
  find :
      (i id : ℕ) (to : CallState) (r : Result) (from : List CallState)
      → s.agents i ≡ idle
      → has id s.table.keys ≡ true
      → Request to r from
      → Step s (record s { agents = put i (trying id to r from) s.agents })
  swap_published :
      (i id : ℕ)
      → s.agents i ≡ publishing id
      → Step s (record {
        table = (compare_and_swap submitted published id s.table).1;
        agents = put i idle s.agents;
      })
  win :
      (i id : ℕ) (to : CallState) (r : Result) (src : CallState) (from : List CallState)
      → s.agents i ≡ trying id to r (src ∷ from)
      → (compare_and_swap src to id s.table).0 ≡ true
      → Step s (record {
        table = (compare_and_swap src to id s.table).1;
        agents = put i (won id r) s.agents;
      })
  lose :
      (i id : ℕ) (to : CallState) (r : Result) (src : CallState) (from : List CallState)
      → s.agents i ≡ trying id to r (src ∷ from)
      → (compare_and_swap src to id s.table).0 ≡ false
      → Step s (record s { agents = put i (trying id to r from) s.agents })
  give_up :
      (i id : ℕ) (to : CallState) (r : Result)
      → s.agents i ≡ trying id to r []
      → Step s (record s { agents = put i idle s.agents })
  deliver :
      (i id : ℕ) (r : Result)
      → s.agents i ≡ won id r
      → Step s (record { table = send id r s.table; agents = put i (delivered id) s.agents })
  drop :
      (i id : ℕ)
      → s.agents i ≡ delivered id
      → Step s (record { table = remove id s.table; agents = put i idle s.agents })

abbrev pub started : ℕ → System
started generation = record { table = new_table generation; agents = λ i. idle }

pub data Reach (generation : ℕ) : System → Type 0 where
  here : Reach generation (started generation)
  next : {s s' : System} → Reach generation s → Step s s' → Reach generation s'
