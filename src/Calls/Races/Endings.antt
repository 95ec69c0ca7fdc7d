-- ===== src/Calls/Races/Endings.antt =====
-- The history of a run of the racing table: what each goroutine was last asked to do, and the
-- transitions that ended each call.
use styx.Base.{ℕ, Option, none, some, List, [], ◌∷◌, ◌++◌, ◌==◌, if◌then◌else◌}
use styx.Calls.{CallState, Result}
use styx.Calls.Races.{
  System, Step, register, find_published, find, swap_published, win, lose, give_up, deliver, drop,
  Reach, here, next,
}

-- A transition asked of the table: its call, the state that it passes and its result.
pub record Ending : Type 0 where
  pub call : ℕ
  pub to : CallState
  pub result : Result

-- What goroutine `j` last asked for, after a step.
abbrev pub asks : {s s' : System} → Step s s' → (ℕ → Option Ending) → ℕ → Option Ending
asks (register budget now new_resp h) asked j = asked j
asks (find_published i id e h) asked j = asked j
asks (find i id to r from e h q) asked j =
    if j == i then some (record { call = id; to = to; result = r }) else asked j
asks (swap_published i id e) asked j = asked j
asks (win i id to r src from e hit) asked j = asked j
asks (lose i id to r src from e miss) asked j = asked j
asks (give_up i id to r e) asked j = asked j
asks (deliver i id r e) asked j = asked j
asks (drop i id e) asked j = asked j

-- `none` where no step has asked.
abbrev pub asked_by : {generation : ℕ} {s : System} → Reach generation s → ℕ → Option Ending
asked_by here j = none
asked_by (next before step) j = asks step (asked_by before) j

-- A win adds what its goroutine asked for to the endings of the call.
abbrev pub ends :
    {s s' : System}
    → Step s s'
    → (ℕ → Option Ending)
    → (ℕ → List (Option Ending))
    → ℕ
    → List (Option Ending)
ends (register budget now new_resp h) asked ended k = ended k
ends (find_published i id e h) asked ended k = ended k
ends (find i id to r from e h q) asked ended k = ended k
ends (swap_published i id e) asked ended k = ended k
ends (win i id to r src from e hit) asked ended k =
    if k == id then ended k ++ (asked i ∷ []) else ended k
ends (lose i id to r src from e miss) asked ended k = ended k
ends (give_up i id to r e) asked ended k = ended k
ends (deliver i id r e) asked ended k = ended k
ends (drop i id e) asked ended k = ended k

-- The wins of compare-and-swaps that ended the call, in order.
abbrev pub endings : {generation : ℕ} {s : System} → Reach generation s → ℕ → List (Option Ending)
endings here k = []
endings (next before step) k = ends step (asked_by before) (endings before) k
