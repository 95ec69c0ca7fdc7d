-- ===== src/Calls/Races/OneResult.antt =====
-- What the racing callers of the table can rely on.
use mathlib.Core.Path.{subst}
use styx.Base.{ℕ, ◌≡◌, ◌⊎◌, false, [], ◌∷◌}
use styx.Calls.{Result}
use styx.Calls.Races.{won, System, Reach, here, next}
use styx.Calls.Races.Invariant.{is_live, Agrees, AgentOk, Inv, started-Inv}
use styx.Calls.Races.Endings.{asked_by, endings}
use styx.Calls.Races.Traced.{EndedBy, Traced}
use styx.Calls.Races.Wins.{Step-Traced, started-Traced}
use styx.Calls.Races.Deliver.{Step-Inv}

Reach-Inv : {generation : ℕ} {s : System} → Reach generation s → Inv s
Reach-Inv {generation} here = started-Inv generation
Reach-Inv (next r e) = Step-Inv (Reach-Inv r) e

Reach-Traced :
    {generation : ℕ} {s : System} (run : Reach generation s) → Traced s (asked_by run) (endings run)
Reach-Traced {generation} here = started-Traced generation
Reach-Traced (next before step) = Step-Traced (Reach-Traced before) (Reach-Inv before) step

-- However any number of goroutines interleave their calls of the table, in the run that has led here
-- either no compare-and-swap has ended a call, which is then live and has been sent nothing; or exactly
-- one has, for a transition that its goroutine was asked for on this call, the call is in the state of
-- that transition, and it has been sent nothing yet or the result of that very transition, once.
pub one_result :
    {generation : ℕ} {s : System} (run : Reach generation s) (id : ℕ)
    → EndedBy id (s.table.heap id) (endings run id)
one_result run id = (Reach-Traced run).calls_traced id

-- However any number of goroutines interleave their calls of the table, a call that has ended has
-- been sent its result, or a goroutine that has ended it is about to send it.
pub no_result_lost :
    {generation : ℕ} {s : System}
    → Reach generation s
    → (id : ℕ) → is_live (s.table.heap id).state ≡ false
    → ((r : Result) × ((s.table.heap id).results ≡ r ∷ []) × Agrees (s.table.heap id).state r)
      ⊎ ((i : ℕ) × (r : Result) × (s.agents i ≡ won id r))
no_result_lost r id dead = (Reach-Inv r).answered id dead

-- However any number of goroutines interleave their calls of the table, at most one of them is about
-- to send a call its result, and then none has been sent.
pub one_sender :
    {generation : ℕ} {s : System}
    → Reach generation s
    → (i j id : ℕ) (r q : Result) → s.agents i ≡ won id r
    → s.agents j ≡ won id q
    → (i ≡ j) × ((s.table.heap id).results ≡ [])
one_sender {s = s} reached i j id r q e f =
    let inv : Inv s = Reach-Inv reached in
    (inv.one_winner i j id r q e f, (subst (AgentOk s.table) e (inv.agents_ok i)).2)
