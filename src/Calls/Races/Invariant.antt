-- ===== src/Calls/Races/Invariant.antt =====
-- What every state of the racing table has in common.
use styx.Base.{ℕ, ◌≤◌, ◌≡◌, ◌⊎◌, inl, refl, arith, Bool, true, false, List, [], ◌∷◌}
use styx.Calls.{
  CallState, submitted, published, completed, failed, canceled, deadline, rejected, outcome_unknown,
  Result, Call, Table, new_table, has,
}
use styx.Calls.Races.{
  Request, cancels, completes, completes_msg, fails, runs_out, loses, rejects, rejects_unpublished,
  Agent, idle, publishing, trying, won, delivered, System, started,
}

-- A call that has not ended.
abbrev pub is_live : CallState → Bool
is_live submitted = true
is_live published = true
is_live completed = false
is_live failed = false
is_live canceled = false
is_live deadline = false
is_live rejected = false
is_live outcome_unknown = false

-- The result is one that ends a call in this state.
abbrev pub Agrees : CallState → Result → Type 0
Agrees s r = (from : List CallState) × Request s r from

abbrev pub AllLive : List CallState → Type 0
AllLive [] = Unit
AllLive (s ∷ from) = (is_live s ≡ true) × AllLive from

pub Request-AllLive :
    {to : CallState} {r : Result} {from : List CallState} → Request to r from → AllLive from
Request-AllLive cancels = (refl, (refl, tt))
Request-AllLive (completes p) = (refl, tt)
Request-AllLive (completes_msg m) = (refl, tt)
Request-AllLive (fails st) = (refl, tt)
Request-AllLive runs_out = (refl, (refl, tt))
Request-AllLive (loses e) = (refl, tt)
Request-AllLive (rejects e) = (refl, (refl, tt))
Request-AllLive (rejects_unpublished e) = (refl, tt)

pub Agrees-ended : {to : CallState} {r : Result} → Agrees to r → is_live to ≡ false
Agrees-ended (from, cancels) = refl
Agrees-ended (from, completes p) = refl
Agrees-ended (from, completes_msg m) = refl
Agrees-ended (from, fails st) = refl
Agrees-ended (from, runs_out) = refl
Agrees-ended (from, loses e) = refl
Agrees-ended (from, rejects e) = refl
Agrees-ended (from, rejects_unpublished e) = refl

-- No result before the end, and one that agrees with the end after it.
abbrev pub CallOk : Call → Type 0
CallOk c = (c.results ≡ []) ⊎ ((r : Result) × (c.results ≡ r ∷ []) × Agrees c.state r)

abbrev pub AgentOk : Table → Agent → Type 0
AgentOk t idle = Unit
AgentOk t (publishing id) = id ≤ t.last_id
AgentOk t (trying id to r from) = (id ≤ t.last_id) × Agrees to r × AllLive from
AgentOk t (won id r) = (id ≤ t.last_id) × Agrees (t.heap id).state r × ((t.heap id).results ≡ [])
AgentOk t (delivered id) =
    (id ≤ t.last_id) × ((r : Result) × ((t.heap id).results ≡ r ∷ []) × Agrees (t.heap id).state r)

-- A call that has ended has been answered, or one agent is about to answer it.
abbrev pub Answered : System → ℕ → Type 0
Answered s id =
    ((r : Result) × ((s.table.heap id).results ≡ r ∷ []) × Agrees (s.table.heap id).state r)
    ⊎ ((i : ℕ) × (r : Result) × (s.agents i ≡ won id r))

pub record Inv (s : System) : Type 0 where
  pub keys_known : (id : ℕ) → has id s.table.keys ≡ true → id ≤ s.table.last_id
  pub agents_ok : (i : ℕ) → AgentOk s.table (s.agents i)
  pub calls_ok : (id : ℕ) → CallOk (s.table.heap id)
  pub one_winner :
      (i j id : ℕ) (r q : Result) → s.agents i ≡ won id r → s.agents j ≡ won id q → i ≡ j
  pub answered : (id : ℕ) → is_live (s.table.heap id).state ≡ false → Answered s id

-- A change that touches no ended call which is known.
pub record Keeps (t t' : Table) : Type 0 where
  pub no_less : t.last_id ≤ t'.last_id
  pub ended_same :
      (id : ℕ) → id ≤ t.last_id → is_live (t.heap id).state ≡ false → t'.heap id ≡ t.heap id

pub Keeps-AgentOk : {t t' : Table} → Keeps t t' → (a : Agent) → AgentOk t a → AgentOk t' a
Keeps-AgentOk k idle ok = tt
Keeps-AgentOk k (publishing id) ok = omega (arith, k.no_less, ok)
Keeps-AgentOk k (trying id to r from) ok = (omega (arith, k.no_less, ok.0), ok.1, ok.2)
Keeps-AgentOk k (won id r) ok =
    rw (k.ended_same id ok.0 (Agrees-ended ok.1)) (omega (arith, k.no_less, ok.0), ok.1, ok.2)
Keeps-AgentOk k (delivered id) ok =
    rw (k.ended_same id ok.0 (Agrees-ended ok.1.2)) (omega (arith, k.no_less, ok.0), ok.1)

pub started-Inv : (generation : ℕ) → Inv (started generation)
unfolding new_table has
started-Inv generation = record {
  keys_known = λ id e. cc;
  agents_ok = λ i. tt;
  calls_ok = λ id. inl refl;
  one_winner = λ i j id r q e f. cc;
  answered = λ id e. cc;
}
