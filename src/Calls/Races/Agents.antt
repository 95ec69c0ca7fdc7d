-- ===== src/Calls/Races/Agents.antt =====
-- Agents that are not winners: replacing one of them keeps what the racing table's states share.
use mathlib.Core.Path.{subst}
use mathlib.Core.Bool.{true≢false}
use styx.Base.{ℕ, ◌≤◌, ◌≡◌, ◌≢◌, inl, inr, ap, sym, ◌∙◌, arith, Bool, true, false, [], ◌∷◌}
use native.Mathlib.Decide.{ℕ_discrete}
use styx.Calls.{Result, Call, Table, has, update}
use styx.Calls.Races.{Agent, idle, publishing, trying, won, delivered, System, put}
use styx.Calls.Races.Invariant.{is_live, Agrees, CallOk, AgentOk, Inv, Keeps, Keeps-AgentOk}

abbrev pub not_won : Agent → Bool
not_won idle = true
not_won (publishing id) = true
not_won (trying id to r from) = true
not_won (won id r) = false
not_won (delivered id) = true

pub put_self : (i : ℕ) (a : Agent) (f : ℕ → Agent) → put i a f i ≡ a
put_self i a f = ground arith

pub put_ne : (i j : ℕ) (a : Agent) (f : ℕ → Agent) → j ≢ i → put i a f j ≡ f j
put_ne i j a f ne = ground (arith, ne)

pub update_ne : (id k : ℕ) (c : Call) (heap : ℕ → Call) → k ≢ id → update id c heap k ≡ heap k
update_ne id k c heap ne = ground (arith, ne)

-- A winner is not one that was put there as another agent.
pub put_won :
    (i j : ℕ) (a : Agent) (f : ℕ → Agent) {id : ℕ} {r : Result}
    → not_won a ≡ true
    → put i a f j ≡ won id r
    → f j ≡ won id r
put_won i j a f quiet e = elim (ℕ_discrete j i) [
  | yes same ↦
      absurd
        (true≢false (sym quiet ∙ ap not_won (sym (put_self i a f) ∙ ap (put i a f) (sym same) ∙ e)))
  | no ne ↦ sym (put_ne i j a f ne) ∙ e
]

pub put_keeps_won :
    (i j : ℕ) (a : Agent) (f : ℕ → Agent) {id : ℕ} {r : Result}
    → not_won (f i) ≡ true
    → f j ≡ won id r
    → put i a f j ≡ won id r
put_keeps_won i j a f quiet e = elim (ℕ_discrete j i) [
  | yes same ↦ absurd (true≢false (sym quiet ∙ ap (λ k. not_won (f k)) (sym same) ∙ ap not_won e))
  | no ne ↦ put_ne i j a f ne ∙ e
]

pub put-AgentOk :
    (t : Table) (i : ℕ) (a : Agent) (f : ℕ → Agent)
    → AgentOk t a
    → ((j : ℕ) → j ≢ i → AgentOk t (f j))
    → (j : ℕ) → AgentOk t (put i a f j)
put-AgentOk t i a f ok others j = elim (ℕ_discrete j i) [
  | yes same ↦
      subst (λ k. AgentOk t (put i a f k)) (sym same) (subst (AgentOk t) (sym (put_self i a f)) ok)
  | no ne ↦ subst (AgentOk t) (sym (put_ne i j a f ne)) (others j ne)
]

pub won-injective : {id k : ℕ} {r q : Result} → won id r ≡ won k q → id ≡ k
won-injective e = cc

-- A step of agent `i` that neither begins nor ends as a winner, and leaves the ended calls.
pub quiet_step :
    {s : System} (i : ℕ) (a : Agent) (t : Table)
    → Inv s
    → not_won (s.agents i) ≡ true
    → not_won a ≡ true
    → Keeps s.table t
    → ((id : ℕ) → has id t.keys ≡ true → id ≤ t.last_id)
    → AgentOk t a
    → ((id : ℕ) → CallOk (t.heap id))
    → ((id : ℕ) → is_live (t.heap id).state ≡ false → t.heap id ≡ s.table.heap id)
    → Inv (record { table = t; agents = put i a s.agents })
quiet_step {s} i a t inv before after keeps known ok calls ended = record {
  keys_known = known;
  agents_ok =
      put-AgentOk t i a s.agents ok (λ j ne. Keeps-AgentOk keeps (s.agents j) (inv.agents_ok j));
  calls_ok = calls;
  one_winner = λ j k id r q e f.
      inv.one_winner j k id r q (put_won i j a s.agents after e) (put_won i k a s.agents after f);
  answered = λ id dead.
      let same : t.heap id ≡ s.table.heap id = ended id dead in
      elim (inv.answered id (subst (λ (c : Call). is_live c.state ≡ false) same dead)) [
        | inl (r, e, g) ↦ inl (
            subst (λ (c : Call). (r : Result) × (c.results ≡ r ∷ []) × Agrees c.state r) (sym same)
              (r, e, g))
        | inr (j, r, e) ↦ inr (j, r, put_keeps_won i j a s.agents before e)
      ];
}
