-- ===== src/Calls/Races/Wins.antt =====
-- The win of an agent against the history of the run; every step keeps the table and the history in
-- line.
use mathlib.Core.Path.{subst}
use mathlib.Core.Bool.{true≢false}
use styx.Base.{
  ℕ, ◌≡◌, ◌≢◌, inl, inr, refl, ap, sym, ◌∙◌, arith, true, some, none, List, [], ◌∷◌, ◌++◌, ◌==◌,
  if◌then◌else◌,
}
use native.Mathlib.Decide.{ℕ_discrete}
use styx.Calls.{CallState, Result, Call, update, new_table, compare_and_swap, remove}
use styx.Calls.Terminate.{update_self}
use styx.Calls.Races.{
  Agent, idle, publishing, trying, won, delivered, System, put, Step, register, find_published,
  find, swap_published, win, lose, give_up, deliver, drop, started,
}
use styx.Calls.Races.Invariant.{is_live, AgentOk, Inv}
use styx.Calls.Races.Agents.{update_ne}
use styx.Calls.Races.Swap.{hit_or_miss, same_state-live, live_empty}
use styx.Calls.Races.Endings.{Ending, asks, ends}
use styx.Calls.Races.Traced.{
  Asked, Ended, ending, EndedBy, AgentTrace, Traced, live_unended, put-AgentTrace, unended_step,
  still-Traced, publish-Traced, deliver-Traced, register-Traced,
}

module _ {s : System} {asked : Asked} {ended : Ended} (tr : Traced s asked ended) (inv : Inv s)
    (i id : ℕ) (to : CallState) (r : Result) (src : CallState) (from : List CallState)
    (e : s.agents i ≡ trying id to r (src ∷ from)) where
  abbrev ended_now : Ended
  ended_now k = if k == id then ended k ++ (asked i ∷ []) else ended k

  now_self : ended_now id ≡ ended id ++ (asked i ∷ [])
  now_self = ground arith

  now_other : (k : ℕ) → k ≢ id → ended_now k ≡ ended k
  now_other k apart = ground (arith, apart)

  asked_it : asked i ≡ some (ending id to r)
  asked_it = subst (AgentTrace asked ended i) e (tr.agents_traced i)

  trying_ok : AgentOk s.table (trying id to r (src ∷ from))
  trying_ok = subst (AgentOk s.table) e (inv.agents_ok i)

  module _ (live : is_live (s.table.heap id).state ≡ true) where
    before : ended id ≡ []
    before = live_unended (s.table.heap id) (tr.calls_traced id) live

    one_now : ended_now id ≡ some (ending id to r) ∷ []
    one_now = now_self ∙ (rw before (ap (λ x. x ∷ []) asked_it))

    other_trace : (j : ℕ) (a : Agent) → AgentTrace asked ended j a → AgentTrace asked ended_now j a
    other_trace j idle h = tt
    other_trace j (publishing k) h = tt
    other_trace j (trying k to' q from') h = h
    other_trace j (won k q) (to', h) = elim (ℕ_discrete k id) [
      | yes same ↦ absurd (cc (sym before ∙ ap ended (sym same) ∙ h))
      | no apart ↦ (to', now_other k apart ∙ h)
    ]
    other_trace j (delivered k) h = tt

    abbrev ended_call : Call
    ended_call = record (s.table.heap id) { state = to }

    now_traced : (k : ℕ) → EndedBy k (update id ended_call s.table.heap k) (ended_now k)
    now_traced k = elim (ℕ_discrete k id) [
      | yes same ↦
          subst (λ j. EndedBy j (update id ended_call s.table.heap j) (ended_now j)) (sym same)
            (subst (λ d. EndedBy id d (ended_now id)) (sym (update_self id ended_call s.table.heap))
              (inr
                (ending id to r, one_now, refl, refl, trying_ok.1, inl (live_empty inv id live))))
      | no apart ↦
          subst (λ es. EndedBy k (update id ended_call s.table.heap k) es) (sym (now_other k apart))
            (subst (λ d. EndedBy k d (ended k)) (sym (update_ne id k ended_call s.table.heap apart))
              (tr.calls_traced k))
    ]

    ending-Traced :
        Traced
          (record {
            table = record s.table { heap = update id ended_call s.table.heap };
            agents = put i (won id r) s.agents;
          })
          asked
          ended_now
    ending-Traced = record {
      agents_traced =
          put-AgentTrace asked ended_now i (won id r) s.agents (to, one_now)
            (λ j apart. other_trace j (s.agents j) (tr.agents_traced j));
      calls_traced = now_traced;
      unborn = λ k lt. now_other k (λ same. omega (arith, lt, same, trying_ok.0)) ∙ tr.unborn k lt;
    }

  win-Traced :
      (compare_and_swap src to id s.table).0 ≡ true
      → Traced
          (record {
            table = (compare_and_swap src to id s.table).1;
            agents = put i (won id r) s.agents;
          })
          asked
          ended_now
  win-Traced hit = elim (hit_or_miss src to id s.table) [
    | inr (miss, same) ↦ absurd (true≢false (sym hit ∙ miss))
    | inl (yes_hit, found, same) ↦
        rw same (ending-Traced (same_state-live _ src found trying_ok.2.0))
  ]

abbrev asking : ℕ → Ending → Asked → Asked
asking i x asked j = if j == i then some x else asked j

-- Every step keeps the two in line.
pub Step-Traced :
    {s s' : System} {asked : Asked} {ended : Ended}
    → Traced s asked ended
    → Inv s
    → (step : Step s s') → Traced s' (asks step asked) (ends step asked ended)
unfolding remove
Step-Traced tr inv (register budget now new_resp small) =
    register-Traced tr budget now new_resp small
Step-Traced tr inv (find_published i id e known) = still-Traced tr i (publishing id) tt
Step-Traced {s} {asked = asked} tr inv (find i id to r from e known request) =
    unended_step tr i (trying id to r from) s.table (asking i (ending id to r) asked)
      (λ j apart. ground (arith, apart)) (ground arith) (omega arith) tr.calls_traced
Step-Traced tr inv (swap_published i id e) = publish-Traced tr inv i id
Step-Traced tr inv (win i id to r src from e hit) = win-Traced tr inv i id to r src from e hit
Step-Traced {asked = asked} {ended = ended} tr inv (lose i id to r src from e miss) =
    still-Traced tr i (trying id to r from)
      (subst (AgentTrace asked ended i) e (tr.agents_traced i))
Step-Traced tr inv (give_up i id to r e) = still-Traced tr i idle tt
Step-Traced tr inv (deliver i id r e) = deliver-Traced tr inv i id r e
Step-Traced {s} {asked = asked} tr inv (drop i id e) =
    unended_step tr i idle (remove id s.table) asked (λ j apart. refl) tt (omega arith)
      tr.calls_traced

pub started-Traced : (generation : ℕ) → Traced (started generation) (λ j. none) (λ k. [])
unfolding new_table
started-Traced generation = record {
  agents_traced = λ i. tt;
  calls_traced = λ id. inl (refl, refl, refl);
  unborn = λ id lt. refl;
}
