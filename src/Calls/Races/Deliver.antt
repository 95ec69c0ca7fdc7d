-- ===== src/Calls/Races/Deliver.antt =====
-- Delivery, removal and registration in the racing table; every step keeps what its states share.
use mathlib.Core.Path.{subst}
use mathlib.Core.Bool.{true≢false}
use styx.Base.{
  ℕ, suc, ◌≤◌, ◌<◌, ◌≡◌, ◌≢◌, inl, inr, refl, ap, sym, ◌∙◌, arith, true, false, Option, List, [],
  ◌∷◌, ◌++◌, u64_mod, add64,
}
use native.Mathlib.Decide.{ℕ_discrete}
use styx.Base.Int.{ℤ}
use styx.Calls.{
  CallState, Result, Call, Table, has, delete, update, submit_decoding, compare_and_swap, send,
  remove,
}
use styx.Calls.Terminate.{update_self}
use styx.Calls.FailAll.{has-delete}
use styx.Calls.Races.{
  Agent, idle, publishing, trying, won, delivered, System, put, Step, register, find_published,
  find, swap_published, win, lose, give_up, deliver, drop,
}
use styx.Calls.Races.Invariant.{
  is_live, Agrees, Request-AllLive, CallOk, AgentOk, Answered, Inv, Keeps, Keeps-AgentOk,
}
use styx.Calls.Races.Agents.{
  not_won, put_ne, update_ne, put_won, put-AgentOk, won-injective, quiet_step,
}
use styx.Calls.Races.Swap.{still, winning-Inv, hit_or_miss, same_state-live, publish_Inv}

module _ {s : System} (inv : Inv s) (i id : ℕ) (r : Result) (e : s.agents i ≡ won id r) where
  winner : AgentOk s.table (won id r)
  winner = subst (AgentOk s.table) e (inv.agents_ok i)

  abbrev answered_call : Call
  answered_call = record (s.table.heap id) { results = (s.table.heap id).results ++ (r ∷ []) }

  abbrev sent : ℕ → Call
  sent = update id answered_call s.table.heap

  one_answer : answered_call.results ≡ r ∷ []
  one_answer = rw winner.2

  sent_self : (r : Result) × ((sent id).results ≡ r ∷ []) × Agrees (sent id).state r
  sent_self =
      subst (λ (c : Call). (q : Result) × (c.results ≡ q ∷ []) × Agrees c.state q)
        (sym (update_self id answered_call s.table.heap)) (r, one_answer, winner.1)

  abbrev delivering : System
  delivering = record {
    table = record s.table { heap = sent };
    agents = put i (delivered id) s.agents;
  }

  -- Another agent does not wait to answer or remove the same call.
  other_agent :
      (j : ℕ) (a : Agent) → j ≢ i → s.agents j ≡ a → AgentOk s.table a → AgentOk delivering.table a
  other_agent j idle ne f ok = tt
  other_agent j (publishing k) ne f ok = ok
  other_agent j (trying k to q from) ne f ok = ok
  other_agent j (won k q) ne f ok = elim (ℕ_discrete k id) [
    | yes same ↦ absurd (ne (inv.one_winner j i id q r (f ∙ ap (λ x. won x q) same) e))
    | no apart ↦
        subst (λ (c : Call). (k ≤ s.table.last_id) × Agrees c.state q × (c.results ≡ []))
          (sym (update_ne id k answered_call s.table.heap apart)) ok
  ]
  other_agent j (delivered k) ne f ok = (
    ok.0,
    elim (ℕ_discrete k id) [
      | yes same ↦
          subst (λ x. (q : Result) × ((sent x).results ≡ q ∷ []) × Agrees (sent x).state q)
            (sym same) sent_self
      | no apart ↦
          subst (λ (c : Call). (q : Result) × (c.results ≡ q ∷ []) × Agrees c.state q)
            (sym (update_ne id k answered_call s.table.heap apart)) ok.1
    ],
  )

  sent_calls : (k : ℕ) → CallOk (sent k)
  sent_calls k = elim (ℕ_discrete k id) [
    | yes same ↦ subst (λ x. CallOk (sent x)) (sym same) (inr sent_self)
    | no apart ↦
        subst CallOk (sym (update_ne id k answered_call s.table.heap apart)) (inv.calls_ok k)
  ]

  sent-Answered : (k : ℕ) → is_live (sent k).state ≡ false → Answered delivering k
  sent-Answered k dead = elim (ℕ_discrete k id) [
    | yes same ↦ inl (
        subst (λ x. (q : Result) × ((sent x).results ≡ q ∷ []) × Agrees (sent x).state q) (sym same)
          sent_self)
    | no apart ↦
        let same = update_ne id k answered_call s.table.heap apart in
        elim (inv.answered k (subst (λ (c : Call). is_live c.state ≡ false) same dead)) [
          | inl a ↦ inl (
              subst (λ (c : Call). (q : Result) × (c.results ≡ q ∷ []) × Agrees c.state q)
                (sym same) a)
          | inr (j, q, f) ↦ inr (
            j,
            q,
            put_ne i j (delivered id) s.agents
                  (λ g. apart (won-injective (sym f ∙ ap s.agents g ∙ e)))
                ∙ f,
          )
        ]
  ]

  delivering-Inv : Inv delivering
  delivering-Inv = record {
    keys_known = inv.keys_known;
    agents_ok =
        put-AgentOk delivering.table i (delivered id) s.agents (winner.0, sent_self)
          (λ j ne. other_agent j (s.agents j) ne refl (inv.agents_ok j));
    calls_ok = sent_calls;
    one_winner = λ j k x p q f g.
        inv.one_winner j k x p q (put_won i j (delivered id) s.agents refl f)
          (put_won i k (delivered id) s.agents refl g);
    answered = sent-Answered;
  }

module _ {s : System} (inv : Inv s) (c : Call) (fresh : c.results ≡ [])
    (live : is_live c.state ≡ true) (id : ℕ) (new : id ≡ suc s.table.last_id) where
  abbrev registered : Table
  registered = record s.table {
    last_id = id;
    keys = id ∷ delete id s.table.keys;
    heap = update id c s.table.heap;
  }

  registered-Keeps : Keeps s.table registered
  registered-Keeps = record {
    no_less = omega (arith, new);
    ended_same = λ k le dead. update_ne id k c s.table.heap (λ e. omega (arith, new, e, le));
  }

  registered_keys : (k : ℕ) → has k registered.keys ≡ true → k ≤ id
  unfolding has
  registered_keys k e = ground (arith, has-delete k id s.table.keys, inv.keys_known k, new)

  registered_calls : (k : ℕ) → CallOk (registered.heap k)
  registered_calls k = elim (ℕ_discrete k id) [
    | yes e ↦ inl (
        ap (λ x. (update id c s.table.heap x).results) e
        ∙ ap (λ (d : Call). d.results) (update_self id c s.table.heap)
        ∙ fresh)
    | no ne ↦ subst CallOk (sym (update_ne id k c s.table.heap ne)) (inv.calls_ok k)
  ]

  registered-Answered :
      (k : ℕ)
      → is_live (registered.heap k).state ≡ false
      → Answered (record s { table = registered }) k
  registered-Answered k dead = elim (ℕ_discrete k id) [
    | yes e ↦ absurd (
        true≢false (
          sym live
          ∙ ap (λ (d : Call). is_live d.state)
              (sym (ap (update id c s.table.heap) e ∙ update_self id c s.table.heap))
          ∙ dead))
    | no ne ↦
        let same = update_ne id k c s.table.heap ne in
        elim (inv.answered k (subst (λ (d : Call). is_live d.state ≡ false) same dead)) [
          | inl a ↦ inl (
              subst (λ (d : Call). (q : Result) × (d.results ≡ q ∷ []) × Agrees d.state q)
                (sym same) a)
          | inr w ↦ inr w
        ]
  ]

  registered-Inv : Inv (record s { table = registered })
  registered-Inv = record {
    keys_known = registered_keys;
    agents_ok = λ j. Keeps-AgentOk registered-Keeps (s.agents j) (inv.agents_ok j);
    calls_ok = registered_calls;
    one_winner = inv.one_winner;
    answered = registered-Answered;
  }

register-Inv :
    {s : System} (budget : ℤ) (now : ℕ) (new_resp : Option ℕ)
    → Inv s
    → suc s.table.last_id < u64_mod
    → Inv (record s { table = (submit_decoding budget now new_resp s.table).1 })
unfolding submit_decoding
register-Inv {s} budget now new_resp inv small =
    registered-Inv inv _ refl refl (add64 s.table.last_id 1) (omega (arith, small))

win-Inv :
    {s : System} (i id : ℕ) (to : CallState) (r : Result) (src : CallState) (from : List CallState)
    → Inv s
    → s.agents i ≡ trying id to r (src ∷ from)
    → (compare_and_swap src to id s.table).0 ≡ true
    → Inv (record {
      table = (compare_and_swap src to id s.table).1;
      agents = put i (won id r) s.agents;
    })
win-Inv {s} i id to r src from inv e hit = elim (hit_or_miss src to id s.table) [
  | inr (miss, same) ↦ absurd (true≢false (sym hit ∙ miss))
  | inl (yes_hit, found, same) ↦
      let ok : AgentOk s.table (trying id to r (src ∷ from)) =
        subst (AgentOk s.table) e (inv.agents_ok i) in
      rw same
        (winning-Inv inv i id to r ok.1 (ap not_won e) ok.0 (same_state-live _ src found ok.2.0))
]

drop-Inv :
    {s : System} (i id : ℕ)
    → Inv s
    → s.agents i ≡ delivered id
    → Inv (record { table = remove id s.table; agents = put i idle s.agents })
unfolding remove
drop-Inv {s} i id inv e =
    quiet_step i idle (record s.table { keys = delete id s.table.keys }) inv (ap not_won e) refl
      (record { no_less = omega arith; ended_same = λ k le dead. refl })
      (λ k e. inv.keys_known k (ground (arith, has-delete k id s.table.keys, e))) tt inv.calls_ok
      (λ k dead. refl)

deliver-Inv :
    {s : System} (i id : ℕ) (r : Result)
    → Inv s
    → s.agents i ≡ won id r
    → Inv (record { table = send id r s.table; agents = put i (delivered id) s.agents })
unfolding send
deliver-Inv i id r inv e = delivering-Inv inv i id r e

-- Every step keeps what the states of the racing table share.
pub Step-Inv : {s s' : System} → Inv s → Step s s' → Inv s'
Step-Inv inv (register budget now new_resp small) = register-Inv budget now new_resp inv small
Step-Inv inv (find_published i id e known) =
    still inv i (publishing id) (ap not_won e) refl (inv.keys_known id known)
Step-Inv inv (find i id to r from e known request) =
    still inv i (trying id to r from) (ap not_won e) refl
      (inv.keys_known id known, (from, request), Request-AllLive request)
Step-Inv inv (swap_published i id e) = publish_Inv i id inv e
Step-Inv inv (win i id to r src from e hit) = win-Inv i id to r src from inv e hit
Step-Inv {s} inv (lose i id to r src from e miss) =
    let ok : AgentOk s.table (trying id to r (src ∷ from)) =
      subst (AgentOk s.table) e (inv.agents_ok i) in
    still inv i (trying id to r from) (ap not_won e) refl (ok.0, ok.1, ok.2.1)
Step-Inv inv (give_up i id to r e) = still inv i idle (ap not_won e) refl tt
Step-Inv inv (deliver i id r e) = deliver-Inv i id r inv e
Step-Inv {s} inv (drop i id e) = drop-Inv i id inv e
