-- ===== src/Calls/Races/Traced.antt =====
-- The racing table against the history of its run: each call's state and results are those of the
-- transition that ended it.
use mathlib.Core.Path.{subst}
use mathlib.Core.Bool.{true≢false}
use styx.Base.{
  ℕ, suc, ◌≤◌, ◌<◌, ◌≡◌, ◌≢◌, ◌⊎◌, inl, inr, refl, ap, sym, ◌∙◌, arith, true, Option, some, List,
  [], ◌∷◌, ◌++◌, u64_mod, add64,
}
use native.Mathlib.Decide.{ℕ_discrete}
use styx.Base.Int.{ℤ}
use styx.Calls.{
  CallState, submitted, published, Result, Call, Table, update, submit_decoding, compare_and_swap,
  send,
}
use styx.Calls.Terminate.{update_self}
use styx.Calls.Races.{Agent, idle, publishing, trying, won, delivered, System, put}
use styx.Calls.Races.Invariant.{is_live, Agrees, Agrees-ended, AgentOk, Inv}
use styx.Calls.Races.Agents.{put_self, put_ne, update_ne}
use styx.Calls.Races.Swap.{hit_or_miss, same_state-live, live_empty}
use styx.Calls.Races.Endings.{Ending}

abbrev pub Asked : Type 0
Asked = ℕ → Option Ending

abbrev pub Ended : Type 0
Ended = ℕ → List (Option Ending)

abbrev pub ending : ℕ → CallState → Result → Ending
ending id to r = record { call = id; to = to; result = r }

-- The call has not been ended; or one transition has ended it, whose state it is in, and what has been
-- sent is nothing yet or that transition's result.
abbrev pub EndedBy : ℕ → Call → List (Option Ending) → Type 0
EndedBy id c es =
    ((es ≡ []) × (is_live c.state ≡ true) × (c.results ≡ []))
    ⊎ ((e : Ending) × (es ≡ some e ∷ [])
        × (e.call ≡ id)
        × (c.state ≡ e.to)
        × Agrees e.to e.result
        × ((c.results ≡ []) ⊎ (c.results ≡ e.result ∷ [])))

abbrev pub AgentTrace : Asked → Ended → ℕ → Agent → Type 0
AgentTrace asked ended i idle = Unit
AgentTrace asked ended i (publishing id) = Unit
AgentTrace asked ended i (trying id to r from) = asked i ≡ some (ending id to r)
AgentTrace asked ended i (won id r) = (to : CallState) × (ended id ≡ some (ending id to r) ∷ [])
AgentTrace asked ended i (delivered id) = Unit

pub record Traced (s : System) (asked : Asked) (ended : Ended) : Type 0 where
  pub agents_traced : (i : ℕ) → AgentTrace asked ended i (s.agents i)
  pub calls_traced : (id : ℕ) → EndedBy id (s.table.heap id) (ended id)
  pub unborn : (id : ℕ) → s.table.last_id < id → ended id ≡ []

AgentTrace-asked :
    (asked asked' : Asked) (ended : Ended) (j : ℕ) (a : Agent)
    → asked' j ≡ asked j
    → AgentTrace asked ended j a
    → AgentTrace asked' ended j a
AgentTrace-asked asked asked' ended j idle e h = tt
AgentTrace-asked asked asked' ended j (publishing id) e h = tt
AgentTrace-asked asked asked' ended j (trying id to r from) e h = e ∙ h
AgentTrace-asked asked asked' ended j (won id r) e h = h
AgentTrace-asked asked asked' ended j (delivered id) e h = tt

pub live_unended :
    {id : ℕ} (c : Call) {es : List (Option Ending)}
    → EndedBy id c es
    → is_live c.state ≡ true
    → es ≡ []
live_unended c (inl h) live = h.0
live_unended c (inr (e, one, call, at, agrees, sent)) live =
    absurd (true≢false (sym live ∙ ap is_live at ∙ Agrees-ended agrees))

pub EndedBy-update :
    (id : ℕ) (c : Call) (heap : ℕ → Call) (ended : Ended)
    → ((k : ℕ) → EndedBy k (heap k) (ended k))
    → EndedBy id c (ended id)
    → (k : ℕ) → EndedBy k (update id c heap k) (ended k)
EndedBy-update id c heap ended all h k = elim (ℕ_discrete k id) [
  | yes same ↦
      subst (λ j. EndedBy j (update id c heap j) (ended j)) (sym same)
        (subst (λ d. EndedBy id d (ended id)) (sym (update_self id c heap)) h)
  | no apart ↦ subst (λ d. EndedBy k d (ended k)) (sym (update_ne id k c heap apart)) (all k)
]

pub put-AgentTrace :
    (asked : Asked) (ended : Ended) (i : ℕ) (a : Agent) (f : ℕ → Agent)
    → AgentTrace asked ended i a
    → ((j : ℕ) → j ≢ i → AgentTrace asked ended j (f j))
    → (j : ℕ) → AgentTrace asked ended j (put i a f j)
put-AgentTrace asked ended i a f h others j = elim (ℕ_discrete j i) [
  | yes same ↦
      subst (λ k. AgentTrace asked ended k (put i a f k)) (sym same)
        (subst (AgentTrace asked ended i) (sym (put_self i a f)) h)
  | no apart ↦ subst (AgentTrace asked ended j) (sym (put_ne i j a f apart)) (others j apart)
]

pub one_ending : {x y : Ending} → some x ∷ [] ≡ some y ∷ [] → x ≡ y
one_ending e = cc

module _ {s : System} {asked : Asked} {ended : Ended} (tr : Traced s asked ended) where
  -- A step of agent `i` that ends no call.
  pub unended_step :
      (i : ℕ) (a : Agent) (t : Table) (asked' : Asked)
      → ((j : ℕ) → j ≢ i → asked' j ≡ asked j)
      → AgentTrace asked' ended i a
      → s.table.last_id ≤ t.last_id
      → ((id : ℕ) → EndedBy id (t.heap id) (ended id))
      → Traced (record { table = t; agents = put i a s.agents }) asked' ended
  unended_step i a t asked' same h more calls = record {
    agents_traced = put-AgentTrace asked' ended i a s.agents h (λ j apart.
        AgentTrace-asked asked asked' ended j (s.agents j) (same j apart) (tr.agents_traced j));
    calls_traced = calls;
    unborn = λ id lt. tr.unborn id (omega (arith, lt, more));
  }

  -- One that leaves the table, and asks nothing.
  pub still-Traced :
      (i : ℕ) (a : Agent)
      → AgentTrace asked ended i a
      → Traced (record s { agents = put i a s.agents }) asked ended
  still-Traced i a h =
      unended_step i a s.table asked (λ j apart. refl) h (omega arith) tr.calls_traced

  pub publish-Traced :
      (inv : Inv s) (i id : ℕ)
      → Traced
          (record {
            table = (compare_and_swap submitted published id s.table).1;
            agents = put i idle s.agents;
          })
          asked
          ended
  publish-Traced inv i id = elim (hit_or_miss submitted published id s.table) [
    | inr (miss, same) ↦ rw same (still-Traced i idle tt)
    | inl (hit, found, same) ↦
        let live : is_live (s.table.heap id).state ≡ true =
          same_state-live _ submitted found refl in
        let c : Call = record (s.table.heap id) { state = published } in
        rw same (
          unended_step i idle (record s.table { heap = update id c s.table.heap }) asked
            (λ j apart. refl) tt (omega arith)
            (EndedBy-update id c s.table.heap ended tr.calls_traced (
              inl (
                live_unended (s.table.heap id) (tr.calls_traced id) live,
                refl,
                live_empty inv id live,
              ))))
  ]

  pub deliver-Traced :
      (inv : Inv s) (i id : ℕ) (r : Result)
      → s.agents i ≡ won id r
      → Traced
          (record { table = send id r s.table; agents = put i (delivered id) s.agents })
          asked
          ended
  unfolding send
  deliver-Traced inv i id r e =
      let won_trace : AgentTrace asked ended i (won id r) =
        subst (AgentTrace asked ended i) e (tr.agents_traced i) in
      let ok : AgentOk s.table (won id r) = subst (AgentOk s.table) e (inv.agents_ok i) in
      let c : Call = record (s.table.heap id) { results = (s.table.heap id).results ++ (r ∷ []) } in
      unended_step i (delivered id) (record s.table { heap = update id c s.table.heap }) asked
        (λ j apart. refl) tt (omega arith)
        (EndedBy-update id c s.table.heap ended tr.calls_traced
          (delivered_trace id r (ended id) won_trace (tr.calls_traced id) ok.2))
    where
      delivered_trace :
          (id : ℕ) (r : Result) (es : List (Option Ending))
          → ((to : CallState) × (es ≡ some (ending id to r) ∷ []))
          → EndedBy id (s.table.heap id) es
          → ((s.table.heap id).results ≡ [])
          → EndedBy id
              (record (s.table.heap id) { results = (s.table.heap id).results ++ (r ∷ []) })
              es
      delivered_trace id r es (to, one) (inl h) empty = absurd (cc (sym one ∙ h.0))
      delivered_trace id r es (to, one) (inr (x, two, call, at, agrees, sent)) empty =
          let same : r ≡ x.result = ap (λ (y : Ending). y.result) (one_ending (sym one ∙ two)) in
          inr (x, two, call, at, agrees, inr (rw empty (ap (λ q. q ∷ []) same)))

  pub register-Traced :
      (budget : ℤ) (now : ℕ) (new_resp : Option ℕ)
      → suc s.table.last_id < u64_mod
      → Traced (record s { table = (submit_decoding budget now new_resp s.table).1 }) asked ended
  unfolding submit_decoding
  register-Traced budget now new_resp small = record {
    agents_traced = tr.agents_traced;
    calls_traced =
        EndedBy-update (add64 s.table.last_id 1) _ s.table.heap ended tr.calls_traced
          (inl (tr.unborn _ (omega (arith, small)), refl, refl));
    unborn = λ id lt. tr.unborn id (omega (arith, lt, small));
  }
