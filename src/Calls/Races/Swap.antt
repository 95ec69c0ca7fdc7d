-- ===== src/Calls/Races/Swap.antt =====
-- The compare-and-swap steps of the racing table: a publication, and the win of an agent.
use mathlib.Core.Path.{subst}
use mathlib.Core.Bool.{true≢false}
use styx.Base.{
  ℕ, ◌≤◌, ◌≡◌, ◌≢◌, ◌⊎◌, inl, inr, refl, ap, sym, ◌∙◌, arith, Bool, true, false, Bool-cases, ltb,
  ==_iff, [], ◌∷◌,
}
use native.Mathlib.Decide.{ℕ_discrete}
use styx.Calls.{
  CallState, submitted, published, completed, failed, canceled, deadline, rejected, outcome_unknown,
  state_code, Result, Call, Table, update, compare_and_swap,
}
use styx.Calls.Terminate.{same_state, cas_hit, cas_miss, update_self}
use styx.Calls.Races.{Agent, idle, publishing, won, System, put}
use styx.Calls.Races.Invariant.{
  is_live, Agrees, Agrees-ended, CallOk, AgentOk, Answered, Inv, Keeps, Keeps-AgentOk,
}
use styx.Calls.Races.Agents.{
  not_won, put_self, put_ne, update_ne, put-AgentOk, won-injective, quiet_step,
}

module _ {s : System} (inv : Inv s) where
  pub same-Keeps : Keeps s.table s.table
  same-Keeps = record { no_less = omega arith; ended_same = λ id le dead. refl }

  -- A step that leaves the table.
  pub still :
      (i : ℕ) (a : Agent)
      → not_won (s.agents i) ≡ true
      → not_won a ≡ true
      → AgentOk s.table a
      → Inv (record s { agents = put i a s.agents })
  still i a before after ok =
      quiet_step i a s.table inv before after same-Keeps inv.keys_known ok inv.calls_ok
        (λ id dead. refl)

  -- A live call has no result.
  pub live_empty :
      (id : ℕ) → is_live (s.table.heap id).state ≡ true → (s.table.heap id).results ≡ []
  live_empty id live = elim (inv.calls_ok id) [
    | inl e ↦ e
    | inr (r, e, g) ↦ absurd (true≢false (sym live ∙ Agrees-ended g))
  ]

  module _ (id : ℕ) (c : Call) (live : is_live (s.table.heap id).state ≡ true)
      (kept : c.results ≡ (s.table.heap id).results) where
    abbrev pub changed : Table
    changed = record s.table { heap = update id c s.table.heap }

    apart : (k : ℕ) → is_live (s.table.heap k).state ≡ false → k ≢ id
    apart k dead e = true≢false (sym live ∙ ap (λ i. is_live (s.table.heap i).state) (sym e) ∙ dead)

    changed-Keeps : Keeps s.table changed
    changed-Keeps = record {
      no_less = omega arith;
      ended_same = λ k le dead. update_ne id k c s.table.heap (apart k dead);
    }

    changed_calls : (k : ℕ) → CallOk (changed.heap k)
    changed_calls k = elim (ℕ_discrete k id) [
      | yes e ↦ inl (
          ap (λ j. (update id c s.table.heap j).results) e
          ∙ ap (λ (d : Call). d.results) (update_self id c s.table.heap)
          ∙ kept
          ∙ live_empty id live)
      | no ne ↦ subst CallOk (sym (update_ne id k c s.table.heap ne)) (inv.calls_ok k)
    ]

    -- Where the changed call is still live, the ended calls are the same.
    changed_ended :
        is_live c.state ≡ true
        → (k : ℕ) → is_live (changed.heap k).state ≡ false
        → changed.heap k ≡ s.table.heap k
    changed_ended c_live k dead = elim (ℕ_discrete k id) [
      | yes e ↦ absurd (
          true≢false (
            sym c_live
            ∙ ap (λ (d : Call). is_live d.state)
                (sym (ap (update id c s.table.heap) e ∙ update_self id c s.table.heap))
            ∙ dead))
      | no ne ↦ update_ne id k c s.table.heap ne
    ]

pub hit_or_miss :
    (src to : CallState) (id : ℕ) (t : Table)
    → (((compare_and_swap src to id t).0 ≡ true)
        × (same_state (t.heap id).state src ≡ true)
        × ((compare_and_swap src to id t).1
            ≡ record t { heap = update id (record (t.heap id) { state = to }) t.heap }))
      ⊎ (((compare_and_swap src to id t).0 ≡ false) × ((compare_and_swap src to id t).1 ≡ t))
hit_or_miss src to id t = elim (Bool-cases (same_state (t.heap id).state src)) [
  | inl e ↦
      let h = cas_hit src to id t e in
      inl (ap (λ (p : Bool × Table). p.0) h, e, ap (λ (p : Bool × Table). p.1) h)
  | inr e ↦
      let h = cas_miss src to id t e in
      inr (ap (λ (p : Bool × Table). p.0) h, ap (λ (p : Bool × Table). p.1) h)
]

is_live_code : (a : CallState) → is_live a ≡ ltb (state_code a) 2
unfolding state_code
is_live_code submitted = refl
is_live_code published = refl
is_live_code completed = refl
is_live_code failed = refl
is_live_code canceled = refl
is_live_code deadline = refl
is_live_code rejected = refl
is_live_code outcome_unknown = refl

pub same_state-live :
    (a b : CallState) → same_state a b ≡ true → is_live b ≡ true → is_live a ≡ true
unfolding same_state
same_state-live a b e live =
    let same : state_code a ≡ state_code b = (==_iff (state_code a) (state_code b)).0 e in
    is_live_code a ∙ ap (λ n. ltb n 2) same ∙ sym (is_live_code b) ∙ live

pub publish_Inv :
    {s : System} (i id : ℕ)
    → Inv s
    → s.agents i ≡ publishing id
    → Inv (record {
      table = (compare_and_swap submitted published id s.table).1;
      agents = put i idle s.agents;
    })
publish_Inv {s} i id inv e = elim (hit_or_miss submitted published id s.table) [
  | inr (miss, same) ↦ rw same (still inv i idle (ap not_won e) refl tt)
  | inl (hit, found, same) ↦
      let live : is_live (s.table.heap id).state ≡ true = same_state-live _ submitted found refl in
      let c : Call = record (s.table.heap id) { state = published } in
      rw same (
        quiet_step i idle (changed inv id c live refl) inv (ap not_won e) refl
          (changed-Keeps inv id c live refl) inv.keys_known tt (changed_calls inv id c live refl)
          (changed_ended inv id c live refl refl))
]

module _ {s : System} (inv : Inv s) (i id : ℕ) (to : CallState) (r : Result) (agrees : Agrees to r)
    (before : not_won (s.agents i) ≡ true) (known : id ≤ s.table.last_id)
    (live : is_live (s.table.heap id).state ≡ true) where
  abbrev pub end_call : Call
  end_call = record (s.table.heap id) { state = to }

  abbrev pub ended_table : Table
  ended_table = changed inv id end_call live refl

  abbrev pub winning : System
  winning = record { table = ended_table; agents = put i (won id r) s.agents }

  no_winner_yet : (j : ℕ) {q : Result} → s.agents j ≡ won id q → ⊥
  no_winner_yet j {q} e =
      let ok : AgentOk s.table (won id q) = subst (AgentOk s.table) e (inv.agents_ok j) in
      true≢false (sym live ∙ Agrees-ended ok.1)

  is_winner :
      (j k : ℕ) (q : Result)
      → put i (won id r) s.agents j ≡ won k q
      → ((j ≡ i) × (k ≡ id)) ⊎ (s.agents j ≡ won k q)
  is_winner j k q e = elim (ℕ_discrete j i) [
    | yes same ↦ inl (
      same,
      sym (
          won-injective
            (sym (put_self i (won id r) s.agents) ∙ ap (put i (won id r) s.agents) (sym same) ∙ e)),
    )
    | no ne ↦ inr (sym (put_ne i j (won id r) s.agents ne) ∙ e)
  ]

  winning_one :
      (j k x : ℕ) (p q : Result)
      → put i (won id r) s.agents j ≡ won x p
      → put i (won id r) s.agents k ≡ won x q
      → j ≡ k
  winning_one j k x p q e f = elim (is_winner j x p e) [
    | inl (a, b) ↦ elim (is_winner k x q f) [
      | inl (c, d) ↦ a ∙ sym c
      | inr g ↦ absurd (no_winner_yet k (g ∙ ap (λ y. won y q) b))
    ]
    | inr g ↦ elim (is_winner k x q f) [
      | inl (c, d) ↦ absurd (no_winner_yet j (g ∙ ap (λ y. won y p) d))
      | inr h ↦ inv.one_winner j k x p q g h
    ]
  ]

  winning-Answered : (k : ℕ) → is_live (ended_table.heap k).state ≡ false → Answered winning k
  winning-Answered k dead = elim (ℕ_discrete k id) [
    | yes e ↦ inr (i, r, put_self i (won id r) s.agents ∙ ap (λ x. won x r) (sym e))
    | no ne ↦
        let same = update_ne id k end_call s.table.heap ne in
        elim (inv.answered k (subst (λ (c : Call). is_live c.state ≡ false) same dead)) [
          | inl (q, e, g) ↦ inl (
              subst (λ (c : Call). (q : Result) × (c.results ≡ q ∷ []) × Agrees c.state q)
                (sym same) (q, e, g))
          | inr (j, q, e) ↦ inr (j, q, put_ne i j (won id r) s.agents (not_same j q e) ∙ e)
        ]
  ]
    where
      not_same : (j : ℕ) (q : Result) → s.agents j ≡ won k q → j ≢ i
      not_same j q e f =
          true≢false (sym before ∙ ap (λ x. not_won (s.agents x)) (sym f) ∙ ap not_won e)

  winner_ok : AgentOk ended_table (won id r)
  winner_ok =
      subst (λ (c : Call). (id ≤ s.table.last_id) × Agrees c.state r × (c.results ≡ []))
        (sym (update_self id end_call s.table.heap)) (known, agrees, live_empty inv id live)

  pub winning-Inv : Inv winning
  winning-Inv = record {
    keys_known = inv.keys_known;
    agents_ok = put-AgentOk ended_table i (won id r) s.agents winner_ok (λ j ne.
        Keeps-AgentOk (changed-Keeps inv id end_call live refl) (s.agents j) (inv.agents_ok j));
    calls_ok = changed_calls inv id end_call live refl;
    one_winner = winning_one;
    answered = winning-Answered;
  }
