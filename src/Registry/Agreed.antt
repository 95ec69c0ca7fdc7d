-- ===== src/Registry/Agreed.antt =====
-- A name is reported exactly when every registration of its ID agrees on it.
use mathlib.Core.Path.{subst}
use native.Mathlib.Decide.{ℕ_discrete}
use styx.Base.{
  ℕ, ◌≡◌, refl, ap, ◌∙◌, arith, Bool, true, false, ◌&&◌, Bool-cases, inl, inr, Option, none, some,
  Option-cases, List, [], ◌∷◌, ◌==◌, if◌then◌else◌,
}
use styx.Registry.{
  Name, same_name, IdentityRegistry, new_identity_registry, register, lookup, register_all,
}

-- The names that the history gives to an ID.
abbrev pub mentions : ℕ → List (ℕ × Name) → List Name
mentions id [] = []
mentions id (e ∷ es) = if id == e.0 then e.1 ∷ mentions id es else mentions id es

abbrev pub all_same : Name → List Name → Bool
all_same n [] = true
all_same n (m ∷ ms) = same_name n m && all_same n ms

-- The one name that all give, if there is one.
abbrev pub agreed : List Name → Option Name
agreed [] = none
agreed (n ∷ ms) = if all_same n ms then some n else none

-- What the registry holds for one ID.
abbrev Entry : Type 0
Entry = Option Name × Bool

abbrev entry : ℕ → IdentityRegistry → Entry
entry id r = (r.names id, r.poisoned id)

abbrev entry_after : Name → Entry → Entry
entry_after n (o, true) = (o, true)
entry_after n (none, false) = (some n, false)
entry_after n (some m, false) = if same_name m n then (some m, false) else (none, true)

-- An ID of its own: `register` at `id` itself, and at another one.
module _ (id : ℕ) (n : Name) (r : IdentityRegistry) where
  self : (id == id) ≡ true
  self = ground arith

  entry-register : entry id (register id n r) ≡ entry_after n (entry id r)
  unfolding register
  entry-register = elim (Bool-cases (r.poisoned id)) [
    | inl e ↦ rw (e, register) (λ i. (r.names id, e i))
    | inr e ↦ elim (Option-cases (r.names id)) [
      | inl f ↦ rw (e, f, self, register) (λ i. (some n, e i))
      | inr (m, f) ↦ elim (Bool-cases (same_name m n)) [
        | inl g ↦ rw (e, f, g, register) (λ i. (f i, e i))
        | inr g ↦ rw (e, f, g, self, register) refl
      ]
    ]
  ]

  entry-register_ne : (k : ℕ) → (k == id) ≡ false → entry k (register id n r) ≡ entry k r
  unfolding register
  entry-register_ne k ne = elim (Bool-cases (r.poisoned id)) [
    | inl e ↦ rw e
    | inr e ↦ elim (Option-cases (r.names id)) [
      | inl f ↦ rw (e, f, ne)
      | inr (m, f) ↦ elim (Bool-cases (same_name m n)) [
        | inl g ↦ rw (e, f, g)
        | inr g ↦ rw (e, f, g, ne)
      ]
    ]
  ]

-- What the registry holds for an ID after a history is what its mentions fold to.
abbrev entries : List Name → Entry → Entry
entries [] e = e
entries (n ∷ ns) e = entries ns (entry_after n e)

entry-register_all :
    (es : List (ℕ × Name)) (id : ℕ) (r : IdentityRegistry)
    → entry id (register_all es r) ≡ entries (mentions id es) (entry id r)
unfolding register_all
entry-register_all [] id r = refl
entry-register_all (x ∷ es) id r =
    entry-register_all es id (register x.0 x.1 r) ∙ elim (ℕ_discrete id x.0) [
      | yes e ↦
          let t : (id == x.0) ≡ true = ground arith in
          rw t (
            ap (entries (mentions id es)) (
              subst (λ k. entry id (register k x.1 r) ≡ entry_after x.1 (entry id r)) e
                (entry-register id x.1 r)))
      | no ne ↦
          let t : (id == x.0) ≡ false = ground (arith, ne) in
          rw t (ap (entries (mentions id es)) (entry-register_ne x.0 x.1 r id t))
    ]

entries_poisoned : (ns : List Name) → entries ns (none, true) ≡ (none, true)
entries_poisoned [] = refl
entries_poisoned (n ∷ ns) = entries_poisoned ns

entries_named :
    (m : Name) (ns : List Name)
    → (entries ns (some m, false)).0 ≡ (if all_same m ns then some m else none)
entries_named m [] = refl
entries_named m (n ∷ ns) = elim (Bool-cases (same_name m n)) [
  | inl e ↦
      let after : entry_after n (some m, false) ≡ (some m, false) = rw e in
      ap (λ (x : Entry). (entries ns x).0) after ∙ entries_named m ns ∙ rw e
  | inr e ↦
      let after : entry_after n (some m, false) ≡ (none, true) = rw e in
      ap (λ (x : Entry). (entries ns x).0) after
      ∙ ap (λ (x : Entry). x.0) (entries_poisoned ns)
      ∙ rw e
]

entries_fresh : (ns : List Name) → (entries ns (none, false)).0 ≡ agreed ns
entries_fresh [] = refl
entries_fresh (n ∷ ns) = entries_named n ns

-- After any sequence of registrations, `lookup` reports a name for an ID exactly if the ID was
-- registered and every registration of it, in whatever order and number, gave that same name; after
-- a clash it reports none, however often either name is registered again.
pub registry_lem :
    (es : List (ℕ × Name)) (id : ℕ)
    → lookup id (register_all es new_identity_registry) ≡ agreed (mentions id es)
unfolding lookup new_identity_registry
registry_lem es id =
    ap (λ (x : Entry). x.0) (entry-register_all es id new_identity_registry)
    ∙ entries_fresh (mentions id es)
