-- ===== src/Registry.antt =====
-- idregistry.go: the names that generated code registers for routing IDs.
-- A map is a function; each method holds the lock throughout. A name is the list of its bytes.
pub mod Agreed
mod Tests
use styx.Base.{ℕ, Bool, true, false, ◌&&◌, Option, none, some, List, [], ◌∷◌, ◌==◌, if◌then◌else◌}

abbrev pub Name : Type 0
Name = List ℕ

unfoldable pub same_name : Name → Name → Bool
same_name [] [] = true
same_name [] (y ∷ ys) = false
same_name (x ∷ xs) [] = false
same_name (x ∷ xs) (y ∷ ys) = (x == y) && same_name xs ys

pub record IdentityRegistry : Type 0 where
  pub names : ℕ → Option Name
  pub poisoned : ℕ → Bool

unfoldable pub new_identity_registry : IdentityRegistry
new_identity_registry = record { names = λ id. none; poisoned = λ id. false }

unfoldable pub register : ℕ → Name → IdentityRegistry → IdentityRegistry
unfolding same_name
register id name r = if r.poisoned id then r else elim (r.names id) [
  | none ↦ record r { names = λ k. if k == id then some name else r.names k }
  | some existing ↦ if same_name existing name then r else record {
    names = λ k. if k == id then none else r.names k;
    poisoned = λ k. if k == id then true else r.poisoned k;
  }
]

unfoldable pub lookup : ℕ → IdentityRegistry → Option Name
lookup id r = r.names id

-- The registrations of a program, the first one first.
unfoldable pub register_all : List (ℕ × Name) → IdentityRegistry → IdentityRegistry
unfolding register
register_all [] r = r
register_all (e ∷ es) r = register_all es (register e.0 e.1 r)
