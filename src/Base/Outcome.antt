-- ===== src/Base/Outcome.antt =====
-- The outcome of code that reads a Go slice: an index past the slice's end panics, and an error or a
-- value is returned.
use mathlib.Core.Path.{◌≡◌, refl, sym, ◌∙◌}
use mathlib.Core.Logic.{◌⊎◌, inl, inr}
use mathlib.Core.Bool.{Bool, true, false}
use mathlib.Core.Option.{Option, none, some}
use Prim.Native.Nat.{ℕ, ◌≤◌}
use native.Mathlib.Omega.{arith}
use mathlib.Core.Bool.{◌&&◌}
use styx.Base.Tests.{if◌then◌else◌, leb, Bool-cases}
use styx.Base.Maybe.{guard}
use styx.Base.Maybe

pub data Outcome {ℓ} (A : Type ℓ) : Type ℓ where
  panics : Outcome A
  failed : Outcome A
  returned : A → Outcome A

infixl 5 ◌>>=◌ ◌>>◌
unfoldable pub ◌>>=◌ {ℓ κ} : {A : Type ℓ} {B : Type κ} → Outcome A → (A → Outcome B) → Outcome B
panics >>= f = panics
failed >>= f = failed
returned a >>= f = f a

unfoldable pub ◌>>◌ {ℓ} : {B : Type ℓ} → Outcome (Unit {0}) → Outcome B → Outcome B
panics >> k = panics
failed >> k = failed
returned u >> k = k

-- A result that is computed without reading.
unfoldable pub result {ℓ} : {A : Type ℓ} → Option A → Outcome A
result none = failed
result (some a) = returned a

unfoldable pub check : Bool → Outcome (Unit {0})
check true = returned tt
check false = failed

-- `data[from:to]` of `len` bytes, for the value `a` that is read there.
unfoldable pub slice {ℓ} : {A : Type ℓ} → ℕ → ℕ → ℕ → A → Outcome A
slice len from to a = if leb from to && leb to len then returned a else panics

-- Where `safe` holds the code gives the result `p`; elsewhere it does so or panics.
pub record Follows {ℓ} {A : Type ℓ} (safe : Type 0) (o : Outcome A) (p : Option A) : Type ℓ where
  pub either : (o ≡ result p) ⊎ ((o ≡ panics) × (safe → ⊥))

pub result-Follows {ℓ} : {A : Type ℓ} {safe : Type 0} (p : Option A) → Follows safe (result p) p
result-Follows p = record { either = inl refl }

bind_cases {ℓ κ} :
    {A : Type ℓ} {B : Type κ} {safe : Type 0} (o : Outcome A) (p : Option A) {f : A → Outcome B}
    {g : A → Option B}
    → (o ≡ result p) ⊎ ((o ≡ panics) × (safe → ⊥))
    → ((a : A) → p ≡ some a → Follows safe (f a) (g a))
    → Follows safe (o >>= f) (Maybe.◌>>=◌ p g)
unfolding ◌>>=◌ result
bind_cases o p (inr (e, unsafe)) k = record { either = inr (rw e refl, unsafe) }
bind_cases o none (inl e) k = record { either = inl (rw e refl) }
bind_cases o (some a) (inl e) k = rw e (k a refl)

pub >>=-Follows {ℓ κ} :
    {A : Type ℓ} {B : Type κ} {safe : Type 0} {o : Outcome A} {p : Option A} {f : A → Outcome B}
    {g : A → Option B}
    → Follows safe o p
    → ((a : A) → p ≡ some a → Follows safe (f a) (g a))
    → Follows safe (o >>= f) (Maybe.◌>>=◌ p g)
>>=-Follows {o = o} {p = p} {f = f} {g = g} h k = bind_cases o p {f = f} {g = g} h.either k

pub check-Follows {ℓ} :
    {A : Type ℓ} {safe : Type 0} (b : Bool) {f : Outcome A} {g : Option A}
    → (b ≡ true → Follows safe f g)
    → Follows safe (check b >> f) (Maybe.◌>>◌ (guard b) g)
unfolding check ◌>>◌ result
check-Follows true h = h refl
check-Follows false h = record { either = inl refl }

pub slice-Follows {ℓ κ} :
    {A : Type ℓ} {B : Type κ} {safe : Type 0} {len from to : ℕ} {a : A} {q : Option B}
    (f : A → Outcome B)
    → (safe → (from ≤ to) × (to ≤ len))
    → Follows safe (f a) q
    → Follows safe (slice len from to a >>= f) q
unfolding slice ◌>>=◌
slice-Follows {len = len} {from = from} {to = to} f bound h =
    elim (Bool-cases (leb from to && leb to len)) [
      | inl inside ↦ rw inside h
      | inr outside ↦
          rw outside (record { either = inr (refl, λ s. absurd (ground (arith, bound s))) })
    ]

pub returned-Follows {ℓ} : {A : Type ℓ} {safe : Type 0} (a : A) → Follows safe (returned a) (some a)
unfolding result
returned-Follows a = record { either = inl refl }

pub guard-Follows : {safe : Type 0} (b : Bool) → Follows safe (check b) (guard b)
unfolding check result
guard-Follows true = record { either = inl refl }
guard-Follows false = record { either = inl refl }

-- A step whose result is known.
pub known-Follows {ℓ κ} :
    {A : Type ℓ} {B : Type κ} {safe : Type 0} {o : Outcome A} {a : A} {q : Option B}
    (f : A → Outcome B)
    → Follows safe o (some a)
    → Follows safe (f a) q
    → Follows safe (o >>= f) q
unfolding ◌>>=◌ result
known-Follows f h k = elim (h.either) [
  | inl e ↦ rw e k
  | inr (e, unsafe) ↦ rw e (record { either = inr (refl, unsafe) })
]

then_cases {ℓ} :
    {A : Type ℓ} {safe : Type 0} (o : Outcome (Unit {0})) (p : Option (Unit {0})) {f : Outcome A}
    {g : Option A}
    → (o ≡ result p) ⊎ ((o ≡ panics) × (safe → ⊥))
    → (p ≡ some tt → Follows safe f g)
    → Follows safe (o >> f) (Maybe.◌>>◌ p g)
unfolding ◌>>◌ result
then_cases o p (inr (e, unsafe)) k = record { either = inr (rw e refl, unsafe) }
then_cases o none (inl e) k = record { either = inl (rw e refl) }
then_cases o (some tt) (inl e) k = rw e (k refl)

pub >>-Follows {ℓ} :
    {A : Type ℓ} {safe : Type 0} {o : Outcome (Unit {0})} {p : Option (Unit {0})} {f : Outcome A}
    {g : Option A}
    → Follows safe o p
    → (p ≡ some tt → Follows safe f g)
    → Follows safe (o >> f) (Maybe.◌>>◌ p g)
>>-Follows {o = o} {p = p} {f = f} {g = g} h k = then_cases o p {f = f} {g = g} h.either k

result_inj {ℓ} : {A : Type ℓ} (p : Option A) {a : A} → result p ≡ returned a → p ≡ some a
unfolding result
result_inj none e = cc
result_inj (some b) e = cc

-- What is returned is the result, and where `safe` holds there is no panic.
pub Follows-returned {ℓ} :
    {A : Type ℓ} {safe : Type 0} {o : Outcome A} (p : Option A) {a : A}
    → Follows safe o p
    → o ≡ returned a
    → p ≡ some a
unfolding result
Follows-returned p h e = elim (h.either) [
  | inl f ↦ result_inj p (sym f ∙ e)
  | inr (f, unsafe) ↦ absurd (cc (sym f ∙ e))
]

pub Follows-safe {ℓ} :
    {A : Type ℓ} {safe : Type 0} {o : Outcome A} {p : Option A}
    → Follows safe o p
    → safe
    → o ≡ result p
Follows-safe h s = elim (h.either) [ inl f ↦ f | inr (f, unsafe) ↦ absurd (unsafe s) ]

pub result-no_panic {ℓ} : {A : Type ℓ} (p : Option A) → ¬ (result p ≡ panics)
unfolding result
result-no_panic none e = cc
result-no_panic (some a) e = cc
