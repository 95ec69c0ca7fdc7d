-- ===== src/Ring/Window.antt =====
-- The slots of a ring read in sequence order, and the arithmetic of sequence numbers: a capacity
-- is a power of two, so it divides 2^64, and slots follow sequence numbers through the wrap.
use native.Mathlib.Nat.{two-pow-succ, add-mod, mul-add-mod_self_right, mod-lt, zero-add, le_refl}
use mathlib.Core.Path.{ap₂}
use styx.Base.{
  ℕ, zero, suc, ◌+◌, ◌-◌, ◌*◌, ◌/◌, ◌%◌, ◌^◌, ◌≤◌, ◌<◌, ◌≡◌, refl, ap, sym, ◌∙◌, ◌≢◌, arith, List,
  [], ◌∷◌, ◌++◌, u64_mod, length, get_or, set, get_or-set_self, get_or-set_ne,
}

pow_split : (k j : ℕ) → 2 ^ (j + k) ≡ 2 ^ j * 2 ^ k
pow_split k zero = rw zero-add (omega arith)
pow_split k (suc j) =
    let e : suc j + k ≡ suc (j + k) = omega arith in
    rw (e, two-pow-succ j, two-pow-succ (j + k)) (omega (arith, pow_split k j))

-- A power of two up to 2^64 divides 2^64.
pub pow_divides : (k : ℕ) → k ≤ 64 → u64_mod ≡ 2 ^ (64 - k) * 2 ^ k
pow_divides k h =
    let e : 64 ≡ 64 - k + k = omega arith in ap (λ (t : ℕ). 2 ^ t) e ∙ pow_split k (64 - k)

-- Reducing modulo 2^64 first makes no difference to a slot.
pub mod_u64 : (m c n : ℕ) → u64_mod ≡ m * c → n % u64_mod % c ≡ n % c
mod_u64 m c n e =
    let q : ℕ = n / u64_mod in
    let split : n ≡ q * m * c + n % u64_mod = omega (arith, ap (λ (t : ℕ). q * t) e) in
    sym (ap (λ (t : ℕ). t % c) split ∙ mul-add-mod_self_right (q * m) c (n % u64_mod))

-- Fewer than `c` steps on do not come back to the same slot.
pub mod_ne : (a d c : ℕ) → 0 < d → d < c → (a + d) % c ≢ a % c
mod_ne a d c pos small e = absurd (grind arith)

module _ {ℓ} {A : Type ℓ} (z : A) (c : ℕ) where
  -- The `n` elements from sequence number `h` on.
  abbrev pub window : List A → ℕ → ℕ → List A
  window slots h zero = []
  window slots h (suc n) = get_or slots (h % c) z ∷ window slots (h + 1) n

  pub length-window : (slots : List A) (h n : ℕ) → length (window slots h n) ≡ n
  length-window slots h zero = refl
  length-window slots h (suc n) = ap suc (length-window slots (h + 1) n)

  -- A window depends on its start's slot alone.
  pub window_shift :
      (slots : List A) (h h' n : ℕ) → h % c ≡ h' % c → window slots h n ≡ window slots h' n
  window_shift slots h h' zero e = refl
  window_shift slots h h' (suc n) e = ap₂ ◌∷◌ (ap (λ (t : ℕ). get_or slots t z) e) (
      window_shift slots (h + 1) (h' + 1) n
        (omega (arith, add-mod h 1 c, add-mod h' 1 c, ap (λ (t : ℕ). (t + 1 % c) % c) e)))

  -- A write past the window leaves it alone.
  pub window-set_after :
      (slots : List A) (h n k i : ℕ) (x : A)
      → n ≤ k
      → k < c
      → i ≡ (h + k) % c
      → window (set slots i x) h n ≡ window slots h n
  window-set_after slots h zero k i x le lt e = refl
  window-set_after slots h (suc n) k i x le lt e =
      let shift : h + k ≡ h + 1 + (k - 1) = omega arith in
      ap₂ ◌∷◌ (get_or-set_ne slots i (h % c) x z (rw e (mod_ne h k c (omega arith) lt))) (
        window-set_after slots (h + 1) n (k - 1) i x (omega arith) (omega arith)
          (e ∙ ap (λ (t : ℕ). t % c) shift))

  pub window_snoc :
      (slots : List A) (h n : ℕ)
      → window slots h (suc n) ≡ window slots h n ++ (get_or slots ((h + n) % c) z ∷ [])
  window_snoc slots h zero =
      let e : h ≡ h + 0 = omega arith in ap (λ (t : ℕ). get_or slots (t % c) z ∷ []) e
  window_snoc slots h (suc n) =
      let e : h + 1 + n ≡ h + suc n = omega arith in
      ap (◌∷◌ (get_or slots (h % c) z)) (
        window_snoc slots (h + 1) n
        ∙ ap (λ (t : ℕ). window slots (h + 1) n ++ (get_or slots (t % c) z ∷ [])) e)

  -- A write just past the window extends it.
  pub window-set :
      (slots : List A) (h n i : ℕ) (x : A)
      → length slots ≡ c
      → n < c
      → i ≡ (h + n) % c
      → window (set slots i x) h (suc n) ≡ window slots h n ++ (x ∷ [])
  window-set slots h n i x size lt e =
      window_snoc (set slots i x) h n
      ∙ ap₂ (λ (l : List A) (y : A). l ++ (y ∷ []))
          (window-set_after slots h n n i x (le_refl n) lt e)
          (rw (← e) (get_or-set_self slots i x z (rw (e, size) (mod-lt (h + n) (omega arith)))))

  -- `window` matches on `suc`, the code tests the depth for 0.
  pub window_pos :
      (slots : List A) (h n : ℕ)
      → n ≢ 0
      → window slots h n ≡ get_or slots (h % c) z ∷ window slots (h + 1) (n - 1)
  window_pos slots h zero ne = absurd (ne refl)
  window_pos slots h (suc n) ne =
      let e : n ≡ suc n - 1 = omega arith in
      ap (λ (t : ℕ). get_or slots (h % c) z ∷ window slots (h + 1) t) e
