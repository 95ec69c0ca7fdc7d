-- ===== src/Ring/Valid.antt =====
-- The configuration that `New` establishes, and the depth that a correct pair of peers keeps.
use Prim.Native.Nat.{bit_and}
use native.Mathlib.Nat.{pow-le-pow_right, le_refl}
use native.Mathlib.Decide.{dec_le}
use styx.Base.{
  ℕ, ◌-◌, ◌*◌, ◌%◌, ◌^◌, ◌≤◌, ◌<◌, ◌≡◌, arith, List, Option, none, some, u64_mod, length, sub64, ap,
  sym, refl, ◌∙◌,
}
use styx.Base.Bits.{bit_and-mask, pow_of_bit_and, bit_and_pred-pow}
use styx.Descriptor.{Descriptor}
use styx.Ring.{Ring, new, min_capacity, max_capacity}
use styx.Ring.Window.{pow_divides}

pub record IsConfigured (r : Ring) : Type 0 where
  pub at_least : min_capacity ≤ r.capacity
  pub at_most : r.capacity ≤ max_capacity
  pub power : (k : ℕ) × (r.capacity ≡ 2 ^ k)
  pub masked : r.mask ≡ r.capacity - 1
  pub slot_count : length r.slots ≡ r.capacity
  pub head_fits : r.head < u64_mod
  pub tail_fits : r.tail < u64_mod

-- The depth that neither side takes for corruption.
abbrev pub IsSane : Ring → Type 0
IsSane r = sub64 r.tail r.head ≤ r.capacity

exponent_le : (c k : ℕ) → c ≤ max_capacity → c ≡ 2 ^ k → k ≤ 64
exponent_le c k le e = elim (dec_le k 64) [
  | yes small ↦ small
  | no large ↦
      let big : 2 ^ 65 ≤ 2 ^ k = pow-le-pow_right (omega arith) {i = 65} (omega arith) in
      absurd (omega arith)
]

module _ {r : Ring} (v : IsConfigured r) where
  pub slot_of-mod : (n : ℕ) → bit_and n r.mask ≡ n % r.capacity
  slot_of-mod n =
      let (k, e) = v.power in
      let m : r.mask ≡ 2 ^ k - 1 = omega (arith, e, v.masked) in rw (m, e) (bit_and-mask k n)

  pub divides : (m : ℕ) × (u64_mod ≡ m * r.capacity)
  divides =
      let (k, e) = v.power in
      (
        2 ^ (64 - k),
        pow_divides k (exponent_le r.capacity k v.at_most e)
            ∙ ap (λ (t : ℕ). 2 ^ (64 - k) * t) (sym e),
      )

-- The ring over the given words and slots.
abbrev pub ring_over : List Descriptor → ℕ → ℕ → ℕ → Ring
ring_over slots h t c = record { slots = slots; head = h; tail = t; mask = c - 1; capacity = c }

new_inversion :
    (slots : List Descriptor) (h t c : ℕ) {r : Ring}
    → new slots (some h) (some t) c ≡ some r
    → (min_capacity ≤ c)
      × (c ≤ max_capacity)
      × (bit_and c (sub64 c 1) ≡ 0)
      × (length slots ≡ c)
      × (r ≡ ring_over slots h t c)
unfolding new
new_inversion slots h t c e = ground arith

-- A ring that `New` returns over two words below 2^64 is the one over the given slots and words, and it
-- is configured: the capacity is a power of two between 64 and 2^20 and equals the number of slots,
-- and the mask is one less.
pub new-IsConfigured :
    (slots : List Descriptor) (h t c : ℕ) {r : Ring}
    → h < u64_mod
    → t < u64_mod
    → new slots (some h) (some t) c ≡ some r
    → IsConfigured r × (r ≡ ring_over slots h t c)
new-IsConfigured slots h t c {r} hh ht e =
    let (lo, hi, mask0, size, same) = new_inversion slots h t c e in
    let less : sub64 c 1 ≡ c - 1 = omega arith in
    (
      rw same (record {
        at_least = lo;
        at_most = hi;
        power = pow_of_bit_and c c (le_refl c) (omega arith) (rw (← less) mask0);
        masked = refl;
        slot_count = size;
        head_fits = hh;
        tail_fits = ht;
      }),
      same,
    )

-- `New` accepts every power of two between 64 and 2^20 with as many slots and two words, and refuses
-- a missing head or tail word.
pub new_accepts :
    (slots : List Descriptor) (h t k : ℕ) (w : Option ℕ)
    → min_capacity ≤ 2 ^ k
    → 2 ^ k ≤ max_capacity
    → length slots ≡ 2 ^ k
    → (new slots (some h) (some t) (2 ^ k) ≡ some (ring_over slots h t (2 ^ k)))
      × (new slots none w (2 ^ k) ≡ none)
      × (new slots w none (2 ^ k) ≡ none)
unfolding new
new_accepts slots h t k w lo hi size =
    let less : sub64 (2 ^ k) 1 ≡ 2 ^ k - 1 = omega arith in
    let mask0 : bit_and (2 ^ k) (sub64 (2 ^ k) 1) ≡ 0 = rw less (bit_and_pred-pow k) in
    (ground arith, ground arith, ground arith)
