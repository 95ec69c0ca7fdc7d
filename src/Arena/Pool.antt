-- ===== src/Arena/Pool.antt =====
-- One class's free stack and live stamps: a slab is on the stack once if it is free, and not at all
-- if it is live or reserved.
use styx.Base.{
  ℕ, zero, suc, ◌+◌, ◌≤◌, ◌<◌, ◌≡◌, ◌≢◌, refl, ap, sym, ◌∙◌, arith, Bool, ◌&&◌, List, [], ◌∷◌, ltb,
  leb, ◌==◌, if◌then◌else◌, length, get_or, set, replicate, length-set, length-replicate,
  get_or-set_self, get_or-set_ne, get_or-replicate,
}
use styx.Geometry.{SizeClass}
use styx.Arena.{ClassState, push_indices, new_class_state}

-- How often `i` is on the stack.
abbrev pub occurs : ℕ → List ℕ → ℕ
occurs i [] = 0
occurs i (x ∷ xs) = (if x == i then 1 else 0) + occurs i xs

-- 1 for a slab that may be allocated: in range, not reserved, and not live.
abbrev pub is_free : ℕ → ℕ → List ℕ → ℕ → ℕ
is_free first count live i = if leb first i && ltb i count && (get_or live i 0 == 0) then 1 else 0

-- `first` is the number of reserved slabs.
pub record IsPool (first count : ℕ) (p : ClassState) : Type 0 where
  pub stamps : length p.live_seq ≡ count
  pub reserved : (i : ℕ) → i < first → get_or p.live_seq i 0 ≡ 0
  pub balanced : (i : ℕ) → occurs i p.free ≡ is_free first count p.live_seq i

module _ (first : ℕ) where
  occurs-push_indices :
      (n i : ℕ) (acc : List ℕ)
      → occurs i (push_indices first n acc)
        ≡ (if leb first i && ltb i n then 1 else 0) + occurs i acc
  unfolding push_indices
  occurs-push_indices zero i acc = ground arith
  occurs-push_indices (suc n) i acc =
      ground (arith, occurs-push_indices n i (if ltb first (suc n) then n ∷ acc else acc))

pub new_class_state-IsPool :
    (sc : SizeClass) (zero_class : Bool)
    → IsPool (if zero_class then 1 else 0) sc.slab_count (new_class_state sc zero_class)
unfolding new_class_state
new_class_state-IsPool sc zero_class = record {
  stamps = length-replicate sc.slab_count 0;
  reserved = λ i lt. get_or-replicate {A = ℕ} sc.slab_count i 0;
  balanced = λ i. ground (
    arith,
    occurs-push_indices (if zero_class then 1 else 0) sc.slab_count i [],
    get_or-replicate {A = ℕ} sc.slab_count i 0,
  );
}

module _ {first count : ℕ} {p : ClassState} (ok : IsPool first count p) where
  open ok use {stamps, reserved, balanced}

  -- The top of the stack is in range, not reserved and not live.
  pub top_is_free :
      (x : ℕ) (rest : List ℕ)
      → p.free ≡ x ∷ rest
      → (first ≤ x) × (x < count) × (get_or p.live_seq x 0 ≡ 0)
  top_is_free x rest e =
      let b : occurs x (x ∷ rest) ≡ is_free first count p.live_seq x =
        ap (occurs x) (sym e) ∙ balanced x in
      ground arith

  pub pop-IsPool :
      (x seq : ℕ) (rest : List ℕ)
      → p.free ≡ x ∷ rest
      → seq ≢ 0
      → IsPool first count (record { free = rest; live_seq = set p.live_seq x seq })
  pop-IsPool x seq rest e ne =
      let (above, below, dead) = top_is_free x rest e in
      record {
        stamps = length-set p.live_seq x seq ∙ stamps;
        reserved = λ i lt. get_or-set_ne p.live_seq x i seq 0 (omega arith) ∙ reserved i lt;
        balanced = λ i.
            let b : occurs i (x ∷ rest) ≡ is_free first count p.live_seq i =
              ap (occurs i) (sym e) ∙ balanced i in
            ground (arith, get_or-set_self p.live_seq x seq 0, get_or-set_ne p.live_seq x i seq 0);
      }

  pub push-IsPool :
      (x : ℕ)
      → x < count
      → get_or p.live_seq x 0 ≢ 0
      → IsPool first count (record { free = x ∷ p.free; live_seq = set p.live_seq x 0 })
  push-IsPool x below live = record {
    stamps = length-set p.live_seq x 0 ∙ stamps;
    reserved = λ i lt. ground (arith, reserved i, reserved x, get_or-set_ne p.live_seq x i 0 0);
    balanced = λ i. ground (
      arith,
      balanced i,
      reserved x,
      get_or-set_self p.live_seq x 0 0,
      get_or-set_ne p.live_seq x i 0 0,
    );
  }

-- The number of live slabs.
abbrev pub live_count : List ℕ → ℕ
live_count [] = 0
live_count (s ∷ ss) = (if s == 0 then 0 else 1) + live_count ss

pub live_count-set :
    (ss : List ℕ) (i v : ℕ)
    → i < length ss
    → live_count (set ss i v) + (if get_or ss i 0 == 0 then 0 else 1)
      ≡ live_count ss + (if v == 0 then 0 else 1)
live_count-set [] i v h = absurd (omega arith)
live_count-set (s ∷ ss) zero v h = omega arith
live_count-set (s ∷ ss) (suc i) v h = omega (arith, live_count-set ss i v (omega arith))

pub live_count-replicate : (n : ℕ) → live_count (replicate n 0) ≡ 0
live_count-replicate zero = refl
live_count-replicate (suc n) = omega (arith, live_count-replicate n)
