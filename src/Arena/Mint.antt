-- ===== src/Arena/Mint.antt =====
-- The identity that New mints for an arena.
use native.Mathlib.Decide.{ℕ_discrete}
use styx.Base.{ℕ, ◌<◌, ◌≡◌, ◌≢◌, arith, some, u64_mod, add64}
use styx.Arena.{mint_arena_id}

-- For every value of the counter below 2^64, two rounds of the loop are enough: it returns an
-- identity, and that is not 0.
pub mint_arena_id_lem :
    (seq : ℕ) → seq < u64_mod → (id : ℕ) × (mint_arena_id 2 seq ≡ some id) × (id ≢ 0)
unfolding mint_arena_id
mint_arena_id_lem seq lt = elim (ℕ_discrete (add64 seq 1) 0) [
  | yes e ↦ (1, ground (arith, e), omega arith)
  | no ne ↦ (add64 seq 1, ground (arith, ne), ne)
]
