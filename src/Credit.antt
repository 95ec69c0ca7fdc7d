-- ===== src/Credit.antt =====
-- internal/rpcruntime/credit.go: one direction's credit accounting of one stream.
-- Each method holds the counter's mutex throughout, so a method is one step on the record.
pub mod Window
pub mod Acks
mod Tests
use styx.Base.{
  ℕ, zero, suc, ◌+◌, ◌-◌, ◌%◌, Bool, true, false, ltb, leb, ◌==◌, ◌/◌, if◌then◌else◌, u32_mod,
  add64, sub64,
}

pub record CreditCounter : Type 0 where
  pub granted : ℕ
  pub sent : ℕ
  pub acked : ℕ
  pub consumed : ℕ
  pub acked_out : ℕ
  pub ack_thresh : ℕ

-- `(n + 1) / 2` in uint32, at least 1.
unfoldable pub ceil_half : ℕ → ℕ
ceil_half n = let a = ((n + 1) % u32_mod) / 2 in if a == 0 then 1 else a

unfoldable pub new_credit_counter : ℕ → CreditCounter
unfolding ceil_half
new_credit_counter initial = record {
  granted = initial;
  sent = 0;
  acked = 0;
  consumed = 0;
  acked_out = 0;
  ack_thresh = ceil_half initial;
}

-- `granted - (sent - acked)` in uint64.
unfoldable pub available : CreditCounter → ℕ
available c = sub64 c.granted (sub64 c.sent c.acked)

unfoldable pub reserve : CreditCounter → Bool × CreditCounter
unfolding available
reserve c = if available c == 0 then (false, c) else (true, record c { sent = add64 c.sent 1 })

unfoldable pub release : CreditCounter → CreditCounter
release c = if ltb 0 c.sent then record c { sent = c.sent - 1 } else c

unfoldable pub replenish : ℕ → CreditCounter → CreditCounter
replenish cumulative c = if ltb c.acked cumulative then record c { acked = cumulative } else c

unfoldable pub replenish_strict : ℕ → CreditCounter → Bool × CreditCounter
replenish_strict v c = if leb v c.acked then (false, c) else (true, record c { acked = v })

unfoldable pub sent_count : CreditCounter → ℕ
sent_count c = c.sent

-- `consumed++`; the cumulative count to acknowledge, and whether the count trigger fires.
unfoldable pub consume : CreditCounter → ℕ × Bool × CreditCounter
consume c =
    let consumed = add64 c.consumed 1 in
    (consumed, leb c.ack_thresh (sub64 consumed c.acked_out), record c { consumed = consumed })

unfoldable pub pending : CreditCounter → Bool
pending c = ltb c.acked_out c.consumed

unfoldable pub consumed_count : CreditCounter → ℕ
consumed_count c = c.consumed

unfoldable pub advance_acked_out : ℕ → CreditCounter → CreditCounter
advance_acked_out v c = if ltb c.acked_out v then record c { acked_out = v } else c
