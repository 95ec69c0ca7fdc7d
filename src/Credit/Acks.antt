-- ===== src/Credit/Acks.antt =====
-- Both ends of one direction of a stream, with what is between them: messages that are not yet
-- delivered, and acknowledgements on their way back.
-- A step is one call of a counter's method by the side that owns it. `admitted` is 1 between a
-- reserve and the transport's answer. `overtaken` is the coalescing of acknowledgements.
pub mod Linked
use styx.Base.{ℕ, zero, suc, ◌<◌, ◌≡◌, Bool, true, u64_mod, List, [], ◌∷◌, ◌++◌}
use styx.Credit.{
  CreditCounter, new_credit_counter, reserve, release, replenish_strict, consume, pending,
  consumed_count, advance_acked_out,
}

pub record Stream : Type 0 where
  pub sender : CreditCounter
  pub receiver : CreditCounter
  pub admitted : ℕ
  pub messages : ℕ
  pub acks : List ℕ

abbrev pub open_stream : ℕ → Stream
open_stream n = record {
  sender = new_credit_counter n;
  receiver = new_credit_counter n;
  admitted = 0;
  messages = 0;
  acks = [];
}

-- `pending` covers both triggers: the count trigger implies it.
pub data Step (s : Stream) : Stream → Type 0 where
  admit :
      s.admitted ≡ 0
      → suc s.sender.sent < u64_mod
      → (reserve s.sender).0 ≡ true
      → Step s (record s { sender = (reserve s.sender).1; admitted = 1 })
  roll_back : s.admitted ≡ 1 → Step s (record s { sender = release s.sender; admitted = 0 })
  publish : s.admitted ≡ 1 → Step s (record s { admitted = 0; messages = suc s.messages })
  deliver :
      (m : ℕ)
      → s.messages ≡ suc m
      → Step s (record s { receiver = (consume s.receiver).2; messages = m })
  send_ack :
      pending s.receiver ≡ true
      → Step s (record s {
        receiver = advance_acked_out (consumed_count s.receiver) s.receiver;
        acks = s.acks ++ (consumed_count s.receiver ∷ []);
      })
  receive_ack :
      (v : ℕ) (rest : List ℕ)
      → s.acks ≡ v ∷ rest
      → Step s (record s { sender = (replenish_strict v s.sender).1; acks = rest })
  overtaken :
      (v w : ℕ) (rest : List ℕ) → s.acks ≡ v ∷ w ∷ rest → Step s (record s { acks = w ∷ rest })

pub data Reach (n : ℕ) : Stream → Type 0 where
  opened : Reach n (open_stream n)
  next : {s s' : Stream} → Reach n s → Step s s' → Reach n s'
