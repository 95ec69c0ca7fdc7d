-- ===== src/Ring/Queue.antt =====
-- What a ring promises: a first-in-first-out queue of at most `cap` descriptors.
use styx.Base.{
  ℕ, Bool, true, false, Option, none, some, List, [], ◌∷◌, ◌++◌, ◌==◌, if◌then◌else◌, length,
}
use styx.Descriptor.{Descriptor, zero_descriptor}
use styx.Ring.{PushError, full_ring, PeekStatus, peek_empty, peek_ok}

-- A caller's operation and what it sees of it.
pub data Op : Type 0 where
  put : Descriptor → Op
  look : Op
  take_one : Op
  count : Op
  is_full : Op
  is_empty : Op

pub data Reply : Type 0 where
  pushed : Option PushError → Reply
  looked : Descriptor → PeekStatus → Reply
  popped : Descriptor → Bool → Reply
  counted : ℕ → Reply
  answered : Bool → Reply

module _ (cap : ℕ) where
  unfoldable pub step : Op → List Descriptor → Reply × List Descriptor
  step (put d) q =
      if length q == cap then (pushed (some full_ring), q) else (pushed none, q ++ (d ∷ []))
  step look [] = (looked zero_descriptor peek_empty, [])
  step look (d ∷ q) = (looked d peek_ok, d ∷ q)
  step take_one [] = (popped zero_descriptor false, [])
  step take_one (d ∷ q) = (popped d true, q)
  step count q = (counted (length q), q)
  step is_full q = (answered (length q == cap), q)
  step is_empty q = (answered (length q == 0), q)

  unfoldable pub run : List Op → List Descriptor → List Reply
  run [] q = []
  run (op ∷ ops) q = let (reply, q') = step op q in reply ∷ run ops q'
