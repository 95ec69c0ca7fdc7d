-- ===== src/Credit/Tests.antt =====
-- A stream with a credit of 2, at concrete inputs.
use styx.Base.{◌+◌, ◌-◌, ◌≤◌, ◌≡◌, refl, arith, true, []}
use styx.Credit.{
  new_credit_counter, available, reserve, release, replenish_strict, sent_count, consume, pending,
  advance_acked_out, consumed_count,
}
use styx.Credit.Acks.{
  Stream, Reach, opened, next, admit, roll_back, publish, deliver, send_ack, receive_ack,
}
use styx.Credit.Acks.Linked.{credit_bounded, ack_accepted, credit_restored}

-- One message sent, delivered and acknowledged; a second one rolled back.
abbrev acked_once : (s : Stream) × Reach 2 s
unfolding new_credit_counter reserve release consume pending advance_acked_out consumed_count
acked_once = (
  _,
  next (next (next (next opened (admit refl (omega arith) refl)) (publish refl)) (deliver 0 refl))
      (send_ack refl),
)

abbrev all_done : (s : Stream) × Reach 2 s
unfolding new_credit_counter reserve release consume pending advance_acked_out consumed_count
    replenish_strict
all_done = (
  _,
  next (next (next acked_once.1 (receive_ack 1 [] refl)) (admit refl (omega arith) refl))
      (roll_back refl),
)

credit_bounded_example :
    let s = acked_once.0 in s.admitted + s.messages + (s.receiver.consumed - s.sender.acked) ≤ 2
credit_bounded_example = credit_bounded {n = 2} {s = acked_once.0} (omega arith) acked_once.1

ack_accepted_example :
    ((replenish_strict 1 acked_once.0.sender).0 ≡ true) × (1 ≤ sent_count acked_once.0.sender)
unfolding new_credit_counter consumed_count consume acked_once
ack_accepted_example =
    ack_accepted {n = 2} {v = 1} {rest = []} {s = acked_once.0} (omega arith) acked_once.1 refl

credit_restored_example : available all_done.0.sender ≡ 2
unfolding new_credit_counter reserve release consume pending advance_acked_out consumed_count
    replenish_strict
credit_restored_example =
    credit_restored {n = 2} {s = all_done.0} (omega arith) all_done.1 refl refl refl refl
