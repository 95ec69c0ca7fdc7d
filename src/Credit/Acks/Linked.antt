-- ===== src/Credit/Acks/Linked.antt =====
-- The two ends stay in step: what a stream's states have in common, and what follows.
use mathlib.Core.Path.{subst}
use styx.Base.{
  ℕ, suc, ◌+◌, ◌-◌, ◌≤◌, ◌<◌, ◌≡◌, refl, ap, arith, Bool, true, false, u32_mod, add64, List, [],
  ◌∷◌, ◌++◌,
}
use styx.Credit.{
  CreditCounter, new_credit_counter, available, release, replenish_strict, consume, pending,
  consumed_count, advance_acked_out, sent_count,
}
use styx.Credit.Window.{IsWindow, new-IsWindow, available_lem, reserve_some, reserve_sent}
use styx.Credit.Acks.{
  Stream, open_stream, Step, Reach, opened, next, admit, roll_back, publish, deliver, send_ack,
  receive_ack, overtaken,
}

-- Acknowledgements on the way rise strictly from what the sender has to what the receiver sent last.
abbrev pub Rises : ℕ → List ℕ → ℕ → Type 0
Rises low [] high = low ≡ high
Rises low (v ∷ vs) high = (low < v) × Rises v vs high

pub record IsLinked (n : ℕ) (s : Stream) : Type 0 where
  pub grant : s.sender.granted ≡ n
  pub window : IsWindow s.sender
  pub one_admitted : s.admitted ≤ 1
  pub conserved : s.receiver.consumed + s.messages + s.admitted ≡ s.sender.sent
  pub rising : Rises s.sender.acked s.acks s.receiver.acked_out
  pub acked_le : s.receiver.acked_out ≤ s.receiver.consumed

Rises-le : (low : ℕ) (vs : List ℕ) (high : ℕ) → Rises low vs high → low ≤ high
Rises-le low [] high r = omega (arith, r)
Rises-le low (v ∷ vs) high r = omega (arith, r.0, Rises-le v vs high r.1)

Rises-append :
    (low : ℕ) (vs : List ℕ) (mid high : ℕ)
    → Rises low vs mid
    → mid < high
    → Rises low (vs ++ (high ∷ [])) high
Rises-append low [] mid high r lt = (omega (arith, r, lt), refl)
Rises-append low (v ∷ vs) mid high r lt = (r.0, Rises-append v vs mid high r.1 lt)

open-IsLinked : (n : ℕ) → n < u32_mod → IsLinked n (open_stream n)
unfolding new_credit_counter
open-IsLinked n lt = record {
  grant = refl;
  window = new-IsWindow n lt;
  one_admitted = omega arith;
  conserved = refl;
  rising = refl;
  acked_le = omega arith;
}

release_some : (c : CreditCounter) → 0 < c.sent → release c ≡ record c { sent = c.sent - 1 }
unfolding release
release_some c lt = ground arith

advance_some :
    (c : CreditCounter)
    → pending c ≡ true
    → (c.acked_out < c.consumed)
      × (advance_acked_out (consumed_count c) c ≡ record c { acked_out = c.consumed })
unfolding pending advance_acked_out consumed_count
advance_some c e = ground arith

strict_some :
    (c : CreditCounter) (v : ℕ)
    → c.acked < v
    → replenish_strict v c ≡ (true, record c { acked = v })
unfolding replenish_strict
strict_some c v lt = ground arith

Step-IsLinked : {n : ℕ} {s s' : Stream} → IsLinked n s → Step s s' → IsLinked n s'
unfolding consume consumed_count
Step-IsLinked {n} {s} k (admit idle fits e) =
    let room = reserve_some s.sender k.window e in
    let more : add64 s.sender.sent 1 ≡ suc s.sender.sent = omega (arith, fits) in
    rw (reserve_sent s.sender e, more)
      record {
        grant = k.grant;
        window = record {
          grant_fits = k.window.grant_fits;
          acked_le = omega (arith, k.window.acked_le);
          in_grant = omega (arith, room);
          sent_fits = fits;
        };
        one_admitted = omega arith;
        conserved = omega (arith, k.conserved, idle);
        rising = k.rising;
        acked_le = k.acked_le;
      }
Step-IsLinked {n} {s} k (roll_back e) =
    let up = Rises-le s.sender.acked s.acks s.receiver.acked_out k.rising in
    rw (release_some s.sender (omega (arith, k.conserved, e))) record {
      grant = k.grant;
      window = record {
        grant_fits = k.window.grant_fits;
        acked_le = omega (arith, up, k.acked_le, k.conserved, e);
        in_grant = omega (arith, k.window.in_grant);
        sent_fits = omega (arith, k.window.sent_fits);
      };
      one_admitted = omega arith;
      conserved = omega (arith, k.conserved, e);
      rising = k.rising;
      acked_le = k.acked_le;
    }
Step-IsLinked {n} {s} k (publish e) = record {
  grant = k.grant;
  window = k.window;
  one_admitted = omega arith;
  conserved = omega (arith, k.conserved, e);
  rising = k.rising;
  acked_le = k.acked_le;
}
Step-IsLinked {n} {s} k (deliver m e) =
    let more : add64 s.receiver.consumed 1 ≡ suc s.receiver.consumed =
      omega (arith, k.conserved, e, k.window.sent_fits) in
    rw more record {
      grant = k.grant;
      window = k.window;
      one_admitted = k.one_admitted;
      conserved = omega (arith, k.conserved, e);
      rising = k.rising;
      acked_le = omega (arith, k.acked_le);
    }
Step-IsLinked {n} {s} k (send_ack e) =
    let (lt, same) = advance_some s.receiver e in
    rw same record {
      grant = k.grant;
      window = k.window;
      one_admitted = k.one_admitted;
      conserved = k.conserved;
      rising =
          Rises-append s.sender.acked s.acks s.receiver.acked_out s.receiver.consumed k.rising lt;
      acked_le = omega arith;
    }
Step-IsLinked {n} {s} k (receive_ack v rest e) =
    let rises : Rises s.sender.acked (v ∷ rest) s.receiver.acked_out =
      subst (λ acks. Rises s.sender.acked acks s.receiver.acked_out) e k.rising in
    let up = Rises-le v rest s.receiver.acked_out rises.1 in
    rw (strict_some s.sender v rises.0) record {
      grant = k.grant;
      window = record {
        grant_fits = k.window.grant_fits;
        acked_le = omega (arith, up, k.acked_le, k.conserved);
        in_grant = omega (arith, k.window.in_grant, rises.0);
        sent_fits = k.window.sent_fits;
      };
      one_admitted = k.one_admitted;
      conserved = k.conserved;
      rising = rises.1;
      acked_le = k.acked_le;
    }
Step-IsLinked {n} {s} k (overtaken v w rest e) =
    let rises : Rises s.sender.acked (v ∷ w ∷ rest) s.receiver.acked_out =
      subst (λ acks. Rises s.sender.acked acks s.receiver.acked_out) e k.rising in
    record {
      grant = k.grant;
      window = k.window;
      one_admitted = k.one_admitted;
      conserved = k.conserved;
      rising = (omega (arith, rises.0, rises.1.0), rises.1.1);
      acked_le = k.acked_le;
    }

Reach-IsLinked : {n : ℕ} {s : Stream} → n < u32_mod → Reach n s → IsLinked n s
Reach-IsLinked {n} lt opened = open-IsLinked n lt
Reach-IsLinked lt (next r e) = Step-IsLinked (Reach-IsLinked lt r) e

-- On a stream opened with a credit of n below 2^32, at most n messages are admitted or on their way
-- and not yet delivered, or delivered and not yet acknowledged to the sender; so the receiver never
-- has to hold more than n.
pub credit_bounded :
    {n : ℕ} {s : Stream}
    → n < u32_mod
    → Reach n s
    → s.admitted + s.messages + (s.receiver.consumed - s.sender.acked) ≤ n
credit_bounded {n} {s} lt r =
    let k : IsLinked n s = Reach-IsLinked lt r in
    let up = Rises-le s.sender.acked s.acks s.receiver.acked_out k.rising in
    omega (arith, k.conserved, k.window.in_grant, k.grant, up, k.acked_le)

-- On a stream opened with a credit below 2^32, an acknowledgement that arrives is never refused: it
-- is above the one before, and not above the number of messages sent.
pub ack_accepted :
    {n v : ℕ} {rest : List ℕ} {s : Stream}
    → n < u32_mod
    → Reach n s
    → s.acks ≡ v ∷ rest
    → ((replenish_strict v s.sender).0 ≡ true) × (v ≤ sent_count s.sender)
unfolding sent_count
ack_accepted {n} {v} {rest} {s} lt r e =
    let k : IsLinked n s = Reach-IsLinked lt r in
    let rises : Rises s.sender.acked (v ∷ rest) s.receiver.acked_out =
      subst (λ acks. Rises s.sender.acked acks s.receiver.acked_out) e k.rising in
    let up = Rises-le v rest s.receiver.acked_out rises.1 in
    (
      ap (λ (p : Bool × CreditCounter). p.0) (strict_some s.sender v rises.0),
      omega (arith, up, k.acked_le, k.conserved),
    )

-- On a stream opened with a credit of n below 2^32, no credit is lost: once nothing is admitted, on
-- its way or unacknowledged, and no acknowledgement is on its way, all n units are available again.
pub credit_restored :
    {n : ℕ} {s : Stream}
    → n < u32_mod
    → Reach n s
    → s.admitted ≡ 0
    → s.messages ≡ 0
    → pending s.receiver ≡ false
    → s.acks ≡ []
    → available s.sender ≡ n
unfolding pending
credit_restored {n} {s} lt r idle drained quiet none_left =
    let k : IsLinked n s = Reach-IsLinked lt r in
    let same : Rises s.sender.acked [] s.receiver.acked_out =
      subst (λ acks. Rises s.sender.acked acks s.receiver.acked_out) none_left k.rising in
    let all : s.receiver.consumed ≤ s.receiver.acked_out = ground arith in
    omega (
      arith,
      available_lem s.sender k.window,
      same,
      all,
      k.acked_le,
      k.conserved,
      k.grant,
      idle,
      drained,
    )
