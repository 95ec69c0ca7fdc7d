-- ===== src/Credit/Window.antt =====
-- The send side of one counter alone: the window that Reserve enforces.
use styx.Base.{
  ℕ, suc, ◌+◌, ◌-◌, ◌≤◌, ◌<◌, ◌≡◌, ◌↔◌, ◌⊎◌, inl, inr, arith, Bool-cases, true, false, u32_mod,
  u64_mod, add64,
}
use styx.Credit.{CreditCounter, new_credit_counter, available, reserve, release}

-- Sends are acknowledged in order and never exceed the grant, and no count has wrapped.
pub record IsWindow (c : CreditCounter) : Type 0 where
  pub grant_fits : c.granted < u32_mod
  pub acked_le : c.acked ≤ c.sent
  pub in_grant : c.sent ≤ c.acked + c.granted
  pub sent_fits : c.sent < u64_mod

pub new-IsWindow : (n : ℕ) → n < u32_mod → IsWindow (new_credit_counter n)
unfolding new_credit_counter
new-IsWindow n lt = record {
  grant_fits = lt;
  acked_le = omega arith;
  in_grant = omega arith;
  sent_fits = omega arith;
}

pub available_lem : (c : CreditCounter) → IsWindow c → available c + c.sent ≡ c.granted + c.acked
unfolding available
available_lem c w = omega (arith, w.grant_fits, w.acked_le, w.in_grant, w.sent_fits)

pub reserve_some :
    (c : CreditCounter) → IsWindow c → (reserve c).0 ≡ true → c.sent < c.acked + c.granted
unfolding reserve
reserve_some c w e = ground (arith, available_lem c w)

pub reserve_sent :
    (c : CreditCounter) → (reserve c).0 ≡ true → (reserve c).1 ≡ record c { sent = add64 c.sent 1 }
unfolding reserve
reserve_sent c e = ground arith

reserve_none :
    (c : CreditCounter)
    → IsWindow c
    → (reserve c).0 ≡ false
    → (c.sent ≡ c.acked + c.granted) × ((reserve c).1 ≡ c)
unfolding reserve
reserve_none c w e = (ground (arith, available_lem c w), ground arith)

-- A window with room.
reserve_room :
    (c : CreditCounter) → IsWindow c → c.sent < c.acked + c.granted → (reserve c).0 ≡ true
unfolding reserve
reserve_room c w lt = ground (arith, available_lem c w)

reserved-IsWindow :
    (c : CreditCounter)
    → IsWindow c
    → suc c.sent < u64_mod
    → (reserve c).0 ≡ true
    → IsWindow (reserve c).1 × (release (reserve c).1 ≡ c)
unfolding release
reserved-IsWindow c w lt e =
    let room : c.sent < c.acked + c.granted = reserve_some c w e in
    let next : add64 c.sent 1 ≡ suc c.sent = omega (arith, lt) in
    rw (reserve_sent c e, next)
      (
        record {
          grant_fits = w.grant_fits;
          acked_le = omega (arith, w.acked_le);
          in_grant = omega (arith, room);
          sent_fits = lt;
        },
        ground arith,
      )

-- Within a window, `reserve` admits a message exactly while fewer than the granted messages are
-- unacknowledged. A refused one changes nothing; an admitted one, short of the last 64-bit count,
-- keeps the window and is undone by `release`.
pub reserve_lem :
    (c : CreditCounter)
    → IsWindow c
    → suc c.sent < u64_mod
    → (((reserve c).0 ≡ true) ↔ (c.sent - c.acked < c.granted))
      × (((reserve c ≡ (false, c))
          ⊎ (((reserve c).0 ≡ true) × IsWindow (reserve c).1 × (release (reserve c).1 ≡ c))))
reserve_lem c w lt = (
  (
    λ e. omega (arith, reserve_some c w e, w.acked_le),
    λ room. reserve_room c w (omega (arith, room, w.acked_le)),
  ),
  elim (Bool-cases (reserve c).0) [
    | inl e ↦ let r = reserved-IsWindow c w lt e in inr (e, r.0, r.1)
    | inr e ↦ inl (λ i. (e i, (reserve_none c w e).1 i))
  ],
)
