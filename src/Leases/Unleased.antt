-- ===== src/Leases/Unleased.antt =====
-- The heartbeat's inflight count against the history of the session.
use native.Mathlib.Decide.{ℕ_discrete}
use styx.Base.{
  ℕ, zero, suc, ◌+◌, ◌≤◌, ◌<◌, ◌≡◌, refl, ap, sym, ◌∙◌, arith, Bool, true, false, not, ◌&&◌,
  Bool-cases, inl, inr, List, [], ◌∷◌, map, ◌==◌, if◌then◌else◌,
}
use styx.Leases.{
  Lease, LeaseTable, new_lease_table, has_lease, delete_lease, is_owed, delete_owed, acquire,
  open_obligation, renew_all, release_lease, close_obligation, set_obligation_closed_hook,
  count_unleased, snapshot_with_obligations,
}

pub data Op : Type 0 where
  acquires : ℕ → ℕ → Op
  opens : ℕ → Op
  renews : ℕ → Op
  releases : ℕ → Op
  closes : ℕ → Op
  hooks : Bool → Op

abbrev pub apply : Op → LeaseTable → LeaseTable
apply (acquires id now) t = acquire id now t
apply (opens id) t = open_obligation id t
apply (renews now) t = renew_all now t
apply (releases id) t = release_lease id t
apply (closes id) t = (close_obligation id t).1
apply (hooks h) t = set_obligation_closed_hook h t

-- A session's calls, the latest first.
abbrev pub session : List Op → LeaseTable
session [] = new_lease_table
session (o ∷ os) = apply o (session os)

-- The handler of `id` runs: the last of its acquire and release calls is an acquire.
abbrev pub running : ℕ → List Op → Bool
running id [] = false
running id (acquires k now ∷ os) = if id == k then true else running id os
running id (releases k ∷ os) = if id == k then false else running id os
running id (opens k ∷ os) = running id os
running id (renews now ∷ os) = running id os
running id (closes k ∷ os) = running id os
running id (hooks h ∷ os) = running id os

-- The answer to `id` is owed: the last of its open and close calls is an open.
abbrev pub owed : ℕ → List Op → Bool
owed id [] = false
owed id (opens k ∷ os) = if id == k then true else owed id os
owed id (closes k ∷ os) = if id == k then false else owed id os
owed id (acquires k now ∷ os) = owed id os
owed id (renews now ∷ os) = owed id os
owed id (releases k ∷ os) = owed id os
owed id (hooks h ∷ os) = owed id os

-- How many numbers below `n` satisfy a test.
abbrev pub count_below : ℕ → (ℕ → Bool) → ℕ
count_below zero p = 0
count_below (suc n) p = (if p n then 1 else 0) + count_below n p

-- Only calls below `n` are owed.
abbrev pub OpensBelow : ℕ → List Op → Type 0
OpensBelow n [] = Unit
OpensBelow n (opens k ∷ os) = (k < n) × OpensBelow n os
OpensBelow n (acquires k now ∷ os) = OpensBelow n os
OpensBelow n (renews now ∷ os) = OpensBelow n os
OpensBelow n (releases k ∷ os) = OpensBelow n os
OpensBelow n (closes k ∷ os) = OpensBelow n os
OpensBelow n (hooks h ∷ os) = OpensBelow n os

has_lease-delete :
    (k id : ℕ) (ls : List Lease)
    → has_lease k (delete_lease id ls) ≡ (has_lease k ls && not (k == id))
unfolding has_lease delete_lease
has_lease-delete k id [] = refl
has_lease-delete k id (l ∷ ls) = grind (arith, has_lease-delete k id ls)

has_lease-renew :
    (k now : ℕ) (ls : List Lease)
    → has_lease k (map (λ (l : Lease). record l { last_renewed_at = now }) ls) ≡ has_lease k ls
unfolding has_lease
has_lease-renew k now [] = refl
has_lease-renew k now (l ∷ ls) = ground (arith, has_lease-renew k now ls)

is_owed-delete :
    (k id : ℕ) (ks : List ℕ) → is_owed k (delete_owed id ks) ≡ (is_owed k ks && not (k == id))
unfolding is_owed delete_owed
is_owed-delete k id [] = refl
is_owed-delete k id (x ∷ ks) = grind (arith, is_owed-delete k id ks)

lease_kept : (id : ℕ) (os : List Op) → has_lease id (session os).active ≡ running id os
unfolding new_lease_table acquire open_obligation renew_all release_lease close_obligation
    set_obligation_closed_hook has_lease
lease_kept id [] = refl
lease_kept id (acquires k now ∷ os) =
    ground (arith, lease_kept id os, has_lease-delete id k (session os).active)
lease_kept id (opens k ∷ os) = ground (arith, lease_kept id os)
lease_kept id (renews now ∷ os) = has_lease-renew id now (session os).active ∙ lease_kept id os
lease_kept id (releases k ∷ os) =
    ground (arith, lease_kept id os, has_lease-delete id k (session os).active)
lease_kept id (closes k ∷ os) = lease_kept id os
lease_kept id (hooks h ∷ os) = lease_kept id os

is_owed-open :
    (id k : ℕ) (t : LeaseTable)
    → is_owed id (open_obligation k t).obligations
      ≡ (if id == k then true else is_owed id t.obligations)
unfolding open_obligation is_owed
is_owed-open id k t = elim (Bool-cases (is_owed k t.obligations)) [
  | inr e ↦ rw e
  | inl e ↦ elim (ℕ_discrete id k) [
    | yes same ↦ rw (e, same) (e ∙ ground arith)
    | no ne ↦ ground (arith, e, ne)
  ]
]

owed_kept : (id : ℕ) (os : List Op) → is_owed id (session os).obligations ≡ owed id os
unfolding new_lease_table acquire open_obligation renew_all release_lease close_obligation
    set_obligation_closed_hook is_owed
owed_kept id [] = refl
owed_kept id (acquires k now ∷ os) = owed_kept id os
owed_kept id (opens k ∷ os) = is_owed-open id k (session os) ∙ rw (owed_kept id os)
owed_kept id (renews now ∷ os) = owed_kept id os
owed_kept id (releases k ∷ os) = owed_kept id os
owed_kept id (closes k ∷ os) =
    ground (arith, owed_kept id os, is_owed-delete id k (session os).obligations)
owed_kept id (hooks h ∷ os) = owed_kept id os

-- No call is owed twice, and only calls below `n` are.
abbrev Distinct : ℕ → List ℕ → Type 0
Distinct n [] = Unit
Distinct n (k ∷ ks) = (k < n) × (is_owed k ks ≡ false) × Distinct n ks

Distinct-delete : (n id : ℕ) (ks : List ℕ) → Distinct n ks → Distinct n (delete_owed id ks)
unfolding delete_owed
Distinct-delete n id [] d = tt
Distinct-delete n id (k ∷ ks) d = elim (Bool-cases (id == k)) [
  | inl e ↦ rw e (Distinct-delete n id ks d.2)
  | inr e ↦ rw e (d.0, is_owed-delete k id ks ∙ rw d.1, Distinct-delete n id ks d.2)
]

Distinct-open :
    (n k : ℕ) (t : LeaseTable)
    → k < n
    → Distinct n t.obligations
    → Distinct n (open_obligation k t).obligations
unfolding open_obligation
Distinct-open n k t lt d = elim (Bool-cases (is_owed k t.obligations)) [
  | inl e ↦ rw e d
  | inr e ↦ rw e (lt, e, d)
]

session-Distinct : (n : ℕ) (os : List Op) → OpensBelow n os → Distinct n (session os).obligations
unfolding new_lease_table acquire renew_all release_lease close_obligation
    set_obligation_closed_hook
session-Distinct n [] b = tt
session-Distinct n (acquires k now ∷ os) b = session-Distinct n os b
session-Distinct n (opens k ∷ os) b = Distinct-open n k (session os) b.0 (session-Distinct n os b.1)
session-Distinct n (renews now ∷ os) b = session-Distinct n os b
session-Distinct n (releases k ∷ os) b = session-Distinct n os b
session-Distinct n (closes k ∷ os) b =
    Distinct-delete n k (session os).obligations (session-Distinct n os b)
session-Distinct n (hooks h ∷ os) b = session-Distinct n os b

module _ (k : ℕ) (ks : List ℕ) (q : ℕ → Bool) where
  count_other :
      (m : ℕ)
      → m ≤ k
      → count_below m (λ j. is_owed j (k ∷ ks) && q j) ≡ count_below m (λ j. is_owed j ks && q j)
  unfolding is_owed
  count_other zero le = refl
  count_other (suc m) le = ground (arith, count_other m (omega arith))

  count_insert :
      (n : ℕ)
      → k < n
      → is_owed k ks ≡ false
      → count_below n (λ j. is_owed j (k ∷ ks) && q j)
        ≡ (if q k then 1 else 0) + count_below n (λ j. is_owed j ks && q j)
  unfolding is_owed
  count_insert zero lt absent = absurd (omega arith)
  count_insert (suc m) lt absent = elim (ℕ_discrete m k) [
    | yes e ↦
        let absent_m : is_owed m ks ≡ false = ap (λ x. is_owed x ks) e ∙ absent in
        let same : q m ≡ q k = ap q e in
        let others = count_other m (omega (arith, e)) in ground (arith, others, same, absent_m, e)
    | no ne ↦ ground (arith, ne, count_insert m (omega arith) absent)
  ]

count_none : (n : ℕ) (q : ℕ → Bool) → count_below n (λ j. is_owed j [] && q j) ≡ 0
unfolding is_owed
count_none zero q = refl
count_none (suc n) q = omega (arith, count_none n q)

count_owed :
    (n : ℕ) (ks : List ℕ) (active : List Lease)
    → Distinct n ks
    → count_unleased ks active ≡ count_below n (λ j. is_owed j ks && not (has_lease j active))
unfolding count_unleased
count_owed n [] active d = sym (count_none n (λ j. not (has_lease j active)))
count_owed n (k ∷ ks) active d =
    let more = count_insert k ks (λ j. not (has_lease j active)) n d.0 d.1 in
    ground (arith, more, count_owed n ks active d.2)

-- After any sequence of the table's calls that opens obligations only for IDs below n, the inflight
-- count of the heartbeat is the number of IDs below n whose answer is owed and whose handler does
-- not run, an ID counting once however often its obligation was opened.
pub unleased_lem :
    (n : ℕ) (os : List Op)
    → OpensBelow n os
    → (snapshot_with_obligations (session os)).1
      ≡ count_below n (λ id. owed id os && not (running id os))
unfolding snapshot_with_obligations
unleased_lem n os b =
    count_owed n (session os).obligations (session os).active (session-Distinct n os b) ∙ λ i.
    count_below n (λ id. owed_kept id os i && not (lease_kept id os i))
