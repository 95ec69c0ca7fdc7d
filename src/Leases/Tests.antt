-- ===== src/Leases/Tests.antt =====
-- A session of two calls.
use styx.Base.{◌≡◌, refl, arith, not, ◌&&◌, List, [], ◌∷◌}
use styx.Leases.{
  new_lease_table, acquire, open_obligation, release_lease, close_obligation, renew_all,
  snapshot_with_obligations,
}
use styx.Leases.Unleased.{
  Op, acquires, opens, renews, releases, closes, session, running, owed, count_below, unleased_lem,
}

-- Call 3 was answered; call 1 was opened twice and its handler has returned; call 2 still runs.
abbrev calls : List Op
calls =
    releases 1
    ∷ renews 9
    ∷ closes 3
    ∷ opens 3
    ∷ acquires 2 5
    ∷ opens 2
    ∷ acquires 1 4
    ∷ opens 1
    ∷ opens 1
    ∷ []

inflight_calls : (snapshot_with_obligations (session calls)).1 ≡ 1
unfolding snapshot_with_obligations new_lease_table acquire open_obligation release_lease
    close_obligation renew_all
inflight_calls = refl

unleased_lem_example :
    (snapshot_with_obligations (session calls)).1
    ≡ count_below 4 (λ id. owed id calls && not (running id calls))
unleased_lem_example =
    unleased_lem 4 calls (omega arith, (omega arith, (omega arith, (omega arith, tt))))
