-- ===== src/Leases.antt =====
-- internal/rpcruntime/lease.go: the active-handler leases and the response obligations of one
-- serving session. Each method holds the lock throughout. A map is a list with one entry for a key;
-- a time is a number. `hooked` tells whether a hook is set, and a close also answers whether the
-- hook is called, which the code does once the lock is released.
pub mod Unleased
mod Tests
use styx.Base.{
  ℕ, zero, suc, ◌+◌, Bool, true, false, not, List, [], ◌∷◌, map, length, ◌==◌, if◌then◌else◌,
}

pub record Lease : Type 0 where
  pub call_id : ℕ
  pub started_at : ℕ
  pub last_renewed_at : ℕ

pub record LeaseTable : Type 0 where
  pub active : List Lease
  pub obligations : List ℕ
  pub hooked : Bool

unfoldable pub new_lease_table : LeaseTable
new_lease_table = record { active = []; obligations = []; hooked = false }

unfoldable pub has_lease : ℕ → List Lease → Bool
has_lease id [] = false
has_lease id (l ∷ ls) = if id == l.call_id then true else has_lease id ls

unfoldable pub delete_lease : ℕ → List Lease → List Lease
delete_lease id [] = []
delete_lease id (l ∷ ls) =
    let rest = delete_lease id ls in if id == l.call_id then rest else l ∷ rest

unfoldable pub is_owed : ℕ → List ℕ → Bool
is_owed id [] = false
is_owed id (k ∷ ks) = if id == k then true else is_owed id ks

unfoldable pub delete_owed : ℕ → List ℕ → List ℕ
delete_owed id [] = []
delete_owed id (k ∷ ks) = let rest = delete_owed id ks in if id == k then rest else k ∷ rest

unfoldable pub acquire : ℕ → ℕ → LeaseTable → LeaseTable
unfolding delete_lease
acquire id now t = record t {
  active =
      record { call_id = id; started_at = now; last_renewed_at = now } ∷ delete_lease id t.active;
}

unfoldable pub open_obligation : ℕ → LeaseTable → LeaseTable
unfolding is_owed
open_obligation id t =
    if is_owed id t.obligations then t else record t { obligations = id ∷ t.obligations }

unfoldable pub renew_all : ℕ → LeaseTable → LeaseTable
renew_all now t = record t {
  active = map (λ (l : Lease). record l { last_renewed_at = now }) t.active;
}

unfoldable pub release_lease : ℕ → LeaseTable → LeaseTable
unfolding delete_lease
release_lease id t = record t { active = delete_lease id t.active }

unfoldable pub close_obligation : ℕ → LeaseTable → Bool × LeaseTable
unfolding delete_owed
close_obligation id t = (t.hooked, record t { obligations = delete_owed id t.obligations })

unfoldable pub set_obligation_closed_hook : Bool → LeaseTable → LeaseTable
set_obligation_closed_hook hooked t = record t { hooked = hooked }

unfoldable pub open_obligation_count : LeaseTable → ℕ
open_obligation_count t = length t.obligations

unfoldable pub snapshot : LeaseTable → List Lease
snapshot t = t.active

unfoldable pub count_unleased : List ℕ → List Lease → ℕ
unfolding has_lease
count_unleased [] active = 0
count_unleased (id ∷ ids) active =
    let rest = count_unleased ids active in if not (has_lease id active) then suc rest else rest

unfoldable pub snapshot_with_obligations : LeaseTable → List Lease × ℕ
unfolding count_unleased
snapshot_with_obligations t = (t.active, count_unleased t.obligations t.active)
