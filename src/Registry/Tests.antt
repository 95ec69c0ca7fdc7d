-- ===== src/Registry/Tests.antt =====
-- A history with one clash.
use styx.Base.{ℕ, ◌≡◌, refl, none, some, List, [], ◌∷◌}
use styx.Registry.{Name, same_name, new_identity_registry, register_all, lookup}
use styx.Registry.Agreed.{mentions, agreed, registry_lem}

abbrev history : List (ℕ × Name)
history = (5, 65 ∷ []) ∷ (6, 66 ∷ []) ∷ (5, 65 ∷ []) ∷ (6, 67 ∷ []) ∷ (6, 66 ∷ []) ∷ []

agreed-history :
    (agreed (mentions 5 history) ≡ some (65 ∷ [])) × (agreed (mentions 6 history) ≡ none)
unfolding same_name
agreed-history = (refl, refl)

registry_lem_example :
    lookup 6 (register_all history new_identity_registry) ≡ agreed (mentions 6 history)
registry_lem_example = registry_lem history 6
