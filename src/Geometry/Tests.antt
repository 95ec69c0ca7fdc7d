-- ===== src/Geometry/Tests.antt =====
-- Geometries at concrete inputs.
use styx.Base.{◌≡◌, ◌↔◌, true, List, [], ◌∷◌}
use styx.Geometry.{SizeClass, validate_slab_bounds}
use styx.Geometry.Tables.{IsTable, validate_slab_bounds_iff}

abbrev two_classes : List SizeClass
two_classes =
    record { slab_size = 64; slab_count = 3; class_base_offset = 0 }
    ∷ record { slab_size = 4096; slab_count = 2; class_base_offset = 192 }
    ∷ []

validate_slab_bounds_iff_example : (validate_slab_bounds two_classes ≡ true) ↔ IsTable two_classes
validate_slab_bounds_iff_example = validate_slab_bounds_iff two_classes
