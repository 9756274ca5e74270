-- ===== src/World/Kept.antt =====
-- What the checks before an operation leave behind: the permission cache and the schedule of
-- faults may have changed, and nothing else.
use security_system_gsb.Common.{◌≡◌, refl, ap, ◌∙◌, String, Option, List}
use security_system_gsb.World.{World}
use security_system_gsb.World.Statements.{with_faults}

abbrev pub with_memory_of : World → World → World
with_memory_of v w = record w { perm_cache = v.perm_cache; faults = v.faults }

abbrev pub Kept : World → World → Type 0
Kept w v = v ≡ with_memory_of v w

pub Kept-refl : (w : World) → Kept w w
Kept-refl w = refl

pub Kept-trans : (w v u : World) → Kept w v → Kept v u → Kept w u
Kept-trans w v u h k = k ∙ ap (with_memory_of u) h

pub with_faults-Kept : (w : World) (fs : List (Option String)) → Kept w (with_faults w fs)
with_faults-Kept w fs = refl
