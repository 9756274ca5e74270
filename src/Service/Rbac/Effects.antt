-- ===== src/Service/Rbac/Effects.antt =====
-- `Effects`: the functions without an error value return, and change the permission cache at most.
use security_system_gsb.Common.{ℕ, ◌≡◌, refl, inl, inr, String, contains, Option-cases, string_eq}
use security_system_gsb.Error.{Result, ok}
use security_system_gsb.World.{World}
use security_system_gsb.World.Statements.{with_faults}
use security_system_gsb.World.Kept.{Kept, with_faults-Kept}
use security_system_gsb.Service.Rbac.{get, set, has_permission, role_rank}
use security_system_gsb.Service.Rbac.Termination.{resolve_inherited_perms-Reads, role_rank_bounded}

-- The answer and the world after the check.
abbrev pub Checked {ℓ} : {A : Type ℓ} → Result A × World → World → Type ℓ
Checked {A} m w = (a : A) × (v : World) × (m ≡ (ok a, v)) × Kept w v

pub has_permission-Checked :
    (role user : ℕ) (perm : String) (w : World) → Checked (has_permission role user perm w) w
unfolding has_permission
has_permission-Checked role user perm w = elim (Option-cases (get user w.perm_cache)) [
  | inr (ps, hit) ↦ (contains perm ps, w, rw (hit), refl)
  | inl miss ↦
      let (ps, fs, run) = resolve_inherited_perms-Reads role w in
      (
        contains perm ps,
        record w { perm_cache = set user ps w.perm_cache; faults = fs },
        rw (miss, run),
        refl,
      )
]

pub role_rank-Checked : (role : ℕ) (w : World) → Checked (role_rank role w) w
role_rank-Checked role w =
    let (n, fs, run, bound) = role_rank_bounded role w in
    (n, with_faults w fs, run, with_faults-Kept w fs)
