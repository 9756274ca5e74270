-- ===== src/Tests/Limits.antt =====
-- The rate limiter with a limit of 2 in 60 seconds.
use security_system_gsb.Common.{◌≡◌, ◌≤◌, refl, [], ◌∷◌, arith, All, string_eq, inl, none}
use security_system_gsb.Pkg.Ratelimit.{lookup}
use security_system_gsb.Pkg.Ratelimit.Windows.{let_through, window_bound}
use security_system_gsb.Tests.Data.{limiter}

some_limit : 1 ≤ 2
some_limit = omega arith

in_window : All (λ u. u ≤ 160) (110 ∷ 120 ∷ 130 ∷ [])
in_window = (omega arith, (omega arith, (omega arith, tt)))

empty : lookup "ip" limiter.records ≡ none
unfolding lookup
empty = refl

window_bound_example : let_through "ip" (100 ∷ 110 ∷ 120 ∷ 130 ∷ []) limiter ≤ 2
window_bound_example =
    window_bound "ip" 100 (110 ∷ 120 ∷ 130 ∷ []) limiter some_limit (inl empty) in_window
