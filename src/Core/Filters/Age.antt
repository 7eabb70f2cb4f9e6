-- ===== src/Core/Filters/Age.antt =====
-- How the age limit of the hard filters reads the clock.
use job_scout_ai.Prelude.{ℕ, ◌+◌, ◌*◌, ◌≤◌, ◌<◌, ◌≡◌, ◌↔◌, true, arith}
use job_scout_ai.Core.Types.{Time}
use job_scout_ai.Core.Filters.{day, is_before_cutoff}

-- For up to 106751 days, the greatest number whose nanoseconds an int64 holds, a vacancy is before the
-- cutoff exactly where it was published more than that many days ago.
pub is_before_cutoff-exact :
    (published now : Time) (days : ℕ)
    → days ≤ 106751
    → (is_before_cutoff published now days ≡ true) ↔ (published + days * day < now)
unfolding is_before_cutoff
is_before_cutoff-exact published now days le = (λ e. ground arith, λ h. ground arith)

-- For 106752 up to 213503 days the product wraps around, and every vacancy published before now, however
-- recently, is before the cutoff.
pub is_before_cutoff-wrapped :
    (published now : Time) (days : ℕ)
    → 106752 ≤ days
    → days ≤ 213503
    → published < now
    → is_before_cutoff published now days ≡ true
unfolding is_before_cutoff
is_before_cutoff-wrapped published now days le ge before = ground arith
