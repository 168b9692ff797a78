-- ===== src/Trials/Time/Values.antt =====
-- The nanoseconds of a sum and of a difference of times.
use nettool.Base.{◌≡◌, if◌then◌else◌, ℤ, pos, ◌+ℤ◌, ◌-ℤ◌, ◌≤ℤ◌, leb_ℤ, int_laws}
use nettool.Trials.Time.{Timespec, IsNormal, nanoseconds, ts_add, ts_subtract}

normal_eq : (a b : Timespec) → IsNormal a → IsNormal b → nanoseconds a ≡ nanoseconds b → a ≡ b
normal_eq a b na nb e = grind int_laws

-- For normal times, ts_Add is normal and its nanoseconds are the sum of theirs.
ts_add-Sum :
    (a b : Timespec)
    → IsNormal a
    → IsNormal b
    → IsNormal (ts_add a b) × (nanoseconds (ts_add a b) ≡ nanoseconds a +ℤ nanoseconds b)
unfolding ts_add
ts_add-Sum a b na nb = (grind int_laws, grind int_laws)

-- The later time less the earlier one, or 0.
abbrev pub difference : ℤ → ℤ → ℤ
difference a b = if leb_ℤ a b then pos 0 else a -ℤ b

-- For normal times, ts_Subtract is normal and its nanoseconds are the difference of theirs, or 0
-- when the second time is after the first.
pub ts_subtract-Difference :
    (a b : Timespec)
    → IsNormal a
    → IsNormal b
    → IsNormal (ts_subtract a b)
      × (nanoseconds (ts_subtract a b) ≡ difference (nanoseconds a) (nanoseconds b))
unfolding ts_subtract
ts_subtract-Difference a b na nb = (grind int_laws, grind int_laws)

-- For normal times of which the first is not negative, ts_Subtract undoes ts_Add.
pub ts_subtract-ts_add :
    (a b : Timespec)
    → IsNormal a
    → IsNormal b
    → pos 0 ≤ℤ nanoseconds a
    → ts_subtract (ts_add a b) b ≡ a
ts_subtract-ts_add a b na nb h =
    let sum = ts_add-Sum a b na nb in
    let rest = ts_subtract-Difference (ts_add a b) b sum.0 nb in
    normal_eq _ _ rest.0 na (grind int_laws)
