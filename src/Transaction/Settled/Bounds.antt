-- ===== src/Transaction/Settled/Bounds.antt =====
-- The day of a settlement in a zone whose clocks never change.
use payments_engine.Base.{ℕ, ◌+◌, ◌*◌, ◌≤◌, ◌<◌, ◌≡◌, some, arith}
use payments_engine.Base.Int.{ℤ, pos, negsuc, pos_part, neg_part}
use payments_engine.Transaction.Settled.{Location, settlement_day_bounds, day_length}

abbrev pub fixed : ℤ → Location
fixed z = record { offset = λ t. z }

-- In a zone whose offset never changes, an instant lies in the day that SettlementDayBounds gives for
-- it, the day is twenty-four hours (86400000000 microseconds) long, and every instant of that day has the same day, so that the
-- days do not overlap and leave nothing out; for instants more than two days after the origin of time
-- and an offset of less than a day.
pub settlement_day_bounds-fixed :
    (z : ℤ) (day t : ℕ)
    → pos_part z + neg_part z < day_length
    → 2 * day_length ≤ day
    → (settlement_day_bounds day (some (fixed z))).0 ≤ t
    → t < (settlement_day_bounds day (some (fixed z))).1
    → ((settlement_day_bounds day (some (fixed z))).0 ≤ day)
      × (day < (settlement_day_bounds day (some (fixed z))).1)
      × ((settlement_day_bounds day (some (fixed z))).1
          ≡ (settlement_day_bounds day (some (fixed z))).0 + 86400000000)
      × (settlement_day_bounds t (some (fixed z)) ≡ settlement_day_bounds day (some (fixed z)))
unfolding settlement_day_bounds
settlement_day_bounds-fixed (pos n) day t small late from until = ground arith
settlement_day_bounds-fixed (negsuc n) day t small late from until = ground arith
