-- ===== src/Calendar/Cycle.antt =====
-- The start of a renewal cycle.
use crm_nusrv.Base.{ℕ, ◌+◌, ◌-◌, ◌≤◌, ◌<◌, ◌≡◌, ◌≢◌, ◌⊎◌, refl, Option, arith}
use crm_nusrv.Store.Enums.{BillingFrequency}
use crm_nusrv.Calendar.{
  Date, days_in, interval, months_before, cycle_start_date, add_calendar_months,
}
use crm_nusrv.Calendar.Months.{IsDate, days_in_bounds, months_before_over, add-months_before_iff}

-- `a` is no later than `b`.
abbrev pub NotAfter : Date → Date → Type 0
NotAfter a b = (a.month < b.month) ⊎ ((a.month ≡ b.month) × (a.day ≤ b.day))

months_before-NotAfter :
    (d : Date) (n : ℕ) → IsDate d → n ≤ d.month → n ≢ 0 → NotAfter (months_before d n) d
unfolding months_before
months_before-NotAfter d n v h k =
    ground (arith, days_in_bounds (d.month - n), days_in_bounds d.month)

-- The start of a cycle lies between the start of the subscription and the due date.
pub cycle_start_date_bounds :
    (start due : Date) (frequency : BillingFrequency) (renewal_interval_months : Option ℕ)
    → IsDate due
    → NotAfter start due
    → interval frequency renewal_interval_months ≤ due.month
    → NotAfter start (cycle_start_date start due frequency renewal_interval_months)
      × NotAfter (cycle_start_date start due frequency renewal_interval_months) due
unfolding cycle_start_date
cycle_start_date_bounds start due frequency renewal_interval_months v order room =
    ground (arith, months_before-NotAfter due (interval frequency renewal_interval_months) v room)

cycle_start_date-over :
    (start due : Date) (frequency : BillingFrequency) (renewal_interval_months : Option ℕ)
    → let n = interval frequency renewal_interval_months in
      IsDate due
      → n ≢ 0
      → days_in (due.month - n) < due.day
      → start.month ≤ due.month - n
      → cycle_start_date start due frequency renewal_interval_months ≡ months_before due n
unfolding cycle_start_date
cycle_start_date-over start due frequency renewal_interval_months v some_months short early =
    ground (arith, months_before_over due (interval frequency renewal_interval_months) v short)

-- For an interval that is not zero and a subscription that began by the month an interval before
-- the due date: where that month lacks the day of the due date, the code's start lies in the
-- month after it, and adding the interval to it does not give the due date.
pub cycle_start_date_overflows :
    (start due : Date) (frequency : BillingFrequency) (renewal_interval_months : Option ℕ)
    → let n = interval frequency renewal_interval_months in
      IsDate due
      → n ≢ 0
      → n ≤ due.month
      → days_in (due.month - n) < due.day
      → start.month ≤ due.month - n
      → ((cycle_start_date start due frequency renewal_interval_months).month ≡ due.month - n + 1)
        × (add_calendar_months (cycle_start_date start due frequency renewal_interval_months) n
            ≢ due)
cycle_start_date_overflows start due frequency renewal_interval_months v some_months room short
      early =
    let n = interval frequency renewal_interval_months in
    let same =
      cycle_start_date-over start due frequency renewal_interval_months v some_months short early in
    (
      rw (same, months_before_over due n v short) refl,
      λ e. omega (arith, short, (add-months_before_iff due n v room).0 (rw same at e)),
    )
