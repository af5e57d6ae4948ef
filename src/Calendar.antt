-- ===== src/Calendar.antt =====
-- Calendar-month arithmetic on date-only values: `addCalendarMonths` of packages/shared/src/index.ts
-- and `cycleStartDate` of apps/api/src/modules/renewal-cases/renewal-policy.ts. A date is its month,
-- counted from year 0, and its day of the month.
pub mod Months
pub mod Cycle
pub mod Examples
use crm_nusrv.Base.{
  ℕ, zero, suc, ◌+◌, ◌-◌, ◌*◌, ◌/◌, ◌%◌, ◌≤◌, Bool, true, false, not, ◌&&◌, ◌||◌, Option, none,
  some, leb, ltb, ◌==◌, if◌then◌else◌,
}
use crm_nusrv.Store.Enums.{BillingFrequency}
use BillingFrequency.{monthly, quarterly, semi_annual, annual, biennial, custom}

pub record Date : Type 0 where
  pub month : ℕ  -- 12 * year + month index
  pub day : ℕ

-- The Gregorian calendar, which JavaScript's `Date` keeps.
unfoldable pub is_leap : ℕ → Bool
is_leap year = (year % 4 == 0 && not (year % 100 == 0)) || year % 400 == 0

unfoldable pub month_length : Bool → ℕ → ℕ
month_length leap index =
    if index == 1
    then (if leap then 29 else 28)
    else if index == 3 || index == 5 || index == 8 || index == 10
    then 30
    else 31

unfoldable pub days_in : ℕ → ℕ
unfolding month_length is_leap
days_in month = month_length (is_leap (month / 12)) (month % 12)

-- `Date.UTC(year, month, day)` for a year from 100 on (it reads 0 to 99 as 1900 to 1999) and a day
-- from 0 to 31: day 0 is the last of the month before, and a
-- day past the end runs over into the next month.
unfoldable pub utc : ℕ → ℕ → Date
utc month day =
    if day == 0
    then record { month = month - 1; day = days_in (month - 1) }
    else if leb day (days_in month)
    then record { month = month; day = day }
    else record { month = month + 1; day = day - days_in month }

abbrev pub min : ℕ → ℕ → ℕ
min a b = if leb a b then a else b

unfoldable pub add_calendar_months : Date → ℕ → Date
unfolding utc
add_calendar_months date months =
    let target = date.month + months in
    let days_in_target = (utc (target + 1) 0).day in utc target (min date.day days_in_target)

-- `a > b` on instants
abbrev pub later : Date → Date → Bool
later a b = ltb b.month a.month || (a.month == b.month && ltb b.day a.day)

abbrev pub months_of : BillingFrequency → ℕ
months_of monthly = 1
months_of quarterly = 3
months_of semi_annual = 6
months_of annual = 12
months_of biennial = 24
months_of custom = 0

-- `renewalIntervalMonths ?? {…}[billingFrequency]`
abbrev pub interval : BillingFrequency → Option ℕ → ℕ
interval frequency none = months_of frequency
interval frequency (some months) = months

-- `setUTCMonth(getUTCMonth() - months)`, which keeps the number of the day
unfoldable pub months_before : Date → ℕ → Date
unfolding utc
months_before date months = utc (date.month - months) date.day

unfoldable pub cycle_start_date : Date → Date → BillingFrequency → Option ℕ → Date
unfolding months_before
cycle_start_date start due frequency renewal_interval_months =
    let months = interval frequency renewal_interval_months in
    let calculated = months_before due months in
    if months == 0 then start else if later calculated start then calculated else start
