-- ===== src/Calendar/Examples.antt =====
-- The theorems on dates, applied to dates of 2026.
use crm_nusrv.Base.{◌≡◌, ◌≢◌, ◌<◌, ◌+◌, ◌-◌, arith, none, ℕ}
use crm_nusrv.Store.Enums.{BillingFrequency}
use crm_nusrv.Calendar.{Date, days_in, add_calendar_months, cycle_start_date}
use crm_nusrv.Calendar.Months.{IsDate}
use crm_nusrv.Calendar.Cycle.{cycle_start_date_overflows}

-- 2026 * 12 and 2026 * 12 + 4
abbrev january : ℕ
january = 24312

abbrev may : ℕ
may = 24316

abbrev end_of_may : Date
end_of_may = record { month = may; day = 31 }

abbrev mid_january : Date
mid_january = record { month = january; day = 15 }

end_of_may-IsDate : IsDate end_of_may
unfolding days_in
end_of_may-IsDate = record { first = omega arith; last = ground arith }

april_is_short : days_in (may - 1) < 31
unfolding days_in
april_is_short = ground arith

-- A month before 31 May 2026 is 1 May, by the code.
cycle_start_date_overflows_example :
    ((cycle_start_date mid_january end_of_may BillingFrequency.monthly none).month ≡ may - 1 + 1)
    × (add_calendar_months (cycle_start_date mid_january end_of_may BillingFrequency.monthly none) 1
        ≢ end_of_may)
cycle_start_date_overflows_example =
    cycle_start_date_overflows mid_january end_of_may BillingFrequency.monthly none
      end_of_may-IsDate (omega arith) (omega arith) april_is_short (omega arith)
