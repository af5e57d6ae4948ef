-- ===== src/Calendar/Months.antt =====
-- Adding calendar months.
use crm_nusrv.Base.{ℕ, ◌+◌, ◌-◌, ◌/◌, ◌%◌, ap, ◌≤◌, ◌≡◌, ◌↔◌, Bool, arith, dec_le, ◌<◌}
use crm_nusrv.Calendar.{
  Date, is_leap, month_length, days_in, min, add_calendar_months, months_before,
}

pub record IsDate (d : Date) : Type 0 where
  pub first : 1 ≤ d.day
  pub last : d.day ≤ days_in d.month

month_length_bounds :
    (leap : Bool) (index : ℕ) → (28 ≤ month_length leap index) × (month_length leap index ≤ 31)
unfolding month_length
month_length_bounds leap index = ground arith

pub days_in_bounds : (month : ℕ) → (28 ≤ days_in month) × (days_in month ≤ 31)
unfolding days_in
days_in_bounds month = month_length_bounds (is_leap (month / 12)) (month % 12)

-- Adding months to a date lands in the month that is asked for, on the same day of the month or, if
-- that month is shorter, on its last day; never in the month after.
pub add_calendar_months_lem :
    (d : Date) (n : ℕ)
    → IsDate d
    → IsDate (add_calendar_months d n)
      × ((add_calendar_months d n).month ≡ d.month + n)
      × ((add_calendar_months d n).day ≡ min d.day (days_in (d.month + n)))
unfolding add_calendar_months
add_calendar_months_lem d n v = ground (arith, days_in_bounds (d.month + n))

add_calendar_months_small :
    (d : Date) (n : ℕ)
    → 1 ≤ d.day
    → d.day ≤ 28
    → add_calendar_months d n ≡ record d { month = d.month + n }
unfolding add_calendar_months
add_calendar_months_small d n v h = ground (arith, days_in_bounds (d.month + n))

-- A date up to the 28th does not drift: adding m and then n months is adding m + n.
pub add_calendar_months_add :
    (d : Date) (m n : ℕ)
    → 1 ≤ d.day
    → d.day ≤ 28
    → add_calendar_months (add_calendar_months d m) n ≡ add_calendar_months d (m + n)
add_calendar_months_add d m n v h =
    rw
      (
        add_calendar_months_small d m v h,
        add_calendar_months_small d (m + n) v h,
        add_calendar_months_small (record d { month = d.month + m }) n v h,
      )
      (ground arith)

-- Where the earlier month has the day of `d`, going back keeps it.
months_before_kept :
    (d : Date) (n : ℕ)
    → IsDate d
    → d.day ≤ days_in (d.month - n)
    → months_before d n ≡ record d { month = d.month - n }
unfolding months_before
months_before_kept d n v h = ground (arith)

-- Where it has not, going back runs over into the next month.
pub months_before_over :
    (d : Date) (n : ℕ)
    → IsDate d
    → days_in (d.month - n) < d.day
    → months_before d n ≡ record { month = d.month - n + 1; day = d.day - days_in (d.month - n) }
unfolding months_before
months_before_over d n v h = ground (arith)

-- Going back by months and forward again returns to the date exactly when the earlier month has
-- its day; otherwise the way back has run over into the next month.
pub add-months_before_iff :
    (d : Date) (n : ℕ)
    → IsDate d
    → n ≤ d.month
    → (add_calendar_months (months_before d n) n ≡ d) ↔ (d.day ≤ days_in (d.month - n))
add-months_before_iff d n v h = (to, from)
  where
    over :
        ¬ (d.day ≤ days_in (d.month - n))
        → (add_calendar_months (months_before d n) n).month ≡ d.month + 1
    over more =
        let e = months_before_over d n v (omega arith) in
        let small = days_in_bounds (d.month - n) in
        let big = days_in_bounds d.month in
        rw
          (
            e,
            add_calendar_months_small
                (record { month = d.month - n + 1; day = d.day - days_in (d.month - n) }) n
                (omega arith) (omega arith),
          )
          (omega arith)

    to : add_calendar_months (months_before d n) n ≡ d → d.day ≤ days_in (d.month - n)
    to e = elim (dec_le d.day (days_in (d.month - n))) [
      | yes le ↦ le
      | no more ↦ absurd (omega (arith, over more, ap (λ (x : Date). x.month) e))
    ]

    from : d.day ≤ days_in (d.month - n) → add_calendar_months (months_before d n) n ≡ d
    from le =
        let e = months_before_kept d n v le in
        let same : d.month - n + n ≡ d.month = omega arith in
        rw e (ground (arith, add_calendar_months_lem (record d { month = d.month - n }) n))
