-- ===== src/Billing/Dates/Tests.antt =====
-- Concrete dates of services/billing/src/domain/dates.ts.
use faktureringssystemet.Prelude.{◌+◌, ◌*◌, ◌≡◌, refl, min, arith}
use faktureringssystemet.Billing.Dates.{
  Date, RecurrenceInterval, advance_by_interval, days_in_month, is_leap, next_day, add_days,
}
use faktureringssystemet.Billing.Dates.Laws.{IsCalendar, advance_by_interval_months}

abbrev jan_31 : Date
jan_31 = record { year = 2027; month = 1; day = 31 }

-- 31 January, then 28 February, then 31 March.
clamped :
    advance_by_interval jan_31 RecurrenceInterval.monthly 31
    ≡ record { year = 2027; month = 2; day = 28 }
unfolding advance_by_interval days_in_month is_leap
clamped = refl

thirty_days : add_days jan_31 30 ≡ record { year = 2027; month = 3; day = 2 }
unfolding add_days next_day days_in_month is_leap
thirty_days = refl

jan_31-IsCalendar : IsCalendar jan_31
unfolding days_in_month
jan_31-IsCalendar = record {
  month_low = omega arith;
  month_high = omega arith;
  day_low = omega arith;
  day_high = omega arith;
}

advance_by_interval_months_example :
    let t = advance_by_interval jan_31 RecurrenceInterval.quarterly 31 in
    (t.year * 12 + t.month ≡ 2027 * 12 + 1 + 3)
    × (t.day ≡ min 31 (days_in_month t.year t.month))
    × IsCalendar t
advance_by_interval_months_example =
    advance_by_interval_months jan_31 RecurrenceInterval.quarterly 31 jan_31-IsCalendar
      (omega arith)
