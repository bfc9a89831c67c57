-- ===== src/Billing/Dates.antt =====
-- services/billing/src/domain/dates.ts: calendar dates. A text 'YYYY-MM-DD' is the record of its three
-- numbers; the order of such texts of four-digit years is that of the numbers from left to right.
pub mod Laws
mod Tests
use faktureringssystemet.Prelude.{
  ℕ, zero, suc, ◌+◌, ◌-◌, ◌*◌, ◌/◌, ◌%◌, min, Bool, true, false, ◌||◌, ◌&&◌, not, ltb, ◌==◌,
  if◌then◌else◌,
}

pub record Date : Type 0 where
  pub year : ℕ
  pub month : ℕ
  pub day : ℕ

-- `a < b` on the texts.
abbrev pub date_ltb : Date → Date → Bool
date_ltb a b =
    if ltb a.year b.year
    then true
    else if ltb b.year a.year
    then false
    else if ltb a.month b.month
    then true
    else if ltb b.month a.month
    then false
    else ltb a.day b.day

unfoldable pub is_leap : ℕ → Bool
is_leap y = (y % 4 == 0 && not (y % 100 == 0)) || y % 400 == 0

-- `new Date(Date.UTC(year, month, 0)).getUTCDate()`: the last day of month 1 to 12.
unfoldable pub days_in_month : ℕ → ℕ → ℕ
days_in_month y m =
    if m == 2
    then (if is_leap y then 29 else 28)
    else if m == 4 || m == 6 || m == 9 || m == 11
    then 30
    else 31

unfoldable pub next_day : Date → Date
next_day d =
    if ltb d.day (days_in_month d.year d.month)
    then record d { day = d.day + 1 }
    else if ltb d.month 12
    then record { year = d.year; month = d.month + 1; day = 1 }
    else record { year = d.year + 1; month = 1; day = 1 }

-- UTC midnight plus n days of 24 hours.
unfoldable pub add_days : Date → ℕ → Date
add_days d zero = d
add_days d (suc n) = add_days (next_day d) n

unfoldable pub day_of_month : Date → ℕ
day_of_month d = d.day

pub data RecurrenceInterval : Type 0 where
  monthly quarterly yearly : RecurrenceInterval

abbrev pub months_per_interval : RecurrenceInterval → ℕ
months_per_interval RecurrenceInterval.monthly = 1
months_per_interval RecurrenceInterval.quarterly = 3
months_per_interval RecurrenceInterval.yearly = 12

unfoldable pub advance_by_interval : Date → RecurrenceInterval → ℕ → Date
advance_by_interval d interval billing_day =
    let total_months = d.month - 1 + months_per_interval interval in
    let target_year = d.year + total_months / 12 in
    let target_month = total_months % 12 + 1 in
    record {
      year = target_year;
      month = target_month;
      day = min billing_day (days_in_month target_year target_month);
    }
