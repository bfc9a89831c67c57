-- ===== src/Billing/Dates/Laws.antt =====
-- Recurrence and payment terms in services/billing/src/domain/dates.ts.
use faktureringssystemet.Prelude.{ℕ, zero, suc, ◌+◌, ◌*◌, ◌<◌, ◌≤◌, min, ◌≡◌, arith, true, false}
use faktureringssystemet.Billing.Dates.{
  Date, date_ltb, days_in_month, next_day, add_days, RecurrenceInterval, months_per_interval,
  advance_by_interval,
}

pub record IsCalendar (d : Date) : Type 0 where
  pub month_low : 1 ≤ d.month
  pub month_high : d.month ≤ 12
  pub day_low : 1 ≤ d.day
  pub day_high : d.day ≤ days_in_month d.year d.month

days_in_month_bounds : (y m : ℕ) → (28 ≤ days_in_month y m) × (days_in_month y m ≤ 31)
unfolding days_in_month
days_in_month_bounds y m = ground arith

pub next_day-IsCalendar : (d : Date) → IsCalendar d → IsCalendar (next_day d)
unfolding next_day
next_day-IsCalendar d h =
    ground (arith, days_in_month_bounds d.year (d.month + 1), days_in_month_bounds (d.year + 1) 1)

pub add_days-IsCalendar : (d : Date) (n : ℕ) → IsCalendar d → IsCalendar (add_days d n)
unfolding add_days
add_days-IsCalendar d zero h = h
add_days-IsCalendar d (suc n) h = add_days-IsCalendar (next_day d) n (next_day-IsCalendar d h)

advance_one :
    (d : Date) (i : RecurrenceInterval) (b : ℕ)
    → IsCalendar d
    → let t = advance_by_interval d i b in
      (t.year * 12 + t.month ≡ d.year * 12 + d.month + months_per_interval i)
      × (t.day ≡ min b (days_in_month t.year t.month))
      × (1 ≤ t.month)
      × (t.month ≤ 12)
unfolding advance_by_interval
advance_one d i b h = ground arith

-- Advancing a calendar date by a period moves it by exactly the period's months, to the template's
-- anchor day or, in a shorter month, to that month's last day; the result is a calendar date, and the
-- day that the date had before plays no part.
pub advance_by_interval_months :
    (d : Date) (i : RecurrenceInterval) (b : ℕ)
    → IsCalendar d
    → 1 ≤ b
    → let t = advance_by_interval d i b in
      (t.year * 12 + t.month ≡ d.year * 12 + d.month + months_per_interval i)
      × (t.day ≡ min b (days_in_month t.year t.month))
      × IsCalendar t
advance_by_interval_months d i b h hb =
    let (m, e, lo, hi) = advance_one d i b h in
    let t : Date = advance_by_interval d i b in
    let bounds = days_in_month_bounds t.year t.month in
    (
      m,
      e,
      record { month_low = lo; month_high = hi; day_low = omega arith; day_high = omega arith },
    )

months_pos : (i : RecurrenceInterval) → 1 ≤ months_per_interval i
months_pos RecurrenceInterval.monthly = omega arith
months_pos RecurrenceInterval.quarterly = omega arith
months_pos RecurrenceInterval.yearly = omega arith

later_month :
    (d e : Date)
    → 1 ≤ d.month
    → d.month ≤ 12
    → 1 ≤ e.month
    → e.month ≤ 12
    → d.year * 12 + d.month < e.year * 12 + e.month
    → date_ltb d e ≡ true
later_month d e dl dh el eh h = ground arith

-- Advancing a calendar date by a period gives a later date.
advance_by_interval_later :
    (d : Date) (i : RecurrenceInterval) (b : ℕ)
    → IsCalendar d
    → date_ltb d (advance_by_interval d i b) ≡ true
advance_by_interval_later d i b h =
    let (m, e, lo, hi) = advance_one d i b h in
    later_month d (advance_by_interval d i b) h.month_low h.month_high lo hi
      (omega (arith, months_pos i))

next_day_later : (d : Date) → IsCalendar d → date_ltb d (next_day d) ≡ true
unfolding next_day
next_day_later d h = ground arith

date_ltb_trans : (a b c : Date) → date_ltb a b ≡ true → date_ltb b c ≡ true → date_ltb a c ≡ true
date_ltb_trans a b c h k = ground arith

date_ltb_asym : (a b : Date) → date_ltb a b ≡ true → date_ltb b a ≡ false
date_ltb_asym a b h = ground arith

add_days_later : (d : Date) (n : ℕ) → IsCalendar d → date_ltb d (add_days d (suc n)) ≡ true
unfolding add_days
add_days_later d zero h = next_day_later d h
add_days_later d (suc n) h =
    date_ltb_trans d (next_day d) (add_days (next_day d) (suc n)) (next_day_later d h)
      (add_days_later (next_day d) n (next_day-IsCalendar d h))

-- Payment terms of any number of days never put the due date before the date of issue, and give a
-- calendar date.
add_days_not_before :
    (d : Date) (n : ℕ)
    → IsCalendar d
    → (date_ltb (add_days d n) d ≡ false) × IsCalendar (add_days d n)
unfolding add_days
add_days_not_before d zero h = (ground arith, h)
add_days_not_before d (suc n) h =
    (date_ltb_asym d (add_days d (suc n)) (add_days_later d n h), add_days-IsCalendar d (suc n) h)
