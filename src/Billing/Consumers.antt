-- ===== src/Billing/Consumers.antt =====
-- services/billing/src/payments/consumer.ts and deliveries/consumer.ts: what becomes of a message. The two
-- handlers differ only in the event that they read and in what they do with it.
pub mod Laws
use faktureringssystemet.Prelude.{ℕ, zero, suc, Bool, true, false, leb, if◌then◌else◌}
use faktureringssystemet.Shared.Errors.{Error, Result, ok, err}
use faktureringssystemet.Shared.Tx.{begin}
use faktureringssystemet.Billing.Store.{Db}
use faktureringssystemet.Billing.Payments.{PaymentApplyUpdate, PaymentApplyOutcome}
use faktureringssystemet.Billing.Payments as Payments
use faktureringssystemet.Billing.Deliveries.{DeliveryUpdate, DeliveryOutcome}
use faktureringssystemet.Billing.Deliveries as Deliveries

-- MAX_ATTEMPTS
abbrev pub max_attempts : ℕ
max_attempts = 3

-- What parsing and validation make of a message. A text that is no JSON is not told apart from a fault that
-- may pass.
pub data Reading (A : Type 0) : Type 0 where
  valid : A → Reading A
  invalid unreadable : Reading A

-- `left` is neither acknowledged nor refused, so that the broker delivers it again by itself.
pub data Verdict : Type 0 where
  acked dead_lettered left : Verdict
  republished : ℕ → Verdict

abbrev pub is_final : Verdict → Bool
is_final (republished n) = false
is_final _ = true

module _ {A O S : Type 0} (run : A → S → Result O × S) where
  -- The handler of an error that is not one of validation; `up` is whether the broker takes the copy.
  abbrev pub retry : Bool → ℕ → Verdict
  retry up attempts =
      if leb max_attempts (suc attempts)
      then dead_lettered
      else if up
      then republished (suc attempts)
      else left

  abbrev pub after_run : Bool → ℕ → Result O × S → Verdict × S
  after_run up attempts (ok o, s) = (acked, s)
  after_run up attempts (err e, s) = (retry up attempts, s)

  -- `onMessage`, with the number of attempts that the message's header gives.
  unfoldable pub on_message : Bool → ℕ → Reading A → S → Verdict × S
  on_message up attempts (valid a) s = after_run up attempts (run a s)
  on_message up attempts invalid s = (acked, s)
  on_message up attempts unreadable s = (retry up attempts, s)

  abbrev pub with_copy : (ℕ → S → Verdict × S) → Verdict × S → Verdict × S
  with_copy again (republished n, s) = again n s
  with_copy again (acked, s) = (acked, s)
  with_copy again (dead_lettered, s) = (dead_lettered, s)
  with_copy again (left, s) = (left, s)

-- A message and its copies, as often as they are delivered. `run n` is the work of the delivery after n attempts,
-- which may meet a fault that another does not; `meanwhile n` is what other transactions do before that delivery, and
-- `up n` whether the broker takes a copy after it.
module _ {A O S : Type 0} (run : ℕ → A → S → Result O × S) (meanwhile : ℕ → S → S) where
  unfoldable pub deliver : ℕ → (ℕ → Bool) → ℕ → Reading A → S → Verdict × S
  deliver zero up attempts message s = (republished attempts, s)
  deliver (suc fuel) up attempts message s =
      with_copy (run attempts) (λ n s'. deliver fuel up n message (meanwhile n s'))
        (on_message (run attempts) (up attempts) attempts message s)

unfoldable pub payment_message : Bool → ℕ → Reading PaymentApplyUpdate → Db → Verdict × Db
payment_message = on_message (λ u. begin (Payments.apply u))

unfoldable pub delivery_message : Bool → ℕ → Reading DeliveryUpdate → Db → Verdict × Db
delivery_message = on_message (λ u. begin (Deliveries.apply u))
