-- ===== src/Billing/Consumers/Laws.antt =====
-- What becomes of a message in services/billing/src/payments/consumer.ts and deliveries/consumer.ts.
use faktureringssystemet.Prelude.{ℕ, zero, suc, ◌≡◌, ◌<◌, Bool, true, false}
use faktureringssystemet.Shared.Errors.{Error, Result, ok, err}
use faktureringssystemet.Shared.Tx.{Tx, begin}
use faktureringssystemet.Billing.Consumers.{
  Reading, valid, invalid, Verdict, acked, dead_lettered, left, max_attempts, deliver,
}

module _ {A O S : Type 0} (work : ℕ → A → Tx S O) (meanwhile : ℕ → S → S) (up : ℕ → Bool) where
  -- What the others have made of the database by the delivery after n attempts.
  abbrev pub others : ℕ → S → S
  others zero s = s
  others (suc n) s = meanwhile (suc n) (others n s)

  -- What the delivery after n attempts does with a message that is not found invalid.
  abbrev pub attempt : ℕ → Reading A → S → Result (O × S)
  attempt n (valid a) s = work n a s
  attempt n _ s = err Error.plain_error

  abbrev pub Fails : ℕ → Reading A → S → Type 0
  Fails n message s = (e : Error) × (attempt n message (others n s) ≡ err e)

  -- The first n deliveries failed, and the broker took a copy after each.
  abbrev pub FailsBefore : ℕ → Reading A → S → Type 0
  FailsBefore zero message s = Unit
  FailsBefore (suc n) message s = FailsBefore n message s × Fails n message s × (up n ≡ true)

  -- How a message may end, and the database then.
  pub data IsSettled (s : S) : Reading A → Verdict → S → Type 0 where
    ignored : IsSettled s invalid acked s
    -- Exactly one delivery did the work, and the ones before it nothing.
    worked :
        {message : Reading A} (n : ℕ) (o : O) (s' : S)
        → n < max_attempts
        → FailsBefore n message s
        → attempt n message (others n s) ≡ ok (o, s')
        → IsSettled s message acked s'
    -- No delivery did anything.
    given_up :
        {message : Reading A}
        → FailsBefore 2 message s
        → Fails 2 message s
        → IsSettled s message dead_lettered (others 2 s)
    -- The broker did not take a copy and keeps the message.
    kept :
        {message : Reading A} (n : ℕ)
        → n < 2
        → FailsBefore n message s
        → Fails n message s
        → up n ≡ false
        → IsSettled s message left (others n s)

  abbrev pub run : ℕ → A → S → Result O × S
  run n a = begin (work n a)

  abbrev pub delivered : Reading A → S → Verdict × S
  delivered message s = deliver run meanwhile max_attempts up 0 message s
